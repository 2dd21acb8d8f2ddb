-- ===== src/Payouts/Released/Total.antt =====
-- The changes of a prepared and of a confirmed transaction together.
use multi_rail_payments_proc.Prelude.{
  ℕ, ◌≡◌, refl, ap, ◌∙◌, Bool, true, Option, none, some, List, [], ◌∷◌, ◌++◌, arith, All,
  Bool-cases, Option-cases, inl, inr,
}
use multi_rail_payments_proc.Prelude.Int.{ℤ, pos, ◌+ℤ◌, negated, int_laws}
use multi_rail_payments_proc.Types.{BalanceChange}
use multi_rail_payments_proc.Ledger.Amounts.{compute_delta}
use multi_rail_payments_proc.Payments.Model.{TransactionStatus}
use multi_rail_payments_proc.Payouts.Model.{
  PayoutIntent, PayoutTransaction, PayoutTransfer, AccountLink, PayoutFrom,
  PayoutTransactionContext, PayoutConverterResult,
}
use multi_rail_payments_proc.Payouts.Operations.{
  Slot, amount_slot, is_member, positive, amount_payout, platform_fee_payout, platform_fee_charge,
  integration_fee_payout, integration_fee_charge,
}
use multi_rail_payments_proc.Payouts.Holds.{
  payout_holds, hold_changes, has_side, platform_fee_hold, fee_hold, integration_fee_hold,
  initiator_holds, initiator_hold,
}
use multi_rail_payments_proc.Payouts.Convert.{
  PayoutMatch, confirm_match, confirm_matches, hold_match, hold_matches, match_payouts,
  named_payout, matched_with, unmatched, payout_converter, hold_converter,
}
use multi_rail_payments_proc.Payouts.Released.{
  held_on, held_on-append, at_slot, at_time, IsSettleable, amount_payout-held, fee_charge-held,
  integration_fee-held, interleave,
}

held_on-nil : (p : Slot → Bool) → held_on p [] ≡ pos 0
unfolding held_on
held_on-nil p = refl

regroup_all : (a b c d e : ℤ) → a +ℤ b +ℤ c +ℤ (negated a +ℤ d +ℤ e) ≡ b +ℤ d +ℤ (c +ℤ e)
regroup_all a b c d e = omega int_laws

cancel_all :
    (a b c d e : ℤ) → b +ℤ d ≡ pos 0 → c +ℤ e ≡ pos 0 → a +ℤ b +ℤ c +ℤ (negated a +ℤ d +ℤ e) ≡ pos 0
cancel_all a b c d e h k = regroup_all a b c d e ∙ rw (h, k) (omega int_laws)

module _ (p : Slot → Bool) (fee_diff : (estimated fee rate : ℤ) → ℤ) (tx : PayoutTransaction)
    (status : TransactionStatus) (executed_at : Option ℕ) where
  abbrev before : PayoutTransaction
  before = at_time status executed_at tx.fee tx.fee_currency tx

  fee_hold-before :
      (payout : PayoutIntent) (t : PayoutTransfer) (from : PayoutFrom) (fee : Option ℤ)
      → held_on p (fee_hold payout before t from fee) ≡ held_on p (fee_hold payout tx t from fee)
  unfolding fee_hold held_on compute_delta
  fee_hold-before payout t from none = refl
  fee_hold-before payout t from (some fee) =
      elim (Bool-cases (is_member payout from.platform_account_id)) [
        | inl member ↦ rw member refl
        | inr other ↦ rw other refl
      ]

  initiator_hold-before :
      (payout : PayoutIntent) (t : PayoutTransfer) (link : AccountLink) (fee : ℤ)
      → held_on p (initiator_hold payout before t link fee)
        ≡ held_on p (initiator_hold payout tx t link fee)
  unfolding initiator_hold held_on compute_delta
  initiator_hold-before payout t link fee =
      elim (Bool-cases (is_member payout (some link.platform_account_id))) [
        | inl member ↦ rw (member, initiator_hold) refl
        | inr other ↦ rw (other, initiator_hold) refl
      ]

  initiator_holds-before :
      (payout : PayoutIntent) (t : PayoutTransfer) (link : Option AccountLink) (fee : Option ℤ)
      → held_on p (initiator_holds fee_diff payout before t link fee)
        ≡ held_on p (initiator_holds fee_diff payout tx t link fee)
  unfolding initiator_holds held_on compute_delta
  initiator_holds-before payout t none none = refl
  initiator_holds-before payout t (some link) none = refl
  initiator_holds-before payout t none (some fee) = refl
  initiator_holds-before payout t (some link) (some fee) =
      rw (initiator_hold-before payout t link fee) refl

  hold_match-held :
      (m : PayoutMatch)
      → has_side m.from ≡ true
      → held_on p (hold_match fee_diff before m)
        ≡ at_slot p (amount_slot tx m.transfer m.from) m.transfer.transfer.amount
          +ℤ held_on p (fee_hold m.payout tx m.transfer m.from (positive m.payout.platform_fee))
          +ℤ held_on p
              (initiator_holds fee_diff m.payout tx m.transfer m.tx_initiator (positive tx.fee))
  unfolding payout_holds hold_changes platform_fee_hold integration_fee_hold held_on compute_delta
  hold_match-held m side =
      rw
        (
          side,
          held_on-append p _ (
              initiator_holds fee_diff m.payout before m.transfer m.tx_initiator (positive tx.fee)),
          fee_hold-before m.payout m.transfer m.from (positive m.payout.platform_fee),
          initiator_holds-before m.payout m.transfer m.tx_initiator (positive tx.fee),
        )
        refl

  -- Over both conversions of one transfer nothing stays held.
  match-released :
      (m : PayoutMatch) (changes : List BalanceChange)
      → IsSettleable tx m
      → confirm_match fee_diff tx m ≡ some changes
      → held_on p (hold_match fee_diff before m) +ℤ held_on p changes ≡ pos 0
  unfolding confirm_match integration_fee_payout platform_fee_payout
  match-released m changes ok e =
      elim (Option-cases (
        integration_fee_charge fee_diff m.payout tx m.transfer m.tx_initiator (positive tx.fee)
          m.payout.integration_fee)) [
            | inl missing ↦
                let nothing : none ≡ some changes = rw (ok.payee, confirm_match, missing) at e in
                ground (arith, nothing)
            | inr (fees, charged) ↦
                let amount = amount_payout m.payout tx m.transfer m.from in
                let fee =
                  platform_fee_charge m.payout tx m.transfer m.from m.payout.platform_fee
                    m.payout.platform_fee_account in
                let there : some ((amount ++ fee) ++ fees) ≡ some changes =
                  rw (ok.payee, confirm_match, charged) at e in
                let same : (amount ++ fee) ++ fees ≡ changes = ground (arith, there) in
                rw
                  (
                    ← same,
                    hold_match-held m ok.side,
                    held_on-append p (amount ++ fee) fees,
                    held_on-append p amount fee,
                    amount_payout-held p m.payout tx m.transfer m.from,
                  )
                  (cancel_all _ _ _ _ _
                    (fee_charge-held p m.payout tx m.transfer m.from m.payout.platform_fee
                      m.payout.platform_fee_account ok.fee)
                    (integration_fee-held p m.payout tx m.transfer fee_diff m.tx_initiator
                      (positive tx.fee) m.payout.integration_fee fees charged))
          ]

  matches-released :
      (ms : List PayoutMatch) (changes : List BalanceChange)
      → All (IsSettleable tx) ms
      → confirm_matches fee_diff tx ms ≡ some changes
      → held_on p (hold_matches fee_diff before ms) +ℤ held_on p changes ≡ pos 0
  unfolding confirm_matches hold_matches
  matches-released [] changes ok e =
      let same : [] ≡ changes = ground (arith, e) in rw (← same, held_on-nil p) (omega int_laws)
  matches-released (m ∷ ms) changes ok e = elim (Option-cases (confirm_match fee_diff tx m)) [
    | inl missing ↦
        let nothing : none ≡ some changes = rw (confirm_matches, missing) at e in
        ground (arith, nothing)
    | inr (first, confirmed) ↦ elim (Option-cases (confirm_matches fee_diff tx ms)) [
      | inl missing ↦
          let nothing : none ≡ some changes = rw (confirm_matches, confirmed, missing) at e in
          ground (arith, nothing)
      | inr (rest, others) ↦
          let there : some (first ++ rest) ≡ some changes =
            rw (confirm_matches, confirmed, others) at e in
          let same : first ++ rest ≡ changes = ground (arith, there) in
          rw
            (
              ← same,
              held_on-append p (hold_match fee_diff before m) (hold_matches fee_diff before ms),
              held_on-append p first rest,
              interleave (held_on p (hold_match fee_diff before m))
                  (held_on p (hold_matches fee_diff before ms)) (held_on p first) (held_on p rest),
              match-released m first ok.0 confirmed,
              matches-released ms rest ok.1 others,
            )
            (omega int_laws)
    ]
  ]

abbrev pub context_at :
    TransactionStatus
    → (executed_at : Option ℕ) (fee : Option ℤ) (fee_currency : ℕ) → PayoutTransactionContext
    → PayoutTransactionContext
context_at status executed_at fee fee_currency ctx = record ctx {
  transaction = at_time status executed_at fee fee_currency ctx.transaction;
}

match_payouts-before :
    (is_uuid : ℕ → Bool) (status : TransactionStatus) (executed_at : Option ℕ) (fee : Option ℤ)
    (fee_currency : ℕ) (ctx : PayoutTransactionContext) (ts : List PayoutTransfer)
    → match_payouts is_uuid (context_at status executed_at fee fee_currency ctx) ts
      ≡ match_payouts is_uuid ctx ts
unfolding match_payouts named_payout
match_payouts-before is_uuid status executed_at fee fee_currency ctx [] = refl
match_payouts-before is_uuid status executed_at fee fee_currency ctx (t ∷ ts) =
    ap
      (λ rest. elim (named_payout is_uuid ctx t) [
        | none ↦ rest
        | some payout ↦ matched_with is_uuid ctx t payout ∷ rest
      ])
      (match_payouts-before is_uuid status executed_at fee fee_currency ctx ts)

-- Where each matched payout has a side to pay from and is paid to its payee on the payee's
-- integration, and its platform fee, if any, comes with an account and is not negative, or is not
-- above zero, and where the fee of the transaction and its currency are the same at both times: what
-- the confirmed conversion of a transaction releases is what the conversion of it at another status
-- and time held, for any accounts, currencies and integrations.
pub payout_converter-released :
    (p : Slot → Bool) (fee_diff : (estimated fee rate : ℤ) → ℤ) (is_uuid : ℕ → Bool)
    (status : TransactionStatus) (executed_at : Option ℕ) (fee : Option ℤ) (fee_currency : ℕ)
    (ctx : PayoutTransactionContext) (result : PayoutConverterResult)
    → fee ≡ ctx.transaction.fee
    → fee_currency ≡ ctx.transaction.fee_currency
    → All (IsSettleable ctx.transaction) (match_payouts is_uuid ctx ctx.transfers)
    → payout_converter fee_diff is_uuid ctx ≡ some result
    → held_on p
          (hold_converter fee_diff is_uuid
            (context_at status executed_at fee fee_currency ctx)).changes
        +ℤ held_on p result.changes
      ≡ pos 0
unfolding payout_converter hold_converter
payout_converter-released p fee_diff is_uuid status executed_at fee fee_currency ctx result same_fee
      same_currency ok e =
    let matches = match_payouts is_uuid ctx ctx.transfers in
    elim (Option-cases (confirm_matches fee_diff ctx.transaction matches)) [
      | inl missing ↦
          let nothing : none ≡ some result = rw (payout_converter, missing) at e in
          ground (arith, nothing)
      | inr (changes, confirmed) ↦
          let there : some (record { context = unmatched is_uuid ctx matches; changes = changes })
              ≡ some result =
            rw (payout_converter, confirmed) at e in
          let same : record { context = unmatched is_uuid ctx matches; changes = changes }
              ≡ result =
            ground (arith, there) in
          rw
            (
              ← same,
              same_fee,
              same_currency,
              match_payouts-before is_uuid status executed_at ctx.transaction.fee
                  ctx.transaction.fee_currency ctx ctx.transfers,
            )
            (matches-released p fee_diff ctx.transaction status executed_at matches changes ok
              confirmed)
    ]
