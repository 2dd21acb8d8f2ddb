-- ===== src/Payouts/Released.antt =====
-- What is held when a payout is prepared is released when it is confirmed.
pub mod Total
use multi_rail_payments_proc.Prelude.{
  ℕ, ◌≡◌, refl, sym, ap, ◌∙◌, Bool, true, false, ◌&&◌, Option, none, some, List, [], ◌∷◌, ◌++◌,
  arith, All, nat_beq, if◌then◌else◌, Bool-cases, Option-cases, inl, inr,
}
use multi_rail_payments_proc.Prelude.Int.{ℤ, pos, ◌+ℤ◌, negated, leb_ℤ, int_laws}
use multi_rail_payments_proc.Types.{
  ExecutionType, BalanceChange, BalanceChangeType, BalanceChangeMetadata, BalanceChangeTxStatus,
}
use multi_rail_payments_proc.Ledger.Amounts.{compute_delta}
use multi_rail_payments_proc.Payments.Model.{TransactionStatus, SourceIntegrationAccount}
use multi_rail_payments_proc.Payouts.Model.{
  PayoutIntent, PayoutTransaction, PayoutTransfer, AccountLink, PayoutFrom,
}
use multi_rail_payments_proc.Payouts.Operations.{
  Slot, amount_slot, fee_slot, member_slot, initiator_slot, external_account, is_member, positive,
  amount_payout, platform_fee_payout, platform_fee_charge, integration_fee_charge,
  charge_platform_fee, integration_fee_payout, charge_integration_fee, initiator_changes,
  fee_metadata,
}
use multi_rail_payments_proc.Payouts.Holds.{
  payout_holds, hold_changes, has_side, platform_fee_hold, fee_hold, integration_fee_hold,
  initiator_holds, initiator_hold,
}
use multi_rail_payments_proc.Payouts.Convert.{
  PayoutMatch, pays_payee, confirm_match, confirm_matches, hold_match, hold_matches,
}

abbrev pub slot_of : BalanceChange → Slot
slot_of c = record {
  platform_account_id = c.platform_account_id;
  integration_account = c.integration_account;
  currency = c.currency;
  integration = c.integration;
}

-- What the changes add to the held amounts of the slots that `p` tells.
unfoldable pub held_on : (p : Slot → Bool) → List BalanceChange → ℤ
held_on p [] = pos 0
held_on p (c ∷ cs) = (if p (slot_of c) then (compute_delta c).hold else pos 0) +ℤ held_on p cs

-- The amount, if the slot is told.
abbrev at_slot : (p : Slot → Bool) → Slot → ℤ → ℤ
at_slot p s x = if p s then x else pos 0

held_on-append :
    (p : Slot → Bool) (cs ds : List BalanceChange)
    → held_on p (cs ++ ds) ≡ held_on p cs +ℤ held_on p ds
unfolding held_on
held_on-append p [] ds = omega int_laws
held_on-append p (c ∷ cs) ds = rw (held_on-append p cs ds) (omega int_laws)

-- The transaction at another time of its life: these are the columns that a save overwrites.
abbrev pub at_time :
    TransactionStatus
    → (executed_at : Option ℕ) (fee : Option ℤ) (fee_currency : ℕ) → PayoutTransaction
    → PayoutTransaction
at_time status executed_at fee fee_currency tx = record tx {
  tx = record tx.tx { status = status; executed_at = executed_at };
  fee = fee;
  fee_currency = fee_currency;
}

-- A fee above zero has an account, and none with an account is negative.
abbrev pub fee_allowed : Option ℤ → Option SourceIntegrationAccount → Bool
fee_allowed none account = true
fee_allowed (some fee) none = leb_ℤ fee (pos 0)
fee_allowed (some fee) (some account) = leb_ℤ (pos 0) fee

pub record IsSettleable (tx : PayoutTransaction) (m : PayoutMatch) : Type 0 where
  pub side : has_side m.from ≡ true
  pub payee : pays_payee tx m ≡ true
  pub fee : fee_allowed m.payout.platform_fee m.payout.platform_fee_account ≡ true

drop_none :
    (b c : Bool) (x : ℤ)
    → x +ℤ ((if b then pos 0 else pos 0) +ℤ ((if c then pos 0 else pos 0) +ℤ pos 0)) ≡ x
drop_none true true x = omega int_laws
drop_none true false x = omega int_laws
drop_none false true x = omega int_laws
drop_none false false x = omega int_laws

if-negated :
    (b : Bool) (x : ℤ) → (if b then negated x else pos 0) ≡ negated (if b then x else pos 0)
if-negated true x = refl
if-negated false x = omega int_laws

none-opposite : (b : Bool) → pos 0 +ℤ negated (if b then pos 0 else pos 0) ≡ pos 0
none-opposite true = omega int_laws
none-opposite false = omega int_laws

drop_front :
    (b c : Bool) (x y : ℤ)
    → x +ℤ ((if b then pos 0 else pos 0) +ℤ ((if c then pos 0 else pos 0) +ℤ y)) ≡ x +ℤ y
drop_front true true x y = omega int_laws
drop_front true false x y = omega int_laws
drop_front false true x y = omega int_laws
drop_front false false x y = omega int_laws

-- Two sums cancel where their heads and their tails do.
regroup : (a i j : ℤ) → a +ℤ i +ℤ (negated a +ℤ j) ≡ i +ℤ j
regroup a i j = omega int_laws

cancel : (a i j rest : ℤ) → rest ≡ negated a +ℤ j → i +ℤ j ≡ pos 0 → a +ℤ i +ℤ rest ≡ pos 0
cancel a i j rest e h = rw e (regroup a i j ∙ h)

interleave : (a b c d : ℤ) → a +ℤ b +ℤ (c +ℤ d) ≡ a +ℤ c +ℤ (b +ℤ d)
interleave a b c d = omega int_laws

is_member-same :
    (payout : PayoutIntent) (id : Option ℕ)
    → is_member payout id ≡ true
    → id ≡ some payout.member_account_id
is_member-same payout id h = ground (arith, h)

opposite : (x : ℤ) → x +ℤ pos 0 +ℤ negated x ≡ pos 0
opposite x = omega int_laws

module _ (p : Slot → Bool) (payout : PayoutIntent) (tx : PayoutTransaction)
    (t : PayoutTransfer) where
  amount_payout-held :
      (from : PayoutFrom)
      → held_on p (amount_payout payout tx t from)
        ≡ negated (at_slot p (amount_slot tx t from) t.transfer.amount)
  unfolding held_on amount_payout compute_delta
  amount_payout-held from = elim (Bool-cases (p (amount_slot tx t from))) [
    | inl yes_at ↦ rw yes_at (omega int_laws)
    | inr no_at ↦ rw no_at (omega int_laws)
  ]

  -- The hold of a fee that is due.
  charge-held :
      (from : PayoutFrom) (fee : ℤ) (account : SourceIntegrationAccount)
      → held_on p (charge_platform_fee payout tx t from fee account)
        ≡ negated (
            at_slot p
              (fee_slot payout from.platform_account_id
                (external_account tx from.integration_account))
              fee)
  unfolding held_on charge_platform_fee compute_delta
  charge-held from fee account =
      drop_none (p (fee_slot payout from.platform_account_id none))
        (p (fee_slot payout (some account.platform_account_id) none)) _
      ∙ if-negated
          (p (
            fee_slot payout from.platform_account_id
              (external_account tx from.integration_account)))
          fee

  fee_hold-held :
      (from : PayoutFrom) (fee : ℤ)
      → is_member payout from.platform_account_id ≡ true
      → held_on p (fee_hold payout tx t from (some fee))
        ≡ at_slot p
            (fee_slot payout from.platform_account_id
              (external_account tx from.integration_account))
            fee
          +ℤ pos 0
  unfolding held_on fee_hold compute_delta
  fee_hold-held from fee member =
      rw (member, is_member-same payout from.platform_account_id member) refl

  fee_charge-held :
      (from : PayoutFrom) (fee : Option ℤ) (account : Option SourceIntegrationAccount)
      → fee_allowed fee account ≡ true
      → held_on p (fee_hold payout tx t from (positive fee))
          +ℤ held_on p (platform_fee_charge payout tx t from fee account)
        ≡ pos 0
  unfolding held_on fee_hold platform_fee_charge
  fee_charge-held from none account fits = omega int_laws
  fee_charge-held from (some fee) none fits = rw fits (omega int_laws)
  fee_charge-held from (some fee) (some account) fits =
      elim (Bool-cases (is_member payout from.platform_account_id)) [
        | inl member ↦ elim (Bool-cases (leb_ℤ fee (pos 0))) [
          | inl low ↦
              let zero_fee : fee ≡ pos 0 = ground (arith, low, fits) in
              rw (low, member, charge-held from fee account, zero_fee) (none-opposite _)
          | inr high ↦
              rw (high, fee_hold-held from fee member, member, charge-held from fee account)
                (opposite _)
        ]
        | inr other ↦ elim (Bool-cases (leb_ℤ fee (pos 0))) [
          | inl low ↦ rw (low, other) (omega int_laws)
          | inr high ↦ rw (high, other) (omega int_laws)
        ]
      ]

  same_changes :
      (cs changes : List BalanceChange) (x : ℤ)
      → some cs ≡ some changes
      → x +ℤ held_on p cs ≡ pos 0
      → x +ℤ held_on p changes ≡ pos 0
  same_changes cs changes x e h = let same : cs ≡ changes = ground (arith, e) in rw (← same) h

  initiator-held :
      (link : AccountLink) (fee : ℤ) (metadata : BalanceChangeMetadata)
      → held_on p (initiator_hold payout tx t link fee)
          +ℤ held_on p (initiator_changes payout tx link fee metadata)
        ≡ pos 0
  unfolding held_on initiator_hold initiator_changes compute_delta
  initiator-held link fee metadata =
      elim (Bool-cases (is_member payout (some link.platform_account_id))) [
        | inl member ↦ rw (member, initiator_hold, initiator_changes) (omega int_laws)
        | inr other ↦ elim (Bool-cases (p (initiator_slot tx link))) [
          | inl told ↦ rw (other, initiator_hold, initiator_changes, told) (omega int_laws)
          | inr hidden ↦ rw (other, initiator_hold, initiator_changes, hidden) (omega int_laws)
        ]
      ]

  module _ (fee_diff : (estimated fee rate : ℤ) → ℤ) where
    integration_fee-held :
        (link : Option AccountLink) (fee integration_fee : Option ℤ) (changes : List BalanceChange)
        → integration_fee_charge fee_diff payout tx t link fee integration_fee ≡ some changes
        → held_on p (initiator_holds fee_diff payout tx t link fee) +ℤ held_on p changes ≡ pos 0
    unfolding held_on initiator_holds integration_fee_charge charge_integration_fee compute_delta
    integration_fee-held none none integration_fee changes e =
        same_changes [] changes (pos 0) e (omega int_laws)
    integration_fee-held (some link) none integration_fee changes e =
        same_changes [] changes (pos 0) e (omega int_laws)
    integration_fee-held none (some fee) integration_fee changes e =
        same_changes [] changes (pos 0) e (omega int_laws)
    integration_fee-held (some link) (some fee) none changes e = ground (arith, e)
    integration_fee-held (some link) (some fee) (some integration_fee) changes e =
        same_changes (charge_integration_fee fee_diff payout tx t link fee integration_fee) changes
          _ e
          (cancel
            (at_slot p (member_slot payout link payout.estimated_fee_currency) payout.estimated_fee)
            (held_on p (initiator_hold payout tx t link fee)) _ _
            (drop_front (p (member_slot payout link payout.integration_fee_currency)) _ _ _
              ∙ ap
                  (λ x.
                    x
                    +ℤ held_on p (
                        initiator_changes payout tx link fee (
                          fee_metadata fee_diff payout tx t BalanceChangeTxStatus.tx_confirmed
                            fee)))
                  (if-negated (p (member_slot payout link payout.estimated_fee_currency))
                    payout.estimated_fee))
            (initiator-held link fee
              (fee_metadata fee_diff payout tx t BalanceChangeTxStatus.tx_confirmed fee)))
