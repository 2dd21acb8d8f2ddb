-- ===== src/Payments/Match.antt =====
-- Pairing transfers with payments:
-- apps/core/src/module/payment-intent/transaction-converter/converter/basic-payment-converter.ts.
use multi_rail_payments_proc.Prelude.{
  ℕ, Bool, true, false, not, ◌&&◌, ◌||◌, Option, none, some, List, [], ◌∷◌, leb, nat_beq, any,
  nat_eq, if◌then◌else◌,
}
use multi_rail_payments_proc.Prelude.Int.{ℤ, pos, ◌+ℤ◌, ◌-ℤ◌}
use multi_rail_payments_proc.Prelude.JsMap.{get}
use multi_rail_payments_proc.Prelude.Sort.{sort_by}
use multi_rail_payments_proc.Payments.Model.{
  PaymentIntent, Transfer, PaymentAmountAccumulator, PaymentTransactionContext,
}
use multi_rail_payments_proc.Payments.Fee.{FeeArith, payment_fee_calculate}

abbrev pub older : PaymentIntent → PaymentIntent → Bool
older a b = leb a.created_at b.created_at

abbrev pub lower_index : Transfer → Transfer → Bool
lower_index a b = leb a.index b.index

-- `params.amounts.get(payment.id) ?? []`
abbrev pub amounts_for : PaymentTransactionContext → PaymentIntent → List PaymentAmountAccumulator
amounts_for ctx payment = elim (get payment.id ctx.amounts) [ none ↦ [] | some l ↦ l ]

-- Payments that already had an amount from the sender of the transfer come first, then the older.
abbrev pub prioritized : PaymentTransactionContext → Transfer → PaymentIntent → PaymentIntent → Bool
prioritized ctx transfer a b =
    let a_has =
      any (λ (i : PaymentAmountAccumulator). nat_beq i.from transfer.from) (amounts_for ctx a) in
    let b_has =
      any (λ (i : PaymentAmountAccumulator). nat_beq i.from transfer.from) (amounts_for ctx b) in
    if a_has && not b_has then true else if not a_has && b_has then false else older a b

unfoldable pub gross_amount : List PaymentAmountAccumulator → ℤ → ℤ
gross_amount [] acc = acc
gross_amount (i ∷ is) acc = gross_amount is (acc +ℤ i.amount)

-- The tests that `continue` to the next payment.
unfoldable pub is_candidate : List ℕ → Transfer → PaymentIntent → Bool
is_candidate used_payments transfer payment =
    not (any (λ i. nat_beq i payment.id) used_payments)
    && (nat_beq transfer.currency payment.currency
        && (nat_beq transfer.to payment.to.account
            || nat_beq transfer.to payment.to.platform_account_id))

unfoldable pub unused_payments : List ℕ → List PaymentIntent → List PaymentIntent
unused_payments used [] = []
unused_payments used (p ∷ ps) =
    if any (λ i. nat_beq i p.id) used then unused_payments used ps else p ∷ unused_payments used ps

unfoldable pub unused_transfers : List ℕ → List Transfer → List Transfer
unused_transfers used [] = []
unused_transfers used (t ∷ ts) =
    if any (λ i. nat_beq i t.id) used
    then unused_transfers used ts
    else t ∷ unused_transfers used ts

module _ (dec : FeeArith) where
  -- The loop of `getTransferredAmountWithoutFee`: what came so far, and the fees on it.
  unfoldable pub total_fee :
      PaymentIntent → (minor_unit : ℕ) → List PaymentAmountAccumulator → ℤ → ℤ → ℤ
  total_fee payment minor_unit [] so_far fees = fees
  total_fee payment minor_unit (i ∷ is) so_far fees =
      total_fee payment minor_unit is (so_far +ℤ i.amount)
        (fees +ℤ payment_fee_calculate dec payment i.amount so_far minor_unit)

  unfoldable pub transferred_without_fee :
      PaymentIntent → List PaymentAmountAccumulator → (minor_unit : ℕ) → ℤ
  transferred_without_fee payment amounts minor_unit =
      gross_amount amounts (pos 0) -ℤ total_fee payment minor_unit amounts (pos 0) (pos 0)

  module _ {M : Type 0} (ctx : PaymentTransactionContext)
      (match_fn : PaymentIntent → Transfer → (net gross : ℤ) → Option M) where
    unfoldable pub try_payment : Transfer → PaymentIntent → Option M
    try_payment transfer payment =
        let amounts = amounts_for ctx payment in
        match_fn payment transfer
          (transferred_without_fee payment amounts (ctx.minor_unit payment.currency))
          (gross_amount amounts (pos 0))

    -- The first payment that matches the transfer, with its id.
    unfoldable pub find_match : List ℕ → Transfer → List PaymentIntent → Option (ℕ × M)
    find_match used_payments transfer [] = none
    find_match used_payments transfer (p ∷ ps) =
        let rest = find_match used_payments transfer ps in
        if is_candidate used_payments transfer p
        then elim (try_payment transfer p) [ none ↦ rest | some m ↦ some (p.id, m) ]
        else rest

    -- The loop over the transfers: the matches, and the ids that they use.
    unfoldable pub match_transfers :
        List PaymentIntent
        → List Transfer
        → (used_transfers used_payments : List ℕ) → List M × List ℕ × List ℕ
    match_transfers payments [] used_transfers used_payments = ([], used_transfers, used_payments)
    match_transfers payments (t ∷ ts) used_transfers used_payments =
        elim (if any (λ i. nat_beq i t.id) used_transfers
          then none
          else find_match used_payments t (sort_by (prioritized ctx t) payments)) [
            | none ↦ match_transfers payments ts used_transfers used_payments
            | some (id, m) ↦
                let (ms, ut, up) =
                  match_transfers payments ts (t.id ∷ used_transfers) (id ∷ used_payments) in
                (m ∷ ms, ut, up)
          ]

    -- The matches, and what is left of the payments and of the transfers.
    unfoldable pub match_pairs : List M × List PaymentIntent × List Transfer
    match_pairs =
        let (matches, used_t, used_p) =
          match_transfers (sort_by older ctx.payment_intents) (sort_by lower_index ctx.transfers) []
            [] in
        (matches, unused_payments used_p ctx.payment_intents, unused_transfers used_t ctx.transfers)
