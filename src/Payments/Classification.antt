-- ===== src/Payments/Classification.antt =====
-- Which converter takes a transfer of a payment: the conditions of the three match functions
-- (Payments/Convert/Classify.antt) compared, for a payment without a platform fee.
use multi_rail_payments_proc.Prelude.{
  ℕ, ◌≡◌, refl, ap, ◌∙◌, Bool, true, false, Option, none, some, List, [], ◌∷◌, arith,
}
use multi_rail_payments_proc.Prelude.Int.{ℤ, pos, ◌+ℤ◌, ◌-ℤ◌, int_laws, +ℤ-zero}
use multi_rail_payments_proc.Payments.Model.{
  PaymentIntent, Transfer, PaymentTransactionContext, PaymentAmountAccumulator,
}
use multi_rail_payments_proc.Payments.Fee.{FeeArith, FeePaymentResult, payment_fee_calculate}
use multi_rail_payments_proc.Payments.Match.{
  amounts_for, gross_amount, total_fee, transferred_without_fee,
}
use multi_rail_payments_proc.Payments.Convert.Classify.{Match}

abbrev pub is_some {ℓ} : {A : Type ℓ} → Option A → Bool
is_some none = false
is_some (some x) = true

abbrev pub map_overpay : Option Match → Option ℤ
map_overpay none = none
map_overpay (some m) = some m.overpay

module _ (dec : FeeArith) where
  -- The result of the fee operation where nothing is charged.
  abbrev uncharged : ℤ → FeePaymentResult
  uncharged x = record {
    amount = x;
    payer_fee_amount = pos 0;
    client_fee_amount = pos 0;
    changes = [];
  }

  calculate-free :
      (payment : PaymentIntent) (x acc : ℤ) (u : ℕ)
      → payment.platform_fee ≡ none
      → payment_fee_calculate dec payment x acc u ≡ pos 0
  unfolding payment_fee_calculate
  calculate-free payment x acc u h = ground (arith, h)

  total_fee-free :
      (payment : PaymentIntent) (u : ℕ) (is : List PaymentAmountAccumulator) (acc fees : ℤ)
      → payment.platform_fee ≡ none
      → total_fee dec payment u is acc fees ≡ fees
  unfolding total_fee
  total_fee-free payment u [] acc fees h = refl
  total_fee-free payment u (i ∷ is) acc fees h =
      total_fee-free payment u is (acc +ℤ i.amount)
        (fees +ℤ payment_fee_calculate dec payment i.amount acc u) h
      ∙ (ap (λ z. fees +ℤ z) (calculate-free payment i.amount acc u h) ∙ +ℤ-zero fees)

  pub transferred-free :
      (payment : PaymentIntent) (is : List PaymentAmountAccumulator) (u : ℕ)
      → payment.platform_fee ≡ none
      → transferred_without_fee dec payment is u ≡ gross_amount is (pos 0)
  unfolding transferred_without_fee
  transferred-free payment is u h =
      ap (λ f. gross_amount is (pos 0) -ℤ f) (total_fee-free payment u is (pos 0) (pos 0) h)
      ∙ omega int_laws

  module _ (ctx : PaymentTransactionContext) (payment : PaymentIntent) (transfer : Transfer) where
    -- What came for the payment so far.
    abbrev pub came : ℤ
    came = gross_amount (amounts_for ctx payment) (pos 0)
