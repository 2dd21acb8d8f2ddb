-- ===== src/Payments/FeeParts.antt =====
-- The parts of a platform fee (`paymentFeeCalculate`), one by one and together.
use multi_rail_payments_proc.Prelude.{ℕ, ◌≡◌, false, Option, none, some, List, [], ◌∷◌, arith}
use multi_rail_payments_proc.Prelude.Int.{
  ℤ, pos, ◌+ℤ◌, ◌-ℤ◌, ◌≤ℤ◌, leb_ℤ, int_laws, +ℤ_parts, zero-+ℤ,
}
use multi_rail_payments_proc.Payments.Model.{PaymentIntent, PaymentAmountAccumulator}
use multi_rail_payments_proc.Payments.Fee.{FeeArith, payment_fee_calculate}
use multi_rail_payments_proc.Payments.Match.{total_fee}

module _ (dec : FeeArith) (payment : PaymentIntent) (fee : ℤ) (u : ℕ) where
  open dec use {div, share, share_zero}

  -- The share of an amount in the fee.
  abbrev part : ℤ → ℤ
  part x = share x (div fee payment.amount) u

  -- The fee of a payment with a fee and an amount, without the guards.
  calculate-last :
      (x acc : ℤ)
      → payment.platform_fee ≡ some fee
      → pos 1 ≤ℤ fee
      → pos 1 ≤ℤ payment.amount
      → payment.amount ≤ℤ acc +ℤ x
      → payment_fee_calculate dec payment x acc u ≡ fee -ℤ part acc
  unfolding payment_fee_calculate
  calculate-last x acc h f a full = ground (arith, h)

  calculate-part :
      (x acc : ℤ)
      → payment.platform_fee ≡ some fee
      → pos 1 ≤ℤ fee
      → pos 1 ≤ℤ payment.amount
      → leb_ℤ payment.amount (acc +ℤ x) ≡ false
      → payment_fee_calculate dec payment x acc u ≡ part x
  unfolding payment_fee_calculate
  calculate-part x acc h f a less = ground (arith, h)

  split_sum : (s : ℤ) → s +ℤ (fee -ℤ s) ≡ fee
  split_sum s = omega int_laws

  abbrev parts :
      PaymentAmountAccumulator → Option PaymentAmountAccumulator → List PaymentAmountAccumulator
  parts i none = i ∷ []
  parts i (some j) = i ∷ j ∷ []

  -- The last part makes the payment full, and the one before it does not.
  abbrev LastFills : PaymentAmountAccumulator → Option PaymentAmountAccumulator → Type 0
  LastFills i none = payment.amount ≤ℤ i.amount
  LastFills i (some j) =
      (i.amount +ℤ pos 1 ≤ℤ payment.amount) × (payment.amount ≤ℤ i.amount +ℤ j.amount)

  -- For a payment with a positive fee and amount that came in one part or in two, the last of which
  -- makes it full, `totalFee` computes from the accumulated parts the whole fee, whatever is rounded
  -- on the first.
  pub total_fee-whole :
      (i : PaymentAmountAccumulator) (second : Option PaymentAmountAccumulator)
      → payment.platform_fee ≡ some fee
      → pos 1 ≤ℤ fee
      → pos 1 ≤ℤ payment.amount
      → LastFills i second
      → total_fee dec payment u (parts i second) (pos 0) (pos 0) ≡ fee
  unfolding total_fee
  total_fee-whole i none h f a full =
      rw
        (
          calculate-last i.amount (pos 0) h f a (omega int_laws),
          share_zero (div fee payment.amount) u,
        )
        (omega int_laws)
  total_fee-whole i (some j) h f a full =
      rw
        (
          zero-+ℤ i.amount,
          calculate-part i.amount (pos 0) h f a
              (ground (arith, +ℤ_parts (pos 0) i.amount, +ℤ_parts i.amount (pos 1), full.0)),
          calculate-last j.amount i.amount h f a full.1,
        )
        (rw (zero-+ℤ (part i.amount)) (split_sum (part i.amount)))
