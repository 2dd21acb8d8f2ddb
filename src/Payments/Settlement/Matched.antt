-- ===== src/Payments/Settlement/Matched.antt =====
-- The platform fee on the payee's account, and what a matched transfer leaves there with it.
use multi_rail_payments_proc.Prelude.{
  ℕ, ◌≡◌, ◌≢◌, refl, ap, ◌∙◌, Bool, false, none, some, List, [], ◌∷◌, ◌⊎◌, inl, inr, nat_beq,
  if◌then◌else◌, arith, Option-cases, Bool-cases,
}
use multi_rail_payments_proc.Prelude.Int.{ℤ, pos, negated, ◌+ℤ◌, ◌-ℤ◌, int_laws, leb_ℤ, zero-+ℤ}
use multi_rail_payments_proc.Types.{ExecutionType, native, internal}
use multi_rail_payments_proc.Ledger.Amounts.{
  Amounts, add_amounts, compute_delta, none-add_amounts, add_amounts-none,
}
use multi_rail_payments_proc.Payments.Model.{
  PaymentIntent, Transaction, Transfer, PaymentTransactionContext, SourceIntegrationAccount,
}
use multi_rail_payments_proc.Payments.Fee.{
  FeeArith, fee_changes, fee_payment, charge_fee, payment_fee_calculate, FeePaymentResult,
}
use multi_rail_payments_proc.Payments.Convert.{exact_changes}
use multi_rail_payments_proc.Payments.Convert.Classify.{Match, fee_of, exact_match}
use multi_rail_payments_proc.Payments.Settlement.{sum_for, nat_self, both, exact_changes-settled}

nat_other : (a b : ℕ) → a ≢ b → nat_beq a b ≡ false
nat_other a b h = ground arith

ExecutionType-cases : (e : ExecutionType) → (e ≡ internal) ⊎ (e ≡ native)
ExecutionType-cases internal = inl refl
ExecutionType-cases native = inr refl

-- The fee of a payment whose fee goes to another platform account.
fee_changes-sum :
    (payment : PaymentIntent) (fee_account : SourceIntegrationAccount) (tx : Transaction)
    (ids : List ℕ) (x : ℤ)
    → fee_account.platform_account_id ≢ payment.to.platform_account_id
    → sum_for payment.to.platform_account_id (fee_changes payment fee_account tx ids x)
      ≡ record { available = negated x; hold = pos 0; hold_in = pos 0 }
unfolding fee_changes compute_delta sum_for
fee_changes-sum payment fee_account tx ids x apart =
    let payee = payment.to.platform_account_id in
    let debited : Amounts = record { available = negated x; hold = pos 0; hold_in = pos 0 } in
    let other = nat_other fee_account.platform_account_id payee apart in
    elim (ExecutionType-cases tx.execution_type) [
      | inl h ↦ rw h (ground (arith, other, nat_self payee, add_amounts-none debited))
      | inr h ↦ rw h (ground (arith, nat_self payee, add_amounts-none debited))
    ]

-- The fee of the payment, if any, goes to another platform account than the payee's.
abbrev pub Apart : PaymentIntent → Type 0
Apart payment =
    (fee_account : SourceIntegrationAccount)
    → payment.platform_fee_account ≡ some fee_account
    → fee_account.platform_account_id ≢ payment.to.platform_account_id

abbrev pub credited : ℤ → Amounts
credited x = record { available = x; hold = pos 0; hold_in = pos 0 }

take_fee : (x f : ℤ) → negated f +ℤ x ≡ x -ℤ f
take_fee x f = omega int_laws

less_fee :
    (x f : ℤ)
    → add_amounts
        (record { available = negated f; hold = pos 0; hold_in = pos 0 })
        (record { available = x; hold = pos 0; hold_in = pos 0 })
      ≡ record { available = x -ℤ f; hold = pos 0; hold_in = pos 0 }
unfolding add_amounts
less_fee x f = λ i. record {
  available = take_fee x f i;
  hold = zero-+ℤ (pos 0) i;
  hold_in = zero-+ℤ (pos 0) i;
}

module _ (dec : FeeArith) (payment : PaymentIntent) (tx : Transaction) (ids : List ℕ) (x acc : ℤ)
    (u : ℕ) where
  abbrev result : FeePaymentResult
  result = fee_payment dec payment tx ids x acc u

  -- Nothing is charged, or the calculated part of the fee goes to the fee account.
  fee_payment-cases :
      ((result.amount ≡ x) × (result.changes ≡ []))
      ⊎ ((fee_account : SourceIntegrationAccount) × (payment.platform_fee_account
            ≡ some fee_account)
          × (result.amount ≡ x -ℤ payment_fee_calculate dec payment x acc u)
          × (result.changes
              ≡ fee_changes payment fee_account tx ids (payment_fee_calculate dec payment x acc u)))
  unfolding fee_payment charge_fee
  fee_payment-cases = elim (Option-cases payment.platform_fee) [
    | inl h ↦ inl (ground (arith, h), ground (arith, h))
    | inr (fee, hf) ↦ elim (Bool-cases (leb_ℤ fee (pos 0))) [
      | inl b ↦ inl (ground (arith, hf, b), ground (arith, hf, b))
      | inr b ↦ elim (Option-cases payment.platform_fee_payer) [
        | inl h ↦ inl (ground (arith, hf, b, h), ground (arith, hf, b, h))
        | inr (who, hw) ↦ elim (Option-cases payment.platform_fee_account) [
          | inl h ↦ inl (ground (arith, hf, b, hw, h), ground (arith, hf, b, hw, h))
          | inr (fee_account, ha) ↦
              inr (fee_account, ha, ground (arith, hf, b, hw, ha), ground (arith, hf, b, hw, ha))
        ]
      ]
    ]
  ]

  -- What the fee operation leaves of the amount, after the payee's part of its changes.
  fee_payment-sum :
      Apart payment
      → add_amounts
          (sum_for payment.to.platform_account_id result.changes)
          (record { available = x; hold = pos 0; hold_in = pos 0 })
        ≡ record { available = result.amount; hold = pos 0; hold_in = pos 0 }
  unfolding sum_for
  fee_payment-sum apart = elim fee_payment-cases [
    | inl (a, c) ↦ rw (a, c) (none-add_amounts _)
    | inr (fee_account, ha, a, c) ↦
        let f = payment_fee_calculate dec payment x acc u in
        rw (a, c)
          (ap (λ s. add_amounts s (record { available = x; hold = pos 0; hold_in = pos 0 }))
              (fee_changes-sum payment fee_account tx ids f (apart fee_account ha))
            ∙ less_fee x f)
  ]

-- A conditional match is the match.
if_some : {A : Type 0} (b : Bool) (a m : A) → (if b then some a else none) ≡ some m → a ≡ m
if_some b a m h = ground arith

module _ (dec : FeeArith) (ctx : PaymentTransactionContext) (payment : PaymentIntent)
    (transfer : Transfer) (net gross : ℤ) where
  abbrev matched : ℤ → Match
  matched expected = record {
    payment = payment;
    transfer = transfer;
    fee_changes = (fee_of dec ctx payment transfer net gross).changes;
    amount = transfer.amount;
    expected_amount = expected;
    overpay = pos 0;
  }

  abbrev pub left : Amounts
  left = record {
    available = (fee_of dec ctx payment transfer net gross).amount;
    hold = pos 0;
    hold_in = pos 0;
  }

  sums :
      Apart payment
      → add_amounts
          (sum_for payment.to.platform_account_id
            (fee_of dec ctx payment transfer net gross).changes)
          (credited transfer.amount)
        ≡ left
  sums apart =
      fee_payment-sum dec payment ctx.transaction (transfer.id ∷ []) transfer.amount net
        (ctx.minor_unit payment.currency) apart

  -- Over both conversions of a transfer that the exact converter took, the payee's account, which is
  -- not the one that takes the fee, has available what the fee operation leaves of the transfer's
  -- amount, and nothing on hold or incoming.
  pub exact_match-settled :
      (tx : Transaction) (m : Match)
      → Apart payment
      → exact_match dec ctx payment transfer net gross ≡ some m
      → both exact_changes tx m ≡ left
  unfolding exact_match
  exact_match-settled tx m apart h =
      rw⁻¹ (if_some _ _ m h) (exact_changes-settled tx (matched transfer.amount) ∙ sums apart)
