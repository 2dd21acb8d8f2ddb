-- ===== src/Payments/Settlement.antt =====
-- What the changes of a matched transfer come to on the payee's platform account, over the two
-- times the transaction is converted: accepted, then confirmed.
pub mod Matched
use multi_rail_payments_proc.Prelude.{
  ℕ, ◌≡◌, ◌≢◌, refl, sym, ap, ◌∙◌, Bool, true, false, Option, none, some, List, [], ◌∷◌, ◌++◌, ◌⊎◌,
  inl, inr, nat_beq, nat_beq_iff, if◌then◌else◌, arith, Option-cases, Bool-cases,
}
use multi_rail_payments_proc.Prelude.Int.{ℤ, pos, negated, ◌+ℤ◌, ◌-ℤ◌, int_laws, leb_ℤ, zero-+ℤ}
use multi_rail_payments_proc.Types.{
  ExecutionType, BalanceChange, BalanceChangeReason, native, internal,
}
use multi_rail_payments_proc.Ledger.Amounts.{
  Amounts, no_amounts, add_amounts, compute_delta, add_amounts_assoc, none-add_amounts,
  add_amounts-none,
}
use multi_rail_payments_proc.Payments.Model.{
  PaymentIntent, Transaction, TransactionStatus, accepted, confirmed, Transfer,
  PaymentTransactionContext, SourceIntegrationAccount,
}
use multi_rail_payments_proc.Payments.Fee.{
  FeeArith, fee_changes, fee_payment, charge_fee, payment_fee_calculate, FeePaymentResult,
}
use multi_rail_payments_proc.Payments.Operations.{
  hold, release, create_params_by_payment, hold_in_payment, payment_operation, overpay_operation,
  underpay_operation,
}
use multi_rail_payments_proc.Payments.Convert.{
  hold_in_match, exact_changes, underpay_changes, overpay_changes,
}
use multi_rail_payments_proc.Payments.Convert.Classify.{Match}

-- A change of the projections of a platform account.
abbrev pub is_for : ℕ → BalanceChange → Bool
is_for account c = elim c.platform_account_id [ none ↦ false | some p ↦ nat_beq p account ]

-- What the changes of an account add up to.
unfoldable pub sum_for : ℕ → List BalanceChange → Amounts
sum_for account [] = no_amounts
sum_for account (c ∷ cs) =
    if is_for account c
    then add_amounts (compute_delta c) (sum_for account cs)
    else sum_for account cs

abbrev pub as_status : TransactionStatus → Transaction → Transaction
as_status status tx = record tx { status = status }

-- The payee's account in both conversions of one match.
abbrev pub both : (Transaction → Match → List BalanceChange) → Transaction → Match → Amounts
both changes tx m =
    sum_for m.payment.to.platform_account_id
      (changes (as_status accepted tx) m ++ changes (as_status confirmed tx) m)

+ℤ-negated : (x : ℤ) → x +ℤ negated x ≡ pos 0
+ℤ-negated x = omega int_laws

pub sum_for-append :
    (a : ℕ) (xs ys : List BalanceChange)
    → sum_for a (xs ++ ys) ≡ add_amounts (sum_for a xs) (sum_for a ys)
unfolding sum_for
sum_for-append a [] ys = sym (none-add_amounts (sum_for a ys))
sum_for-append a (c ∷ xs) ys = ground (
  arith,
  sum_for-append a xs ys,
  add_amounts_assoc (compute_delta c) (sum_for a xs) (sum_for a ys),
)

pub nat_self : (a : ℕ) → nat_beq a a ≡ true
nat_self a = (nat_beq_iff a a).1 refl

sum_for-own :
    (a : ℕ) (c : BalanceChange) (cs : List BalanceChange)
    → is_for a c ≡ true
    → sum_for a (c ∷ cs) ≡ add_amounts (compute_delta c) (sum_for a cs)
unfolding sum_for
sum_for-own a c cs h = ground (arith, h)

sum_for-other :
    (a : ℕ) (c : BalanceChange) (cs : List BalanceChange)
    → is_for a c ≡ false
    → sum_for a (c ∷ cs) ≡ sum_for a cs
unfolding sum_for
sum_for-other a c cs h = ground (arith, h)

sum_for-one : (a : ℕ) (c : BalanceChange) → is_for a c ≡ true → sum_for a (c ∷ []) ≡ compute_delta c
unfolding sum_for
sum_for-one a c h = sum_for-own a c [] h ∙ add_amounts-none (compute_delta c)

-- The incoming hold of a match, and its release.
hold_in-sum :
    (tx : Transaction) (r : BalanceChangeReason) (m : Match)
    → (sum_for m.payment.to.platform_account_id (hold_in_match (as_status accepted tx) r m)
        ≡ record { available = pos 0; hold = pos 0; hold_in = m.amount })
      × (sum_for m.payment.to.platform_account_id (hold_in_match (as_status confirmed tx) r m)
          ≡ record { available = pos 0; hold = pos 0; hold_in = negated m.amount })
unfolding hold_in_payment create_params_by_payment compute_delta
hold_in-sum tx r m =
    let own = nat_self m.payment.to.platform_account_id in
    (
      sum_for-one m.payment.to.platform_account_id _ own,
      sum_for-one m.payment.to.platform_account_id _ own,
    )

cancel :
    (x : ℤ)
    → add_amounts
        (record { available = pos 0; hold = pos 0; hold_in = x })
        (record { available = pos 0; hold = pos 0; hold_in = negated x })
      ≡ no_amounts
unfolding add_amounts
cancel x = λ i. record {
  available = zero-+ℤ (pos 0) i;
  hold = zero-+ℤ (pos 0) i;
  hold_in = +ℤ-negated x i;
}

credit_hold :
    (x : ℤ)
    → add_amounts
        (record { available = x; hold = pos 0; hold_in = pos 0 })
        (record { available = negated x; hold = x; hold_in = pos 0 })
      ≡ record { available = pos 0; hold = x; hold_in = pos 0 }
unfolding add_amounts
credit_hold x =
    λ i. record { available = +ℤ-negated x i; hold = zero-+ℤ x i; hold_in = zero-+ℤ (pos 0) i }

-- The hold and its release cancel, whatever comes with the release.
both-sum :
    (a : ℕ) (held released rest : List BalanceChange) (x : ℤ)
    → sum_for a held ≡ record { available = pos 0; hold = pos 0; hold_in = x }
    → sum_for a released ≡ record { available = pos 0; hold = pos 0; hold_in = negated x }
    → sum_for a (held ++ (released ++ rest)) ≡ sum_for a rest
both-sum a held released rest x h r =
    sum_for-append a held (released ++ rest)
    ∙ (ap (add_amounts (sum_for a held)) (sum_for-append a released rest)
        ∙ (sym (add_amounts_assoc (sum_for a held) (sum_for a released) (sum_for a rest))
            ∙ (ap (λ s. add_amounts s (sum_for a rest))
                  (ap (add_amounts (sum_for a held)) r
                    ∙ (ap
                          (λ s.
                            add_amounts s
                              (record { available = pos 0; hold = pos 0; hold_in = negated x }))
                          h
                        ∙ cancel x))
                ∙ none-add_amounts (sum_for a rest))))

credit-sum :
    (tx : Transaction) (m : Match) (ids : List ℕ) (x e : ℤ) (payout_id : Option ℕ)
    → (sum_for m.payment.to.platform_account_id (payment_operation m.payment x tx ids payout_id)
        ≡ record { available = x; hold = pos 0; hold_in = pos 0 })
      × (sum_for m.payment.to.platform_account_id
            (underpay_operation m.payment tx ids x e payout_id)
          ≡ record { available = x; hold = pos 0; hold_in = pos 0 })
unfolding payment_operation underpay_operation compute_delta
credit-sum tx m ids x e payout_id =
    let own = nat_self m.payment.to.platform_account_id in
    (
      sum_for-one m.payment.to.platform_account_id _ own,
      sum_for-one m.payment.to.platform_account_id _ own,
    )

overpay-sum :
    (tx : Transaction) (m : Match) (ids : List ℕ) (x e o : ℤ)
    → sum_for m.payment.to.platform_account_id (overpay_operation m.payment tx ids x e o)
      ≡ record { available = pos 0; hold = x; hold_in = pos 0 }
unfolding overpay_operation compute_delta
overpay-sum tx m ids x e o =
    let own = nat_self m.payment.to.platform_account_id in
    sum_for-own m.payment.to.platform_account_id _ _ own
    ∙ (ap (add_amounts _) (sum_for-one m.payment.to.platform_account_id _ own) ∙ credit_hold x)

pub exact_changes-settled :
    (tx : Transaction) (m : Match)
    → both exact_changes tx m
      ≡ add_amounts
          (sum_for m.payment.to.platform_account_id m.fee_changes)
          (record { available = m.amount; hold = pos 0; hold_in = pos 0 })
unfolding exact_changes
exact_changes-settled tx m =
    let payee = m.payment.to.platform_account_id in
    let (held, released) = hold_in-sum tx BalanceChangeReason.amount m in
    both-sum payee _ _ _ m.amount held released
    ∙ (sum_for-append payee m.fee_changes _
        ∙ ap (add_amounts (sum_for payee m.fee_changes)) (credit-sum _ m _ m.amount (pos 0) _).0)

pub underpay_changes-settled :
    (tx : Transaction) (m : Match)
    → both underpay_changes tx m
      ≡ add_amounts
          (sum_for m.payment.to.platform_account_id m.fee_changes)
          (record { available = m.transfer.amount; hold = pos 0; hold_in = pos 0 })
unfolding underpay_changes
underpay_changes-settled tx m =
    let payee = m.payment.to.platform_account_id in
    let (held, released) = hold_in-sum tx BalanceChangeReason.amount m in
    both-sum payee _ _ _ m.amount held released
    ∙ (sum_for-append payee m.fee_changes _
        ∙ ap (add_amounts (sum_for payee m.fee_changes))
            (credit-sum _ m _ m.transfer.amount m.expected_amount _).1)

-- Over both conversions of a transfer that the overpay converter took, the payee's account has the
-- whole amount on hold, and nothing more available or incoming.
pub overpay_changes-settled :
    (tx : Transaction) (m : Match)
    → both overpay_changes tx m ≡ record { available = pos 0; hold = m.amount; hold_in = pos 0 }
unfolding overpay_changes
overpay_changes-settled tx m =
    let (held, released) = hold_in-sum tx BalanceChangeReason.overpay m in
    both-sum m.payment.to.platform_account_id _ _ _ m.amount held released
    ∙ overpay-sum _ m _ m.amount m.expected_amount m.overpay
