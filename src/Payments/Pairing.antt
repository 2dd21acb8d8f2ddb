-- ===== src/Payments/Pairing.antt =====
-- The pairs that a converter makes (Payments/Match.antt): each fits, and no payment or transfer is
-- in two of them or left for the next converter.
pub mod Partition
use multi_rail_payments_proc.Prelude.{
  ℕ, ◌≡◌, refl, sym, ap, ◌∙◌, Bool, true, false, not, ◌&&◌, ◌||◌, ◌⊎◌, inl, inr, Option, none, some,
  List, [], ◌∷◌, map, any, All, nat_beq, nat_beq_iff, if◌then◌else◌, arith, Option-cases,
  Bool-cases,
}
use multi_rail_payments_proc.Prelude.Int.{ℤ}
use multi_rail_payments_proc.Payments.Model.{PaymentIntent, Transfer, PaymentTransactionContext}
use multi_rail_payments_proc.Payments.Fee.{FeeArith}
use multi_rail_payments_proc.Prelude.Sort.{sort_by}
use multi_rail_payments_proc.Payments.Match.{
  is_candidate, try_payment, find_match, match_transfers, match_pairs, older, prioritized,
  lower_index, unused_payments, unused_transfers,
}
use multi_rail_payments_proc.Payments.Convert.Classify.{Match}

abbrev pub is_in : ℕ → List ℕ → Bool
is_in x xs = any (λ i. nat_beq i x) xs

abbrev pub Distinct : List ℕ → Type 0
Distinct [] = Unit {0}
Distinct (x ∷ xs) = (is_in x xs ≡ false) × Distinct xs

abbrev pub payment_ids : List Match → List ℕ
payment_ids ms = map (λ (m : Match). m.payment.id) ms

abbrev pub transfer_ids : List Match → List ℕ
transfer_ids ms = map (λ (m : Match). m.transfer.id) ms

-- None of the ids is in the list of those before it.
abbrev pub Fresh : List ℕ → List ℕ → Type 0
Fresh used [] = Unit {0}
Fresh used (x ∷ xs) = (is_in x used ≡ false) × Fresh (x ∷ used) xs

-- The transfer is in the payment's currency and goes to one of its accounts.
abbrev pub Fits : Match → Type 0
Fits m =
    (m.transfer.currency ≡ m.payment.currency)
    × ((m.transfer.to ≡ m.payment.to.account) ⊎ (m.transfer.to ≡ m.payment.to.platform_account_id))

-- A match function returns matches of what it is given.
abbrev pub Keeps : (PaymentIntent → Transfer → ℤ → ℤ → Option Match) → Type 0
Keeps f =
    (p : PaymentIntent) (t : Transfer) (net gross : ℤ) (m : Match)
    → f p t net gross ≡ some m
    → (m.payment ≡ p) × (m.transfer ≡ t)

or_false : (a : Bool) → a ≡ (a || false)
or_false true = refl
or_false false = refl

-- `any` puts its first test in front.
or_swap :
    (a b c : Bool)
    → ((elim a [ true ↦ true | false ↦ b ]) || c) ≡ (b || (elim a [ true ↦ true | false ↦ c ]))
or_swap true true c = refl
or_swap true false c = refl
or_swap false b c = refl

is_candidate-fits :
    (used : List ℕ) (t : Transfer) (p : PaymentIntent)
    → is_candidate used t p ≡ true
    → (is_in p.id used ≡ false)
      × (t.currency ≡ p.currency)
      × ((t.to ≡ p.to.account) ⊎ (t.to ≡ p.to.platform_account_id))
unfolding is_candidate
is_candidate-fits used t p h = (ground (arith, h), ground (arith, h), ground (arith, h))

module _ (dec : FeeArith) (ctx : PaymentTransactionContext)
    (f : PaymentIntent → Transfer → ℤ → ℤ → Option Match) (keeps : Keeps f) where
  try_payment-Keeps :
      (t : Transfer) (p : PaymentIntent) (m : Match)
      → try_payment dec ctx f t p ≡ some m
      → (m.payment ≡ p) × (m.transfer ≡ t)
  unfolding try_payment
  try_payment-Keeps t p m h = keeps p t _ _ m h

  -- A match is of the transfer and of a payment that was not used.
  abbrev Found : List ℕ → Transfer → ℕ → Match → Type 0
  Found used t id m = (m.payment.id ≡ id) × (m.transfer ≡ t) × (is_in id used ≡ false) × Fits m

  made-Found :
      (used : List ℕ) (t : Transfer) (p : PaymentIntent) (m : Match)
      → is_candidate used t p ≡ true
      → try_payment dec ctx f t p ≡ some m
      → Found used t p.id m
  made-Found used t p m c h =
      let (same_p, same_t) = try_payment-Keeps t p m h in
      let (new, currency, to) = is_candidate-fits used t p c in
      rw (same_p, same_t) (refl, refl, new, (currency, to))

  find_match-Found :
      (used : List ℕ) (t : Transfer) (ps : List PaymentIntent) (id : ℕ) (m : Match)
      → find_match dec ctx f used t ps ≡ some (id, m)
      → Found used t id m
  unfolding find_match
  find_match-Found used t [] id m h = ground arith
  find_match-Found used t (p ∷ ps) id m h =
      let later = find_match-Found used t ps id m in
      elim (Bool-cases (is_candidate used t p)) [
        | inr c ↦ later (ground (arith, c, h))
        | inl c ↦ elim (Option-cases (try_payment dec ctx f t p)) [
          | inl e ↦ later (ground (arith, c, e, h))
          | inr (n, e) ↦
              let same_id : p.id ≡ id = ground (arith, c, e, h) in
              let same : n ≡ m = ground (arith, c, e, h) in
              rw⁻¹ (same_id, same) (made-Found used t p n c e)
        ]
      ]

  -- What the loop over the transfers adds to the lists of used ids.
  pub record Paired (used_t used_p : List ℕ) (ms : List Match) (ut up : List ℕ) : Type 0 where
    pub fits : All Fits ms
    pub transfers : Fresh used_t (transfer_ids ms)
    pub payments : Fresh used_p (payment_ids ms)
    pub all_t : (x : ℕ) → is_in x ut ≡ (is_in x used_t || is_in x (transfer_ids ms))
    pub all_p : (x : ℕ) → is_in x up ≡ (is_in x used_p || is_in x (payment_ids ms))

  Paired-step :
      (ut up : List ℕ) (t : Transfer) (id : ℕ) (m : Match) (ms : List Match) (ut' up' : List ℕ)
      → is_in t.id ut ≡ false
      → Found up t id m
      → Paired (t.id ∷ ut) (id ∷ up) ms ut' up'
      → Paired ut up (m ∷ ms) ut' up'
  Paired-step ut up t id m ms ut' up' new_t (same_id, same_t, new_p, fits) r = record {
    fits = (fits, r.fits);
    transfers = rw same_t (new_t, r.transfers);
    payments = rw same_id (new_p, r.payments);
    all_t = λ x. rw same_t (r.all_t x ∙ or_swap (nat_beq t.id x) (is_in x ut) _);
    all_p = λ x. rw same_id (r.all_p x ∙ or_swap (nat_beq id x) (is_in x up) _);
  }

  pub match_transfers-Paired :
      (ps : List PaymentIntent) (ts : List Transfer) (ut up : List ℕ)
      → (let r = match_transfers dec ctx f ps ts ut up in Paired ut up r.0 r.1 r.2)
  unfolding match_transfers
  match_transfers-Paired ps [] ut up = record {
    fits = tt;
    transfers = tt;
    payments = tt;
    all_t = λ x. or_false (is_in x ut);
    all_p = λ x. or_false (is_in x up);
  }
  match_transfers-Paired ps (t ∷ ts) ut up = elim (Bool-cases (is_in t.id ut)) [
    | inl b ↦ rw (b, match_transfers) (match_transfers-Paired ps ts ut up)
    | inr b ↦ elim (Option-cases (find_match dec ctx f up t (sort_by (prioritized ctx t) ps))) [
      | inl e ↦ rw (b, e, match_transfers) (match_transfers-Paired ps ts ut up)
      | inr ((id, m), e) ↦
          rw (b, e, match_transfers)
            (Paired-step ut up t id m _ _ _ b
              (find_match-Found up t (sort_by (prioritized ctx t) ps) id m e)
              (match_transfers-Paired ps ts (t.id ∷ ut) (id ∷ up)))
    ]
  ]

Fresh-apart : (used xs : List ℕ) (x : ℕ) → is_in x used ≡ true → Fresh used xs → is_in x xs ≡ false
Fresh-apart used [] x h fresh = refl
Fresh-apart used (y ∷ ys) x h fresh =
    ground (arith, h, fresh.0, nat_beq_iff y x, Fresh-apart (y ∷ used) ys x)

is_in-head : (x : ℕ) (xs : List ℕ) → is_in x (x ∷ xs) ≡ true
is_in-head x xs = ground (arith, nat_beq_iff x x)

pub Fresh-Distinct : (used xs : List ℕ) → Fresh used xs → Distinct xs
Fresh-Distinct used [] fresh = tt
Fresh-Distinct used (x ∷ xs) fresh =
    (Fresh-apart (x ∷ used) xs x (is_in-head x used) fresh.1, Fresh-Distinct (x ∷ used) xs fresh.1)
