-- ===== src/Payments/Pairing/Partition.antt =====
-- What a converter leaves to the next one (`PaymentPairMatchResult`), and the pairs of the three
-- converters of payments.
use mathlib.Core.Path.{fun_ext}
use multi_rail_payments_proc.Prelude.{
  ℕ, ◌≡◌, refl, ap, ◌∙◌, Bool, not, Option, List, [], ◌∷◌, All, arith,
}
use multi_rail_payments_proc.Prelude.Int.{ℤ}
use multi_rail_payments_proc.Payments.Model.{PaymentIntent, Transfer, PaymentTransactionContext}
use multi_rail_payments_proc.Payments.Fee.{FeeArith}
use multi_rail_payments_proc.Prelude.Sort.{sort_by, filter}
use multi_rail_payments_proc.Payments.Match.{
  match_transfers, match_pairs, older, lower_index, unused_payments, unused_transfers,
}
use multi_rail_payments_proc.Payments.Convert.Classify.{
  Match, exact_match, underpay_match, overpay_match,
}
use multi_rail_payments_proc.Payments.Pairing.{
  is_in, Distinct, Fits, Keeps, payment_ids, transfer_ids, match_transfers-Paired, Fresh-Distinct,
}

-- The elements whose ids are not in the list, in their order, and no other.
abbrev pub left_of : {A : Type 0} → (id : A → ℕ) → (used : List ℕ) → List A → List A
left_of id used all = filter (λ x. not (is_in (id x) used)) all

unused_transfers-left_of :
    (used : List ℕ) (ts : List Transfer)
    → unused_transfers used ts ≡ left_of (λ (t : Transfer). t.id) used ts
unfolding unused_transfers
unused_transfers-left_of used [] = refl
unused_transfers-left_of used (t ∷ ts) = ground (arith, unused_transfers-left_of used ts)

unused_payments-left_of :
    (used : List ℕ) (ps : List PaymentIntent)
    → unused_payments used ps ≡ left_of (λ (p : PaymentIntent). p.id) used ps
unfolding unused_payments
unused_payments-left_of used [] = refl
unused_payments-left_of used (p ∷ ps) = ground (arith, unused_payments-left_of used ps)

-- Two lists of ids with the same elements leave the same.
left_of-same :
    {A : Type 0} (id : A → ℕ) (used ids : List ℕ) (all : List A)
    → ((x : ℕ) → is_in x used ≡ is_in x ids)
    → left_of id used all ≡ left_of id ids all
left_of-same id used ids all same =
    ap (λ (g : ℕ → Bool). filter (λ x. not (g (id x))) all) (fun_ext same)

-- The pairs of a converter with what it leaves.
pub record IsPartition (ctx : PaymentTransactionContext) (ms : List Match) (ps : List PaymentIntent)
    (ts : List Transfer) : Type 0 where
  pub fits : All Fits ms
  pub payments : Distinct (payment_ids ms)
  pub transfers : Distinct (transfer_ids ms)
  pub left_p : ps ≡ left_of (λ (p : PaymentIntent). p.id) (payment_ids ms) ctx.payment_intents
  pub left_t : ts ≡ left_of (λ (t : Transfer). t.id) (transfer_ids ms) ctx.transfers

module _ (dec : FeeArith) (ctx : PaymentTransactionContext) where
  match_pairs-Keeps :
      (f : PaymentIntent → Transfer → ℤ → ℤ → Option Match)
      → Keeps f
      → (let r = match_pairs dec ctx f in IsPartition ctx r.0 r.1 r.2)
  unfolding match_pairs
  match_pairs-Keeps f keeps =
      let r =
        match_transfers dec ctx f (sort_by older ctx.payment_intents)
          (sort_by lower_index ctx.transfers) [] [] in
      let h =
        match_transfers-Paired dec ctx f keeps (sort_by older ctx.payment_intents)
          (sort_by lower_index ctx.transfers) [] [] in
      record {
        fits = h.fits;
        payments = Fresh-Distinct [] _ h.payments;
        transfers = Fresh-Distinct [] _ h.transfers;
        left_p =
            unused_payments-left_of r.2 ctx.payment_intents
            ∙ left_of-same _ r.2 (payment_ids r.0) ctx.payment_intents h.all_p;
        left_t =
            unused_transfers-left_of r.1 ctx.transfers
            ∙ left_of-same _ r.1 (transfer_ids r.0) ctx.transfers h.all_t;
      }

  exact_match-Keeps : Keeps (exact_match dec ctx)
  unfolding exact_match
  exact_match-Keeps p t net gross m h = ground (arith, h)

  underpay_match-Keeps : Keeps (underpay_match dec ctx)
  unfolding underpay_match
  underpay_match-Keeps p t net gross m h = ground (arith, h)

  overpay_match-Keeps : Keeps (overpay_match dec ctx)
  unfolding overpay_match
  overpay_match-Keeps p t net gross m h = ground (arith, h)

  -- The exact, the underpay and the overpay converter each pair transfers with payments of the same
  -- currency and account, use no payment and no transfer twice, and leave to the next converter just
  -- the payments and the transfers of the context that they did not pair, each as often as it is in
  -- the context and in its order.
  pub match_pairs-IsPartition :
      (let r = match_pairs dec ctx (exact_match dec ctx) in IsPartition ctx r.0 r.1 r.2)
      × (let r = match_pairs dec ctx (underpay_match dec ctx) in IsPartition ctx r.0 r.1 r.2)
      × (let r = match_pairs dec ctx (overpay_match dec ctx) in IsPartition ctx r.0 r.1 r.2)
  match_pairs-IsPartition = (
    match_pairs-Keeps (exact_match dec ctx) exact_match-Keeps,
    match_pairs-Keeps (underpay_match dec ctx) underpay_match-Keeps,
    match_pairs-Keeps (overpay_match dec ctx) overpay_match-Keeps,
  )
