-- ===== src/Payments/Finalize/Statuses.antt =====
-- What finalization does to each payment, and the status of an exact payment.
use multi_rail_payments_proc.Prelude.{
  ℕ, ◌≡◌, refl, Bool, true, false, Option, none, some, List, [], ◌∷◌, map, any, arith, nat_beq,
  nat_beq_iff, or_else, if◌then◌else◌, Option-cases, Bool-cases, inl, inr, suc, ◌+◌, ◌≤◌, ◌≢◌, sym,
  ap,
}
use multi_rail_payments_proc.Prelude.Int.{
  ℤ, pos, pos_part, neg_part, ◌+ℤ◌, +ℤ-zero, beq_ℤ, beq_ℤ_iff, ltb_ℤ,
}
use multi_rail_payments_proc.Payments.Model.{
  PaymentIntent, PaymentIntentStatus, overpay, PaymentAmountAccumulator,
}
use multi_rail_payments_proc.Payments.Finalize.{
  PaymentDb, PaymentReceipt, plus_sum, sum_received, sum_receipts, find_amount, determine_status,
  status_of, payment_statuses, new_status, change_status_bulk, delete_by_payment_ids, finalize,
}

-- The status that an id of the list gets, if any.
abbrev pub settled : PaymentDb → List ℕ → ℕ → Option PaymentIntentStatus
settled db ids id = if any (λ i. nat_beq i id) ids then status_of db id else none

abbrev pub keep_waiting :
    PaymentDb → List ℕ → List PaymentAmountAccumulator → List PaymentAmountAccumulator
keep_waiting db ids [] = []
keep_waiting db ids (a ∷ amounts) = elim (settled db ids a.payment_id) [
  | none ↦ a ∷ keep_waiting db ids amounts
  | some s ↦ keep_waiting db ids amounts
]

new_status-settled :
    (db : PaymentDb) (ids : List ℕ) (p : PaymentIntent)
    → new_status (payment_statuses db ids) p ≡ or_else (settled db ids p.id) p.status
unfolding new_status payment_statuses
new_status-settled db [] p = refl
new_status-settled db (id ∷ ids) p = elim (Option-cases (status_of db id)) [
  | inl e ↦ ground (arith, e, nat_beq_iff id p.id, nat_beq_iff p.id id, new_status-settled db ids p)
  | inr (s, e) ↦
      ground (arith, e, nat_beq_iff id p.id, nat_beq_iff p.id id, new_status-settled db ids p)
]

change_status_bulk-settled :
    (db : PaymentDb) (ids : List ℕ) (ps : List PaymentIntent)
    → change_status_bulk (payment_statuses db ids) ps
      ≡ map (λ (p : PaymentIntent). record p { status = or_else (settled db ids p.id) p.status }) ps
unfolding change_status_bulk
change_status_bulk-settled db ids [] = refl
change_status_bulk-settled db ids (p ∷ ps) = λ i.
    record p { status = new_status-settled db ids p i } ∷ change_status_bulk-settled db ids ps i

has_status : Option PaymentIntentStatus → Bool
has_status none = false
has_status (some s) = true

any-settled :
    (db : PaymentDb) (ids : List ℕ) (id : ℕ)
    → any (λ (s : ℕ × PaymentIntentStatus). nat_beq s.0 id) (payment_statuses db ids)
      ≡ has_status (settled db ids id)
unfolding payment_statuses has_status
any-settled db [] id = refl
any-settled db (j ∷ ids) id = elim (Option-cases (status_of db j)) [
  | inl e ↦ ground (arith, e, nat_beq_iff j id, any-settled db ids id)
  | inr (s, e) ↦ ground (arith, e, nat_beq_iff j id, any-settled db ids id)
]

delete_by_payment_ids-settled :
    (db : PaymentDb) (ids : List ℕ) (amounts : List PaymentAmountAccumulator)
    → delete_by_payment_ids (payment_statuses db ids) amounts ≡ keep_waiting db ids amounts
unfolding delete_by_payment_ids has_status
delete_by_payment_ids-settled db ids [] = refl
delete_by_payment_ids-settled db ids (a ∷ amounts) =
    elim (Option-cases (settled db ids a.payment_id)) [
      | inl e ↦
          ground (
            arith,
            e,
            any-settled db ids a.payment_id,
            delete_by_payment_ids-settled db ids amounts,
          )
      | inr (s, e) ↦
          ground (
            arith,
            e,
            any-settled db ids a.payment_id,
            delete_by_payment_ids-settled db ids amounts,
          )
    ]

abbrev pub sum : List ℤ → ℤ
sum [] = pos 0
sum (x ∷ xs) = x +ℤ sum xs

-- The sum of some amounts, if there are any.
abbrev pub total : List ℤ → Option ℤ
total [] = none
total (x ∷ xs) = some (sum (x ∷ xs))

abbrev pub own_amounts : ℕ → List PaymentAmountAccumulator → List ℤ
own_amounts id [] = []
own_amounts id (a ∷ amounts) =
    if nat_beq a.payment_id id then a.amount ∷ own_amounts id amounts else own_amounts id amounts

abbrev pub own_receipts : ℕ → List PaymentReceipt → List ℤ
own_receipts id [] = []
own_receipts id (r ∷ rs) =
    if nat_beq r.intent_id id then r.amount ∷ own_receipts id rs else own_receipts id rs

-- The amount of the payment with the id.
abbrev pub amount_of : ℕ → List PaymentIntent → Option ℤ
amount_of id [] = none
amount_of id (p ∷ ps) = if nat_beq p.id id then some p.amount else amount_of id ps

plus_sum-total : (x : ℤ) (xs : List ℤ) → plus_sum x (total xs) ≡ total (x ∷ xs)
plus_sum-total x [] = ap some (sym (+ℤ-zero x))
plus_sum-total x (y ∷ ys) = refl

sum_received-total :
    (id : ℕ) (amounts : List PaymentAmountAccumulator)
    → sum_received id amounts ≡ total (own_amounts id amounts)
unfolding sum_received
sum_received-total id [] = refl
sum_received-total id (a ∷ amounts) = elim (Bool-cases (nat_beq a.payment_id id)) [
  | inl own ↦
      rw (own, sum_received-total id amounts) (plus_sum-total a.amount (own_amounts id amounts))
  | inr other ↦ rw other (sum_received-total id amounts)
]

sum_receipts-total :
    (id : ℕ) (rs : List PaymentReceipt) → sum_receipts id rs ≡ total (own_receipts id rs)
unfolding sum_receipts
sum_receipts-total id [] = refl
sum_receipts-total id (r ∷ rs) = elim (Bool-cases (nat_beq r.intent_id id)) [
  | inl own ↦ rw (own, sum_receipts-total id rs) (plus_sum-total r.amount (own_receipts id rs))
  | inr other ↦ rw other (sum_receipts-total id rs)
]

find_amount-amount_of : (id : ℕ) (ps : List PaymentIntent) → find_amount id ps ≡ amount_of id ps
unfolding find_amount
find_amount-amount_of id [] = refl
find_amount-amount_of id (p ∷ ps) = ground (arith, find_amount-amount_of id ps)

abbrev pub IsLess : ℤ → ℤ → Type 0
IsLess a b = suc (pos_part a + neg_part b) ≤ pos_part b + neg_part a

-- No status while the receipts differ from what was received; then the one that the amount of the
-- payment and the receipts call for.
abbrev pub Settles : (expected received receipted : ℤ) → Option PaymentIntentStatus → Type 0
Settles e r q none = q ≢ r
Settles e r q (some PaymentIntentStatus.exact) = (q ≡ r) × (e ≡ q)
Settles e r q (some PaymentIntentStatus.overpay) = (q ≡ r) × IsLess e q
Settles e r q (some PaymentIntentStatus.underpay) = (q ≡ r) × IsLess q e
Settles e r q (some _) = ⊥

determine_status-Settles : (e r q : ℤ) → Settles e r q (determine_status e r q)
unfolding determine_status
determine_status-Settles e r q = elim (Bool-cases (beq_ℤ q r)) [
  | inr waits ↦ rw waits (λ same. ground (arith, waits, (beq_ℤ_iff q r).1 same))
  | inl done ↦
      let same : q ≡ r = (beq_ℤ_iff q r).0 done in
      elim (Bool-cases (beq_ℤ e q)) [
        | inl full ↦ rw (done, full) (same, (beq_ℤ_iff e q).0 full)
        | inr differs ↦ elim (Bool-cases (ltb_ℤ e q)) [
          | inl over ↦ rw (done, differs, over) (same, ground (arith, over))
          | inr under ↦ rw (done, differs, under) (same, ground (arith, differs, under))
        ]
      ]
]

-- A payment without an amount, received amounts or receipts gets no status.
abbrev pub Determined :
    (expected received receipted : Option ℤ) → Option PaymentIntentStatus → Type 0
Determined none r q s = s ≡ none
Determined (some e) none q s = s ≡ none
Determined (some e) (some r) none s = s ≡ none
Determined (some e) (some r) (some q) s = Settles e r q s

abbrev status_from : (expected received receipted : Option ℤ) → Option PaymentIntentStatus
status_from e r q = elim e [
  | none ↦ none
  | some expected ↦ elim r [
    | none ↦ none
    | some received ↦ elim q [
      | none ↦ none
      | some receipt ↦ determine_status expected received receipt
    ]
  ]
]

status_from-Determined : (e r q : Option ℤ) → Determined e r q (status_from e r q)
status_from-Determined none r q = refl
status_from-Determined (some e) none q = refl
status_from-Determined (some e) (some r) none = refl
status_from-Determined (some e) (some r) (some q) = determine_status-Settles e r q

status_of-Determined :
    (db : PaymentDb) (id : ℕ)
    → Determined
        (amount_of id db.payments)
        (total (own_amounts id db.accumulators))
        (total (own_receipts id db.receipts))
        (status_of db id)
unfolding status_of
status_of-Determined db id =
    rw⁻¹
      (
        find_amount-amount_of id db.payments,
        sum_received-total id db.accumulators,
        sum_receipts-total id db.receipts,
      )
      (status_from-Determined (find_amount id db.payments) (sum_received id db.accumulators)
        (sum_receipts id db.receipts))

-- Finalization gives each payment of the list the status that `status_of` finds, where it finds one,
-- leaves every other payment and all receipts as they were, and drops just the accumulated amounts of
-- the payments that got a status. The status of a payment is found where it has received amounts and
-- receipts and the two have the same sum: it is exact, overpaid or underpaid as this sum is the
-- amount of the payment, more or less.
pub finalize-settled :
    (ids : List ℕ) (db : PaymentDb)
    → ((finalize ids db).payments
        ≡ map
            (λ (p : PaymentIntent). record p { status = or_else (settled db ids p.id) p.status })
            db.payments)
      × ((finalize ids db).accumulators ≡ keep_waiting db ids db.accumulators)
      × ((finalize ids db).receipts ≡ db.receipts)
      × ((id : ℕ)
          → Determined
              (amount_of id db.payments)
              (total (own_amounts id db.accumulators))
              (total (own_receipts id db.receipts))
              (status_of db id))
unfolding finalize
finalize-settled ids db = (
  change_status_bulk-settled db ids db.payments,
  delete_by_payment_ids-settled db ids db.accumulators,
  refl,
  status_of-Determined db,
)
