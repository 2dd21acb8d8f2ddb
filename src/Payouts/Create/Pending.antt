-- ===== src/Payouts/Create/Pending.antt =====
-- The amounts of a member that are pending: what creation allows, and what the updates of the status
-- do to them.
use mathlib.Core.Path.{subst}
use multi_rail_payments_proc.Prelude.{
  ℕ, ◌≡◌, ◌≢◌, refl, sym, ap, ◌∙◌, true, false, ◌&&◌, Option, none, some, List, [], ◌∷◌, any, arith,
  nat_beq, nat_beq_iff, if◌then◌else◌, Bool-cases, inl, inr,
}
use multi_rail_payments_proc.Prelude.Int.{
  ℤ, pos, ◌+ℤ◌, ◌≤ℤ◌, int_laws, -ℤ_parts, +ℤ_parts, +ℤ_assoc, zero-+ℤ,
}
use multi_rail_payments_proc.Types.{integration_beq, integration_beq_iff}
use multi_rail_payments_proc.Payouts.Model.{PayoutIntent}
use multi_rail_payments_proc.Payouts.Create.{
  created, PayoutRow, PayoutDb, CreatePayoutParams, TransferFee, PayoutAnswers,
  insufficient_balance, fee_not_found, refused, accepted, is_pending, is_of, is_prepared,
  pending_amount, validate, validate_with_pending, new_payout, insert_payout, check_payout,
  create_payout, make_prepared, mark_processing, make_confirming, mark_success,
}

-- The amount pending of what a request is about.
abbrev pub pending_of : CreatePayoutParams → List PayoutRow → ℤ
pending_of params rows =
    pending_amount params.member_account_id params.from_integration params.from_currency rows

-- The table with the payout.
abbrev added : CreatePayoutParams → PayoutIntent → PayoutDb → PayoutDb
added params payout db = record {
  rows = record { payout = payout; status = created } ∷ db.rows;
  handled = params.idempotency_key ∷ db.handled;
  outbox = payout.id ∷ db.outbox;
}

validate_with_pending-fits :
    (available pending amount : ℤ)
    → validate_with_pending available pending amount ≡ true
    → amount +ℤ pending ≤ℤ available
unfolding validate_with_pending
validate_with_pending-fits available pending amount h =
    ground (arith, h, -ℤ_parts available pending, +ℤ_parts amount pending)

added-pending :
    (params : CreatePayoutParams) (payout : PayoutIntent) (db : PayoutDb)
    → is_of params.member_account_id params.from_integration params.from_currency payout ≡ true
    → pending_of params (added params payout db).rows
      ≡ payout.from_amount +ℤ pending_of params db.rows
unfolding pending_amount
added-pending params payout db own = rw own refl

-- An accepted payout is new, fits the available amount with what was pending, and is added.
record IsAdded (params : CreatePayoutParams) (available : ℤ) (payout : PayoutIntent)
    (db after : PayoutDb) : Type 0 where
  new : any (λ k. nat_beq k params.idempotency_key) db.handled ≡ false
  fits : validate_with_pending available (pending_of params db.rows) params.amount ≡ true
  rows : added params payout db ≡ after

insert_payout-IsAdded :
    (params : CreatePayoutParams) (available : ℤ) (payout made : PayoutIntent) (db after : PayoutDb)
    → insert_payout params available payout db ≡ accepted made after
    → IsAdded params available payout db after
unfolding insert_payout
insert_payout-IsAdded params available payout made db after e =
    elim (Bool-cases (any (λ k. nat_beq k params.idempotency_key) db.handled)) [
      | inl known ↦ absurd (ground (arith, e, known))
      | inr new ↦
          elim (Bool-cases
            (validate_with_pending available (pending_of params db.rows) params.amount)) [
              | inl fits ↦
                  let there : accepted payout (added params payout db) ≡ accepted made after =
                    rw (new, insert_payout, fits) at e in
                  record { new = new; fits = fits; rows = ground (arith, there) }
              | inr short ↦
                  let there : refused insufficient_balance ≡ accepted made after =
                    rw (new, insert_payout, short) at e in
                  absurd (ground (arith, there))
            ]
    ]

check_payout-IsAdded :
    (params : CreatePayoutParams) (answers : PayoutAnswers) (fee : Option TransferFee)
    (balance : Option ℤ) (made : PayoutIntent) (db after : PayoutDb)
    → check_payout params answers fee balance db ≡ accepted made after
    → (available : ℤ) × (payout : PayoutIntent) × (balance ≡ some available)
      × (payout.from_amount ≡ params.amount)
      × (is_of params.member_account_id params.from_integration params.from_currency payout ≡ true)
      × IsAdded params available payout db after
unfolding check_payout new_payout
check_payout-IsAdded params answers none balance made db after e = absurd (ground (arith, e))
check_payout-IsAdded params answers (some fee) none made db after e = absurd (ground (arith, e))
check_payout-IsAdded params answers (some fee) (some available) made db after e =
    elim (Bool-cases (integration_beq fee.integration params.from_integration)) [
      | inl same ↦ elim (Bool-cases (validate available (fee.amount +ℤ answers.converted_amount))) [
        | inl enough ↦
            let inserted : insert_payout params available (new_payout params answers fee) db
                ≡ accepted made after =
              rw (same, check_payout, enough) at e in
            (
              available,
              new_payout params answers fee,
              refl,
              refl,
              ground (
                arith,
                nat_beq_iff params.member_account_id params.member_account_id,
                integration_beq_iff params.from_integration params.from_integration,
                nat_beq_iff params.from_currency params.from_currency,
              ),
              insert_payout-IsAdded params available (new_payout params answers fee) made db after
                  inserted,
            )
        | inr short ↦
            let there : refused insufficient_balance ≡ accepted made after =
              rw (same, check_payout, short) at e in
            absurd (ground (arith, there))
      ]
      | inr other ↦
          let there : refused fee_not_found ≡ accepted made after = rw (other, check_payout) at e in
          absurd (ground (arith, there))
    ]

-- After a payout is accepted, what is pending of the member, the integration and the currency is at
-- most the amount that was available.
pub create_payout-pending :
    (params : CreatePayoutParams) (answers : PayoutAnswers) (available : ℤ) (made : PayoutIntent)
    (db after : PayoutDb)
    → answers.available ≡ some available
    → create_payout params answers db ≡ accepted made after
    → pending_of params after.rows ≤ℤ available
unfolding create_payout
create_payout-pending params answers available made db after known e =
    let (balance, payout, is_balance, amount, own, done) =
      check_payout-IsAdded params answers answers.transfer_fee answers.available made db after e in
    let same : balance ≡ available = ground (arith, known, is_balance) in
    rw (← done.rows, added-pending params payout db own, amount, ← same)
      (validate_with_pending-fits balance (pending_of params db.rows) params.amount done.fits)

handled-other :
    (params : CreatePayoutParams) (payout : PayoutIntent) (db after : PayoutDb)
    (again : CreatePayoutParams)
    → added params payout db ≡ after
    → any (λ k. nat_beq k again.idempotency_key) after.handled ≡ false
    → nat_beq params.idempotency_key again.idempotency_key ≡ false
handled-other params payout db after again rows fresh =
    let there : any (λ k. nat_beq k again.idempotency_key) (added params payout db).handled
        ≡ false =
      subst (λ (a : PayoutDb). any (λ k. nat_beq k again.idempotency_key) a.handled ≡ false)
        (sym rows) fresh in
    ground (arith, there)

-- A key that was accepted is not accepted again, whatever the request and the answers are then.
pub create_payout-once :
    (params again : CreatePayoutParams) (answers answers' : PayoutAnswers)
    (made made' : PayoutIntent) (db after last : PayoutDb)
    → create_payout params answers db ≡ accepted made after
    → again.idempotency_key ≡ params.idempotency_key
    → create_payout again answers' after ≢ accepted made' last
unfolding create_payout
create_payout-once params again answers answers' made made' db after last e same e' =
    let (_, _, _, _, _, first) =
      check_payout-IsAdded params answers answers.transfer_fee answers.available made db after e in
    let (_, _, _, _, _, second) =
      check_payout-IsAdded again answers' answers'.transfer_fee answers'.available made' after last
        e' in
    let fresh : any (λ k. nat_beq k again.idempotency_key) after.handled ≡ false = second.new in
    let taken : nat_beq params.idempotency_key again.idempotency_key ≡ false =
      handled-other params _ db after again first.rows fresh in
    ground (arith, taken, same, nat_beq_iff params.idempotency_key again.idempotency_key)

-- What the listed payouts that are prepared have pending.
abbrev pub moved_amount : CreatePayoutParams → (ids : List ℕ) → List PayoutRow → ℤ
moved_amount params ids [] = pos 0
moved_amount params ids (r ∷ rs) =
    (if is_of params.member_account_id params.from_integration params.from_currency r.payout
        && (any (λ id. nat_beq id r.payout.id) ids && is_prepared r.status)
      then r.payout.from_amount
      else pos 0)
    +ℤ moved_amount params ids rs

move_front : (x m p : ℤ) → pos 0 +ℤ m +ℤ (x +ℤ p) ≡ x +ℤ (m +ℤ p)
move_front x m p = omega int_laws

count_first : (x m p q : ℤ) → m +ℤ p ≡ q → x +ℤ m +ℤ p ≡ x +ℤ q
count_first x m p q h = +ℤ_assoc x m p ∙ ap (λ y. x +ℤ y) h

count_none : (m p q : ℤ) → m +ℤ p ≡ q → pos 0 +ℤ m +ℤ p ≡ q
count_none m p q h = +ℤ_assoc (pos 0) m p ∙ zero-+ℤ (m +ℤ p) ∙ h

count_last : (x m p q : ℤ) → m +ℤ p ≡ q → pos 0 +ℤ m +ℤ (x +ℤ p) ≡ x +ℤ q
count_last x m p q h = move_front x m p ∙ ap (λ y. x +ℤ y) h

module _ (params : CreatePayoutParams) where
  make_prepared-pending :
      (id : ℕ) (fee : Option ℤ) (rows : List PayoutRow)
      → pending_of params (make_prepared id fee rows) ≡ pending_of params rows
  unfolding make_prepared pending_amount
  make_prepared-pending id fee [] = refl
  make_prepared-pending id fee (r ∷ rows) = ground (arith, make_prepared-pending id fee rows)

  make_confirming-pending :
      (id : ℕ) (fee : Option ℤ) (rows : List PayoutRow)
      → pending_of params (make_confirming id fee rows) ≡ pending_of params rows
  unfolding make_confirming pending_amount
  make_confirming-pending id fee [] = refl
  make_confirming-pending id fee (r ∷ rows) = ground (arith, make_confirming-pending id fee rows)

  mark_success-pending :
      (id : ℕ) (rows : List PayoutRow)
      → pending_of params (mark_success id rows) ≡ pending_of params rows
  unfolding mark_success pending_amount
  mark_success-pending id [] = refl
  mark_success-pending id (r ∷ rows) = ground (arith, mark_success-pending id rows)

  mark_processing-pending :
      (ids : List ℕ) (rows : List PayoutRow)
      → moved_amount params ids rows +ℤ pending_of params (mark_processing ids rows)
        ≡ pending_of params rows
  unfolding mark_processing pending_amount
  mark_processing-pending ids [] = omega int_laws
  mark_processing-pending ids (r ∷ rows) =
      let rest = mark_processing-pending ids rows in
      let own =
        is_of params.member_account_id params.from_integration params.from_currency r.payout in
      elim (Bool-cases (any (λ id. nat_beq id r.payout.id) ids && is_prepared r.status)) [
        | inl moved ↦
            let was_pending : is_pending r.status ≡ true = ground (arith, moved) in
            elim (Bool-cases own) [
              | inl mine ↦ rw (moved, mine, was_pending) (count_first _ _ _ _ rest)
              | inr other ↦ rw (moved, other) (count_none _ _ _ rest)
            ]
        | inr stays ↦ elim (Bool-cases own) [
          | inl mine ↦ elim (Bool-cases (is_pending r.status)) [
            | inl waits ↦ rw (stays, mine, waits) (count_last _ _ _ _ rest)
            | inr done ↦ rw (stays, mine, done) (count_none _ _ _ rest)
          ]
          | inr other ↦ rw (stays, other) (count_none _ _ _ rest)
        ]
      ]

-- Preparing, confirming and finishing a payout keep what is pending of a member, an integration and
-- a currency; putting payouts to processing takes off the amounts of those that were prepared.
pub statuses-pending :
    (params : CreatePayoutParams) (id : ℕ) (ids : List ℕ) (fee : Option ℤ) (rows : List PayoutRow)
    → (pending_of params (make_prepared id fee rows) ≡ pending_of params rows)
      × (pending_of params (make_confirming id fee rows) ≡ pending_of params rows)
      × (pending_of params (mark_success id rows) ≡ pending_of params rows)
      × (moved_amount params ids rows +ℤ pending_of params (mark_processing ids rows)
          ≡ pending_of params rows)
statuses-pending params id ids fee rows = (
  make_prepared-pending params id fee rows,
  make_confirming-pending params id fee rows,
  mark_success-pending params id rows,
  mark_processing-pending params ids rows,
)
