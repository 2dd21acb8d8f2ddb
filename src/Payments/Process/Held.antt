-- ===== src/Payments/Process/Held.antt =====
-- The amounts that the loop adds up for a payment, from which its status is determined.
use multi_rail_payments_proc.Prelude.{
  ℕ, ◌≡◌, refl, sym, ◌∙◌, Option, none, some, List, [], ◌∷◌, ◌++◌, nat_beq, nat_eq, or_else,
  if◌then◌else◌, Bool-cases, inl, inr, arith,
}
use multi_rail_payments_proc.Prelude.Int.{ℤ, pos, ◌+ℤ◌, +ℤ_assoc, int_laws}
use multi_rail_payments_proc.Prelude.JsMap.{JsMap}
use multi_rail_payments_proc.Prelude.Grouping.{group_by}
use multi_rail_payments_proc.Types.{BalanceChange, BalanceChangeType}
use multi_rail_payments_proc.Payments.Model.{PaymentAmountAccumulator}
use multi_rail_payments_proc.Payments.Finalize.{plus_sum, sum_received}
use multi_rail_payments_proc.Payments.Inbox.{InboxRow, delete}
use multi_rail_payments_proc.Payments.Batches.{ProcessResult}
use multi_rail_payments_proc.Payments.Process.{
  QueueDb, Projection, threw, projected, find_hold_in, accumulate, apply_transfer, keep_result,
  process_key, process_keys, process,
}

-- What the accumulators have for a payment, zero where they have no row.
abbrev pub received : (id : ℕ) → List PaymentAmountAccumulator → ℤ
received id amounts = or_else (sum_received id amounts) (pos 0)

abbrev pub held_by : (id : ℕ) → Option (ℕ × ℤ) → ℤ
held_by id none = pos 0
held_by id (some (i, amount)) = if nat_beq i id then amount else pos 0

-- The incoming holds among changes that name a payment: the payments and the amounts.
abbrev pub named_holds : List BalanceChange → List (ℕ × ℤ)
named_holds [] = []
named_holds (c ∷ cs) = elim (c.type) [
  | BalanceChangeType.hold_in ↦ elim (c.intent_id) [
    | some id ↦ (id, c.amount) ∷ named_holds cs
    | none ↦ named_holds cs
  ]
  | _ ↦ named_holds cs
]

abbrev pub first_of : List (ℕ × ℤ) → Option (ℕ × ℤ)
first_of [] = none
first_of (h ∷ hs) = some h

find_hold_in-first_of : (cs : List BalanceChange) → find_hold_in cs ≡ first_of (named_holds cs)
unfolding find_hold_in
find_hold_in-first_of [] = refl
find_hold_in-first_of (c ∷ cs) = ground (arith, find_hold_in-first_of cs)

-- The amounts of the first incoming holds of the results.
abbrev pub held_total : (id : ℕ) → List ProcessResult → ℤ
held_total id [] = pos 0
held_total id (r ∷ rs) = held_by id (first_of (named_holds r.balance_changes)) +ℤ held_total id rs

held_total-append :
    (id : ℕ) (rs ss : List ProcessResult)
    → held_total id (rs ++ ss) ≡ held_total id rs +ℤ held_total id ss
held_total-append id [] ss = omega int_laws
held_total-append id (r ∷ rs) ss = rw (held_total-append id rs ss) (
    sym (
      +ℤ_assoc (held_by id (first_of (named_holds r.balance_changes))) (held_total id rs)
        (held_total id ss)))

swap_first : (t b r : ℤ) → t +ℤ (b +ℤ r) ≡ b +ℤ t +ℤ r
swap_first t b r = omega int_laws

plus_sum-or_else : (x : ℤ) (o : Option ℤ) → or_else (plus_sum x o) (pos 0) ≡ x +ℤ or_else o (pos 0)
plus_sum-or_else x none = omega int_laws
plus_sum-or_else x (some y) = refl

accumulate-received :
    (sender : InboxRow → ℕ) (id : ℕ) (row : InboxRow) (held : Option (ℕ × ℤ)) (db : QueueDb)
    → received id (accumulate sender row held db).accumulators
      ≡ held_by id held +ℤ received id db.accumulators
unfolding accumulate sum_received
accumulate-received sender id row none db = omega int_laws
accumulate-received sender id row (some (i, amount)) db = elim (Bool-cases (nat_beq i id)) [
  | inl same ↦ rw same (plus_sum-or_else amount (sum_received id db.accumulators))
  | inr other ↦ rw other (omega int_laws)
]

-- What is received grows by what the results hold.
abbrev Grows : (id : ℕ) → QueueDb → List ProcessResult × QueueDb → Type 0
Grows id db out =
    received id out.1.accumulators ≡ held_total id out.0 +ℤ received id db.accumulators

module _ (project : InboxRow → QueueDb → Projection) (sender : InboxRow → ℕ) (id : ℕ) where
  applied-Grows :
      (row : InboxRow) (rest : List ProcessResult × QueueDb) (db : QueueDb) (p : Projection)
      → project row db ≡ p
      → Grows id (apply_transfer project sender row db).1 rest
      → Grows id db (keep_result row (apply_transfer project sender row db) rest)
  unfolding apply_transfer keep_result
  applied-Grows row rest db (threw message) e h = rw (e, apply_transfer) (omega int_laws)
  applied-Grows row rest db (projected changes) e h =
      let held = find_hold_in changes in
      let after : QueueDb = record db { inbox = delete row.id db.inbox } in
      let then_rest : Grows id (accumulate sender row held after) rest =
        rw (e, apply_transfer) at h in
      rw (e, apply_transfer)
        (then_rest
          ∙ rw (accumulate-received sender id row held after, ← find_hold_in-first_of changes)
              (swap_first (held_total id rest.0) (held_by id held) (received id db.accumulators)))

  process_key-Grows :
      (rows : List InboxRow) (db : QueueDb) → Grows id db (process_key project sender rows db)
  unfolding process_key
  process_key-Grows [] db = omega int_laws
  process_key-Grows (row ∷ rows) db =
      applied-Grows row _ db (project row db) refl
        (process_key-Grows rows (apply_transfer project sender row db).1)

  process_keys-Grows :
      (groups : JsMap ℕ (List InboxRow)) (db : QueueDb)
      → Grows id db (process_keys project sender groups db)
  unfolding process_keys
  process_keys-Grows [] db = omega int_laws
  process_keys-Grows ((key, rows) ∷ groups) db =
      let first = process_key project sender rows db in
      let others = process_keys project sender groups first.1 in
      process_keys-Grows groups first.1
      ∙ rw (process_key-Grows rows db, held_total-append id first.0 others.0)
          (swap_first (held_total id others.0) (held_total id first.0)
            (received id db.accumulators))

-- What is accumulated for a payment grows by just the first incoming holds for it among the changes
-- of each transfer that was done; a failed transfer adds nothing.
pub process-received :
    (project : InboxRow → QueueDb → Projection) (sender : InboxRow → ℕ) (id : ℕ)
    (rows : List InboxRow) (db : QueueDb)
    → let out = process project sender rows db in
      received id out.1.accumulators ≡ held_total id out.0 +ℤ received id db.accumulators
unfolding process
process-received project sender id rows db =
    process_keys-Grows project sender id (group_by (λ (r : InboxRow). r.transfer.key) rows) db
