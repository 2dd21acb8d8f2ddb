-- ===== src/Payments/Process/Loop.antt =====
-- The loop keeps the order of the queues.
use mathlib.Core.Path.{subst}
use multi_rail_payments_proc.Prelude.{
  ℕ, ◌≡◌, refl, Bool, Option, none, some, List, [], ◌∷◌, map, arith, All, All-imp, All-map, map-map,
  nat_eq,
}
use multi_rail_payments_proc.Prelude.Int.{ℤ}
use multi_rail_payments_proc.Prelude.JsMap.{JsMap}
use multi_rail_payments_proc.Prelude.Sort.{All-sort_by, All-filter}
use multi_rail_payments_proc.Prelude.Grouping.{group_by, group_by-All}
use multi_rail_payments_proc.Types.{BalanceChange}
use multi_rail_payments_proc.Payments.Inbox.{
  InboxRow, InboxTable, delete, delete_row, mark_failed, mark_successor,
  mark_blocked_with_successors, find_blocked, find_next_created,
}
use multi_rail_payments_proc.Payments.Inbox.Order.{IsQueue, IsIn, delete-IsQueue, mark-IsQueue}
use multi_rail_payments_proc.Payments.Batches.{Batch, ProcessResult, KeyPart}
use multi_rail_payments_proc.Payments.Process.{
  QueueDb, Projection, threw, projected, accumulate, apply_transfer, keep_result, process_key,
  process_keys, process, enqueue_batch, enqueue_batches, run,
}

-- Rows with the id of a row are in its queue, as ids are unique.
abbrev pub IsKnown : InboxTable → InboxRow → Type 0
IsKnown table r = All (IsIn r.id r.transfer.key) table.rows

pub record IsSound (table : InboxTable) : Type 0 where
  pub queue : IsQueue table
  pub known : All (IsKnown table) table.rows

-- What each step of the loop keeps.
record Keeps (u v : InboxTable) : Type 0 where
  sound : IsSound u → IsSound v
  rows : (r : InboxRow) → IsKnown u r → IsKnown v r

Keeps-refl : (u : InboxTable) → Keeps u u
Keeps-refl u = record { sound = λ h. h; rows = λ r h. h }

Keeps-trans : (u v w : InboxTable) → Keeps u v → Keeps v w → Keeps u w
Keeps-trans u v w a b = record {
  sound = λ h. b.sound (a.sound h);
  rows = λ r h. b.rows r (a.rows r h);
}

-- Updates of single rows that keep id and key.
record IsInPlace (f : InboxRow → InboxRow) : Type 0 where
  id : (r : InboxRow) → (f r).id ≡ r.id
  key : (r : InboxRow) → (f r).transfer.key ≡ r.transfer.key

map-IsIn :
    (f : InboxRow → InboxRow)
    → IsInPlace f
    → (id key : ℕ) (r : InboxRow) → IsIn id key r
    → IsIn id key (f r)
map-IsIn f place id key r h = λ same. ground (arith, same, h, place.id r, place.key r)

map-IsKnown :
    (f : InboxRow → InboxRow)
    → IsInPlace f
    → (rows : List InboxRow) (r : InboxRow) → All (IsIn r.id r.transfer.key) rows
    → All (IsIn (f r).id (f r).transfer.key) (map f rows)
map-IsKnown f place rows r h =
    rw (place.id r, place.key r)
      (All-map (IsIn r.id r.transfer.key) f rows
        (All-imp (map-IsIn f place r.id r.transfer.key) rows h))

map-Keeps :
    (f : InboxRow → InboxRow)
    → IsInPlace f
    → (u v : InboxTable) → v.rows ≡ map f u.rows
    → (IsSound u → IsQueue v)
    → Keeps u v
map-Keeps f place u v e q = record {
  sound = λ h. record {
    queue = q h;
    known = rw e (
        All-map (λ r. All (IsIn r.id r.transfer.key) (map f u.rows)) f u.rows
          (All-imp (map-IsKnown f place u.rows) u.rows h.known));
  };
  rows = λ r h. rw e (
      All-map (IsIn r.id r.transfer.key) f u.rows
        (All-imp (map-IsIn f place r.id r.transfer.key) u.rows h));
}

delete-Keeps : (id : ℕ) (u : InboxTable) → Keeps u (delete id u)
unfolding delete delete_row
delete-Keeps id u =
    map-Keeps (delete_row id) (record { id = λ r. ground arith; key = λ r. ground arith }) u
      (delete id u) refl (λ h. delete-IsQueue id u h.queue)

mark-Keeps :
    (id key message : ℕ) (u : InboxTable)
    → All (IsIn id key) u.rows
    → Keeps u (mark_blocked_with_successors id key message u)
unfolding mark_blocked_with_successors mark_failed mark_successor
mark-Keeps id key message u known =
    map-Keeps (λ r. mark_successor id key (mark_failed id message r))
      (record { id = λ r. ground arith; key = λ r. ground arith }) u
      (mark_blocked_with_successors id key message u)
      (map-map (mark_failed id message) (mark_successor id key) u.rows)
      (λ h. mark-IsQueue id key message u known h.queue)

pub accumulate-inbox :
    (sender : InboxRow → ℕ) (row : InboxRow) (held : Option (ℕ × ℤ)) (db : QueueDb)
    → (accumulate sender row held db).inbox ≡ db.inbox
unfolding accumulate
accumulate-inbox sender row none db = refl
accumulate-inbox sender row (some h) db = refl

keep_result-db :
    (row : InboxRow) (applied : Option (List BalanceChange) × QueueDb)
    (rest : List ProcessResult × QueueDb) (u : InboxTable)
    → Keeps u applied.1.inbox
    → Keeps applied.1.inbox rest.1.inbox
    → Keeps u (keep_result row applied rest).1.inbox
unfolding keep_result
keep_result-db row (none, after) rest u a b = a
keep_result-db row (some changes, after) rest u a b = Keeps-trans u after.inbox rest.1.inbox a b

module _ (project : InboxRow → QueueDb → Projection) (sender : InboxRow → ℕ) where
  applied-Keeps :
      (row : InboxRow) (db : QueueDb) (p : Projection)
      → project row db ≡ p
      → IsKnown db.inbox row
      → Keeps db.inbox (apply_transfer project sender row db).1.inbox
  unfolding apply_transfer
  applied-Keeps row db (threw message) e known =
      rw (e, apply_transfer) (mark-Keeps row.id row.transfer.key message db.inbox known)
  applied-Keeps row db (projected changes) e known =
      rw (e, apply_transfer, accumulate-inbox) (delete-Keeps row.id db.inbox)

  process_key-Keeps :
      (rows : List InboxRow) (db : QueueDb)
      → All (IsKnown db.inbox) rows
      → Keeps db.inbox (process_key project sender rows db).1.inbox
  unfolding process_key
  process_key-Keeps [] db h = Keeps-refl db.inbox
  process_key-Keeps (row ∷ rows) db h =
      let first = applied-Keeps row db (project row db) refl h.0 in
      keep_result-db row (apply_transfer project sender row db) _ db.inbox first (
        process_key-Keeps rows (apply_transfer project sender row db).1
          (All-imp first.rows rows h.1))

  process_keys-Keeps :
      (groups : JsMap ℕ (List InboxRow)) (db : QueueDb)
      → All (λ g. All (IsKnown db.inbox) g.1) groups
      → Keeps db.inbox (process_keys project sender groups db).1.inbox
  unfolding process_keys
  process_keys-Keeps [] db h = Keeps-refl db.inbox
  process_keys-Keeps ((key, rows) ∷ groups) db h =
      let first = process_key-Keeps rows db h.0 in
      Keeps-trans _ _ _ first (
        process_keys-Keeps groups (process_key project sender rows db).1
          (All-imp (λ g. All-imp first.rows g.1) groups h.1))

  process-Keeps :
      (rows : List InboxRow) (db : QueueDb)
      → All (IsKnown db.inbox) rows
      → Keeps db.inbox (process project sender rows db).1.inbox
  unfolding process
  process-Keeps rows db h =
      process_keys-Keeps (group_by (λ (r : InboxRow). r.transfer.key) rows) db
        (group_by-All (λ (r : InboxRow). r.transfer.key) (IsKnown db.inbox) rows h)

enqueue_batches-inbox :
    (batches : List Batch) (db last : QueueDb)
    → enqueue_batches batches db ≡ some last
    → db.inbox ≡ last.inbox
unfolding enqueue_batches enqueue_batch
enqueue_batches-inbox [] db last e = ground (arith, e)
enqueue_batches-inbox (batch ∷ batches) db last e = ground (
  arith,
  e,
  enqueue_batches-inbox batches db last,
  enqueue_batches-inbox batches (record db { outbox = batch ∷ db.outbox }) last,
)

find_blocked-known :
    (keys : List ℕ) (table : InboxTable)
    → IsSound table
    → All (IsKnown table) (find_blocked keys table)
unfolding find_blocked
find_blocked-known keys table h =
    All-sort_by (IsKnown table) _ _
      (All-filter (IsKnown table) _ table.rows (All-imp (λ r k t. k) table.rows h.known))

find_next_created-known :
    (key_before : ℕ → ℕ → Bool) (keys : List ℕ) (table : InboxTable)
    → IsSound table
    → All (IsKnown table) (find_next_created key_before keys table)
unfolding find_next_created
find_next_created-known key_before keys table h =
    All-sort_by (IsKnown table) _ _
      (All-filter (IsKnown table) _ table.rows (All-imp (λ r k t. k) table.rows h.known))

-- A run over any keys that commits keeps the queues sound: ids stay in their queues, and of two
-- visible transfers of one key, the later one is blocked where the earlier one is.
pub run-IsSound :
    (project : InboxRow → QueueDb → Projection) (sender : InboxRow → ℕ)
    (text_before : KeyPart → KeyPart → Bool) (digest : List KeyPart → ℕ) (key_before : ℕ → ℕ → Bool)
    (keys : List ℕ) (db last : QueueDb)
    → run project sender text_before digest key_before keys db ≡ some last
    → IsSound db.inbox
    → IsSound last.inbox
unfolding run
run-IsSound project sender text_before digest key_before keys db last e h =
    let retried = (process project sender (find_blocked keys db.inbox) db).1 in
    let sound =
      (process-Keeps project sender (find_blocked keys db.inbox) db
          (find_blocked-known keys db.inbox h)).sound
        h in
    subst IsSound (enqueue_batches-inbox _ _ last e) (
      (process-Keeps project sender (find_next_created key_before keys retried.inbox) retried
          (find_next_created-known key_before keys retried.inbox sound)).sound
        sound)
