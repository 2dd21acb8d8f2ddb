-- ===== src/Outbox.antt =====
-- The outbox table of a service and `OutboxRepository`. The three services have a copy each:
-- apps/ledger/src/data/repository/outbox/outbox.repository.ts,
-- apps/core/src/data/repository/outbox/outbox.repository.ts and
-- apps/external-integration/src/data/repository/outbox/outbox.repository.ts, which differ in the
-- advisory lock that they take. Times are in milliseconds; `now` is the clock that a query reads.
-- Of entries with the same creation time, which SQL may return in any order, the earlier row of the
-- table comes first.
pub mod Publish
pub mod Round
pub mod Drain
pub mod Oldest
mod Tests
pub mod Delivery
use multi_rail_payments_proc.Prelude.{
  ℕ, ◌+◌, ◌*◌, ◌≡◌, refl, Bool, true, false, not, ◌&&◌, Option, none, some, List, [], ◌∷◌, ◌++◌,
  map, any, nat_beq, ltb, leb, if◌then◌else◌,
}
use multi_rail_payments_proc.Prelude.Sort.{sort_by, take, filter}

pub data OutboxStatus : Type 0 where
  pending processing sent failed : OutboxStatus

-- The names of the events that services publish; `other` is any further text.
pub data EventName : Type 0 where
  balance_updated balance_failed balance_projection_updated : EventName
  balance_change_request transfer_create transfer_held transaction_event : EventName
  other : (name : ℕ) → EventName

pub record OutboxData : Type 0 where
  pub id : ℕ
  pub event : EventName
  pub payload : ℕ

pub record OutboxEntity : Type 0 where
  pub id : ℕ
  pub event : EventName
  pub payload : ℕ
  pub status : OutboxStatus
  pub created_at : ℕ
  pub sent_at : Option ℕ
  pub processing_at : Option ℕ
  pub retries : ℕ

abbrev pub is_pending : OutboxEntity → Bool
is_pending r = elim r.status [ pending ↦ true | _ ↦ false ]

abbrev pub is_processing : OutboxEntity → Bool
is_processing r = elim r.status [ processing ↦ true | _ ↦ false ]

abbrev pub is_sent : OutboxEntity → Bool
is_sent r = elim r.status [ sent ↦ true | _ ↦ false ]

abbrev pub member : ℕ → List ℕ → Bool
member k ids = any (λ i. nat_beq i k) ids

abbrev pub ids_of : List OutboxEntity → List ℕ
ids_of rows = map (λ r. r.id) rows

abbrev pub is_empty {ℓ} : {A : Type ℓ} → List A → Bool
is_empty [] = true
is_empty (_ ∷ _) = false

-- `OutboxRepositoryMapper.fromDomain`
unfoldable pub from_domain : (now : ℕ) → OutboxData → OutboxEntity
from_domain now d = record {
  id = d.id;
  event = d.event;
  payload = d.payload;
  status = pending;
  created_at = now;
  sent_at = none;
  processing_at = none;
  retries = 0;
}

-- The primary key refuses a taken id, and the transaction rolls back.
unfoldable pub create : (now : ℕ) → OutboxData → List OutboxEntity → Option (List OutboxEntity)
create now d rows = if member d.id (ids_of rows) then none else some (from_domain now d ∷ rows)

-- A comparison with a missing time fails, as in SQL.
abbrev is_before : Option ℕ → (span now : ℕ) → Bool
is_before none span now = false
is_before (some t) span now = ltb (t + span) now

abbrev pub is_stuck : (now : ℕ) → OutboxEntity → Bool
is_stuck now r = is_processing r && is_before r.processing_at 300000 now

unfoldable pub reset_row : (now : ℕ) → OutboxEntity → OutboxEntity
reset_row now r = if is_stuck now r then record r { status = pending; processing_at = none } else r

unfoldable pub reset_stuck : (now : ℕ) → List OutboxEntity → List OutboxEntity
reset_stuck now rows = map (reset_row now) rows

abbrev pub oldest_first : OutboxEntity → OutboxEntity → Bool
oldest_first a b = leb a.created_at b.created_at

unfoldable pub claim_row : (now : ℕ) → List ℕ → OutboxEntity → OutboxEntity
claim_row now ids r =
    if member r.id ids then record r { status = processing; processing_at = some now } else r

-- The select of the entries to publish.
unfoldable pub oldest_pending : (limit : ℕ) → List OutboxEntity → List OutboxEntity
oldest_pending limit rows = take limit (sort_by oldest_first (filter is_pending rows))

-- The entries found, as they were before the update, and the table. `locked` is what
-- `pg_try_advisory_xact_lock` returns.
unfoldable pub find_pending :
    (locked : Bool) (limit now : ℕ) → List OutboxEntity → List OutboxEntity × List OutboxEntity
find_pending locked limit now rows =
    if not locked
    then ([], rows)
    else let found = oldest_pending limit rows in
      if is_empty found then ([], rows) else (found, map (claim_row now (ids_of found)) rows)

-- The callers drop the answer of the two updates, whether as many rows as ids were updated.
unfoldable pub mark_sent_row : (now : ℕ) → List ℕ → OutboxEntity → OutboxEntity
mark_sent_row now ids r =
    if member r.id ids then record r { status = sent; sent_at = some now } else r

unfoldable pub mark_sent : (now : ℕ) → List ℕ → List OutboxEntity → List OutboxEntity
mark_sent now ids rows = map (mark_sent_row now ids) rows

unfoldable pub retry_row : List ℕ → OutboxEntity → OutboxEntity
retry_row ids r =
    if member r.id ids
    then record r { retries = r.retries + 1; status = pending; processing_at = none }
    else r

-- The column is a `smallint`: where the sum leaves it, the update throws.
abbrev pub overflows : List ℕ → OutboxEntity → Bool
overflows ids r = member r.id ids && leb 32767 r.retries

unfoldable pub increment_retries : List ℕ → List OutboxEntity → Option (List OutboxEntity)
increment_retries ids rows =
    if any (overflows ids) rows then none else some (map (retry_row ids) rows)

unfoldable pub delete_old : (seconds now : ℕ) → List OutboxEntity → List OutboxEntity
delete_old seconds now rows =
    filter (λ r. not (is_sent r && is_before r.sent_at (1000 * seconds) now)) rows
