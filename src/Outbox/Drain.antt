-- ===== src/Outbox/Drain.antt =====
-- Calls of the publisher empty the outbox: with publishers that take every entry, each call sends 50
-- entries or all.
use multi_rail_payments_proc.Prelude.{
  ℕ, ◌-◌, ◌*◌, ◌≡◌, ◌≤◌, refl, Bool, true, false, not, ◌&&◌, ◌||◌, List, [], ◌∷◌, map, arith, any,
  beq_self, nat_eq, All, All-imp, All-map, All-every, All-both, length,
}
use multi_rail_payments_proc.Prelude.Sort.{
  sort_by, take, filter, count, count-map, count-filter, count-sort_by, count-take, count-le,
  length-count, count-none,
}
use multi_rail_payments_proc.Outbox.{
  OutboxEntity, is_pending, is_sent, is_stuck, member, ids_of, reset_row, reset_stuck,
  oldest_pending, oldest_first,
}
use multi_rail_payments_proc.Outbox.Publish.{publish}
use multi_rail_payments_proc.Outbox.Round.{
  UniqueIds, settled_row, is_poison, publish-round_rows, map-UniqueIds, reset_stuck-UniqueIds,
}

-- Calls one after the other, each with the clock at its two transactions.
unfoldable pub publish_rounds :
    (route : OutboxEntity → Bool) (times : List (ℕ × ℕ)) → List OutboxEntity → List OutboxEntity
publish_rounds route [] rows = rows
publish_rounds route ((now, later) ∷ times) rows =
    publish_rounds route times (publish route true now later rows)

-- The publisher of the entry takes it, whatever its status.
abbrev pub IsTaken : (route : OutboxEntity → Bool) → OutboxEntity → Type 0
IsTaken route r = (x : OutboxEntity) → x.event ≡ r.event → x.payload ≡ r.payload → route x ≡ true

abbrev pub is_waiting : OutboxEntity → Bool
is_waiting r = not (is_sent r)

-- Pending, sent, or stuck for long enough to be reset.
abbrev pub is_ready : (now : ℕ) → OutboxEntity → Bool
is_ready now r = is_pending r || (is_sent r || is_stuck now r)

abbrev is_open : OutboxEntity → Bool
is_open r = is_pending r || is_sent r

reset_row-open :
    (now : ℕ) (r : OutboxEntity) → is_ready now r ≡ true → is_open (reset_row now r) ≡ true
unfolding reset_row
reset_row-open now r h = ground (arith, h)

reset_row-waiting :
    (now : ℕ) (r : OutboxEntity) → is_waiting (reset_row now r) ≡ true → is_waiting r ≡ true
unfolding reset_row
reset_row-waiting now r h = ground (arith, h)

reset_row-IsTaken :
    (route : OutboxEntity → Bool) (now : ℕ) (r : OutboxEntity)
    → IsTaken route r
    → IsTaken route (reset_row now r)
unfolding reset_row
reset_row-IsTaken route now r h x e p = h x (ground (arith, e)) (ground (arith, p))

module _ (route : OutboxEntity → Bool) (now later : ℕ) (found : List OutboxEntity) where
  settled_row-open :
      (r : OutboxEntity) → is_open r ≡ true → is_open (settled_row route now later found r) ≡ true
  settled_row-open r h = ground (arith, h)

  settled_row-IsTaken :
      (r : OutboxEntity) → IsTaken route r → IsTaken route (settled_row route now later found r)
  settled_row-IsTaken r h x e p = h x (ground (arith, e)) (ground (arith, p))

  settled_row-id : (r : OutboxEntity) → (settled_row route now later found r).id ≡ r.id
  settled_row-id r = ground arith

  -- A taken entry that still waits was not found, and was pending before.
  settled_row-waiting :
      (r : OutboxEntity)
      → is_open r ≡ true
      → IsTaken route r
      → is_waiting (settled_row route now later found r) ≡ true
      → (not (member r.id (ids_of found)) && is_pending r) ≡ true
  settled_row-waiting r o t w = ground (arith, o, t r refl refl, w)

  taken-clean :
      (rows : List OutboxEntity)
      → All (IsTaken route) rows
      → any (is_poison route found) rows ≡ false
  taken-clean [] h = refl
  taken-clean (r ∷ rows) h = ground (arith, h.0 r refl refl, taken-clean rows h.1)

-- The ids of a list have each of its rows.
member-own :
    (rows : List OutboxEntity)
    → All (λ (r : OutboxEntity). not (member r.id (ids_of rows)) ≡ false) rows
member-own [] = tt
member-own (r ∷ rows) =
    (ground (arith, beq_self r.id), All-imp (λ e h. ground (arith, h)) rows (member-own rows))

-- No more wait than the entries that were pending and not found.
left_waiting :
    (limit : ℕ) (left : List OutboxEntity)
    → count (λ r. not (member r.id (ids_of (oldest_pending limit left))) && is_pending r) left
      ≤ count is_pending left - limit
unfolding oldest_pending
left_waiting limit left =
    let queue = sort_by oldest_first (filter is_pending left) in
    let is_left : OutboxEntity → Bool = λ r. not (member r.id (ids_of (take limit queue))) in
    let at_most : count is_left queue ≤ length queue - limit =
      count-take is_left limit queue (member-own (take limit queue)) in
    omega (
      arith,
      at_most,
      length-count queue,
      count-sort_by oldest_first is_left (filter is_pending left),
      count-filter is_left is_pending left,
      count-sort_by oldest_first (λ r. true) (filter is_pending left),
      count-filter (λ r. true) is_pending left,
    )

pending_waiting : (rows : List OutboxEntity) → count is_pending rows ≤ count is_waiting rows
pending_waiting rows =
    count-le is_pending is_waiting rows (All-every (λ r h. ground (arith, h)) rows)

reset_stuck-waiting :
    (now : ℕ) (rows : List OutboxEntity)
    → count is_waiting (reset_stuck now rows) ≤ count is_waiting rows
unfolding reset_stuck
reset_stuck-waiting now rows = omega (
  arith,
  count-map is_waiting (reset_row now) rows,
  count-le (λ r. is_waiting (reset_row now r)) is_waiting rows
      (All-every (reset_row-waiting now) rows),
)

-- What one call needs of the table, and leaves.
record IsDrainable (route : OutboxEntity → Bool) (rows : List OutboxEntity) : Type 0 where
  unique : UniqueIds rows
  taken : All (IsTaken route) rows
  opened : All (λ r. is_open r ≡ true) rows

round-left :
    (route : OutboxEntity → Bool) (now later : ℕ) (left : List OutboxEntity)
    → IsDrainable route left
    → let settled = settled_row route now later (oldest_pending 50 left) in
      IsDrainable route (map settled left)
      × (count is_waiting (map settled left) ≤ count is_waiting left - 50)
round-left route now later left d =
    let found = oldest_pending 50 left in
    let settled = settled_row route now later found in
    (
      record {
        unique = map-UniqueIds settled left (settled_row-id route now later found) d.unique;
        taken =
            All-map (IsTaken route) settled left
              (All-imp (settled_row-IsTaken route now later found) left d.taken);
        opened =
            All-map (λ r. is_open r ≡ true) settled left
              (All-imp (settled_row-open route now later found) left d.opened);
      },
      omega (
        arith,
        count-map is_waiting settled left,
        count-le (λ r. is_waiting (settled r))
            (λ r. not (member r.id (ids_of found)) && is_pending r) left
            (All-imp (λ r both. settled_row-waiting route now later found r both.0 both.1) left
              (All-both (λ r. is_open r ≡ true) (IsTaken route) left d.opened d.taken)),
        left_waiting 50 left,
        pending_waiting left,
      ),
    )

reset_stuck-IsDrainable :
    (route : OutboxEntity → Bool) (now : ℕ) (rows : List OutboxEntity)
    → UniqueIds rows
    → All (IsTaken route) rows
    → All (λ r. is_ready now r ≡ true) rows
    → IsDrainable route (reset_stuck now rows)
unfolding reset_stuck
reset_stuck-IsDrainable route now rows u t o = record {
  unique = reset_stuck-UniqueIds now rows u;
  taken =
      All-map (IsTaken route) (reset_row now) rows (All-imp (reset_row-IsTaken route now) rows t);
  opened =
      All-map (λ r. is_open r ≡ true) (reset_row now) rows (All-imp (reset_row-open now) rows o);
}

-- One call sends 50 entries or all that wait.
round-waiting :
    (route : OutboxEntity → Bool) (now later : ℕ) (rows : List OutboxEntity)
    → UniqueIds rows
    → All (IsTaken route) rows
    → All (λ r. is_ready now r ≡ true) rows
    → IsDrainable route (publish route true now later rows)
      × (count is_waiting (publish route true now later rows) ≤ count is_waiting rows - 50)
round-waiting route now later rows u t o =
    let left = reset_stuck now rows in
    let d = reset_stuck-IsDrainable route now rows u t o in
    let step = round-left route now later left d in
    rw
      (
        publish-round_rows route true now later rows u,
        taken-clean route now later (oldest_pending 50 left) left d.taken,
      )
      (step.0, omega (arith, step.1, reset_stuck-waiting now rows))

open-ready : (now : ℕ) (r : OutboxEntity) → is_open r ≡ true → is_ready now r ≡ true
open-ready now r h = ground (arith, h)

rounds-drained :
    (route : OutboxEntity → Bool) (times : List (ℕ × ℕ)) (rows : List OutboxEntity)
    → IsDrainable route rows
    → count is_waiting rows ≤ 50 * length times
    → All (λ r. is_waiting r ≡ false) (publish_rounds route times rows)
unfolding publish_rounds
rounds-drained route [] rows d h = count-none is_waiting rows (omega (arith, h))
rounds-drained route ((now, later) ∷ times) rows d h =
    let step =
      round-waiting route now later rows d.unique d.taken
        (All-imp (open-ready now) rows d.opened) in
    rounds-drained route times (publish route true now later rows) step.0 (omega (arith, step.1, h))

-- Where ids are unique, every entry is pending, sent or stuck for five minutes at the first call,
-- the calls get the lock, and publishers take every entry, as many calls as 50 goes into the number
-- of entries that wait leave all entries sent.
pub publish_rounds-drained :
    (route : OutboxEntity → Bool) (now later : ℕ) (times : List (ℕ × ℕ)) (rows : List OutboxEntity)
    → UniqueIds rows
    → All (IsTaken route) rows
    → All (λ r. is_ready now r ≡ true) rows
    → count is_waiting rows ≤ 50 * length ((now, later) ∷ times)
    → All (λ r. is_waiting r ≡ false) (publish_rounds route ((now, later) ∷ times) rows)
unfolding publish_rounds
publish_rounds-drained route now later times rows u t o h =
    let step = round-waiting route now later rows u t o in
    rounds-drained route times (publish route true now later rows) step.0 (omega (arith, step.1, h))
