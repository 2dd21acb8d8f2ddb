-- ===== src/Outbox/Round.antt =====
-- What a call of the publisher does to each row: `settled_row` is an independent description.
use multi_rail_payments_proc.Prelude.{
  ℕ, ◌+◌, ◌≡◌, refl, sym, ap, ◌∙◌, Bool, true, false, not, ◌&&◌, none, some, List, [], ◌∷◌, map,
  arith, any, nat_beq, nat_beq_iff, leb, All, All-imp, All-map, map_ext, map_id, map-map, any-map,
  or_else, if◌then◌else◌, Bool-cases, inl, inr,
}
use multi_rail_payments_proc.Prelude.Sort.{filter, All-take, All-sort_by, All-filter}
use multi_rail_payments_proc.Outbox.{
  OutboxEntity, pending, sent, processing, is_pending, is_empty, member, ids_of, reset_row,
  reset_stuck, oldest_pending, oldest_first, claim_row, find_pending, mark_sent_row, mark_sent,
  retry_row, overflows, increment_retries,
}
use multi_rail_payments_proc.Outbox.Publish.{
  Routed, max_items, route_entry, route_all, claim, settle, publish,
}

-- Rows with one id are one row, as the primary key has it.
abbrev pub SameRow : OutboxEntity → OutboxEntity → Type 0
SameRow r e = e.id ≡ r.id → e ≡ r

abbrev pub UniqueIds : List OutboxEntity → Type 0
UniqueIds rows = All (λ r. All (SameRow r) rows) rows

abbrev pub found_entries : (locked : Bool) (now : ℕ) → List OutboxEntity → List OutboxEntity
found_entries locked now rows =
    if locked then oldest_pending max_items (reset_stuck now rows) else []

-- A found entry is sent where its publisher takes it, and else is pending again with one more retry.
abbrev pub settled_row :
    (route : OutboxEntity → Bool) (now later : ℕ) (found : List OutboxEntity)
    → OutboxEntity
    → OutboxEntity
settled_row route now later found r =
    if member r.id (ids_of found)
    then if route r
      then record r { status = sent; processing_at = some now; sent_at = some later }
      else record r { status = pending; processing_at = none; retries = r.retries + 1 }
    else r

-- A found entry that its publisher refuses and whose count of retries is full.
abbrev pub is_poison :
    (route : OutboxEntity → Bool) (found : List OutboxEntity) → OutboxEntity → Bool
is_poison route found r = member r.id (ids_of found) && (not (route r) && leb 32767 r.retries)

claim_row-none : (now : ℕ) (r : OutboxEntity) → claim_row now [] r ≡ r
unfolding claim_row
claim_row-none now r = refl

abbrev pub claimed_by :
    (now : ℕ) (found rows : List OutboxEntity) → List OutboxEntity × List OutboxEntity
claimed_by now found rows = (found, map (claim_row now (ids_of found)) rows)

-- The early return where nothing is found changes nothing.
find-claimed :
    (now : ℕ) (found rows : List OutboxEntity)
    → (if is_empty found then ([], rows) else claimed_by now found rows) ≡ claimed_by now found rows
find-claimed now [] rows = rw (map_id (claim_row now []) rows (claim_row-none now)) refl
find-claimed now (e ∷ es) rows = refl

pub claim_lem :
    (locked : Bool) (now : ℕ) (rows : List OutboxEntity)
    → claim locked now rows ≡ claimed_by now (found_entries locked now rows) (reset_stuck now rows)
unfolding claim find_pending
claim_lem false now rows =
    rw (map_id (claim_row now []) (reset_stuck now rows) (claim_row-none now)) refl
claim_lem true now rows =
    find-claimed now (oldest_pending max_items (reset_stuck now rows)) (reset_stuck now rows)

-- An id is sent or failed as the route answers for its row.
route_all-member :
    (route : OutboxEntity → Bool) (r : OutboxEntity) (found : List OutboxEntity)
    → All (SameRow r) found
    → (member r.id (route_all route found).sent_ids ≡ (member r.id (ids_of found) && route r))
      × (member r.id (route_all route found).failed_ids
          ≡ (member r.id (ids_of found) && not (route r)))
unfolding route_all route_entry
route_all-member route r [] h = (refl, refl)
route_all-member route r (e ∷ es) h =
    let rest = route_all-member route r es h.1 in
    elim (Bool-cases (nat_beq e.id r.id)) [
      | inl same ↦
          rw (h.0 ((nat_beq_iff e.id r.id).0 same)) ((ground (arith, rest), ground (arith, rest)))
      | inr other ↦ ground (arith, rest, other)
    ]

map-nil :
    (f : List ℕ → OutboxEntity → OutboxEntity) (ids : List ℕ) (rows : List OutboxEntity)
    → ((r : OutboxEntity) → f [] r ≡ r)
    → (if is_empty ids then rows else map (f ids) rows) ≡ map (f ids) rows
map-nil f [] rows h = sym (map_id (f []) rows h)
map-nil f (i ∷ ids) rows h = refl

any-none : (rows : List OutboxEntity) → any (overflows []) rows ≡ false
any-none [] = refl
any-none (r ∷ rows) = any-none rows

mark_sent_row-none : (later : ℕ) (r : OutboxEntity) → mark_sent_row later [] r ≡ r
unfolding mark_sent_row
mark_sent_row-none later r = refl

retry-nil :
    (ids : List ℕ) (rows : List OutboxEntity)
    → (if is_empty ids then some rows else increment_retries ids rows) ≡ increment_retries ids rows
unfolding increment_retries retry_row
retry-nil (i ∷ ids) rows = refl
retry-nil [] rows = rw (any-none rows, map_id (retry_row []) rows (λ r. refl)) refl

-- The guards of the second transaction skip what would change nothing.
pub settle_lem :
    (later : ℕ) (routed : Routed) (rows : List OutboxEntity)
    → settle later routed rows
      ≡ increment_retries routed.failed_ids (map (mark_sent_row later routed.sent_ids) rows)
unfolding settle mark_sent
settle_lem later routed rows =
    retry-nil routed.failed_ids _
    ∙ ap (increment_retries routed.failed_ids)
        (map-nil (mark_sent_row later) routed.sent_ids rows (mark_sent_row-none later))

-- Updates of single rows that keep the id keep ids unique.
pub map-UniqueIds :
    (f : OutboxEntity → OutboxEntity) (rows : List OutboxEntity)
    → ((r : OutboxEntity) → (f r).id ≡ r.id)
    → UniqueIds rows
    → UniqueIds (map f rows)
map-UniqueIds f rows keep h =
    All-map (λ r. All (SameRow r) (map f rows)) f rows
      (All-imp
        (λ r known.
          All-map (SameRow (f r)) f rows
            (All-imp (λ e one same. ap f (one (sym (keep e) ∙ same ∙ keep r))) rows known))
        rows h)

pub reset_row-id : (now : ℕ) (r : OutboxEntity) → (reset_row now r).id ≡ r.id
unfolding reset_row
reset_row-id now r = ground arith

pub reset_stuck-UniqueIds :
    (now : ℕ) (rows : List OutboxEntity) → UniqueIds rows → UniqueIds (reset_stuck now rows)
unfolding reset_stuck
reset_stuck-UniqueIds now rows h = map-UniqueIds (reset_row now) rows (reset_row-id now) h

found-SameRow :
    (locked : Bool) (now : ℕ) (rows : List OutboxEntity) (r : OutboxEntity)
    → All (SameRow r) (reset_stuck now rows)
    → All (SameRow r) (found_entries locked now rows)
unfolding oldest_pending
found-SameRow false now rows r h = tt
found-SameRow true now rows r h =
    let left = reset_stuck now rows in
    All-take (SameRow r) max_items _ (
      All-sort_by (SameRow r) oldest_first (filter is_pending left)
        (All-filter (SameRow r) is_pending left (All-imp (λ e known yes. known) left h)))

-- One row through the two updates of the second transaction.
settled_row_lem :
    (route : OutboxEntity → Bool) (now later : ℕ) (found : List OutboxEntity) (r : OutboxEntity)
    → All (SameRow r) found
    → let routed = route_all route found in
      (retry_row routed.failed_ids
          (mark_sent_row later routed.sent_ids (claim_row now (ids_of found) r))
        ≡ settled_row route now later found r)
      × (overflows routed.failed_ids
            (mark_sent_row later routed.sent_ids (claim_row now (ids_of found) r))
          ≡ is_poison route found r)
unfolding retry_row mark_sent_row claim_row
settled_row_lem route now later found r h =
    let split = route_all-member route r found h in
    elim (Bool-cases (member r.id (ids_of found))) [
      | inl in_batch ↦ elim (Bool-cases (route r)) [
        | inl took ↦
            let sent_it : member r.id (route_all route found).sent_ids ≡ true =
              ground (arith, split, in_batch, took) in
            let kept : member r.id (route_all route found).failed_ids ≡ false =
              ground (arith, split, in_batch, took) in
            rw (in_batch, sent_it, kept, took) (refl, refl)
        | inr threw ↦
            let sent_it : member r.id (route_all route found).sent_ids ≡ false =
              ground (arith, split, in_batch, threw) in
            let kept : member r.id (route_all route found).failed_ids ≡ true =
              ground (arith, split, in_batch, threw) in
            rw (in_batch, sent_it, kept, threw) (refl, refl)
      ]
      | inr out ↦
          let sent_it : member r.id (route_all route found).sent_ids ≡ false =
            ground (arith, split, out) in
          let kept : member r.id (route_all route found).failed_ids ≡ false =
            ground (arith, split, out) in
          rw (out, sent_it, kept) (refl, refl)
    ]

settle-found :
    (route : OutboxEntity → Bool) (now later : ℕ) (found left : List OutboxEntity)
    → All (λ r. All (SameRow r) found) left
    → settle later (route_all route found) (map (claim_row now (ids_of found)) left) ≡ (
        if any (is_poison route found) left
        then none
        else some (map (settled_row route now later found) left))
unfolding increment_retries
settle-found route now later found left h =
    let routed = route_all route found in
    let mark = mark_sent_row later routed.sent_ids in
    let claimed = claim_row now (ids_of found) in
    let each = All-imp (settled_row_lem route now later found) left h in
    settle_lem later routed (map claimed left)
    ∙ rw
        (
          map-map claimed mark left,
          any-map (λ r. mark (claimed r)) (overflows routed.failed_ids) (is_poison route found) left
              (All-imp (λ r both. both.1) left each),
          map-map (λ r. mark (claimed r)) (retry_row routed.failed_ids) left,
          map_ext (λ r. retry_row routed.failed_ids (mark (claimed r)))
              (settled_row route now later found) left (All-imp (λ r both. both.0) left each),
        )
        refl

-- What a call leaves of the rows after the reset.
abbrev pub round_rows :
    (route : OutboxEntity → Bool) (now later : ℕ) (found left : List OutboxEntity)
    → List OutboxEntity
round_rows route now later found left =
    if any (is_poison route found) left
    then map (claim_row now (ids_of found)) left
    else map (settled_row route now later found) left

any-poison :
    (route : OutboxEntity → Bool) (rows : List OutboxEntity) → any (is_poison route []) rows ≡ false
any-poison route [] = refl
any-poison route (r ∷ rows) = any-poison route rows

publish-found :
    (route : OutboxEntity → Bool) (now later : ℕ) (found left : List OutboxEntity)
    → All (λ r. All (SameRow r) found) left
    → (if is_empty found
        then map (claim_row now (ids_of found)) left
        else or_else
            (settle later (route_all route found) (map (claim_row now (ids_of found)) left))
            (map (claim_row now (ids_of found)) left))
      ≡ round_rows route now later found left
publish-found route now later [] left h =
    rw
      (
        any-poison route left,
        map_id (claim_row now []) left (claim_row-none now),
        map_id (λ r. r) left (λ r. refl),
      )
      refl
publish-found route now later (e ∷ es) left h =
    rw (settle-found route now later (e ∷ es) left h)
      (elim (Bool-cases (any (is_poison route (e ∷ es)) left)) [
        | inl poisoned ↦ rw poisoned refl
        | inr clean ↦ rw clean refl
      ])

pub publish-round_rows :
    (route : OutboxEntity → Bool) (locked : Bool) (now later : ℕ) (rows : List OutboxEntity)
    → UniqueIds rows
    → publish route locked now later rows
      ≡ round_rows route now later (found_entries locked now rows) (reset_stuck now rows)
unfolding publish
publish-round_rows route locked now later rows h =
    let left = reset_stuck now rows in
    rw (claim_lem locked now rows) (
      publish-found route now later (found_entries locked now rows) left
        (All-imp (found-SameRow locked now rows) left (reset_stuck-UniqueIds now rows h)))

claim_row-processing :
    (now : ℕ) (ids : List ℕ) (rows : List OutboxEntity)
    → All
        (λ (r : OutboxEntity). r.status ≡ processing)
        (filter (λ (r : OutboxEntity). member r.id ids) (map (claim_row now ids) rows))
unfolding claim_row
claim_row-processing now ids [] = tt
claim_row-processing now ids (r ∷ rows) =
    let rest = claim_row-processing now ids rows in
    elim (Bool-cases (member r.id ids)) [
      | inl in_batch ↦ rw (in_batch, in_batch) (refl, rest)
      | inr out ↦ rw (out, out) rest
    ]

-- Where ids are unique, one found entry that is refused with a full count of retries keeps all found
-- entries in processing, those that were published included.
pub publish-poisoned :
    (route : OutboxEntity → Bool) (locked : Bool) (now later : ℕ) (rows : List OutboxEntity)
    → UniqueIds rows
    → any (is_poison route (found_entries locked now rows)) (reset_stuck now rows) ≡ true
    → All
        (λ (r : OutboxEntity). r.status ≡ processing)
        (filter
          (λ (r : OutboxEntity). member r.id (ids_of (found_entries locked now rows)))
          (publish route locked now later rows))
publish-poisoned route locked now later rows h poisoned =
    rw (publish-round_rows route locked now later rows h, poisoned)
      (claim_row-processing now (ids_of (found_entries locked now rows)) (reset_stuck now rows))
