-- ===== src/Outbox/Oldest.antt =====
-- Which entries a call takes: the oldest ones.
use multi_rail_payments_proc.Prelude.{
  ℕ, zero, suc, ◌≡◌, ◌≤◌, refl, ◌∙◌, ap, Bool, ◌&&◌, if◌then◌else◌, true, List, [], ◌∷◌, arith, leb,
  nat_beq_iff, All, All-imp, All-every, length, Bool-cases, inl, inr, ◌⊎◌,
}
use multi_rail_payments_proc.Prelude.Sort.{
  insert_sorted, sort_by, take, filter, All-take, All-insert_sorted, count, count-sort_by,
  count-filter,
}
use multi_rail_payments_proc.Outbox.{
  OutboxEntity, is_pending, member, ids_of, oldest_first, oldest_pending,
}

abbrev NotOlder : OutboxEntity → OutboxEntity → Type 0
NotOlder e r = e.created_at ≤ r.created_at

unfoldable pub AreOldestFirst : List OutboxEntity → Type 0
AreOldestFirst [] = Unit {0}
AreOldestFirst (e ∷ es) = All (NotOlder e) es × AreOldestFirst es

insert-AreOldestFirst :
    (e : OutboxEntity) (es : List OutboxEntity)
    → AreOldestFirst es
    → AreOldestFirst (insert_sorted oldest_first e es)
unfolding insert_sorted AreOldestFirst
insert-AreOldestFirst e [] h = (tt, tt)
insert-AreOldestFirst e (f ∷ fs) h = elim (Bool-cases (leb e.created_at f.created_at)) [
  | inl before ↦
      let first : e.created_at ≤ f.created_at = ground (arith, before) in
      rw before ((first, All-imp (λ r later. omega (arith, first, later)) fs h.0), h)
  | inr after ↦
      let first : f.created_at ≤ e.created_at = ground (arith, after) in
      rw after
        (All-insert_sorted (NotOlder f) oldest_first e fs first h.0, insert-AreOldestFirst e fs h.1)
]

sort-AreOldestFirst : (es : List OutboxEntity) → AreOldestFirst (sort_by oldest_first es)
unfolding sort_by AreOldestFirst
sort-AreOldestFirst [] = tt
sort-AreOldestFirst (e ∷ es) =
    insert-AreOldestFirst e (sort_by oldest_first es) (sort-AreOldestFirst es)

take-AreOldestFirst :
    (n : ℕ) (es : List OutboxEntity) → AreOldestFirst es → AreOldestFirst (take n es)
unfolding AreOldestFirst
take-AreOldestFirst n [] h = tt
take-AreOldestFirst zero (e ∷ es) h = tt
take-AreOldestFirst (suc n) (e ∷ es) h =
    (All-take (NotOlder e) n es h.0, take-AreOldestFirst n es h.1)

-- The entry is among the found ones, or none of those is younger.
abbrev pub IsTurn : List OutboxEntity → OutboxEntity → Type 0
IsTurn found r = (member r.id (ids_of found) ≡ true) ⊎ All (λ e. NotOlder e r) found

later-IsTurn :
    (e : OutboxEntity) (found : List OutboxEntity) (r : OutboxEntity)
    → NotOlder e r
    → IsTurn found r
    → IsTurn (e ∷ found) r
later-IsTurn e found r older (inl m) = inl (ground (arith, m))
later-IsTurn e found r older (inr h) = inr (older, h)

both-IsTurn :
    (e : OutboxEntity) (found es : List OutboxEntity)
    → All (NotOlder e) es
    → All (IsTurn found) es
    → All (IsTurn (e ∷ found)) es
both-IsTurn e found [] h k = tt
both-IsTurn e found (r ∷ es) h k = (later-IsTurn e found r h.0 k.0, both-IsTurn e found es h.1 k.1)

take-IsTurn : (n : ℕ) (es : List OutboxEntity) → AreOldestFirst es → All (IsTurn (take n es)) es
unfolding AreOldestFirst
take-IsTurn n [] h = tt
take-IsTurn zero (e ∷ es) h = All-every (λ r. inr tt) (e ∷ es)
take-IsTurn (suc n) (e ∷ es) h = (
  inl (ground (arith, nat_beq_iff e.id e.id)),
  both-IsTurn e (take n es) es h.0 (take-IsTurn n es h.1),
)

-- What holds of a sorted list holds of its elements.
module _ (P : OutboxEntity → Type 0) where
  insert-back :
      (e : OutboxEntity) (es : List OutboxEntity)
      → All P (insert_sorted oldest_first e es)
      → P e × All P es
  unfolding insert_sorted
  insert-back e [] h = h
  insert-back e (f ∷ fs) h = elim (Bool-cases (leb e.created_at f.created_at)) [
    | inl before ↦ rw before at h
    | inr after ↦
        let split : P f × All P (insert_sorted oldest_first e fs) = rw after at h in
        let rest = insert-back e fs split.1 in (rest.0, (split.0, rest.1))
  ]

  sort-back : (es : List OutboxEntity) → All P (sort_by oldest_first es) → All P es
  unfolding sort_by
  sort-back [] h = tt
  sort-back (e ∷ es) h =
      let rest = insert-back e (sort_by oldest_first es) h in (rest.0, sort-back es rest.1)

length-insert :
    (e : OutboxEntity) (es : List OutboxEntity)
    → length (insert_sorted oldest_first e es) ≡ suc (length es)
unfolding insert_sorted
length-insert e [] = refl
length-insert e (f ∷ fs) = ground (arith, length-insert e fs)

length-sort : (es : List OutboxEntity) → length (sort_by oldest_first es) ≡ length es
unfolding sort_by
length-sort [] = refl
length-sort (e ∷ es) = omega (arith, length-insert e (sort_by oldest_first es), length-sort es)

-- How many entries a prefix has.
abbrev pub at_most : (limit n : ℕ) → ℕ
at_most limit n = if leb limit n then limit else n

length-prefix : (n : ℕ) (es : List OutboxEntity) → length (take n es) ≡ at_most n (length es)
length-prefix n [] = ground arith
length-prefix zero (e ∷ es) = ground arith
length-prefix (suc n) (e ∷ es) = ground (arith, length-prefix n es)

length-filter : (rows : List OutboxEntity) → length (filter is_pending rows) ≡ count is_pending rows
length-filter [] = refl
length-filter (r ∷ rows) = ground (arith, length-filter rows)

count-prefix :
    (p : OutboxEntity → Bool) (n : ℕ) (es : List OutboxEntity) → count p (take n es) ≤ count p es
count-prefix p n [] = omega arith
count-prefix p zero (e ∷ es) = ground arith
count-prefix p (suc n) (e ∷ es) = ground (arith, count-prefix p n es)

-- The entries found are pending entries of the table, each no more often than it is there, as many as
-- the limit allows or all pending ones, the oldest first, and no pending entry that is not among them
-- is older than one of them.
pub oldest_pending-AreOldestFirst :
    (limit : ℕ) (rows : List OutboxEntity)
    → (length (oldest_pending limit rows) ≡ at_most limit (count is_pending rows))
      × ((p : OutboxEntity → Bool)
          → count p (oldest_pending limit rows) ≤ count (λ e. p e && is_pending e) rows)
      × (AreOldestFirst (oldest_pending limit rows)
          × All (IsTurn (oldest_pending limit rows)) (filter is_pending rows))
unfolding oldest_pending
oldest_pending-AreOldestFirst limit rows =
    let queue = sort_by oldest_first (filter is_pending rows) in
    let sorted = sort-AreOldestFirst (filter is_pending rows) in
    (
      length-prefix limit queue
          ∙ ap (at_most limit) (length-sort (filter is_pending rows) ∙ length-filter rows),
      λ p. omega (
        arith,
        count-prefix p limit queue,
        count-sort_by oldest_first p (filter is_pending rows),
        count-filter p is_pending rows,
      ),
      (
        take-AreOldestFirst limit queue sorted,
        sort-back (IsTurn (take limit queue)) (filter is_pending rows)
            (take-IsTurn limit queue sorted),
      ),
    )
