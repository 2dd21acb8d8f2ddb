-- ===== src/Ledger/Apply/Range.antt =====
-- Amounts stay within their columns: what a batch can make of amounts of a known size.
use multi_rail_payments_proc.Prelude.{
  ℕ, suc, ◌+◌, ◌≤◌, ◌≡◌, refl, true, Option, none, some, List, [], ◌∷◌, ◌++◌, arith, All-imp, inl,
  inr, Option-cases, Bool-cases, any, ◌==◌,
}
use multi_rail_payments_proc.Prelude.Int.{ℤ, ◌+ℤ◌, negated}
use multi_rail_payments_proc.Prelude.JsMap.{
  JsMap, get, set, union, AllValues, set-AllValues, get-AllValues, union-AllValues,
}
use multi_rail_payments_proc.Types.{
  BalanceChange, BalanceChangeType, credit, debit, hold, hold_in, release_hold, release_hold_in,
  platform_fee_accrued,
}
use multi_rail_payments_proc.Ledger.Amounts.{
  Amounts, no_amounts, add_amounts, compute_delta, delta_of, magnitude, column_limit, fits_column,
  amounts_fit,
}
use multi_rail_payments_proc.Ledger.Keys.{AccountKey, key_eq}
use multi_rail_payments_proc.Ledger.Snapshots.{
  ProjectionSnapshot, SnapshotMap, IntentGroup, apply_group_to_snapshots,
}
use multi_rail_payments_proc.Ledger.Store.{
  EsRow, LedgerDb, ProjectionTable, IntentApplyResult, ensure_projections_exist, select_rows,
  read_snapshots, add_delta, delta_map, update_rows, es_rows, es_row, rows_fit, table_fits,
  apply_groups, all_changes,
}
use multi_rail_payments_proc.Ledger.Spec.Run.{Checked-cases}

-- No amount is further from zero than the bound.
abbrev pub AtMost : ℕ → Amounts → Type 0
AtMost n a = (magnitude a.available ≤ n) × (magnitude a.hold ≤ n) × (magnitude a.hold_in ≤ n)

-- The amounts of the changes, added up.
unfoldable pub volume : List BalanceChange → ℕ
volume [] = 0
volume (c ∷ cs) = magnitude c.amount + volume cs

magnitude-add : (a b : ℤ) → magnitude (a +ℤ b) ≤ magnitude a + magnitude b
unfolding ◌+ℤ◌
magnitude-add a b = ground arith

magnitude-negated : (a : ℤ) → magnitude (negated a) ≡ magnitude a
unfolding negated
magnitude-negated a = ground arith

AtMost-more : (n m : ℕ) (a : Amounts) → n ≤ m → AtMost n a → AtMost m a
AtMost-more n m a h k = (omega arith, omega arith, omega arith)

AtMost-add : (n m : ℕ) (a d : Amounts) → AtMost n a → AtMost m d → AtMost (n + m) (add_amounts a d)
unfolding add_amounts
AtMost-add n m a d h k = (
  omega (arith, magnitude-add a.available d.available),
  omega (arith, magnitude-add a.hold d.hold),
  omega (arith, magnitude-add a.hold_in d.hold_in),
)

delta_of-AtMost : (t : BalanceChangeType) (x : ℤ) → AtMost (magnitude x) (delta_of t x)
delta_of-AtMost credit x = omega arith
delta_of-AtMost debit x = omega (arith, magnitude-negated x)
delta_of-AtMost hold x = omega (arith, magnitude-negated x)
delta_of-AtMost hold_in x = omega arith
delta_of-AtMost release_hold x = omega (arith, magnitude-negated x)
delta_of-AtMost release_hold_in x = omega (arith, magnitude-negated x)
delta_of-AtMost platform_fee_accrued x = omega (arith, magnitude-negated x)

compute_delta-AtMost : (c : BalanceChange) → AtMost (magnitude c.amount) (compute_delta c)
unfolding compute_delta
compute_delta-AtMost c = delta_of-AtMost c.type c.amount

post-AtMost :
    (n : ℕ) (a : Amounts) (c : BalanceChange)
    → AtMost n a
    → AtMost (n + magnitude c.amount) (add_amounts a (compute_delta c))
post-AtMost n a c h =
    AtMost-add n (magnitude c.amount) a (compute_delta c) h (compute_delta-AtMost c)

AtMost-fits : (n : ℕ) (a : Amounts) → AtMost n a → suc n ≤ column_limit → amounts_fit a ≡ true
AtMost-fits n a h k = ground arith

-- The rows of a table, and the snapshots of a map, are within the bound.
abbrev pub TableAtMost : ℕ → ProjectionTable → Type 0
TableAtMost n t = AllValues (λ a. AtMost n a) t

abbrev pub SnapshotsAtMost : ℕ → SnapshotMap → Type 0
SnapshotsAtMost n m = AllValues (λ (s : ProjectionSnapshot). AtMost n s.amounts) m

TableAtMost-fits :
    (n : ℕ) (t : ProjectionTable) → TableAtMost n t → suc n ≤ column_limit → table_fits t ≡ true
TableAtMost-fits n [] h k = refl
TableAtMost-fits n ((j, a) ∷ t) h k = rw (AtMost-fits n a h.0 k) (TableAtMost-fits n t h.1 k)

no_amounts-AtMost : (n : ℕ) → AtMost n no_amounts
no_amounts-AtMost n = omega arith

pub ensure-AtMost :
    (n : ℕ) (ks : List AccountKey) (t : ProjectionTable)
    → TableAtMost n t
    → TableAtMost n (ensure_projections_exist ks t)
unfolding ensure_projections_exist
ensure-AtMost n [] t h = h
ensure-AtMost n (k ∷ ks) t h = elim (Option-cases (get k t)) [
  | inl e ↦
      rw (e, ensure_projections_exist)
        (ensure-AtMost n ks (set k no_amounts t)
          (set-AllValues (λ a. AtMost n a) k no_amounts t (no_amounts-AtMost n) h))
  | inr (a, e) ↦ rw (e, ensure_projections_exist) (ensure-AtMost n ks t h)
]

select_rows-AtMost :
    (n : ℕ) (keys : List AccountKey) (t : ProjectionTable)
    → TableAtMost n t
    → SnapshotsAtMost n (select_rows keys t)
unfolding select_rows
select_rows-AtMost n keys [] h = tt
select_rows-AtMost n keys ((k, a) ∷ t) h = elim (Bool-cases (any (λ j. j == k) keys)) [
  | inl b ↦ rw b (h.0, select_rows-AtMost n keys t h.1)
  | inr b ↦ rw b (select_rows-AtMost n keys t h.1)
]

pub read_snapshots-AtMost :
    (n : ℕ) (keys : List AccountKey) (t : ProjectionTable)
    → TableAtMost n t
    → SnapshotsAtMost n (read_snapshots keys t)
unfolding read_snapshots
read_snapshots-AtMost n keys t h =
    union-AllValues (λ (s : ProjectionSnapshot). AtMost n s.amounts) [] (select_rows keys t) tt
      (select_rows-AtMost n keys t h)

TableAtMost-more : (n m : ℕ) (t : ProjectionTable) → n ≤ m → TableAtMost n t → TableAtMost m t
TableAtMost-more n m t h k = All-imp (λ p l. AtMost-more n m p.1 h l) t k

add_delta-AtMost :
    (m : ℕ) (c : BalanceChange) (ko : Option AccountKey) (deltas : JsMap AccountKey Amounts)
    → TableAtMost m deltas
    → TableAtMost (m + magnitude c.amount) (add_delta ko (compute_delta c) deltas)
unfolding add_delta
add_delta-AtMost m c none deltas h =
    TableAtMost-more m (m + magnitude c.amount) deltas (omega arith) h
add_delta-AtMost m c (some k) deltas h =
    let n = m + magnitude c.amount in
    let wide = TableAtMost-more m n deltas (omega arith) h in
    elim (Option-cases (get k deltas)) [
      | inl e ↦
          rw (e, add_delta)
            (set-AllValues (λ a. AtMost n a) k (compute_delta c) deltas
              (AtMost-more (magnitude c.amount) n (compute_delta c) (omega arith)
                (compute_delta-AtMost c))
              wide)
      | inr (old, e) ↦
          rw (e, add_delta)
            (set-AllValues (λ a. AtMost n a) k (add_amounts old (compute_delta c)) deltas
              (post-AtMost m old c (get-AllValues (λ a. AtMost m a) k old deltas h e)) wide)
    ]

module _ (key : BalanceChange → Option AccountKey) where
  delta_map-AtMost :
      (m : ℕ) (cs : List BalanceChange) (deltas : JsMap AccountKey Amounts)
      → TableAtMost m deltas
      → TableAtMost (m + volume cs) (delta_map key cs deltas)
  unfolding delta_map volume
  delta_map-AtMost m [] deltas h = TableAtMost-more m (m + 0) deltas (omega arith) h
  delta_map-AtMost m (c ∷ cs) deltas h =
      TableAtMost-more (m + magnitude c.amount + volume cs) (m + (magnitude c.amount + volume cs)) _
        (omega arith)
        (delta_map-AtMost (m + magnitude c.amount) cs _ (add_delta-AtMost m c (key c) deltas h))

  update_rows-AtMost :
      (n m : ℕ) (deltas : JsMap AccountKey Amounts) (t : ProjectionTable)
      → TableAtMost m deltas
      → TableAtMost n t
      → TableAtMost (n + m) (update_rows deltas t)
  unfolding update_rows
  update_rows-AtMost n m deltas [] d h = tt
  update_rows-AtMost n m deltas ((k, a) ∷ t) d h = elim (Option-cases (get k deltas)) [
    | inl e ↦
        rw e (AtMost-more n (n + m) a (omega arith) h.0, update_rows-AtMost n m deltas t d h.1)
    | inr (v, e) ↦ rw e (
      AtMost-add n m a v h.0 (get-AllValues (λ x. AtMost m x) k v deltas d e),
      update_rows-AtMost n m deltas t d h.1,
    )
  ]

  -- The updated table fits where the rows and the changes leave room.
  pub update_rows-fits :
      (n : ℕ) (cs : List BalanceChange) (t : ProjectionTable)
      → TableAtMost n t
      → suc (n + volume cs) ≤ column_limit
      → table_fits (update_rows (delta_map key cs []) t) ≡ true
  update_rows-fits n cs t h room =
      TableAtMost-fits (n + volume cs) _
        (update_rows-AtMost n (volume cs) (delta_map key cs []) t
          (TableAtMost-more (0 + volume cs) (volume cs) _ (omega arith)
            (delta_map-AtMost 0 cs [] tt))
          h)
        room

  abbrev pub RowsFit : Option (List EsRow) → Type 0
  RowsFit none = Unit {0}
  RowsFit (some rows) = rows_fit rows ≡ true

  RowsFit-cons :
      (r : EsRow) (rest : Option (List EsRow))
      → fits_column r.amount ≡ true
      → amounts_fit r.after ≡ true
      → RowsFit rest
      → RowsFit (elim rest [ none ↦ none | some rows ↦ some (r ∷ rows) ])
  RowsFit-cons r none f g h = tt
  RowsFit-cons r (some rows) f g h = rw (f, g) h

  pub es_rows-fit :
      (n : ℕ) (cs : List BalanceChange) (m : SnapshotMap)
      → SnapshotsAtMost n m
      → suc (n + volume cs) ≤ column_limit
      → RowsFit (es_rows key cs m)
  unfolding es_rows volume
  es_rows-fit n [] m h room = refl
  es_rows-fit n (c ∷ cs) m h room = elim (Option-cases (key c)) [
    | inl e ↦ rw (e, es_rows) (es_rows-fit n cs m h (omega arith))
    | inr (k, e) ↦ elim (Option-cases (get k m)) [
      | inl f ↦ rw (e, f, es_rows) tt
      | inr (s, f) ↦
          let wide = n + magnitude c.amount in
          let after = add_amounts s.amounts (compute_delta c) in
          let within : AtMost wide after =
            post-AtMost n s.amounts c
              (get-AllValues (λ (x : ProjectionSnapshot). AtMost n x.amounts) k s m h f) in
          let all_within : SnapshotsAtMost wide m =
            All-imp (λ p l. AtMost-more n wide p.1.amounts (omega arith) l) m h in
          rw (e, f, es_rows)
            (RowsFit-cons (es_row c k after) _ (ground arith)
              (AtMost-fits wide after within (omega arith))
              (es_rows-fit wide cs _
                (set-AllValues (λ (x : ProjectionSnapshot). AtMost wide x.amounts) k
                  (record { key = k; amounts = after }) m within all_within)
                (omega arith)))
    ]
  ]

volume-append : (cs ds : List BalanceChange) → volume (cs ++ ds) ≡ volume cs + volume ds
unfolding volume
volume-append [] ds = omega arith
volume-append (c ∷ cs) ds = omega (arith, volume-append cs ds)

-- The rows of the database and the changes of the groups leave room in the columns.
pub record HasRoom (groups : List IntentGroup) (db : LedgerDb) : Type 0 where
  pub bound : ℕ
  pub integration : TableAtMost bound db.integration_projection
  pub platform : TableAtMost bound db.platform_projection
  pub room : suc (bound + volume (all_changes groups)) ≤ column_limit

-- What is accepted is no more than what was asked for.
abbrev pub NoMore : ℕ → Option (List IntentApplyResult × List BalanceChange) → Type 0
NoMore n none = Unit {0}
NoMore n (some (results, changes)) = volume changes ≤ n

NoMore-with :
    (n : ℕ) (cs : List BalanceChange) (r : IntentApplyResult)
    (rest : Option (List IntentApplyResult × List BalanceChange))
    → NoMore n rest
    → NoMore
        (volume cs + n)
        (elim rest [ none ↦ none | some (results, changes) ↦ some (r ∷ results, cs ++ changes) ])
NoMore-with n cs r none h = tt
NoMore-with n cs r (some (results, changes)) h = omega (arith, volume-append cs changes)

NoMore-without :
    (n m : ℕ) (r : IntentApplyResult) (rest : Option (List IntentApplyResult × List BalanceChange))
    → n ≤ m
    → NoMore n rest
    → NoMore m (elim rest [ none ↦ none | some (results, changes) ↦ some (r ∷ results, changes) ])
NoMore-without n m r none l h = tt
NoMore-without n m r (some (results, changes)) l h = omega arith

pub apply_groups-NoMore :
    (gs : List IntentGroup) (i p : SnapshotMap)
    → NoMore (volume (all_changes gs)) (apply_groups gs i p)
unfolding apply_groups volume
apply_groups-NoMore [] i p = omega arith
apply_groups-NoMore (g ∷ gs) i p =
    let sum = volume-append g.changes (all_changes gs) in
    elim (Checked-cases (apply_group_to_snapshots g i p)) [
      | inl ((iu, pu), e) ↦
          rw (e, apply_groups, sum)
            (NoMore-with (volume (all_changes gs)) g.changes _ _
              (apply_groups-NoMore gs (union i iu) (union p pu)))
      | inr (inl (err, e)) ↦
          rw (e, apply_groups, sum)
            (NoMore-without (volume (all_changes gs)) _ _ _ (omega arith)
              (apply_groups-NoMore gs i p))
      | inr (inr e) ↦ rw (e, apply_groups) tt
    ]
