-- ===== src/Ledger/Store/Reads.antt =====
-- Rows that are ensured exist and keep their amounts; a read finds the rows of its keys.
use multi_rail_payments_proc.Prelude.{
  ◌≡◌, refl, ◌≢◌, ◌∙◌, inl, inr, Option, none, some, List, [], ◌∷◌, arith, ◌==◌, any, if◌then◌else◌,
  Bool-cases, beq_self,
}
use multi_rail_payments_proc.Prelude.JsMap.{get, set, get-set, get-union, Unique, set-Unique}
use multi_rail_payments_proc.Ledger.Amounts.{Amounts, no_amounts}
use multi_rail_payments_proc.Ledger.Keys.{AccountKey, key_eq, key_beq_iff}
use multi_rail_payments_proc.Ledger.Keys.Collected.{Listed}
use multi_rail_payments_proc.Ledger.Snapshots.{ProjectionSnapshot}
use multi_rail_payments_proc.Ledger.Store.{
  ProjectionTable, ensure_projections_exist, select_rows, read_snapshots,
}

abbrev pub row_amounts : Option Amounts → Amounts
row_amounts none = no_amounts
row_amounts (some a) = a

-- The amounts of a key in a table; one with no row has nothing.
abbrev pub amounts_in : AccountKey → ProjectionTable → Amounts
amounts_in k t = row_amounts (get k t)

abbrev ensure_one : AccountKey → ProjectionTable → ProjectionTable
ensure_one k t = elim (get k t) [ none ↦ set k no_amounts t | some _ ↦ t ]

ensure_one-amounts :
    (j k : AccountKey) (t : ProjectionTable) → amounts_in k (ensure_one j t) ≡ amounts_in k t
ensure_one-amounts j k t = ground (arith, get-set j k no_amounts t, key_beq_iff j k)

ensure_one-present :
    (j k : AccountKey) (t : ProjectionTable) → get k t ≢ none → get k (ensure_one j t) ≢ none
ensure_one-present j k t h = ground (arith, get-set j k no_amounts t, key_beq_iff j k)

ensure_one-present_self : (k : AccountKey) (t : ProjectionTable) → get k (ensure_one k t) ≢ none
ensure_one-present_self k t = ground (arith, get-set k k no_amounts t, beq_self k)

ensure_one-Unique : (k : AccountKey) (t : ProjectionTable) → Unique t → Unique (ensure_one k t)
ensure_one-Unique k t u = ground (arith, set-Unique k no_amounts t u)

-- New rows have zero amounts, so no balance changes.
pub ensure-amounts :
    (ks : List AccountKey) (k : AccountKey) (t : ProjectionTable)
    → amounts_in k (ensure_projections_exist ks t) ≡ amounts_in k t
unfolding ensure_projections_exist
ensure-amounts [] k t = refl
ensure-amounts (j ∷ ks) k t = ensure-amounts ks k (ensure_one j t) ∙ ensure_one-amounts j k t

ensure-present :
    (ks : List AccountKey) (k : AccountKey) (t : ProjectionTable)
    → get k t ≢ none
    → get k (ensure_projections_exist ks t) ≢ none
unfolding ensure_projections_exist
ensure-present [] k t h = h
ensure-present (j ∷ ks) k t h = ensure-present ks k (ensure_one j t) (ensure_one-present j k t h)

pub ensure-Listed :
    (ks : List AccountKey) (k : AccountKey) (t : ProjectionTable)
    → Listed k ks
    → get k (ensure_projections_exist ks t) ≢ none
unfolding ensure_projections_exist
ensure-Listed [] k t h = cc
ensure-Listed (j ∷ ks) k t h = elim (Bool-cases (j == k)) [
  | inl e ↦
      ensure-present ks k (ensure_one j t)
        (ground (arith, key_beq_iff j k, ensure_one-present_self k t))
  | inr e ↦ ensure-Listed ks k (ensure_one j t) (ground arith)
]

pub ensure-Unique :
    (ks : List AccountKey) (t : ProjectionTable) → Unique t → Unique (ensure_projections_exist ks t)
unfolding ensure_projections_exist
ensure-Unique [] t u = u
ensure-Unique (j ∷ ks) t u = ensure-Unique ks (ensure_one j t) (ensure_one-Unique j t u)

abbrev pub snapshot_of : AccountKey → Option Amounts → Option ProjectionSnapshot
snapshot_of k none = none
snapshot_of k (some a) = some (record { key = k; amounts = a })

get-select_rows :
    (ks : List AccountKey) (k : AccountKey) (t : ProjectionTable)
    → get k (select_rows ks t) ≡ (if any (λ j. j == k) ks then snapshot_of k (get k t) else none)
unfolding select_rows
get-select_rows ks k [] = ground arith
get-select_rows ks k ((i, a) ∷ t) = elim (Bool-cases (i == k)) [
  | inl e ↦
      let same : i ≡ k = (key_beq_iff i k).0 e in
      rw same (ground (arith, beq_self k, get-select_rows ks k t))
  | inr e ↦ ground (arith, get-select_rows ks k t)
]

select_rows-Unique :
    (ks : List AccountKey) (t : ProjectionTable) → Unique t → Unique (select_rows ks t)
unfolding select_rows
select_rows-Unique ks [] u = tt
select_rows-Unique ks ((i, a) ∷ t) u =
    ground (arith, get-select_rows ks i t, select_rows-Unique ks t u.1)

-- A read of the keys `ks` has exactly the rows with a key among them.
pub get-read_snapshots :
    (ks : List AccountKey) (k : AccountKey) (t : ProjectionTable)
    → Unique t
    → get k (read_snapshots ks t) ≡ (if any (λ j. j == k) ks then snapshot_of k (get k t) else none)
unfolding read_snapshots
get-read_snapshots ks k t u =
    ground
      (arith, get-union k [] (select_rows ks t) (select_rows-Unique ks t u), get-select_rows ks k t)
