-- ===== src/Ledger/Store/Events.antt =====
-- The event rows tell the history: replayed from any amounts they post the changes they record,
-- and the amounts that each row stores are those after it.
use multi_rail_payments_proc.Prelude.{
  ◌≡◌, refl, inl, inr, Option, none, some, List, [], ◌∷◌, ◌++◌, arith, ◌==◌, if◌then◌else◌,
  Option-cases,
}
use multi_rail_payments_proc.Prelude.JsMap.{get, set, get-set}
use multi_rail_payments_proc.Types.{BalanceChange}
use multi_rail_payments_proc.Ledger.Amounts.{Amounts, add_amounts, compute_delta, delta_of}
use multi_rail_payments_proc.Ledger.Keys.{AccountKey, key_eq, key_beq_iff}
use multi_rail_payments_proc.Ledger.Snapshots.{ProjectionSnapshot, SnapshotMap}
use multi_rail_payments_proc.Ledger.Store.{EsRow, es_row, es_rows}
use multi_rail_payments_proc.Ledger.Store.Updates.{posted_at}
use multi_rail_payments_proc.Ledger.Spec.Group.{Covered, HasSnapshot, amounts_of}

-- The amounts of a key, computed from the types and amounts of its events.
unfoldable pub replay : AccountKey → List EsRow → Amounts → Amounts
replay k [] a = a
replay k (r ∷ rs) a =
    replay k rs (if r.key == k then add_amounts a (delta_of r.change_type r.amount) else a)

-- The amounts that the last event of a key stores.
unfoldable pub last_after : AccountKey → List EsRow → Amounts → Amounts
last_after k [] a = a
last_after k (r ∷ rs) a = last_after k rs (if r.key == k then r.after else a)

pub replay-append :
    (k : AccountKey) (rs ss : List EsRow) (a : Amounts)
    → replay k (rs ++ ss) a ≡ replay k ss (replay k rs a)
unfolding replay
replay-append k [] ss a = refl
replay-append k (r ∷ rs) ss a = replay-append k rs ss _

pub last_after-append :
    (k : AccountKey) (rs ss : List EsRow) (a : Amounts)
    → last_after k (rs ++ ss) a ≡ last_after k ss (last_after k rs a)
unfolding last_after
last_after-append k [] ss a = refl
last_after-append k (r ∷ rs) ss a = last_after-append k rs ss _

-- What the rows of a batch are, from the snapshots `m`.
abbrev pub Records :
    (BalanceChange → Option AccountKey)
    → List BalanceChange
    → SnapshotMap
    → Option (List EsRow)
    → Type 0
Records key cs m none = ⊥
Records key cs m (some rows) =
    (k : AccountKey)
    → (a : Amounts)
    → (replay k rows a ≡ posted_at key cs k a)
      × (last_after k rows (amounts_of a (get k m)) ≡ posted_at key cs k (amounts_of a (get k m)))

HasSnapshot-set :
    (ko : Option AccountKey) (k : AccountKey) (s : ProjectionSnapshot) (m : SnapshotMap)
    → HasSnapshot ko m
    → HasSnapshot ko (set k s m)
HasSnapshot-set none k s m h = tt
HasSnapshot-set (some j) k s m h = ground (arith, get-set k j s m)

Covered-set :
    (key : BalanceChange → Option AccountKey) (cs : List BalanceChange) (k : AccountKey)
    (s : ProjectionSnapshot) (m : SnapshotMap)
    → Covered key cs m
    → Covered key cs (set k s m)
Covered-set key [] k s m h = tt
Covered-set key (c ∷ cs) k s m h = (HasSnapshot-set (key c) k s m h.0, Covered-set key cs k s m h.1)

-- One more row, for a change at the key `j` whose snapshot is `s`.
Records-cons :
    (key : BalanceChange → Option AccountKey) (c : BalanceChange) (cs : List BalanceChange)
    (j : AccountKey) (s : ProjectionSnapshot) (m : SnapshotMap) (rest : Option (List EsRow))
    → key c ≡ some j
    → get j m ≡ some s
    → let after = add_amounts s.amounts (compute_delta c) in
      Records key cs (set j (record { key = j; amounts = after }) m) rest
      → Records key
          (c ∷ cs)
          m
          (elim rest [ none ↦ none | some rows ↦ some (es_row c j after ∷ rows) ])
unfolding replay last_after compute_delta
Records-cons key c cs j s m none e f h = h
Records-cons key c cs j s m (some rows) e f h = λ k a. rw e (
  (h k (if j == k then add_amounts a (compute_delta c) else a)).0,
  ground (
    arith,
    (h k a).1,
    get-set j k (record { key = j; amounts = add_amounts s.amounts (compute_delta c) }) m,
    key_beq_iff j k,
  ),
)

-- A change that has no key on this side makes no row.
Records-skip :
    (key : BalanceChange → Option AccountKey) (c : BalanceChange) (cs : List BalanceChange)
    (m : SnapshotMap) (rest : Option (List EsRow))
    → key c ≡ none
    → Records key cs m rest
    → Records key (c ∷ cs) m rest
Records-skip key c cs m none e h = h
Records-skip key c cs m (some rows) e h = λ k a. rw e (h k a)

-- From snapshots of every key that the changes have on a side, `batchInsertEs` makes rows that, replayed
-- from any amounts, post the changes, and of which the last of a key stores the amounts after them.
pub es_rows-Records :
    (key : BalanceChange → Option AccountKey) (cs : List BalanceChange) (m : SnapshotMap)
    → Covered key cs m
    → Records key cs m (es_rows key cs m)
unfolding es_rows replay last_after
es_rows-Records key [] m h = λ k a. (refl, refl)
es_rows-Records key (c ∷ cs) m h = elim (Option-cases (key c)) [
  | inl e ↦
      rw (e, es_rows) (Records-skip key c cs m (es_rows key cs m) e (es_rows-Records key cs m h.1))
  | inr (j, e) ↦ elim (Option-cases (get j m)) [
    | inl f ↦ absurd ((rw e at h.0) f)
    | inr (s, f) ↦
        rw (e, f, es_rows)
          (Records-cons key c cs j s m _ e f
            (es_rows-Records key cs (set j (after s j) m) (Covered-set key cs j (after s j) m h.1)))
  ]
]
  where
    after : ProjectionSnapshot → AccountKey → ProjectionSnapshot
    after s j = record { key = j; amounts = add_amounts s.amounts (compute_delta c) }
