-- ===== src/Ledger/Apply/Accepted.antt =====
-- The changes that a run accepts are changes of its groups.
use multi_rail_payments_proc.Prelude.{
  inl, inr, Option, none, some, List, [], ◌∷◌, ◌++◌, All, All-append,
}
use multi_rail_payments_proc.Prelude.JsMap.{union}
use multi_rail_payments_proc.Types.{BalanceChange}
use multi_rail_payments_proc.Ledger.Keys.{key_eq}
use multi_rail_payments_proc.Ledger.Snapshots.{SnapshotMap, IntentGroup, apply_group_to_snapshots}
use multi_rail_payments_proc.Ledger.Store.{IntentApplyResult, apply_groups, all_changes}
use multi_rail_payments_proc.Ledger.Spec.Run.{Checked-cases}

-- The changes of the accepted groups are among the changes of the groups.
abbrev pub Accepted :
    (BalanceChange → Type 0) → Option (List IntentApplyResult × List BalanceChange) → Type 0
Accepted P none = Unit {0}
Accepted P (some (results, changes)) = All P changes

All-split :
    (P : BalanceChange → Type 0) (cs ds : List BalanceChange)
    → All P (cs ++ ds)
    → All P cs × All P ds
All-split P [] ds h = (tt, h)
All-split P (c ∷ cs) ds h = let (l, r) = All-split P cs ds h.1 in ((h.0, l), r)

module _ (P : BalanceChange → Type 0) where
  abbrev with_changes :
      List BalanceChange
      → IntentApplyResult
      → Option (List IntentApplyResult × List BalanceChange)
      → Option (List IntentApplyResult × List BalanceChange)
  with_changes cs r rest = elim rest [
    | none ↦ none
    | some (results, changes) ↦ some (r ∷ results, cs ++ changes)
  ]

  Accepted-with :
      (cs : List BalanceChange) (r : IntentApplyResult)
      (rest : Option (List IntentApplyResult × List BalanceChange))
      → All P cs
      → Accepted P rest
      → Accepted P (with_changes cs r rest)
  Accepted-with cs r none h a = tt
  Accepted-with cs r (some (results, changes)) h a = All-append P cs changes h a

  Accepted-without :
      (r : IntentApplyResult) (rest : Option (List IntentApplyResult × List BalanceChange))
      → Accepted P rest
      → Accepted P
          (elim rest [ none ↦ none | some (results, changes) ↦ some (r ∷ results, changes) ])
  Accepted-without r none a = tt
  Accepted-without r (some (results, changes)) a = a

  pub apply_groups-Accepted :
      (gs : List IntentGroup) (i p : SnapshotMap)
      → All P (all_changes gs)
      → Accepted P (apply_groups gs i p)
  unfolding apply_groups
  apply_groups-Accepted [] i p h = tt
  apply_groups-Accepted (g ∷ gs) i p h = elim (Checked-cases (apply_group_to_snapshots g i p)) [
    | inl ((iu, pu), e) ↦
        rw (e, apply_groups)
          (Accepted-with g.changes _ _ (All-split P g.changes (all_changes gs) h).0 (
            apply_groups-Accepted gs (union i iu) (union p pu)
              (All-split P g.changes (all_changes gs) h).1))
    | inr (inl (err, e)) ↦
        rw (e, apply_groups)
          (Accepted-without _ _
            (apply_groups-Accepted gs i p (All-split P g.changes (all_changes gs) h).1))
    | inr (inr e) ↦ rw (e, apply_groups) tt
  ]
