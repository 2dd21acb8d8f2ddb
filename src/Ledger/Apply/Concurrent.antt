-- ===== src/Ledger/Apply/Concurrent.antt =====
-- `applyFromGroups` where other transactions commit between its reads and its writes: its row lock
-- keeps none out.
use multi_rail_payments_proc.Prelude.{
  ℕ, ◌≡◌, refl, sym, ◌∙◌, ap, ◌≤◌, inl, inr, Option, none, some, List, [], ◌∷◌, ◌++◌, map, All,
}
use multi_rail_payments_proc.Prelude.JsMap.{union}
use mathlib.Core.Path.{fun_ext}
use multi_rail_payments_proc.Types.{BalanceChange}
use multi_rail_payments_proc.Ledger.Keys.{key_eq, integration_key, platform_key}
use multi_rail_payments_proc.Ledger.Snapshots.{
  SnapshotMap, IntentGroup, ProjectionSnapshot, BalanceApplyError, apply_group_to_snapshots,
}
use multi_rail_payments_proc.Ledger.Store.{
  LedgerDb, IntentApplyResult, success, failure, lock_projections, write_changes, apply_groups,
  all_changes, apply_from_groups,
}
use multi_rail_payments_proc.Ledger.Store.Updates.{HasRow}
use multi_rail_payments_proc.Ledger.Spec.{spec_groups, db_balances}
use multi_rail_payments_proc.Ledger.Spec.Group.{HasSnapshot, view}
use multi_rail_payments_proc.Ledger.Spec.Run.{bump_all, succeeded, Runs, Checked-cases}
use multi_rail_payments_proc.Ledger.Apply.Accepted.{Accepted, apply_groups-Accepted}
use multi_rail_payments_proc.Ledger.Apply.Writes.{AllListed-HaveRows}
use multi_rail_payments_proc.Ledger.Apply.Range.{volume, HasRoom, NoMore, apply_groups-NoMore}
use multi_rail_payments_proc.Ledger.Apply.Batch.{AreUnique, Posted, Writable, write_changes-Posted}
use multi_rail_payments_proc.Ledger.Apply.Refinement.{
  locked, integration_read, platform_read, locked_balances, read_view, integration_listed,
  platform_listed, integration-Covered, platform-Covered, runs, changes-Writable,
}

-- The changes of the groups that were accepted.
abbrev pub accepted_changes : List IntentApplyResult → List BalanceChange
accepted_changes [] = []
accepted_changes (success id changes updates ∷ rs) = changes ++ accepted_changes rs
accepted_changes (failure id changes error ∷ rs) = accepted_changes rs

abbrev AreAccepted : Option (List IntentApplyResult × List BalanceChange) → Type 0
AreAccepted none = Unit {0}
AreAccepted (some (results, changes)) = accepted_changes results ≡ changes

AreAccepted-success :
    (g : IntentGroup) (id : Option ℕ) (updates : List ProjectionSnapshot)
    (rest : Option (List IntentApplyResult × List BalanceChange))
    → AreAccepted rest
    → AreAccepted (elim rest [
      | none ↦ none
      | some (results, changes) ↦
          some (success id g.changes updates ∷ results, g.changes ++ changes)
    ])
AreAccepted-success g id updates none h = tt
AreAccepted-success g id updates (some (results, changes)) h = ap (λ l. g.changes ++ l) h

AreAccepted-failure :
    (g : IntentGroup) (id : Option ℕ) (error : BalanceApplyError)
    (rest : Option (List IntentApplyResult × List BalanceChange))
    → AreAccepted rest
    → AreAccepted (elim rest [
      | none ↦ none
      | some (results, changes) ↦ some (failure id g.changes error ∷ results, changes)
    ])
AreAccepted-failure g id error none h = tt
AreAccepted-failure g id error (some (results, changes)) h = h

apply_groups-AreAccepted :
    (gs : List IntentGroup) (i p : SnapshotMap) → AreAccepted (apply_groups gs i p)
unfolding apply_groups
apply_groups-AreAccepted [] i p = refl
apply_groups-AreAccepted (g ∷ gs) i p = elim (Checked-cases (apply_group_to_snapshots g i p)) [
  | inl ((iu, pu), e) ↦
      rw (e, apply_groups)
        (AreAccepted-success g _ _ _ (apply_groups-AreAccepted gs (union i iu) (union p pu)))
  | inr (inl (err, e)) ↦
      rw (e, apply_groups) (AreAccepted-failure g _ _ _ (apply_groups-AreAccepted gs i p))
  | inr (inr e) ↦ rw (e, apply_groups) tt
]

-- The verdicts are those at the balances read, and the changes of the accepted groups are added to
-- the balances at the writes.
abbrev pub PostsSeen :
    List IntentGroup → (seen db : LedgerDb) → Option (List IntentApplyResult × LedgerDb) → Type 0
PostsSeen groups seen db none = ⊥
PostsSeen groups seen db (some (results, db')) =
    (map succeeded results ≡ (spec_groups groups (db_balances seen)).0)
    × (db_balances db' ≡ bump_all (accepted_changes results) (db_balances db))

module _ (groups : List IntentGroup) (seen db : LedgerDb) where
  written-PostsSeen :
      (results : List IntentApplyResult) (changes : List BalanceChange) (w : Option LedgerDb)
      → map succeeded results ≡ (spec_groups groups (db_balances seen)).0
      → accepted_changes results ≡ changes
      → Posted changes (locked groups db) w
      → PostsSeen groups seen db (elim w [ none ↦ none | some db' ↦ some (results, db') ])
  written-PostsSeen results changes none v a h = h
  written-PostsSeen results changes (some db') v a h = (
    v,
    h
        ∙ ap (bump_all changes) (fun_ext (locked_balances groups db))
        ∙ ap (λ l. bump_all l (db_balances db)) (sym a),
  )

  module _ (cs : AreUnique seen) (hs : HasRoom groups seen) (hd : HasRoom groups db) where
    both-Writable :
        (changes : List BalanceChange)
        → volume changes ≤ volume (all_changes groups)
        → Writable changes
            (integration_read groups seen)
            (platform_read groups seen)
            (locked groups db)
    both-Writable changes less =
        let reads = changes-Writable groups seen hs changes less in
        let writes = changes-Writable groups db hd changes less in
        record {
          integration_table = writes.integration_table;
          platform_table = writes.platform_table;
          integration_rows = reads.integration_rows;
          platform_rows = reads.platform_rows;
        }

    run-PostsSeen :
        (run : Option (List IntentApplyResult × List BalanceChange))
        → Runs groups
            (view
              (db_balances (locked groups seen))
              (integration_read groups seen)
              (platform_read groups seen)
              []
              [])
            run
        → AreAccepted run
        → Accepted (λ d. HasRow (integration_key d) (locked groups db).integration_projection) run
        → Accepted (λ d. HasRow (platform_key d) (locked groups db).platform_projection) run
        → Accepted (λ d. HasSnapshot (integration_key d) (integration_read groups seen)) run
        → Accepted (λ d. HasSnapshot (platform_key d) (platform_read groups seen)) run
        → NoMore (volume (all_changes groups)) run
        → PostsSeen groups seen db (elim run [
          | none ↦ none
          | some (results, changes) ↦
              elim (write_changes changes
                (integration_read groups seen)
                (platform_read groups seen)
                (locked groups db)) [ none ↦ none | some db' ↦ some (results, db') ]
        ])
    run-PostsSeen none r a hi hp ci cp less = r
    run-PostsSeen (some (results, changes)) r a hi hp ci cp less =
        written-PostsSeen results changes _
          (r.0
            ∙ ap (λ b. (spec_groups groups b).0)
                (fun_ext (read_view groups seen cs) ∙ fun_ext (locked_balances groups seen)))
          a
          (write_changes-Posted (integration_read groups seen) (platform_read groups seen)
            (locked groups db) changes hi hp ci cp (both-Writable changes less))

-- Whatever other transactions commit between the reads and the writes of `applyFromGroups`, where in
-- both databases the keys of the tables are unique and the rows leave room in the columns for the
-- changes of the groups: it does not throw, it accepts and refuses the groups by the balances that it read, and it adds every change of
-- the accepted ones once to the balances that the others left, so that no update is lost.
pub apply_from_groups-PostsSeen :
    (groups : List IntentGroup) (seen db : LedgerDb)
    → AreUnique seen
    → AreUnique db
    → HasRoom groups seen
    → HasRoom groups db
    → PostsSeen groups seen db (apply_from_groups groups seen db)
unfolding apply_from_groups lock_projections
apply_from_groups-PostsSeen groups seen db cs cd hs hd =
    run-PostsSeen groups seen db cs hs hd _ (runs groups seen cs)
      (apply_groups-AreAccepted groups _ _)
      (accepted _
        (AllListed-HaveRows _ _ cd.integration integration_key _ (integration_listed groups db cd)))
      (accepted _
        (AllListed-HaveRows _ _ cd.platform platform_key _ (platform_listed groups db cd)))
      (accepted _ (integration-Covered groups seen cs))
      (accepted _ (platform-Covered groups seen cs)) (apply_groups-NoMore groups _ _)
  where
    accepted :
        (P : BalanceChange → Type 0)
        → All P (all_changes groups)
        → Accepted P
            (apply_groups groups (integration_read groups seen) (platform_read groups seen))
    accepted P h = apply_groups-Accepted P groups _ _ h
