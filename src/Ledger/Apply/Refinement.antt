-- ===== src/Ledger/Apply/Refinement.antt =====
-- `applyFromGroups` as a whole against the specification.
use multi_rail_payments_proc.Prelude.{
  ◌+◌, suc, ◌≤◌, arith, ◌≡◌, sym, ◌∙◌, ap, Option, none, some, List, [], map, All,
}
use multi_rail_payments_proc.Prelude.JsMap.{Unique}
use mathlib.Core.Path.{fun_ext}
use multi_rail_payments_proc.Types.{BalanceChange}
use multi_rail_payments_proc.Ledger.Keys.{
  AccountKey, key_eq, integration_key, platform_key, collect_integration_keys,
  collect_platform_keys,
}
use multi_rail_payments_proc.Ledger.Keys.Collected.{
  AllListed, collect_integration_keys-AllListed, collect_platform_keys-AllListed,
}
use multi_rail_payments_proc.Ledger.Snapshots.{SnapshotMap, IntentGroup}
use multi_rail_payments_proc.Ledger.Store.{
  LedgerDb, IntentApplyResult, ensure_projections_exist, read_snapshots, lock_projections,
  write_changes, apply_groups, all_changes, apply_from_groups, batch_upsert_integration_projections,
  batch_upsert_platform_projections,
}
use multi_rail_payments_proc.Ledger.Store.Reads.{ensure-amounts, ensure-Unique}
use multi_rail_payments_proc.Ledger.Store.Updates.{HasRow}
use multi_rail_payments_proc.Ledger.Spec.{
  LedgerAccount, on_integration, on_platform, Balances, spec_groups, db_balances,
}
use multi_rail_payments_proc.Ledger.Spec.Group.{Covered, HasSnapshot, view}
use multi_rail_payments_proc.Ledger.Spec.Run.{bump_all, succeeded, Runs, apply_groups-Runs}
use multi_rail_payments_proc.Ledger.Apply.Accepted.{Accepted, apply_groups-Accepted}
use multi_rail_payments_proc.Ledger.Apply.Writes.{
  ensure-IsSourced, read_snapshots-Shows, AllListed-HaveRows, AllListed-Covered,
}
use multi_rail_payments_proc.Ledger.Apply.Batch.{
  IsConsistent, AreUnique, AreUnique-of, Written, Writable, write_changes-Written,
}
use multi_rail_payments_proc.Ledger.Amounts.{column_limit}
use multi_rail_payments_proc.Ledger.Apply.Range.{
  volume, HasRoom, NoMore, apply_groups-NoMore, ensure-AtMost, read_snapshots-AtMost,
  update_rows-fits, es_rows-fit,
}

module _ (groups : List IntentGroup) (db : LedgerDb) where
  abbrev pub ik : List AccountKey
  ik = collect_integration_keys (all_changes groups)

  abbrev pub pk : List AccountKey
  pk = collect_platform_keys (all_changes groups)

  abbrev pub locked : LedgerDb
  locked = record db {
    integration_projection = ensure_projections_exist ik db.integration_projection;
    platform_projection = ensure_projections_exist pk db.platform_projection;
  }

  abbrev pub integration_read : SnapshotMap
  integration_read = read_snapshots ik locked.integration_projection

  abbrev pub platform_read : SnapshotMap
  platform_read = read_snapshots pk locked.platform_projection

  -- Rows that are added for the lock hold nothing, so no balance changes.
  pub locked_balances : (x : LedgerAccount) → db_balances locked x ≡ db_balances db x
  unfolding db_balances
  locked_balances (on_integration k) = ensure-amounts ik k db.integration_projection
  locked_balances (on_platform k) = ensure-amounts pk k db.platform_projection

  module _ (c : AreUnique db) where
    ui : Unique locked.integration_projection
    ui = ensure-Unique ik db.integration_projection c.integration

    up : Unique locked.platform_projection
    up = ensure-Unique pk db.platform_projection c.platform

    pub read_view :
        (x : LedgerAccount)
        → view (db_balances locked) integration_read platform_read [] [] x ≡ db_balances locked x
    unfolding db_balances
    read_view (on_integration k) = read_snapshots-Shows ik locked.integration_projection ui k
    read_view (on_platform k) = read_snapshots-Shows pk locked.platform_projection up k

    pub integration_listed : AllListed integration_key (all_changes groups) ik
    integration_listed = collect_integration_keys-AllListed (all_changes groups)

    pub platform_listed : AllListed platform_key (all_changes groups) pk
    platform_listed = collect_platform_keys-AllListed (all_changes groups)

    pub integration-Covered : Covered integration_key (all_changes groups) integration_read
    integration-Covered =
        AllListed-Covered ik db.integration_projection c.integration integration_key
          (all_changes groups) integration_listed

    pub platform-Covered : Covered platform_key (all_changes groups) platform_read
    platform-Covered =
        AllListed-Covered pk db.platform_projection c.platform platform_key (all_changes groups)
          platform_listed

    pub runs :
        Runs groups
          (view (db_balances locked) integration_read platform_read [] [])
          (apply_groups groups integration_read platform_read)
    runs =
        apply_groups-Runs (db_balances locked) groups integration_read platform_read
          integration-Covered platform-Covered

  module _ (c : IsConsistent db) where
    locked-IsConsistent : IsConsistent locked
    locked-IsConsistent = record {
      integration = ensure-IsSourced ik db.integration_projection db.integration_es c.integration;
      platform = ensure-IsSourced pk db.platform_projection db.platform_es c.platform;
    }

-- What a transaction comes to: it does not throw, its verdicts and the balances after it are the
-- specified ones, and the database stays event-sourced.
abbrev pub Applies :
    List IntentGroup → LedgerDb → Option (List IntentApplyResult × LedgerDb) → Type 0
Applies groups db none = ⊥
Applies groups db (some (results, db')) =
    (map succeeded results ≡ (spec_groups groups (db_balances db)).0)
    × (db_balances db' ≡ (spec_groups groups (db_balances db)).1)
    × IsConsistent db'

-- The step from the run to the database that its changes are written to.
module _ (groups : List IntentGroup) (db : LedgerDb) (results : List IntentApplyResult)
    (changes : List BalanceChange) where
  Applies-Written :
      (b : Balances) (w : Option LedgerDb)
      → b ≡ db_balances db
      → Runs groups b (some (results, changes))
      → Written changes (locked groups db) w
      → Applies groups db (elim w [ none ↦ none | some db' ↦ some (results, db') ])
  Applies-Written b none e r h = h
  Applies-Written b (some db') e r h = (
    r.0 ∙ ap (λ x. (spec_groups groups x).0) e,
    h.0
        ∙ ap (bump_all changes) (fun_ext (locked_balances groups db) ∙ sym e)
        ∙ r.1
        ∙ ap (λ x. (spec_groups groups x).1) e,
    h.1,
  )

module _ (groups : List IntentGroup) (db : LedgerDb) (h : HasRoom groups db) where
  -- What a run accepts fits into the columns.
  pub changes-Writable :
      (changes : List BalanceChange)
      → volume changes ≤ volume (all_changes groups)
      → Writable changes (integration_read groups db) (platform_read groups db) (locked groups db)
  unfolding batch_upsert_integration_projections batch_upsert_platform_projections
  changes-Writable changes less =
      let fit : suc (h.bound + volume changes) ≤ column_limit = omega (arith, h.room) in
      let it = ensure-AtMost h.bound (ik groups db) db.integration_projection h.integration in
      let pt = ensure-AtMost h.bound (pk groups db) db.platform_projection h.platform in
      record {
        integration_table = update_rows-fits integration_key h.bound changes _ it fit;
        platform_table = update_rows-fits platform_key h.bound changes _ pt fit;
        integration_rows =
            es_rows-fit integration_key h.bound changes _
              (read_snapshots-AtMost h.bound (ik groups db) _ it) fit;
        platform_rows =
            es_rows-fit platform_key h.bound changes _
              (read_snapshots-AtMost h.bound (pk groups db) _ pt) fit;
      }

  Applies-run :
      (c : IsConsistent db) (run : Option (List IntentApplyResult × List BalanceChange))
      → Runs groups
          (view
            (db_balances (locked groups db))
            (integration_read groups db)
            (platform_read groups db)
            []
            [])
          run
      → Accepted (λ d. HasRow (integration_key d) (locked groups db).integration_projection) run
      → Accepted (λ d. HasRow (platform_key d) (locked groups db).platform_projection) run
      → Accepted (λ d. HasSnapshot (integration_key d) (integration_read groups db)) run
      → Accepted (λ d. HasSnapshot (platform_key d) (platform_read groups db)) run
      → NoMore (volume (all_changes groups)) run
      → Applies groups db (elim run [
        | none ↦ none
        | some (results, changes) ↦
            elim (write_changes changes
              (integration_read groups db)
              (platform_read groups db)
              (locked groups db)) [ none ↦ none | some db' ↦ some (results, db') ]
      ])
  Applies-run c none r hi hp ci cp less = r
  Applies-run c (some (results, changes)) r hi hp ci cp less =
      Applies-Written groups db results changes _ _
        (fun_ext (read_view groups db (AreUnique-of db c)) ∙ fun_ext (locked_balances groups db)) r
        (write_changes-Written (integration_read groups db) (platform_read groups db)
          (locked groups db) changes hi hp ci cp
          (read_snapshots-Shows (ik groups db) _ (ui groups db (AreUnique-of db c)))
          (read_snapshots-Shows (pk groups db) _ (up groups db (AreUnique-of db c)))
          (changes-Writable changes less) (locked-IsConsistent groups db c))

-- On an event-sourced database whose rows leave room in the columns for the changes of the groups, and
-- in which no other transaction commits between its reads and its writes, `applyFromGroups` does not
-- throw; it accepts and refuses each group as the specification does, leaves exactly the specified
-- balances, and keeps both sides event-sourced: the rows are the replay of all their events and what
-- the last event stores.
pub apply_from_groups-Applies :
    (groups : List IntentGroup) (db : LedgerDb)
    → IsConsistent db
    → HasRoom groups db
    → Applies groups db (apply_from_groups groups db db)
unfolding apply_from_groups lock_projections
apply_from_groups-Applies groups db c h =
    let u = AreUnique-of db c in
    Applies-run groups db h c _ (runs groups db u)
      (accepted _
        (AllListed-HaveRows _ _ u.integration integration_key _ (integration_listed groups db u)))
      (accepted _ (AllListed-HaveRows _ _ u.platform platform_key _ (platform_listed groups db u)))
      (accepted _ (integration-Covered groups db u)) (accepted _ (platform-Covered groups db u))
      (apply_groups-NoMore groups _ _)
  where
    accepted :
        (P : BalanceChange → Type 0)
        → All P (all_changes groups)
        → Accepted P (apply_groups groups (integration_read groups db) (platform_read groups db))
    accepted P h = apply_groups-Accepted P groups _ _ h
