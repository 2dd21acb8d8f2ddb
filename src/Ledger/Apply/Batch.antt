-- ===== src/Ledger/Apply/Batch.antt =====
-- The writes of a batch on both sides: the balances after it, and that both stay event-sourced.
use multi_rail_payments_proc.Prelude.{
  ◌≡◌, refl, sym, ◌∙◌, ap, true, Option, none, some, List, [], ◌∷◌, arith, if◌then◌else◌,
}
use mathlib.Core.Path.{fun_ext}
use multi_rail_payments_proc.Prelude.JsMap.{Unique}
use multi_rail_payments_proc.Types.{BalanceChange}
use multi_rail_payments_proc.Ledger.Amounts.{add_amounts, compute_delta}
use multi_rail_payments_proc.Ledger.Keys.{AccountKey, key_eq, integration_key, platform_key}
use multi_rail_payments_proc.Ledger.Snapshots.{SnapshotMap}
use multi_rail_payments_proc.Ledger.Store.{
  LedgerDb, EsRow, write_changes, batch_insert_es, batch_upsert_integration_projections,
  batch_upsert_platform_projections, es_rows, table_fits,
}
use multi_rail_payments_proc.Ledger.Store.Updates.{
  posted_at, is_at, HaveRows, update_rows-posted_at,
}
use multi_rail_payments_proc.Ledger.Store.Events.{Records, es_rows-Records}
use multi_rail_payments_proc.Ledger.Spec.{
  LedgerAccount, on_integration, on_platform, Balances, integration_side, platform_side,
  db_balances,
}
use multi_rail_payments_proc.Ledger.Spec.Group.{Covered}
use multi_rail_payments_proc.Ledger.Spec.Run.{bump_side, bump_all}
use multi_rail_payments_proc.Ledger.Apply.Writes.{IsSourced, Shows, update-IsSourced}
use multi_rail_payments_proc.Ledger.Apply.Range.{RowsFit}

-- Both sides of the database are event-sourced.
pub record IsConsistent (db : LedgerDb) : Type 0 where
  pub integration : IsSourced db.integration_projection db.integration_es
  pub platform : IsSourced db.platform_projection db.platform_es

-- The keys of both tables are unique, as their indexes have it.
pub record AreUnique (db : LedgerDb) : Type 0 where
  pub integration : Unique db.integration_projection
  pub platform : Unique db.platform_projection

pub AreUnique-of : (db : LedgerDb) → IsConsistent db → AreUnique db
AreUnique-of db c = record { integration = c.integration.unique; platform = c.platform.unique }

bump_integration_key :
    (c : BalanceChange) (b : Balances) (k : AccountKey)
    → bump_side
        (platform_side c)
        (compute_delta c)
        (bump_side (integration_side c) (compute_delta c) b)
        (on_integration k)
      ≡ (if is_at (integration_key c) k
          then add_amounts (b (on_integration k)) (compute_delta c)
          else b (on_integration k))
bump_integration_key c b k = ground arith

bump_platform_key :
    (c : BalanceChange) (b : Balances) (k : AccountKey)
    → bump_side
        (platform_side c)
        (compute_delta c)
        (bump_side (integration_side c) (compute_delta c) b)
        (on_platform k)
      ≡ (if is_at (platform_key c) k
          then add_amounts (b (on_platform k)) (compute_delta c)
          else b (on_platform k))
bump_platform_key c b k = ground arith

bump_all-integration :
    (cs : List BalanceChange) (b : Balances) (k : AccountKey)
    → bump_all cs b (on_integration k) ≡ posted_at integration_key cs k (b (on_integration k))
unfolding bump_all
bump_all-integration [] b k = refl
bump_all-integration (c ∷ cs) b k =
    bump_all-integration cs _ k ∙ ap (posted_at integration_key cs k) (bump_integration_key c b k)

bump_all-platform :
    (cs : List BalanceChange) (b : Balances) (k : AccountKey)
    → bump_all cs b (on_platform k) ≡ posted_at platform_key cs k (b (on_platform k))
unfolding bump_all
bump_all-platform [] b k = refl
bump_all-platform (c ∷ cs) b k =
    bump_all-platform cs _ k ∙ ap (posted_at platform_key cs k) (bump_platform_key c b k)

-- What a batch of changes leaves in the database.
abbrev pub Written : List BalanceChange → LedgerDb → Option LedgerDb → Type 0
Written cs db none = ⊥
Written cs db (some db') = (db_balances db' ≡ bump_all cs (db_balances db)) × IsConsistent db'

upsert_balances :
    (cs : List BalanceChange) (db : LedgerDb) (irows prows : List EsRow)
    → HaveRows integration_key cs db.integration_projection
    → HaveRows platform_key cs db.platform_projection
    → (x : LedgerAccount)
    → db_balances
        (record {
          integration_projection =
              batch_upsert_integration_projections cs db.integration_projection;
          platform_projection = batch_upsert_platform_projections cs db.platform_projection;
          integration_es = irows;
          platform_es = prows;
        })
        x
      ≡ bump_all cs (db_balances db) x
unfolding db_balances batch_upsert_integration_projections batch_upsert_platform_projections
upsert_balances cs db irows prows hi hp (on_integration k) =
    update_rows-posted_at integration_key cs k db.integration_projection hi
    ∙ sym (bump_all-integration cs (db_balances db) k)
upsert_balances cs db irows prows hi hp (on_platform k) =
    update_rows-posted_at platform_key cs k db.platform_projection hp
    ∙ sym (bump_all-platform cs (db_balances db) k)

-- The balances that a batch leaves.
abbrev pub Posted : List BalanceChange → LedgerDb → Option LedgerDb → Type 0
Posted cs db none = ⊥
Posted cs db (some db') = db_balances db' ≡ bump_all cs (db_balances db)

-- No write of the batch is too large for its column.
pub record Writable (cs : List BalanceChange) (i p : SnapshotMap) (db : LedgerDb) : Type 0 where
  pub integration_table :
      table_fits (batch_upsert_integration_projections cs db.integration_projection) ≡ true
  pub platform_table :
      table_fits (batch_upsert_platform_projections cs db.platform_projection) ≡ true
  pub integration_rows : RowsFit integration_key (es_rows integration_key cs i)
  pub platform_rows : RowsFit platform_key (es_rows platform_key cs p)

module _ (i p : SnapshotMap) (db : LedgerDb) where
  insert_Written :
      (cs : List BalanceChange) (irows prows : Option (List EsRow))
      → HaveRows integration_key cs db.integration_projection
      → HaveRows platform_key cs db.platform_projection
      → Shows i db.integration_projection
      → Shows p db.platform_projection
      → es_rows integration_key cs i ≡ irows
      → es_rows platform_key cs p ≡ prows
      → Records integration_key cs i irows
      → Records platform_key cs p prows
      → RowsFit integration_key irows
      → RowsFit platform_key prows
      → IsConsistent db
      → Written cs db (
          batch_insert_es cs i p (record db {
            integration_projection =
                batch_upsert_integration_projections cs db.integration_projection;
            platform_projection = batch_upsert_platform_projections cs db.platform_projection;
          }))
  unfolding batch_insert_es batch_upsert_integration_projections batch_upsert_platform_projections
  insert_Written cs none prows hi hp si sp ei ep ri rp fi fp c = absurd ri
  insert_Written cs (some irows) none hi hp si sp ei ep ri rp fi fp c = absurd rp
  insert_Written cs (some irows) (some prows) hi hp si sp ei ep ri rp fi fp c =
      rw (ei, batch_insert_es)
        (rw (ep, fi, fp, batch_insert_es)
          (
            fun_ext (upsert_balances cs db _ _ hi hp),
            record {
              integration =
                  update-IsSourced integration_key cs i db.integration_projection db.integration_es
                    irows hi si ri c.integration;
              platform =
                  update-IsSourced platform_key cs p db.platform_projection db.platform_es prows hp
                    sp rp c.platform;
            },
          ))

  pub write_changes-Written :
      (cs : List BalanceChange)
      → HaveRows integration_key cs db.integration_projection
      → HaveRows platform_key cs db.platform_projection
      → Covered integration_key cs i
      → Covered platform_key cs p
      → Shows i db.integration_projection
      → Shows p db.platform_projection
      → Writable cs i p db
      → IsConsistent db
      → Written cs db (write_changes cs i p db)
  unfolding write_changes bump_all
  write_changes-Written [] hi hp ci cp si sp w c = (refl, c)
  write_changes-Written (d ∷ cs) hi hp ci cp si sp w c =
      rw (w.integration_table, w.platform_table, write_changes)
        (insert_Written (d ∷ cs) _ _ hi hp si sp refl refl
          (es_rows-Records integration_key (d ∷ cs) i ci)
          (es_rows-Records platform_key (d ∷ cs) p cp) w.integration_rows w.platform_rows c)

  insert_Posted :
      (cs : List BalanceChange) (irows prows : Option (List EsRow))
      → HaveRows integration_key cs db.integration_projection
      → HaveRows platform_key cs db.platform_projection
      → es_rows integration_key cs i ≡ irows
      → es_rows platform_key cs p ≡ prows
      → Records integration_key cs i irows
      → Records platform_key cs p prows
      → RowsFit integration_key irows
      → RowsFit platform_key prows
      → Posted cs db (
          batch_insert_es cs i p (record db {
            integration_projection =
                batch_upsert_integration_projections cs db.integration_projection;
            platform_projection = batch_upsert_platform_projections cs db.platform_projection;
          }))
  unfolding batch_insert_es
  insert_Posted cs none prows hi hp ei ep ri rp fi fp = absurd ri
  insert_Posted cs (some irows) none hi hp ei ep ri rp fi fp = absurd rp
  insert_Posted cs (some irows) (some prows) hi hp ei ep ri rp fi fp =
      rw (ei, batch_insert_es)
        (rw (ep, fi, fp, batch_insert_es) (fun_ext (upsert_balances cs db _ _ hi hp)))

  -- Whatever the snapshots are, the writes post every change once.
  pub write_changes-Posted :
      (cs : List BalanceChange)
      → HaveRows integration_key cs db.integration_projection
      → HaveRows platform_key cs db.platform_projection
      → Covered integration_key cs i
      → Covered platform_key cs p
      → Writable cs i p db
      → Posted cs db (write_changes cs i p db)
  unfolding write_changes bump_all
  write_changes-Posted [] hi hp ci cp w = refl
  write_changes-Posted (d ∷ cs) hi hp ci cp w =
      rw (w.integration_table, w.platform_table, write_changes)
        (insert_Posted (d ∷ cs) _ _ hi hp refl refl (es_rows-Records integration_key (d ∷ cs) i ci)
          (es_rows-Records platform_key (d ∷ cs) p cp) w.integration_rows w.platform_rows)
