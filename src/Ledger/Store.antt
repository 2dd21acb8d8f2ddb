-- ===== src/Ledger/Store.antt =====
-- The tables of the ledger and the queries on them: reading, locking and updating projections,
-- inserting events, and `applyFromGroups`, all of
-- apps/ledger/src/module/balance/repository/balance/balance.repository.ts. A projection table is
-- a map from its unique key to the amounts of the row. `none` is a throw, which rolls back: of a
-- missing snapshot, or of an amount that its column does not hold.
pub mod Reads
pub mod Updates
pub mod Events
use multi_rail_payments_proc.Prelude.{
  ℕ, ◌≡◌, refl, Bool, true, false, Option, none, some, List, [], ◌∷◌, ◌++◌, map, arith, first_some,
  Equal, ◌==◌, any, if◌then◌else◌, ◌&&◌,
}
use multi_rail_payments_proc.Prelude.Int.{ℤ}
use multi_rail_payments_proc.Prelude.JsMap.{JsMap, get, set, union, values}
use multi_rail_payments_proc.Types.{
  BalanceChange, BalanceChangeType, IntentType, BalanceChangeOperationType, BalanceChangeMetadata,
}
use multi_rail_payments_proc.Ledger.Amounts.{
  Amounts, no_amounts, add_amounts, compute_delta, fits_column, amounts_fit,
}
use multi_rail_payments_proc.Ledger.Keys.{
  AccountKey, key_eq, integration_key, platform_key, collect_integration_keys,
  collect_platform_keys,
}
use multi_rail_payments_proc.Ledger.Snapshots.{
  ProjectionSnapshot, SnapshotMap, BalanceApplyError, IntentGroup, Checked, ok, failed, thrown,
  apply_group_to_snapshots,
}

abbrev pub ProjectionTable : Type 0
ProjectionTable = JsMap AccountKey Amounts

-- A row of `integration_account_es` or `platform_account_es`.
pub record EsRow : Type 0 where
  pub key : AccountKey
  pub change_type : BalanceChangeType
  pub amount : ℤ
  pub intent_type : Option IntentType
  pub intent_id : Option ℕ
  pub intent_operation_type : Option BalanceChangeOperationType
  pub metadata : BalanceChangeMetadata
  pub after : Amounts

pub record LedgerDb : Type 0 where
  pub integration_projection : ProjectionTable
  pub platform_projection : ProjectionTable
  pub integration_es : List EsRow
  pub platform_es : List EsRow

-- `INSERT ... ON CONFLICT DO NOTHING` of rows with zero amounts.
unfoldable pub ensure_projections_exist : List AccountKey → ProjectionTable → ProjectionTable
ensure_projections_exist [] t = t
ensure_projections_exist (k ∷ ks) t =
    ensure_projections_exist ks (elim (get k t) [ none ↦ set k no_amounts t | some _ ↦ t ])

-- The rows with one of the keys, as snapshots.
unfoldable pub select_rows :
    List AccountKey → ProjectionTable → List (AccountKey × ProjectionSnapshot)
select_rows keys [] = []
select_rows keys ((k, a) ∷ t) =
    let rest = select_rows keys t in
    if any (λ j. j == k) keys then (k, record { key = k; amounts = a }) ∷ rest else rest

unfoldable pub read_snapshots : List AccountKey → ProjectionTable → SnapshotMap
read_snapshots keys t = union [] (select_rows keys t)

-- Several changes of one key are added up before the update.
unfoldable pub add_delta :
    Option AccountKey → Amounts → JsMap AccountKey Amounts → JsMap AccountKey Amounts
add_delta none d deltas = deltas
add_delta (some k) d deltas = elim (get k deltas) [
  | none ↦ set k d deltas
  | some existing ↦ set k (add_amounts existing d) deltas
]

unfoldable pub delta_map :
    (BalanceChange → Option AccountKey)
    → List BalanceChange
    → JsMap AccountKey Amounts
    → JsMap AccountKey Amounts
delta_map key [] deltas = deltas
delta_map key (c ∷ cs) deltas = delta_map key cs (add_delta (key c) (compute_delta c) deltas)

-- `UPDATE ... FROM (VALUES ...)`: each row with a key of the map has the delta added.
unfoldable pub update_rows : JsMap AccountKey Amounts → ProjectionTable → ProjectionTable
update_rows deltas [] = []
update_rows deltas ((k, a) ∷ t) =
    (k, elim (get k deltas) [ none ↦ a | some d ↦ add_amounts a d ]) ∷ update_rows deltas t

unfoldable pub batch_upsert_integration_projections :
    List BalanceChange → ProjectionTable → ProjectionTable
batch_upsert_integration_projections cs t = update_rows (delta_map integration_key cs []) t

unfoldable pub batch_upsert_platform_projections :
    List BalanceChange → ProjectionTable → ProjectionTable
batch_upsert_platform_projections cs t = update_rows (delta_map platform_key cs []) t

abbrev pub es_row : BalanceChange → AccountKey → Amounts → EsRow
es_row c k after = record {
  key = k;
  change_type = c.type;
  amount = c.amount;
  intent_type = c.intent_type;
  intent_id = c.intent_id;
  intent_operation_type = c.operation_type;
  metadata = c.metadata;
  after = after;
}

-- The rows of one side of `batchInsertEs`: each holds the amounts after its change. A missing
-- snapshot is a throw (`.available` of undefined).
unfoldable pub es_rows :
    (BalanceChange → Option AccountKey) → List BalanceChange → SnapshotMap → Option (List EsRow)
es_rows key [] current = some []
es_rows key (c ∷ cs) current = elim (key c) [
  | none ↦ es_rows key cs current
  | some k ↦ elim (get k current) [
    | none ↦ none
    | some snapshot ↦
        let after = add_amounts snapshot.amounts (compute_delta c) in
        elim (es_rows key cs (set k (record { key = k; amounts = after }) current)) [
          | none ↦ none
          | some rows ↦ some (es_row c k after ∷ rows)
        ]
  ]
]

-- No amount of a row is too large for its column.
abbrev pub row_fits : EsRow → Bool
row_fits r = fits_column r.amount && amounts_fit r.after

abbrev pub rows_fit : List EsRow → Bool
rows_fit [] = true
rows_fit (r ∷ rs) = row_fits r && rows_fit rs

abbrev pub table_fits : ProjectionTable → Bool
table_fits [] = true
table_fits ((k, a) ∷ t) = amounts_fit a && table_fits t

unfoldable pub batch_insert_es :
    List BalanceChange → (integration platform : SnapshotMap) → LedgerDb → Option LedgerDb
batch_insert_es cs integration platform db = elim (es_rows integration_key cs integration) [
  | none ↦ none
  | some irows ↦ elim (es_rows platform_key cs platform) [
    | none ↦ none
    | some prows ↦
        if rows_fit irows && rows_fit prows
        then some (record db {
          integration_es = db.integration_es ++ irows;
          platform_es = db.platform_es ++ prows;
        })
        else none
  ]
]

pub data IntentApplyResult : Type 0 where
  success :
      (intent_id : Option ℕ) (changes : List BalanceChange) (updates : List ProjectionSnapshot)
      → IntentApplyResult
  failure :
      (intent_id : Option ℕ) (changes : List BalanceChange) (error : BalanceApplyError)
      → IntentApplyResult

-- The loop over the groups: a failed group leaves the working maps as they were.
unfoldable pub apply_groups :
    List IntentGroup
    → (integration platform : SnapshotMap) → Option (List IntentApplyResult × List BalanceChange)
apply_groups [] integration platform = some ([], [])
apply_groups (g ∷ gs) integration platform =
    elim (apply_group_to_snapshots g integration platform) [
      | ok (iu, pu) ↦ elim (apply_groups gs (union integration iu) (union platform pu)) [
        | none ↦ none
        | some (results, changes) ↦
            some (
              success g.intent_id g.changes (values iu ++ values pu) ∷ results,
              g.changes ++ changes,
            )
      ]
      | failed e ↦ elim (apply_groups gs integration platform) [
        | none ↦ none
        | some (results, changes) ↦ some (failure g.intent_id g.changes e ∷ results, changes)
      ]
      | thrown ↦ none
    ]

abbrev pub all_changes : List IntentGroup → List BalanceChange
all_changes [] = []
all_changes (g ∷ gs) = g.changes ++ all_changes gs

-- The rows of `lockProjections`. Its `SELECT ... FOR UPDATE` is over a `WITH` query, whose rows
-- PostgreSQL does not lock, so it leaves the tables as they are and keeps nobody out.
unfoldable pub lock_projections : (integration platform : List AccountKey) → LedgerDb → LedgerDb
lock_projections ik pk db = record db {
  integration_projection = ensure_projections_exist ik db.integration_projection;
  platform_projection = ensure_projections_exist pk db.platform_projection;
}

-- The writes of the transaction, if any group succeeded.
unfoldable pub write_changes :
    List BalanceChange → (integration platform : SnapshotMap) → LedgerDb → Option LedgerDb
write_changes [] integration platform db = some db
write_changes (c ∷ cs) integration platform db =
    let it = batch_upsert_integration_projections (c ∷ cs) db.integration_projection in
    let pt = batch_upsert_platform_projections (c ∷ cs) db.platform_projection in
    if table_fits it && table_fits pt
    then batch_insert_es (c ∷ cs) integration platform
        (record db { integration_projection = it; platform_projection = pt })
    else none

-- `seen` is the database that the transaction reads, and `db` the one that it writes to, in which
-- other transactions may have committed since.
unfoldable pub apply_from_groups :
    List IntentGroup → (seen db : LedgerDb) → Option (List IntentApplyResult × LedgerDb)
apply_from_groups groups seen db =
    let ik = collect_integration_keys (all_changes groups) in
    let pk = collect_platform_keys (all_changes groups) in
    let read = lock_projections ik pk seen in
    let integration = read_snapshots ik read.integration_projection in
    let platform = read_snapshots pk read.platform_projection in
    elim (apply_groups groups integration platform) [
      | none ↦ none
      | some (results, changes) ↦
          elim (write_changes changes integration platform (lock_projections ik pk db)) [
            | none ↦ none
            | some db' ↦ some (results, db')
          ]
    ]
