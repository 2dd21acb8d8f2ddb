-- ===== src/Ledger/Tests.antt =====
-- The ledger's theorems at concrete batches: an account is credited 10, then a group that would
-- spend more than is left is refused and a later one that spends less is accepted.
pub mod Deliveries
use multi_rail_payments_proc.Prelude.{
  ℕ, ◌≡◌, refl, arith, true, false, ◌⊎◌, ◌≢◌, inl, All, Option, none, some, List, [], ◌∷◌, any,
  nat_beq, nat_beq_iff, if◌then◌else◌,
}
use multi_rail_payments_proc.Prelude.Int.{pos, ◌+ℤ◌, negated}
use multi_rail_payments_proc.Prelude.JsMap.{get, Unique}
use multi_rail_payments_proc.Types.{
  integration_beq, integration_type_from_domain, BalanceChange, BalanceChangeType,
  BalanceChangeReason, BalanceChangeTxStatus, credit, debit, hold, ExecutionType, IntegrationType,
  IntentType,
}
use multi_rail_payments_proc.Ledger.Amounts.{
  Amounts, column_limit, no_amounts, add_amounts, has_negative, compute_delta,
}
use multi_rail_payments_proc.Ledger.Keys.{
  AccountKey, key_beq, key_eq, platform_key, integration_key, collect_platform_keys,
  collect_integration_keys, collect, add_seen,
}
use multi_rail_payments_proc.Ledger.Keys.Text.{codes, key_text_injective}
use multi_rail_payments_proc.Ledger.Snapshots.{
  IntentGroup, SnapshotMap, apply_group_to_snapshots, post_changes, post, check_next,
}
use multi_rail_payments_proc.Ledger.Store.{
  LedgerDb, lock_projections, ensure_projections_exist, select_rows, write_changes, batch_insert_es,
  IntentApplyResult, add_delta, batch_upsert_integration_projections,
  batch_upsert_platform_projections, apply_from_groups, apply_groups, read_snapshots, update_rows,
  delta_map, es_rows, all_changes,
}
use multi_rail_payments_proc.Ledger.Store.Reads.{amounts_in}
use multi_rail_payments_proc.Ledger.Store.Updates.{posted_at, HaveRows, update_rows-posted_at}
use multi_rail_payments_proc.Ledger.Store.Events.{Records, es_rows-Records}
use multi_rail_payments_proc.Ledger.Spec.{
  on_integration, on_platform, db_balances, spec_groups, spec_changes, spec_post,
}
use multi_rail_payments_proc.Ledger.Spec.Group.{view, Covered}
use multi_rail_payments_proc.Ledger.Spec.Run.{Runs, apply_groups-Runs}
use multi_rail_payments_proc.Ledger.Apply.Writes.{empty-IsSourced}
use multi_rail_payments_proc.Ledger.Apply.Range.{HasRoom, volume}
use multi_rail_payments_proc.Ledger.Apply.Batch.{IsConsistent}
use multi_rail_payments_proc.Ledger.Apply.Refinement.{Applies, apply_from_groups-Applies}
use multi_rail_payments_proc.Ledger.Apply.Concurrent.{PostsSeen, apply_from_groups-PostsSeen}
use multi_rail_payments_proc.Ledger.Apply.Solvency.{
  LeavesSolvent, AreSolvent, apply_from_groups-solvent,
}
use multi_rail_payments_proc.Ledger.Groups.{
  group_by_intent, push_change, intent, group_key_eq, group_changes, of_intent, changes_under,
  group_changes-of_intent,
}
use multi_rail_payments_proc.Ledger.Process.{
  LedgerService, execute, apply_event, inbox_exists, write_event, enqueue, event_rows,
  outbox_create, sort_results,
}
use multi_rail_payments_proc.Ledger.Process.Once.{
  World, Delivery, Reach, here, next, check, commit, IsTracked, Reach-IsTracked, execute_again,
}

abbrev pub change : BalanceChangeType → (intent_id : ℕ) → (amount : ℕ) → BalanceChange
change type id amount = record {
  type = type;
  intent_type = some IntentType.payment;
  intent_id = some id;
  operation_type = none;
  platform_account_id = some 7;
  integration_account = none;
  currency = 1;
  integration = IntegrationType.ethereum;
  amount = pos amount;
  metadata = record {
    reason = BalanceChangeReason.amount;
    execution_type = ExecutionType.internal;
    tx_id = 1;
    transfer_ids = 1 ∷ [];
    tx_status = BalanceChangeTxStatus.tx_confirmed;
    source_tx_id = 1;
    executed_at = some 5;
    overpay = none;
    expected_amount = none;
    related_intent_type = none;
    related_intent_id = none;
    integration_fee_diff = none;
  };
}

abbrev pub batch : List BalanceChange
batch = change credit 1 10 ∷ change hold 2 4 ∷ change debit 3 8 ∷ change debit 4 6 ∷ []

abbrev group : ℕ → BalanceChange → IntentGroup
group id c = record { intent_id = some id; changes = c ∷ [] }

abbrev groups : List IntentGroup
groups =
    group 1 (change credit 1 10)
    ∷ group 2 (change hold 2 4)
    ∷ group 3 (change debit 3 8)
    ∷ group 4 (change debit 4 6)
    ∷ []

abbrev account : AccountKey
account = record { account = 7; integration = IntegrationType.ethereum; currency = 1 }

abbrev pub empty_db : LedgerDb
empty_db = record {
  integration_projection = [];
  platform_projection = [];
  integration_es = [];
  platform_es = [];
}

empty-IsConsistent : IsConsistent empty_db
empty-IsConsistent = record { integration = empty-IsSourced; platform = empty-IsSourced }

empty-AreSolvent : AreSolvent (db_balances empty_db)
unfolding db_balances
empty-AreSolvent (on_integration k) = record {
  available = ground arith;
  hold = ground arith;
  hold_in = ground arith;
}
empty-AreSolvent (on_platform k) = record {
  available = ground arith;
  hold = ground arith;
  hold_in = ground arith;
}

groups-HasRoom : HasRoom groups empty_db
unfolding volume column_limit
groups-HasRoom = record { bound = 0; integration = tt; platform = tt; room = omega arith }

-- Two transactions that read the same balance of 10, and each debit it, leave -10.
abbrev credited : LedgerDb
credited = record empty_db {
  platform_projection = (account, record no_amounts { available = pos 10 }) ∷ [];
}

abbrev balances_after : Option (List IntentApplyResult × LedgerDb) → Option Amounts
balances_after none = none
balances_after (some (results, db)) = get account db.platform_projection

abbrev debit_after : (seen : LedgerDb) → Option (List IntentApplyResult × LedgerDb) → Option Amounts
debit_after seen none = none
debit_after seen (some (results, db)) =
    balances_after (apply_from_groups (group 6 (change debit 6 10) ∷ []) seen db)

two_debits :
    debit_after credited (apply_from_groups (group 5 (change debit 5 10) ∷ []) credited credited)
    ≡ some (record no_amounts { available = negated (pos 10) })
unfolding apply_from_groups lock_projections collect_platform_keys collect_integration_keys collect
    add_seen ensure_projections_exist read_snapshots select_rows apply_groups
    apply_group_to_snapshots post_changes post check_next write_changes batch_insert_es es_rows
    has_negative add_amounts compute_delta ◌+ℤ◌ negated column_limit update_rows delta_map add_delta
    batch_upsert_integration_projections batch_upsert_platform_projections key_beq integration_beq
    integration_type_from_domain platform_key integration_key
two_debits = refl

apply_from_groups-Applies_example :
    Applies groups empty_db (apply_from_groups groups empty_db empty_db)
apply_from_groups-Applies_example =
    apply_from_groups-Applies groups empty_db empty-IsConsistent groups-HasRoom

apply_from_groups-solvent_example : LeavesSolvent (apply_from_groups groups empty_db empty_db)
apply_from_groups-solvent_example =
    apply_from_groups-solvent groups empty_db empty-IsConsistent empty-AreSolvent groups-HasRoom

-- The third group is the refused one.
spec_groups-verdicts :
    (spec_groups groups (db_balances empty_db)).0 ≡ true ∷ true ∷ false ∷ true ∷ []
unfolding spec_groups spec_changes spec_post db_balances compute_delta add_amounts has_negative
    column_limit key_beq integration_beq integration_type_from_domain platform_key integration_key
    ◌+ℤ◌ negated
spec_groups-verdicts = refl

abbrev read : SnapshotMap
read = (account, record { key = account; amounts = no_amounts }) ∷ []

present : {A : Type 0} {x : A} → some x ≢ none
present h = ground arith

batch-HaveRows : HaveRows platform_key batch ((account, no_amounts) ∷ [])
unfolding platform_key key_beq integration_beq integration_type_from_domain
batch-HaveRows = (present, (present, (present, (present, tt))))

batch-Covered : Covered platform_key batch read
unfolding platform_key key_beq integration_beq integration_type_from_domain
batch-Covered = (present, (present, (present, (present, tt))))

groups-Covered : Covered platform_key (all_changes groups) read
groups-Covered = batch-Covered

groups-Covered_integration : Covered integration_key (all_changes groups) []
unfolding integration_key
groups-Covered_integration = (tt, (tt, (tt, (tt, tt))))

apply_groups-Runs_example :
    Runs groups (view (db_balances empty_db) [] read [] []) (apply_groups groups [] read)
apply_groups-Runs_example =
    apply_groups-Runs (db_balances empty_db) groups [] read groups-Covered_integration
      groups-Covered

es_rows-Records_example : Records platform_key batch read (es_rows platform_key batch read)
es_rows-Records_example = es_rows-Records platform_key batch read batch-Covered

update_rows-posted_at_example :
    amounts_in account (update_rows (delta_map platform_key batch []) ((account, no_amounts) ∷ []))
    ≡ posted_at platform_key batch account (amounts_in account ((account, no_amounts) ∷ []))
update_rows-posted_at_example =
    update_rows-posted_at platform_key batch account ((account, no_amounts) ∷ []) batch-HaveRows

group_changes-of_intent_example :
    Unique (group_changes batch 0 [])
    × (changes_under (get (intent 3) (group_changes batch 0 [])) ≡ of_intent 3 batch)
group_changes-of_intent_example = group_changes-of_intent batch 3

no_bar : All (λ c. c ≢ b'|') (codes "acc")
no_bar = omega arith

key_text_injective_example :
    (codes "acc" ≡ codes "acc")
    × (IntegrationType.ethereum ≡ IntegrationType.ethereum)
    × (codes "USDT" ≡ codes "USDT")
key_text_injective_example =
    key_text_injective (codes "acc") (codes "acc") IntegrationType.ethereum IntegrationType.ethereum
      (codes "USDT") (codes "USDT") no_bar no_bar refl

credited-HasRoom : HasRoom (group 5 (change debit 5 10) ∷ []) credited
unfolding volume column_limit
credited-HasRoom = record {
  bound = 10;
  integration = tt;
  platform = ((omega arith, omega arith, omega arith), tt);
  room = omega arith;
}

empty_db-HasRoom : HasRoom (group 5 (change debit 5 10) ∷ []) empty_db
unfolding volume column_limit
empty_db-HasRoom = record { bound = 0; integration = tt; platform = tt; room = omega arith }

-- The debit of 10 that was read is posted where nothing is left.
apply_from_groups-PostsSeen_example :
    PostsSeen
      (group 5 (change debit 5 10) ∷ [])
      credited
      empty_db
      (apply_from_groups (group 5 (change debit 5 10) ∷ []) credited empty_db)
apply_from_groups-PostsSeen_example =
    apply_from_groups-PostsSeen (group 5 (change debit 5 10) ∷ []) credited empty_db
      (record { integration = tt; platform = (refl, tt) })
      (record { integration = tt; platform = tt }) credited-HasRoom empty_db-HasRoom
