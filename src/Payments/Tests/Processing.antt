-- ===== src/Payments/Tests/Processing.antt =====
-- The loop over the queue, its batches and the receipts at concrete tables.
use multi_rail_payments_proc.Prelude.{
  Option, ℕ, ◌≡◌, refl, Bool, true, false, none, some, List, [], ◌∷◌, ◌++◌, nat_beq, nat_eq, ltb,
  arith, if◌then◌else◌,
}
use multi_rail_payments_proc.Prelude.Int.{pos, ◌+ℤ◌}
use multi_rail_payments_proc.Prelude.Sort.{filter, sort_by, insert_sorted}
use multi_rail_payments_proc.Prelude.Grouping.{group_by, group_into}
use multi_rail_payments_proc.Types.{
  BalanceChange, BalanceChangeReason, BalanceChangeTxStatus, BalanceChangeType, ExecutionType,
  IntegrationType, IntentType,
}
use multi_rail_payments_proc.Payments.Model.{TransactionStatus}
use multi_rail_payments_proc.Payments.Finalize.{
  finalize, payment_statuses, status_of, find_amount, sum_received, sum_receipts, determine_status,
  change_status_bulk, new_status, delete_by_payment_ids,
}
use multi_rail_payments_proc.Payments.Inbox.{
  InboxRow, created, blocked, find_blocked, find_next_created, has_blocked, blocks,
  mark_blocked_with_successors, mark_failed, mark_successor, delete, delete_row, processing_error,
}
use multi_rail_payments_proc.Payments.Batches.{
  ProcessResult, KeyPart, publish_key, changes_of, build_idempotency_key, group_for_publish,
}
use multi_rail_payments_proc.Payments.Process.{
  QueueDb, Projection, threw, projected, find_hold_in, accumulate, mark_as_processing,
  apply_transfer, keep_result, process_key, process_keys, process, enqueue_batch, enqueue_batches,
  run,
}
use multi_rail_payments_proc.Payments.Process.Loop.{IsSound, run-IsSound}
use multi_rail_payments_proc.Payments.Process.Held.{received, held_total, process-received}
use multi_rail_payments_proc.Payments.Process.Stops.{IsStopped, AreProjected, process_key-IsStopped}
use multi_rail_payments_proc.Payments.Receipts.{
  StatusDb, id_beq, receipt_change, create_receipt, handle_group, handle_groups,
  change_payment_status,
}
use multi_rail_payments_proc.Payments.Receipts.Single.{
  receipts_of, Chosen, made_of, change_payment_status-receipts, change_payment_status-once,
}
use multi_rail_payments_proc.Payments.Tests.Data.{client_payment, part_of}

abbrev row_of : (id : ℕ) → InboxRow
row_of id = record {
  id = id;
  transfer = record {
    key = 5;
    tx_id = 21;
    transfer_id = id;
    integration = IntegrationType.ethereum;
    tx_status = TransactionStatus.accepted;
  };
  created_at = 100;
  state = created;
  reason = none;
  is_deleted = false;
}

abbrev change_of : BalanceChangeType → BalanceChangeTxStatus → (amount : ℕ) → BalanceChange
change_of type tx_status amount = record {
  type = type;
  intent_type = some IntentType.payment;
  intent_id = some 1;
  operation_type = none;
  platform_account_id = some 7;
  integration_account = some 70;
  currency = 1;
  integration = IntegrationType.ethereum;
  amount = pos amount;
  metadata = record {
    reason = BalanceChangeReason.amount;
    execution_type = ExecutionType.native;
    tx_id = 21;
    transfer_ids = 30 ∷ [];
    tx_status = tx_status;
    source_tx_id = 22;
    executed_at = some 90;
    overpay = none;
    expected_amount = none;
    related_intent_type = none;
    related_intent_id = none;
    integration_fee_diff = none;
  };
}

-- The transfer of row 1 is held for payment 1; the conversion of any other fails.
abbrev project : InboxRow → QueueDb → Projection
project row db =
    if nat_beq row.id 1
    then projected (change_of BalanceChangeType.hold_in BalanceChangeTxStatus.tx_accepted 50 ∷ [])
    else threw 404

abbrev sender : InboxRow → ℕ
sender row = 60

abbrev text_before : KeyPart → KeyPart → Bool
text_before a b = ltb a.transfer_id b.transfer_id

abbrev digest : List KeyPart → ℕ
digest parts = 900

abbrev queue_db : QueueDb
queue_db = record {
  inbox = record { rows = row_of 2 ∷ row_of 1 ∷ []; next_id = 3 };
  payments = client_payment ∷ [];
  accumulators = [];
  outbox = [];
}

abbrev rows : List InboxRow
rows = row_of 1 ∷ row_of 2 ∷ []

process_key-IsStopped_example :
    IsStopped rows (process_key project sender rows queue_db)
    × AreProjected project sender rows queue_db (process_key project sender rows queue_db).0
process_key-IsStopped_example = process_key-IsStopped project sender rows queue_db

process-received_example :
    received 1 (process project sender rows queue_db).1.accumulators
    ≡ held_total 1 (process project sender rows queue_db).0 +ℤ received 1 queue_db.accumulators
process-received_example = process-received project sender 1 rows queue_db

abbrev confirmed : (amount : ℕ) → BalanceChange
confirmed = change_of BalanceChangeType.credit BalanceChangeTxStatus.tx_confirmed

abbrev results : List ProcessResult
results =
    record { source = row_of 1; balance_changes = confirmed 50 ∷ [] }
    ∷ record { source = row_of 2; balance_changes = confirmed 30 ∷ [] }
    ∷ []

-- Both confirmed changes of the payment are in one batch.
results-batched :
    group_for_publish text_before digest results
    ≡ record { idempotency_key = 900; changes = confirmed 50 ∷ confirmed 30 ∷ [] } ∷ []
unfolding group_for_publish group_by group_into publish_key changes_of build_idempotency_key
results-batched = refl

abbrev status_db : StatusDb
status_db = record {
  handled = [];
  tables = record {
    payments = client_payment ∷ [];
    accumulators = part_of 50 ∷ part_of 30 ∷ [];
    receipts = [];
  };
}

abbrev receipted_db : StatusDb
receipted_db = record {
  handled = 900 ∷ [];
  tables = record status_db.tables {
    receipts =
        record {
          intent_id = 1;
          amount = pos 50;
          integration = IntegrationType.ethereum;
          source_tx_id = 22;
          tx_id = 21;
          transfer_ids = 30 ∷ [];
          currency = 1;
          executed_at = 90;
        }
        ∷ [];
  };
}

-- Of two confirmed changes of 50 and 30 of a payment, only the first one has a receipt, so that the
-- payment keeps waiting.
one_receipt :
    change_payment_status 900 (confirmed 50 ∷ confirmed 30 ∷ []) status_db ≡ some receipted_db
unfolding change_payment_status group_by group_into handle_groups handle_group receipt_change
    create_receipt finalize payment_statuses status_of find_amount sum_received sum_receipts
    determine_status change_status_bulk new_status delete_by_payment_ids ◌+ℤ◌
one_receipt = refl

change_payment_status-receipts_example :
    (chosen : Option BalanceChange) × Chosen
      (filter
        (λ (c : BalanceChange). id_beq c.intent_id (some 1))
        (confirmed 50 ∷ confirmed 30 ∷ []))
      chosen
    × (receipts_of 1 receipted_db.tables.receipts ≡ made_of chosen ++ [])
change_payment_status-receipts_example =
    change_payment_status-receipts 1 900 (confirmed 50 ∷ confirmed 30 ∷ []) status_db receipted_db
      refl one_receipt

change_payment_status-once_example :
    change_payment_status 900 (confirmed 20 ∷ []) receipted_db ≡ some receipted_db
change_payment_status-once_example =
    change_payment_status-once 900 (confirmed 50 ∷ confirmed 30 ∷ []) (confirmed 20 ∷ []) status_db
      receipted_db one_receipt

queue_db-IsSound : IsSound queue_db.inbox
queue_db-IsSound = record {
  queue = record {
    ordered = (((λ a b c d e. ground (arith, d), λ a b c d e. ground (arith, d)), tt), (tt, tt));
    ids = (omega arith, (omega arith, tt));
  };
  known = ((λ e. refl, (λ e. refl, tt)), ((λ e. refl, (λ e. refl, tt)), tt));
}

-- Row 1 is done, and row 2 is blocked.
abbrev after_run : QueueDb
after_run = record {
  inbox = record queue_db.inbox {
    rows =
        record (row_of 2) { state = blocked; reason = some (processing_error 404) }
        ∷ record (row_of 1) { is_deleted = true }
        ∷ [];
  };
  payments = mark_as_processing 1 (client_payment ∷ []);
  accumulators = record { payment_id = 1; amount = pos 50; from = 60 } ∷ [];
  outbox =
      record {
        idempotency_key = 900;
        changes = change_of BalanceChangeType.hold_in BalanceChangeTxStatus.tx_accepted 50 ∷ [];
      }
      ∷ [];
}

queue_db-run : run project sender text_before digest ltb (5 ∷ []) queue_db ≡ some after_run
unfolding run process process_keys process_key keep_result apply_transfer accumulate find_hold_in
    group_by group_into find_blocked find_next_created sort_by insert_sorted has_blocked blocks
    delete delete_row mark_blocked_with_successors mark_failed mark_successor group_for_publish
    publish_key changes_of build_idempotency_key enqueue_batches enqueue_batch mark_as_processing
queue_db-run = refl

run-IsSound_example : IsSound after_run.inbox
run-IsSound_example =
    run-IsSound project sender text_before digest ltb (5 ∷ []) queue_db after_run queue_db-run
      queue_db-IsSound
