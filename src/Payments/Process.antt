-- ===== src/Payments/Process.antt =====
-- `ProcessPaymentTransactionInteractor`, the loop over the queue of transfers:
-- apps/core/src/module/payment-intent/interactor/process-payment-transaction/process-payment-transaction.interactor.ts.
-- `project` stands for the projector of balances, which reads the transaction of a row and the
-- tables; `sender` is the source of the first transfer of a row. `run` is one transaction: `none` is a rollback.
pub mod Loop
pub mod Held
pub mod Stops
use multi_rail_payments_proc.Prelude.{
  ℕ, suc, Bool, true, false, not, ◌&&◌, ◌||◌, Option, none, some, List, [], ◌∷◌, ◌++◌, map, any,
  nat_beq, if◌then◌else◌, Equal, nat_eq, nat_beq_iff, ◌≡◌, ◌↔◌, arith, length,
}
use multi_rail_payments_proc.Prelude.Int.{ℤ}
use multi_rail_payments_proc.Prelude.Sort.{sort_by}
use multi_rail_payments_proc.Prelude.JsMap.{JsMap}
use multi_rail_payments_proc.Prelude.Grouping.{group_by}
use multi_rail_payments_proc.Types.{
  IntentType, intent_type_from_domain, BalanceChangeType, BalanceChange, BalanceChangeTxStatus,
}
use multi_rail_payments_proc.Payments.Model.{
  PaymentIntent, PaymentIntentStatus, PaymentAmountAccumulator,
}
use multi_rail_payments_proc.Payments.Inbox.{
  InboxRow, InboxTable, delete, mark_blocked_with_successors, find_blocked, find_next_created,
}
use multi_rail_payments_proc.Payments.Batches.{Batch, ProcessResult, KeyPart, group_for_publish}

-- The tables of the transaction.
pub record QueueDb : Type 0 where
  pub inbox : InboxTable
  pub payments : List PaymentIntent
  pub accumulators : List PaymentAmountAccumulator
  pub outbox : List Batch

-- What the projector does: it throws, or returns changes.
pub data Projection : Type 0 where
  threw : (message : ℕ) → Projection
  projected : List BalanceChange → Projection

abbrev is_hold_in : BalanceChange → Bool
is_hold_in c = elim (c.type) [ BalanceChangeType.hold_in ↦ true | _ ↦ false ]

-- The payment and the amount of the first `HOLD_IN` change with an intent.
unfoldable pub find_hold_in : List BalanceChange → Option (ℕ × ℤ)
find_hold_in [] = none
find_hold_in (c ∷ cs) =
    let rest = find_hold_in cs in
    if is_hold_in c
    then elim (c.intent_id) [ some id ↦ some (id, c.amount) | none ↦ rest ]
    else rest

-- `markAsProcessing` updates the payment where its status is `CREATED`.
abbrev mark_payment : ℕ → PaymentIntent → PaymentIntent
mark_payment id p =
    if nat_beq p.id id
    then elim (p.status) [
      | PaymentIntentStatus.created ↦ record p { status = PaymentIntentStatus.processing }
      | _ ↦ p
    ]
    else p

unfoldable pub mark_as_processing : ℕ → List PaymentIntent → List PaymentIntent
mark_as_processing id ps = map (mark_payment id) ps

unfoldable pub accumulate : (sender : InboxRow → ℕ) → InboxRow → Option (ℕ × ℤ) → QueueDb → QueueDb
accumulate sender row none db = db
accumulate sender row (some (id, amount)) db = record db {
  accumulators = record { payment_id = id; amount = amount; from = sender row } ∷ db.accumulators;
  payments = mark_as_processing id db.payments;
}

-- A result joins those of the later transfers; after a failure there are none.
unfoldable pub keep_result :
    InboxRow
    → Option (List BalanceChange) × QueueDb
    → List ProcessResult × QueueDb
    → List ProcessResult × QueueDb
keep_result row (none, after) rest = ([], after)
keep_result row (some changes, after) rest =
    (record { source = row; balance_changes = changes } ∷ rest.0, rest.1)

module _ (project : InboxRow → QueueDb → Projection) (sender : InboxRow → ℕ) where
  -- The changes of a transfer that is done, and the tables.
  unfoldable pub apply_transfer : InboxRow → QueueDb → Option (List BalanceChange) × QueueDb
  apply_transfer row db = elim (project row db) [
    | threw message ↦ (
      none,
      record db { inbox = mark_blocked_with_successors row.id row.transfer.key message db.inbox },
    )
    | projected changes ↦ (
      some changes,
      accumulate sender row (find_hold_in changes) (record db { inbox = delete row.id db.inbox }),
    )
  ]

  -- The transfers of one key, up to the first that fails.
  unfoldable pub process_key : List InboxRow → QueueDb → List ProcessResult × QueueDb
  process_key [] db = ([], db)
  process_key (row ∷ rows) db =
      let applied = apply_transfer row db in keep_result row applied (process_key rows applied.1)

  unfoldable pub process_keys : JsMap ℕ (List InboxRow) → QueueDb → List ProcessResult × QueueDb
  process_keys [] db = ([], db)
  process_keys ((key, rows) ∷ groups) db =
      let (results, after) = process_key rows db in
      let (others, last) = process_keys groups after in (results ++ others, last)

  unfoldable pub process : List InboxRow → QueueDb → List ProcessResult × QueueDb
  process transfers db = process_keys (group_by (λ (r : InboxRow). r.transfer.key) transfers) db

-- The outbox refuses a key that it has.
unfoldable pub enqueue_batch : Batch → QueueDb → Option QueueDb
enqueue_batch batch db =
    if any (λ (b : Batch). nat_beq b.idempotency_key batch.idempotency_key) db.outbox
    then none
    else some (record db { outbox = batch ∷ db.outbox })

abbrev is_blank : Batch → Bool
is_blank batch = nat_beq (length batch.changes) 0

infixl 5 ◌>>=◌
abbrev ◌>>=◌ : {A B : Type 0} → Option A → (A → Option B) → Option B
none >>= f = none
some a >>= f = f a

unfoldable pub enqueue_batches : List Batch → QueueDb → Option QueueDb
enqueue_batches [] db = some db
enqueue_batches (batch ∷ batches) db =
    if is_blank batch
    then enqueue_batches batches db
    else (enqueue_batch batch db >>= enqueue_batches batches)

-- `keys` are the keys with waiting rows whose locks the transaction got.
unfoldable pub run :
    (project : InboxRow → QueueDb → Projection) (sender : InboxRow → ℕ)
    (text_before : KeyPart → KeyPart → Bool) (digest : List KeyPart → ℕ) (key_before : ℕ → ℕ → Bool)
    (keys : List ℕ)
    → QueueDb
    → Option QueueDb
run project sender text_before digest key_before keys db =
    let (first, retried) = process project sender (find_blocked keys db.inbox) db in
    let (second, last) =
      process project sender (find_next_created key_before keys retried.inbox) retried in
    enqueue_batches (group_for_publish text_before digest (first ++ second)) last
