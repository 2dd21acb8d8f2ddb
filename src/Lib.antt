-- ===== src/Lib.antt =====
-- A model of the core of the payments processor: the ledger, which applies balance changes, and the
-- conversion of incoming transfers into balance changes.
--
-- Parts. apps/core turns the transfers of a transaction into balance changes and sends them to
-- apps/ledger in batches with an idempotency key. The ledger groups a batch by intent, applies each
-- group as a whole or refuses it, and writes its answers to an outbox.
--   Types: libs/shared/src/types, the enumerations and `BalanceChange`.
--   Ledger/{Amounts,Keys,Snapshots,Store}: `BalanceRepository` of
--     apps/ledger/src/module/balance/repository/balance/balance.repository.ts. `compute_delta` is
--     `computeDelta`, `apply_group_to_snapshots` is `applyGroupToSnapshots`, `es_rows` and
--     `batch_insert_es` are `batchInsertEs`, `apply_from_groups` is `applyFromGroups`, and so on by
--     name. Ledger/Spec is an independent description: accounts with balances, groups that are
--     posted whole or refused. Ledger/Apply relates the two, and Ledger/Apply/Concurrent where other
--     transactions commit in between.
--   Ledger/{Groups,Process}: `ProcessApplyBalanceInteractor`, with a step relation for deliveries
--     whose checks and transactions interleave in Ledger/Process/Once.
--   Payments: apps/core/src/module/payment-intent/transaction-converter. Fee is `PaymentFeeCalculate`
--     and `FeePaymentOperation`, Operations the other operations, Match `BasicPaymentConverter`,
--     Convert the converters and the engine that runs them.
--   Payments/Inbox: the queue of transfers,
--     apps/core/src/module/payment-intent/repository/payment-inbox-transfer, with a step relation of
--     arrivals, failures and deletions in Payments/Inbox/Reach. Payments/Finalize:
--     `FinalizePaymentOperation` and its queries.
--   Payments/{Process,Batches}: `ProcessPaymentTransactionInteractor`, which takes the transfers of
--     the queue key by key and makes the batches for the ledger. Payments/Receipts:
--     `ChangePaymentStatusInteractor`, which makes receipts of what the ledger confirms.
--   Outbox: `OutboxRepository` and `OutboxPublishInteractor` of apps/ledger, apps/core and
--     apps/external-integration, with a step relation of several processes in Outbox/Delivery. The
--     outboxes that Ledger/Process and Payments/Process fill are lists of what is created.
--   Payouts: apps/core/src/module/payout-intent/transaction-converter. Operations and Holds are the
--     operations of a confirmed and of a prepared transaction, Convert the two converters.
--     Payouts/Create: `CreatePayoutIntentInteractor`, with `PayoutBalancePolicy` and
--     `PayoutIntentRepository`.
--   Ledger/Tests, Payments/Tests, Payouts/Tests and Outbox/Tests apply the theorems to concrete data.
--
-- Reading of the code. An amount (`Numeric`, at most 30 decimals) is a signed integer in units of
-- 10^-30. A text that is only compared is a number that names it. A table is a map from its unique
-- key, a `Map` an association list in insertion order, a throw or a rollback `none`. All loops are
-- over lists, so no fuel is needed. An amount that the ledger writes is below `column_limit`, the 60
-- digits of `numeric(60,30)`, or the write throws. The query that is to lock the rows of a batch
-- locks none, so `apply_from_groups` takes the database that the transaction reads and the one that it
-- writes to, which other transactions may have changed; where the two are one, none has.
--
-- Parameters. `FeeArith` is the division and the rounded product of decimal.js, with the law that
-- zero has share zero; `save_row` is what TypeORM's `save` does to the ledger's inbox, with the
-- law, where it is needed, that a save that returns leaves the key there; `route` of the outbox
-- is what the publishers answer; `project` is the projector of a queued transfer, which may
-- throw, and `digest` the hash of an idempotency key; `fee_diff` is a quotient of decimal.js that
-- payouts report, and `is_uuid` is class-validator's test.
--
-- Not modelled: the queue of payouts, the gateway, custody and integration services, and the
-- wrappers of Kafka, NATS and TypeORM, which are I/O; the validation of events before they are
-- put into an outbox; failures of the database other than refused keys and full columns; and the
-- deletion of sent rows from the outbox of Ledger/Process, which Outbox has.
pub mod Prelude
pub mod Types
pub mod Ledger
pub mod Payments
pub mod Outbox
pub mod Payouts
