-- ===== src/Payments/Tests/Queue.antt =====
-- The queue of transfers and the finalization of payments at concrete tables.
use multi_rail_payments_proc.Prelude.{ℕ, ◌≡◌, refl, some, [], ◌∷◌, map, All, or_else}
use multi_rail_payments_proc.Prelude.Int.{pos, ◌+ℤ◌}
use multi_rail_payments_proc.Types.{IntegrationType, integration_beq, integration_type_from_domain}
use multi_rail_payments_proc.Payments.Model.{
  PaymentIntent, PaymentIntentStatus, PaymentTransactionContext, TransactionStatus, payer,
}
use multi_rail_payments_proc.Payments.Convert.Classify.{Match, fee_of}
use multi_rail_payments_proc.Payments.Finalize.{
  PaymentReceipt, PaymentDb, determine_status, finalize, status_of, find_amount, sum_received,
  sum_receipts,
}
use multi_rail_payments_proc.Payments.Finalize.Statuses.{
  settled, keep_waiting, finalize-settled, Determined, amount_of, total, own_amounts, own_receipts,
}
use multi_rail_payments_proc.Payments.Inbox.{
  InboxTransfer, InboxTable, InboxRow, blocked, insert_transfers, mark_blocked_with_successors,
  group_by_key, insert_groups, insert_group, insert_rows, insert_row, same_transfer, has_blocked,
  blocks, mark_failed, mark_successor,
}
use multi_rail_payments_proc.Payments.Inbox.Order.{IsIn, IsQueue}
use multi_rail_payments_proc.Payments.Inbox.Reach.{start, more, arrive, fail, InboxReach-IsQueue}
use multi_rail_payments_proc.Payments.Tests.Data.{
  floor_arith, client_payment, transfer_of, part_of, context_of,
}

abbrev inbox_transfer : (transfer_id : ℕ) → InboxTransfer
inbox_transfer transfer_id = record {
  key = 5;
  tx_id = 21;
  transfer_id = transfer_id;
  integration = IntegrationType.ethereum;
  tx_status = TransactionStatus.confirmed;
}

abbrev empty_inbox : InboxTable
empty_inbox = record { rows = []; next_id = 1 }

-- Two transfers arrive, the first one fails, and a third one arrives.
abbrev arrived : InboxTable
arrived = insert_transfers 100 (inbox_transfer 31 ∷ inbox_transfer 32 ∷ []) empty_inbox

abbrev failed_inbox : InboxTable
failed_inbox = mark_blocked_with_successors 1 5 404 arrived

arrived-IsIn : All (IsIn 1 5) arrived.rows
unfolding insert_transfers group_by_key insert_groups insert_group insert_rows insert_row
    same_transfer has_blocked integration_beq integration_type_from_domain
arrived-IsIn = (λ e. refl, (λ e. refl, tt))

InboxReach-IsQueue_example : IsQueue (insert_transfers 101 (inbox_transfer 33 ∷ []) failed_inbox)
InboxReach-IsQueue_example = InboxReach-IsQueue (
    more
      (more (more start (arrive 100 (inbox_transfer 31 ∷ inbox_transfer 32 ∷ [])))
        (fail 1 5 404 arrived-IsIn))
      (arrive 101 (inbox_transfer 33 ∷ [])))

-- All three are blocked then.
third_is_blocked :
    map
      (λ (r : InboxRow). r.state)
      (insert_transfers 101 (inbox_transfer 33 ∷ []) failed_inbox).rows
    ≡ blocked ∷ blocked ∷ blocked ∷ []
unfolding insert_transfers group_by_key insert_groups insert_group insert_rows insert_row
    same_transfer has_blocked blocks integration_beq integration_type_from_domain
    mark_blocked_with_successors mark_failed mark_successor
third_is_blocked = refl

abbrev payer_payment : PaymentIntent
payer_payment = record client_payment { platform_fee_payer = some payer }

abbrev payer_context : PaymentTransactionContext
payer_context = context_of payer_payment (transfer_of 103)

-- The match of the payment of 100 with its fee of 3 on top.
abbrev payer_sample : Match
payer_sample = record {
  payment = payer_payment;
  transfer = transfer_of 103;
  fee_changes =
      (fee_of floor_arith payer_context payer_payment (transfer_of 103) (pos 0) (pos 0)).changes;
  amount = pos 103;
  expected_amount = pos 103;
  overpay = pos 0;
}

abbrev part_receipt : PaymentReceipt
part_receipt = record {
  intent_id = 1;
  amount = pos 50;
  integration = IntegrationType.ethereum;
  source_tx_id = 5;
  tx_id = 6;
  transfer_ids = 7 ∷ [];
  currency = 1;
  executed_at = 8;
}

abbrev payment_db : PaymentDb
payment_db = record {
  payments = client_payment ∷ [];
  accumulators = part_of 50 ∷ part_of 50 ∷ [];
  receipts = part_receipt ∷ part_receipt ∷ [];
}

finalize-settled_example :
    ((finalize (1 ∷ []) payment_db).payments
      ≡ map
          (λ (p : PaymentIntent). record p {
            status = or_else (settled payment_db (1 ∷ []) p.id) p.status;
          })
          payment_db.payments)
    × ((finalize (1 ∷ []) payment_db).accumulators
        ≡ keep_waiting payment_db (1 ∷ []) payment_db.accumulators)
    × ((finalize (1 ∷ []) payment_db).receipts ≡ payment_db.receipts)
    × ((id : ℕ)
        → Determined
            (amount_of id payment_db.payments)
            (total (own_amounts id payment_db.accumulators))
            (total (own_receipts id payment_db.receipts))
            (status_of payment_db id))
finalize-settled_example = finalize-settled (1 ∷ []) payment_db

-- The transfer of 103 for the payment of 100 with a fee of 3 on top.
abbrev payer_db : PaymentDb
payer_db = record {
  payments = payer_payment ∷ [];
  accumulators = part_of 103 ∷ [];
  receipts = record part_receipt { amount = pos 103 } ∷ [];
}

-- Both parts have their receipts: the payment is exact.
payment_db-exact : settled payment_db (1 ∷ []) 1 ≡ some PaymentIntentStatus.exact
unfolding status_of find_amount sum_received sum_receipts determine_status ◌+ℤ◌
payment_db-exact = refl
