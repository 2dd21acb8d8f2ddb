-- ===== src/Payouts/Tests.antt =====
-- The payout theorems on one payout with a platform fee, paid by a relayer's transaction.
use multi_rail_payments_proc.Prelude.{
  ℕ, ◌≡◌, ◌≢◌, refl, Bool, true, none, some, List, [], ◌∷◌, ◌++◌, nat_beq, nat_eq, All,
}
use multi_rail_payments_proc.Prelude.Int.{ℤ, pos, ◌+ℤ◌, ◌-ℤ◌, ◌≤ℤ◌, negated}
use multi_rail_payments_proc.Types.{
  BalanceChange, ExecutionType, IntegrationType, IntentType, integration_beq,
  integration_type_from_domain,
}
use multi_rail_payments_proc.Payments.Model.{TransactionStatus}
use multi_rail_payments_proc.Payments.Settlement.{sum_for}
use multi_rail_payments_proc.Payouts.Model.{
  PayoutIntent, PayoutOperationType, PayoutTransaction, PayoutTransfer, AccountLink,
  PayoutTransactionContext, PayoutConverterResult,
}
use multi_rail_payments_proc.Payouts.Operations.{
  Slot, charge_integration_fee, amount_payout, platform_fee_payout, platform_fee_charge,
  charge_platform_fee, integration_fee_payout, integration_fee_charge,
}
use multi_rail_payments_proc.Payouts.Convert.{
  match_payouts, named_payout, unmatched, confirm_match, confirm_matches, payout_converter,
  hold_converter,
}
use multi_rail_payments_proc.Payouts.Released.{held_on, IsSettleable}
use multi_rail_payments_proc.Payouts.Released.Total.{context_at, payout_converter-released}
use multi_rail_payments_proc.Payouts.Create.{
  CreatePayoutParams, PayoutAnswers, PayoutDb, created, prepared, accepted, create_payout,
  check_payout, insert_payout, new_payout, validate, validate_with_pending, pending_amount,
  make_prepared, make_confirming, mark_success, mark_processing,
}
use multi_rail_payments_proc.Payouts.Create.Pending.{
  pending_of, moved_amount, create_payout-pending, create_payout-once, statuses-pending,
}
use multi_rail_payments_proc.Payouts.OwnFee.{charge_integration_fee-own}

abbrev fee_diff : (estimated fee rate : ℤ) → ℤ
fee_diff estimated fee rate = estimated -ℤ fee

abbrev is_uuid : ℕ → Bool
is_uuid id = true

abbrev payout : PayoutIntent
payout = record {
  id = 1;
  operation_type = PayoutOperationType.user_request;
  member_account_id = 7;
  from_amount = pos 100;
  from_currency = 3;
  from_integration = IntegrationType.ethereum;
  estimated_fee = pos 5;
  estimated_fee_currency = 4;
  platform_fee = some (pos 2);
  platform_fee_account = some (record { account = 90; platform_account_id = 9 });
  integration_fee = some (pos 4);
  integration_fee_currency = 4;
  integration_fee_rate = pos 1;
  to = record { account = 80; platform_account_id = none };
  to_integration = IntegrationType.ethereum;
}

abbrev transfer : PayoutTransfer
transfer = record {
  transfer = record {
    id = 31;
    index = 0;
    from = 70;
    to = 80;
    amount = pos 100;
    currency = 3;
    intent = some (IntentType.payout, 1);
  };
  initiator = 70;
}

abbrev relayer : AccountLink
relayer = record { account = 60; platform_account_id = 6 }

abbrev member_link : AccountLink
member_link = record { account = 70; platform_account_id = 7 }

abbrev tx : PayoutTransaction
tx = record {
  tx = record {
    id = 21;
    execution_type = ExecutionType.native;
    integration = IntegrationType.ethereum;
    source_tx_id = 22;
    status = TransactionStatus.confirmed;
    executed_at = some 30;
  };
  initiator = 60;
  fee = some (pos 4);
  fee_currency = 4;
}

abbrev context : PayoutTransactionContext
context = record {
  transaction = tx;
  transfers = transfer ∷ [];
  payout_intents = (1, payout) ∷ [];
  platform_account_ids = [];
  account_links = (70, member_link) ∷ (60, relayer) ∷ [];
}

abbrev confirmed_changes : List BalanceChange
confirmed_changes =
    (amount_payout payout tx transfer
        (record { platform_account_id = some 7; integration_account = some 70 })
      ++ platform_fee_payout payout tx transfer
          (record { platform_account_id = some 7; integration_account = some 70 }))
    ++ (charge_integration_fee fee_diff payout tx transfer relayer (pos 4) (pos 4) ++ [])

abbrev result : PayoutConverterResult
result = record {
  context = record context { payout_intents = []; transfers = [] };
  changes = confirmed_changes;
}

context-confirmed : payout_converter fee_diff is_uuid context ≡ some result
unfolding payout_converter match_payouts named_payout unmatched confirm_matches confirm_match
    integration_fee_payout integration_fee_charge integration_beq integration_type_from_domain
    amount_payout platform_fee_payout charge_integration_fee platform_fee_charge charge_platform_fee
context-confirmed = refl

context-IsSettleable : All (IsSettleable tx) (match_payouts is_uuid context context.transfers)
unfolding match_payouts named_payout integration_beq integration_type_from_domain
context-IsSettleable = (record { side = refl; payee = refl; fee = refl }, tt)

-- The slots of the relayer's account.
abbrev is_relayer : Slot → Bool
is_relayer s = elim (s.platform_account_id) [ none ↦ true | some id ↦ nat_beq id 6 ]

payout_converter-released_example :
    held_on is_relayer
        (hold_converter fee_diff is_uuid (
          context_at TransactionStatus.prepared none context.transaction.fee
            context.transaction.fee_currency context)).changes
      +ℤ held_on is_relayer confirmed_changes
    ≡ pos 0
payout_converter-released_example =
    payout_converter-released is_relayer fee_diff is_uuid TransactionStatus.prepared none
      context.transaction.fee context.transaction.fee_currency context result refl refl
      context-IsSettleable context-confirmed

charge_integration_fee-own_example :
    sum_for 7 (charge_integration_fee fee_diff payout tx transfer member_link (pos 4) (pos 4))
    ≡ record { available = pos 5; hold = negated (pos 5); hold_in = pos 0 }
charge_integration_fee-own_example =
    charge_integration_fee-own fee_diff payout tx transfer member_link (pos 4) (pos 4) refl

-- A request of 60, where 100 are available and 30 are pending.
abbrev params : CreatePayoutParams
params = record {
  idempotency_key = 500;
  operation_type = PayoutOperationType.user_request;
  member_account_id = 7;
  amount = pos 60;
  from_integration = IntegrationType.ethereum;
  from_currency = 3;
  to_integration = IntegrationType.ethereum;
  to_account = 80;
}

abbrev answers : PayoutAnswers
answers = record {
  transfer_fee =
      some (record { integration = IntegrationType.ethereum; amount = pos 4; currency = 4 });
  converted_amount = pos 5;
  rate = pos 1;
  platform_fee = none;
  platform_fee_account = none;
  available = some (pos 100);
  link = none;
  payout_id = 2;
}

abbrev payout_db : PayoutDb
payout_db = record {
  rows = record { payout = record payout { from_amount = pos 30 }; status = prepared } ∷ [];
  handled = [];
  outbox = [];
}

abbrev made_payout : PayoutIntent
made_payout = record {
  id = 2;
  operation_type = PayoutOperationType.user_request;
  member_account_id = 7;
  from_amount = pos 60;
  from_currency = 3;
  from_integration = IntegrationType.ethereum;
  estimated_fee = pos 5;
  estimated_fee_currency = 4;
  platform_fee = none;
  platform_fee_account = none;
  integration_fee = none;
  integration_fee_currency = 4;
  integration_fee_rate = pos 1;
  to = record { account = 80; platform_account_id = none };
  to_integration = IntegrationType.ethereum;
}

abbrev created_db : PayoutDb
created_db = record {
  rows = record { payout = made_payout; status = created } ∷ payout_db.rows;
  handled = 500 ∷ [];
  outbox = 2 ∷ [];
}

params-accepted : create_payout params answers payout_db ≡ accepted made_payout created_db
unfolding create_payout check_payout insert_payout new_payout validate validate_with_pending
    pending_amount integration_beq integration_type_from_domain ◌+ℤ◌ ◌-ℤ◌
params-accepted = refl

create_payout-pending_example : pending_of params created_db.rows ≤ℤ pos 100
create_payout-pending_example =
    create_payout-pending params answers (pos 100) made_payout payout_db created_db refl
      params-accepted

create_payout-once_example :
    create_payout params answers created_db ≢ accepted made_payout created_db
create_payout-once_example =
    create_payout-once params params answers answers made_payout made_payout payout_db created_db
      created_db params-accepted refl

statuses-pending_example :
    (pending_of params (make_prepared 2 (some (pos 4)) created_db.rows)
      ≡ pending_of params created_db.rows)
    × (pending_of params (make_confirming 2 (some (pos 4)) created_db.rows)
        ≡ pending_of params created_db.rows)
    × (pending_of params (mark_success 2 created_db.rows) ≡ pending_of params created_db.rows)
    × (moved_amount params (1 ∷ []) created_db.rows
          +ℤ pending_of params (mark_processing (1 ∷ []) created_db.rows)
        ≡ pending_of params created_db.rows)
statuses-pending_example = statuses-pending params 2 (1 ∷ []) (some (pos 4)) created_db.rows
