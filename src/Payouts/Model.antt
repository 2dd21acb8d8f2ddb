-- ===== src/Payouts/Model.antt =====
-- The models that the conversion of payouts reads:
-- apps/core/src/module/payout-intent/model/payout-intent.model.ts,
-- apps/core/src/module/payout-intent/transaction-converter/payout-converter/payout-transaction.converter.ts
-- and the fields of apps/core/src/shared/model/{transaction,transfer}.model.ts that only payouts use.
use multi_rail_payments_proc.Prelude.{ℕ, Option, List}
use multi_rail_payments_proc.Prelude.Int.{ℤ}
use multi_rail_payments_proc.Prelude.JsMap.{JsMap}
use multi_rail_payments_proc.Types.{IntegrationType, BalanceChange, BalanceChangeOperationType}
use multi_rail_payments_proc.Payments.Model.{SourceIntegrationAccount, Transaction, Transfer}

pub data PayoutOperationType : Type 0 where
  user_request consolidation : PayoutOperationType

abbrev pub payout_to_balance_change : PayoutOperationType → BalanceChangeOperationType
payout_to_balance_change user_request = BalanceChangeOperationType.user_request
payout_to_balance_change consolidation = BalanceChangeOperationType.consolidation

pub record DestinationIntegrationAccount : Type 0 where
  pub account : ℕ
  pub platform_account_id : Option ℕ

pub record PayoutIntent : Type 0 where
  pub id : ℕ
  pub operation_type : PayoutOperationType
  pub member_account_id : ℕ
  pub from_amount : ℤ
  pub from_currency : ℕ
  pub from_integration : IntegrationType
  pub estimated_fee : ℤ
  pub estimated_fee_currency : ℕ
  pub platform_fee : Option ℤ
  pub platform_fee_account : Option SourceIntegrationAccount
  pub integration_fee : Option ℤ
  pub integration_fee_currency : ℕ
  pub integration_fee_rate : ℤ
  pub to : DestinationIntegrationAccount
  pub to_integration : IntegrationType

pub record PayoutTransaction : Type 0 where
  pub tx : Transaction
  pub initiator : ℕ
  pub fee : Option ℤ
  pub fee_currency : ℕ

pub record PayoutTransfer : Type 0 where
  pub transfer : Transfer
  pub initiator : ℕ

-- The link of an account: the account and the platform account that it belongs to.
pub record AccountLink : Type 0 where
  pub account : ℕ
  pub platform_account_id : ℕ

pub record PayoutFrom : Type 0 where
  pub platform_account_id : Option ℕ
  pub integration_account : Option ℕ

pub record PayoutTransactionContext : Type 0 where
  pub transaction : PayoutTransaction
  pub transfers : List PayoutTransfer
  pub payout_intents : JsMap ℕ PayoutIntent
  pub platform_account_ids : List ℕ
  pub account_links : JsMap ℕ AccountLink

pub record PayoutConverterResult : Type 0 where
  pub context : PayoutTransactionContext
  pub changes : List BalanceChange
