-- ===== src/Payments/Model.antt =====
-- The models that the conversion of a transaction reads:
-- apps/core/src/module/payment-intent/model/{payment-intent,payment-amount-accumulator}.model.ts,
-- apps/core/src/shared/model/{transaction,transfer}.model.ts,
-- apps/core/src/module/payment-intent/transaction-converter/converter/payment-transaction.converter.ts
-- and apps/core/src/shared/projection/operation-type.mapper.ts.
use multi_rail_payments_proc.Prelude.{ℕ, Option, List}
use multi_rail_payments_proc.Prelude.Int.{ℤ}
use multi_rail_payments_proc.Prelude.JsMap.{JsMap}
use multi_rail_payments_proc.Types.{
  IntegrationType, IntentType, ExecutionType, BalanceChange, BalanceChangeOperationType,
}

pub data TransactionStatus : Type 0 where
  prepared promoted accepted confirmed rejected failed reorg : TransactionStatus

pub data PaymentIntentStatus : Type 0 where
  created processing underpay overpay exact expired cancelled : PaymentIntentStatus

pub data PaymentPlatformFeePayerType : Type 0 where
  client payer : PaymentPlatformFeePayerType

pub data PaymentOperationType : Type 0 where
  user_request relayer consolidation : PaymentOperationType

pub record SourceIntegrationAccount : Type 0 where
  pub account : ℕ
  pub platform_account_id : ℕ

pub record PaymentIntent : Type 0 where
  pub id : ℕ
  pub operation_type : PaymentOperationType
  pub to : SourceIntegrationAccount
  pub integration : IntegrationType
  pub currency : ℕ
  pub amount : ℤ
  pub platform_fee : Option ℤ
  pub platform_fee_account : Option SourceIntegrationAccount
  pub platform_fee_payer : Option PaymentPlatformFeePayerType
  pub status : PaymentIntentStatus
  pub created_at : ℕ

-- The intent of a transfer, if any: its type and its id.
pub record Transfer : Type 0 where
  pub id : ℕ
  pub index : ℕ
  pub from : ℕ
  pub to : ℕ
  pub amount : ℤ
  pub currency : ℕ
  pub intent : Option (IntentType × ℕ)

-- A transaction without its transfers.
pub record Transaction : Type 0 where
  pub id : ℕ
  pub execution_type : ExecutionType
  pub integration : IntegrationType
  pub source_tx_id : ℕ
  pub status : TransactionStatus
  pub executed_at : Option ℕ

pub record PaymentAmountAccumulator : Type 0 where
  pub payment_id : ℕ
  pub amount : ℤ
  pub from : ℕ

pub data LinkModelType : Type 0 where
  regular temporal : LinkModelType

pub record IntegrationAccountLink : Type 0 where
  pub platform_account_id : ℕ
  pub link_type : LinkModelType

-- `minor_unit` of a currency stands for the `currencies` map, which has every currency that a
-- payment of the integration can be in.
pub record PaymentTransactionContext : Type 0 where
  pub transaction : Transaction
  pub transfers : List Transfer
  pub payment_intents : List PaymentIntent
  pub integration_accounts : JsMap ℕ ℕ
  pub accounts_link : JsMap ℕ IntegrationAccountLink
  pub platform_accounts : JsMap ℕ ℕ
  pub amounts : JsMap ℕ (List PaymentAmountAccumulator)
  pub minor_unit : ℕ → ℕ

pub record ConverterResult : Type 0 where
  pub context : PaymentTransactionContext
  pub changes : List BalanceChange

abbrev pub to_balance_change : PaymentOperationType → BalanceChangeOperationType
to_balance_change PaymentOperationType.user_request = BalanceChangeOperationType.user_request
to_balance_change PaymentOperationType.relayer = BalanceChangeOperationType.relayer
to_balance_change PaymentOperationType.consolidation = BalanceChangeOperationType.consolidation
