-- ===== src/Types/Change.antt =====
-- libs/shared/src/types/balance-change.ts. A text that is only compared (a UUID, an Id, an account,
-- a currency) is a number that names it; `Date` is a number of milliseconds.
use multi_rail_payments_proc.Prelude.{ℕ, Option, List}
use multi_rail_payments_proc.Prelude.Int.{ℤ}
use multi_rail_payments_proc.Types.Enums.{
  IntegrationType, IntentType, ExecutionType, BalanceChangeType,
}

pub data BalanceChangeTxStatus : Type 0 where
  tx_prepared tx_confirmed tx_accepted : BalanceChangeTxStatus

pub data BalanceChangeOperationType : Type 0 where
  user_request relayer consolidation : BalanceChangeOperationType

pub data BalanceChangeReason : Type 0 where
  overpay underpay unexpected_payment fee integration_fee : BalanceChangeReason
  platform_fee_consolidation amount transaction_reverted : BalanceChangeReason
  mempool_rejected cex_rejected send_failed timeout : BalanceChangeReason
  blockchain_reorg fork_detected manual_correction : BalanceChangeReason
  system_error_correction fee_adjustment : BalanceChangeReason

-- The fields that only payment or payout changes have are options.
pub record BalanceChangeMetadata : Type 0 where
  pub reason : BalanceChangeReason
  pub execution_type : ExecutionType
  pub tx_id : ℕ
  pub transfer_ids : List ℕ
  pub tx_status : BalanceChangeTxStatus
  pub source_tx_id : ℕ
  pub executed_at : Option ℕ
  pub overpay : Option ℤ
  pub expected_amount : Option ℤ
  pub related_intent_type : Option IntentType
  pub related_intent_id : Option ℕ
  pub integration_fee_diff : Option ℤ

pub record BalanceChange : Type 0 where
  pub type : BalanceChangeType
  pub intent_type : Option IntentType
  pub intent_id : Option ℕ
  pub operation_type : Option BalanceChangeOperationType
  pub platform_account_id : Option ℕ
  pub integration_account : Option ℕ
  pub currency : ℕ
  pub integration : IntegrationType
  pub amount : ℤ
  pub metadata : BalanceChangeMetadata
