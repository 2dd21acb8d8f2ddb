-- ===== src/Payments/Fee.antt =====
-- The platform fee of a payment:
-- apps/core/src/module/payment-intent/transaction-converter/converter/payment-fee-calculate.ts and
-- apps/core/src/module/payment-intent/transaction-converter/converter/operation/fee-payment.operation.ts.
-- The quotient and the rounded product are decimal.js's, and a parameter here.
use multi_rail_payments_proc.Prelude.{
  ℕ, ◌≡◌, ◌||◌, Option, none, some, List, [], ◌∷◌, if◌then◌else◌,
}
use multi_rail_payments_proc.Prelude.Int.{ℤ, pos, ◌+ℤ◌, ◌-ℤ◌, leb_ℤ}
use multi_rail_payments_proc.Types.{
  BalanceChange, BalanceChangeType, BalanceChangeMetadata, BalanceChangeReason,
  BalanceChangeTxStatus, IntentType, native, internal,
}
use multi_rail_payments_proc.Payments.Model.{
  PaymentIntent, Transaction, SourceIntegrationAccount, PaymentPlatformFeePayerType, client, payer,
  to_balance_change,
}

-- `div` is `a.div(b)`; `share x r u` is `x.mul(r).toDecimalPlaces(u, ROUND_FLOOR)`. The share
-- of nothing is nothing.
pub record FeeArith : Type 1 where
  pub Ratio : Type 0
  pub div : ℤ → ℤ → Ratio
  pub share : ℤ → Ratio → ℕ → ℤ
  pub share_zero : (r : Ratio) (u : ℕ) → share (pos 0) r u ≡ pos 0

-- The metadata of a change that a transaction makes.
abbrev pub tx_metadata :
    Transaction → List ℕ → BalanceChangeReason → BalanceChangeTxStatus → BalanceChangeMetadata
tx_metadata tx transfer_ids reason status = record {
  reason = reason;
  execution_type = tx.execution_type;
  tx_id = tx.id;
  transfer_ids = transfer_ids;
  tx_status = status;
  source_tx_id = tx.source_tx_id;
  executed_at = tx.executed_at;
  overpay = none;
  expected_amount = none;
  related_intent_type = none;
  related_intent_id = none;
  integration_fee_diff = none;
}

-- A change of a payment on the given accounts.
abbrev pub payment_change :
    PaymentIntent
    → BalanceChangeType
    → (platform_account_id integration_account : Option ℕ) → ℤ
    → BalanceChangeMetadata
    → BalanceChange
payment_change payment type platform_account_id integration_account amount metadata = record {
  type = type;
  intent_type = some IntentType.payment;
  intent_id = some payment.id;
  operation_type = some (to_balance_change payment.operation_type);
  platform_account_id = platform_account_id;
  integration_account = integration_account;
  currency = payment.currency;
  integration = payment.integration;
  amount = amount;
  metadata = metadata;
}

pub record FeePaymentResult : Type 0 where
  pub amount : ℤ
  pub payer_fee_amount : ℤ
  pub client_fee_amount : ℤ
  pub changes : List BalanceChange

-- On an internal transfer the fee goes between platform accounts; on a native one it is accrued on
-- the integration account and debited from the platform account.
unfoldable pub fee_changes :
    PaymentIntent → SourceIntegrationAccount → Transaction → List ℕ → ℤ → List BalanceChange
fee_changes payment fee_account tx transfer_ids partial_fee = elim tx.execution_type [
  | internal ↦
      payment_change payment BalanceChangeType.debit (some payment.to.platform_account_id) none
        partial_fee
        (tx_metadata tx transfer_ids BalanceChangeReason.fee BalanceChangeTxStatus.tx_confirmed)
      ∷ payment_change payment BalanceChangeType.credit (some fee_account.platform_account_id) none
          partial_fee
          (tx_metadata tx transfer_ids BalanceChangeReason.platform_fee_consolidation
            BalanceChangeTxStatus.tx_confirmed)
      ∷ []
  | native ↦
      payment_change payment BalanceChangeType.platform_fee_accrued none (some payment.to.account)
        partial_fee
        (tx_metadata tx transfer_ids BalanceChangeReason.platform_fee_consolidation
          BalanceChangeTxStatus.tx_confirmed)
      ∷ payment_change payment BalanceChangeType.debit (some payment.to.platform_account_id) none
          partial_fee
          (tx_metadata tx transfer_ids BalanceChangeReason.fee BalanceChangeTxStatus.tx_confirmed)
      ∷ []
]

module _ (dec : FeeArith) where
  open dec use {div, share}

  -- The fee on one of the transfers of a payment: the rest of the fee on the last one.
  unfoldable pub payment_fee_calculate :
      PaymentIntent → (transfer_amount accumulated_amount : ℤ) → (minor_unit : ℕ) → ℤ
  payment_fee_calculate payment transfer_amount accumulated_amount minor_unit =
      elim payment.platform_fee [
        | none ↦ pos 0
        | some fee ↦
            if leb_ℤ fee (pos 0) || leb_ℤ payment.amount (pos 0)
            then pos 0
            else if leb_ℤ payment.amount (accumulated_amount +ℤ transfer_amount)
            then fee -ℤ share accumulated_amount (div fee payment.amount) minor_unit
            else share transfer_amount (div fee payment.amount) minor_unit
      ]

  -- `FeePaymentOperation.execute` where the payment has a fee, a payer of it and an account for it.
  unfoldable pub charge_fee :
      PaymentIntent
      → (fee : ℤ) → PaymentPlatformFeePayerType
      → SourceIntegrationAccount
      → Transaction
      → List ℕ
      → (transfer_amount accumulated_amount : ℤ) → (minor_unit : ℕ) → FeePaymentResult
  charge_fee payment fee fee_payer fee_account tx ids transfer_amount accumulated_amount
        minor_unit =
      let partial_fee =
        payment_fee_calculate payment transfer_amount accumulated_amount minor_unit in
      record {
        amount = transfer_amount -ℤ partial_fee;
        payer_fee_amount = elim fee_payer [ payer ↦ fee | client ↦ pos 0 ];
        client_fee_amount = elim fee_payer [ payer ↦ pos 0 | client ↦ fee ];
        changes = fee_changes payment fee_account tx ids partial_fee;
      }

  unfoldable pub fee_payment :
      PaymentIntent
      → Transaction
      → List ℕ
      → (transfer_amount accumulated_amount : ℤ) → (minor_unit : ℕ) → FeePaymentResult
  fee_payment payment tx ids transfer_amount accumulated_amount minor_unit =
      let free : FeePaymentResult = record {
        amount = transfer_amount;
        payer_fee_amount = pos 0;
        client_fee_amount = pos 0;
        changes = [];
      } in
      elim payment.platform_fee [
        | none ↦ free
        | some fee ↦ if leb_ℤ fee (pos 0) then free else elim payment.platform_fee_payer [
          | none ↦ free
          | some fee_payer ↦ elim payment.platform_fee_account [
            | none ↦ free
            | some fee_account ↦
                charge_fee payment fee fee_payer fee_account tx ids transfer_amount
                  accumulated_amount minor_unit
          ]
        ]
      ]
