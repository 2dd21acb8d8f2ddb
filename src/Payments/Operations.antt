-- ===== src/Payments/Operations.antt =====
-- The operations that make the balance changes of a matched transfer:
-- apps/core/src/module/payment-intent/transaction-converter/converter/operation/
-- {hold-in-payment,payment,overpay-payment,underpay-payment,mispay-payment}.operation.ts.
use multi_rail_payments_proc.Prelude.{ℕ, Option, none, some, List, [], ◌∷◌}
use multi_rail_payments_proc.Prelude.Int.{ℤ}
use multi_rail_payments_proc.Types.{
  IntegrationType, BalanceChange, BalanceChangeType, BalanceChangeMetadata, BalanceChangeReason,
  BalanceChangeOperationType, BalanceChangeTxStatus, IntentType, native, internal,
}
use multi_rail_payments_proc.Payments.Model.{
  PaymentIntent, Transaction, Transfer, to_balance_change,
}
use multi_rail_payments_proc.Payments.Fee.{tx_metadata, payment_change}

pub data HoldAction : Type 0 where
  hold release : HoldAction

pub record HoldInParams : Type 0 where
  pub integration : IntegrationType
  pub platform_account_id : Option ℕ
  pub integration_account : Option ℕ
  pub amount : ℤ
  pub currency : ℕ
  pub tx : Transaction
  pub transfer_ids : List ℕ
  pub operation_type : Option BalanceChangeOperationType
  pub payment_id : Option ℕ
  pub payout_id : Option ℕ
  pub action : HoldAction
  pub reason : BalanceChangeReason
  pub tx_status : BalanceChangeTxStatus

-- The integration account of a payment, none for an internal transfer.
abbrev pub paid_account : Transaction → PaymentIntent → Option ℕ
paid_account tx payment = elim tx.execution_type [
  | internal ↦ none
  | native ↦ some payment.to.account
]

-- The metadata with the payout that the payment comes from, if any.
abbrev pub related : BalanceChangeMetadata → Option ℕ → BalanceChangeMetadata
related m payout_id = record m {
  related_intent_type = elim payout_id [ none ↦ none | some _ ↦ some IntentType.payout ];
  related_intent_id = payout_id;
}

unfoldable pub create_params_by_payment :
    PaymentIntent
    → ℤ
    → Transaction
    → List ℕ
    → Option ℕ
    → HoldAction
    → BalanceChangeReason
    → BalanceChangeTxStatus
    → HoldInParams
create_params_by_payment payment amount tx ids payout_id action reason tx_status = record {
  integration = payment.integration;
  platform_account_id = some payment.to.platform_account_id;
  integration_account = paid_account tx payment;
  amount = amount;
  currency = payment.currency;
  tx = tx;
  transfer_ids = ids;
  operation_type = some (to_balance_change payment.operation_type);
  payment_id = some payment.id;
  payout_id = payout_id;
  action = action;
  reason = reason;
  tx_status = tx_status;
}

unfoldable pub hold_in_payment : HoldInParams → List BalanceChange
hold_in_payment p =
    record {
      type = elim p.action [
        | hold ↦ BalanceChangeType.hold_in
        | release ↦ BalanceChangeType.release_hold_in
      ];
      intent_type = elim p.payment_id [ none ↦ none | some _ ↦ some IntentType.payment ];
      intent_id = p.payment_id;
      operation_type = p.operation_type;
      platform_account_id = p.platform_account_id;
      integration_account = p.integration_account;
      currency = p.currency;
      integration = p.integration;
      amount = p.amount;
      metadata = related (tx_metadata p.tx p.transfer_ids p.reason p.tx_status) p.payout_id;
    }
    ∷ []

unfoldable pub payment_operation :
    PaymentIntent → ℤ → Transaction → List ℕ → Option ℕ → List BalanceChange
payment_operation payment amount tx ids payout_id =
    payment_change payment BalanceChangeType.credit (some payment.to.platform_account_id)
      (paid_account tx payment) amount
      (related (tx_metadata tx ids BalanceChangeReason.amount BalanceChangeTxStatus.tx_confirmed)
        payout_id)
    ∷ []

abbrev overpay_metadata : Transaction → List ℕ → (overpay expected : ℤ) → BalanceChangeMetadata
overpay_metadata tx ids overpay expected =
    let m = tx_metadata tx ids BalanceChangeReason.overpay BalanceChangeTxStatus.tx_confirmed in
    record m { overpay = some overpay; expected_amount = some expected }

unfoldable pub overpay_operation :
    PaymentIntent
    → Transaction
    → List ℕ
    → (transfer_amount expected_amount overpay : ℤ) → List BalanceChange
overpay_operation payment tx ids transfer_amount expected_amount overpay =
    payment_change payment BalanceChangeType.credit (some payment.to.platform_account_id)
      (paid_account tx payment) transfer_amount (overpay_metadata tx ids overpay expected_amount)
    ∷ payment_change payment BalanceChangeType.hold (some payment.to.platform_account_id)
        (paid_account tx payment) transfer_amount (overpay_metadata tx ids overpay expected_amount)
    ∷ []

unfoldable pub underpay_operation :
    PaymentIntent
    → Transaction
    → List ℕ
    → (amount expected_amount : ℤ) → Option ℕ
    → List BalanceChange
underpay_operation payment tx ids amount expected_amount payout_id =
    let m =
      related (tx_metadata tx ids BalanceChangeReason.underpay BalanceChangeTxStatus.tx_confirmed)
        payout_id in
    payment_change payment BalanceChangeType.credit (some payment.to.platform_account_id)
      (paid_account tx payment) amount (record m { expected_amount = some expected_amount })
    ∷ []

abbrev mispay_change :
    BalanceChangeType
    → Option ℕ
    → IntegrationType
    → Option ℕ
    → Transaction
    → Transfer
    → BalanceChange
mispay_change type account_id integration integration_account tx transfer = record {
  type = type;
  intent_type = none;
  intent_id = none;
  operation_type = none;
  platform_account_id = account_id;
  integration_account = integration_account;
  currency = transfer.currency;
  integration = integration;
  amount = transfer.amount;
  metadata =
      tx_metadata tx (transfer.id ∷ []) BalanceChangeReason.unexpected_payment
        BalanceChangeTxStatus.tx_confirmed;
}

unfoldable pub mispay_operation :
    (account_id : Option ℕ)
    → IntegrationType
    → (integration_account : Option ℕ) → Transaction
    → Transfer
    → List BalanceChange
mispay_operation account_id integration integration_account tx transfer =
    mispay_change BalanceChangeType.credit account_id integration integration_account tx transfer
    ∷ mispay_change BalanceChangeType.hold account_id integration integration_account tx transfer
    ∷ []
