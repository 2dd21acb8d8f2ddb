-- ===== src/Payouts/Operations.antt =====
-- The operations of payouts:
-- apps/core/src/module/payout-intent/transaction-converter/payout-converter/operation.
-- `fee_diff` stands for the quotient of decimal.js in the metadata, from the estimated fee, the fee
-- and the rate.
use multi_rail_payments_proc.Prelude.{
  ℕ, Bool, false, Option, none, some, List, [], ◌∷◌, nat_beq, if◌then◌else◌,
}
use multi_rail_payments_proc.Prelude.Int.{ℤ, pos, leb_ℤ}
use multi_rail_payments_proc.Types.{
  IntegrationType, ExecutionType, IntentType, BalanceChange, BalanceChangeType,
  BalanceChangeMetadata, BalanceChangeReason, BalanceChangeTxStatus,
}
use multi_rail_payments_proc.Payments.Model.{SourceIntegrationAccount}
use multi_rail_payments_proc.Payments.Fee.{tx_metadata}
use multi_rail_payments_proc.Payouts.Model.{
  PayoutIntent, PayoutTransaction, PayoutTransfer, AccountLink, PayoutFrom,
  payout_to_balance_change,
}

-- Where a change is booked.
pub record Slot : Type 0 where
  pub platform_account_id : Option ℕ
  pub integration_account : Option ℕ
  pub currency : ℕ
  pub integration : IntegrationType

abbrev pub payout_change :
    PayoutIntent → BalanceChangeType → Slot → (amount : ℤ) → BalanceChangeMetadata → BalanceChange
payout_change payout type slot amount metadata = record {
  type = type;
  intent_type = some IntentType.payout;
  intent_id = some payout.id;
  operation_type = some (payout_to_balance_change payout.operation_type);
  platform_account_id = slot.platform_account_id;
  integration_account = slot.integration_account;
  currency = slot.currency;
  integration = slot.integration;
  amount = amount;
  metadata = metadata;
}

abbrev pub payout_metadata :
    PayoutTransaction
    → List ℕ
    → BalanceChangeReason
    → BalanceChangeTxStatus
    → Option ℤ
    → BalanceChangeMetadata
payout_metadata tx ids reason status diff = record (tx_metadata tx.tx ids reason status) {
  integration_fee_diff = diff;
}

-- No integration account in an internal transfer.
abbrev pub external_account : PayoutTransaction → Option ℕ → Option ℕ
external_account tx account = elim tx.tx.execution_type [
  | ExecutionType.internal ↦ none
  | ExecutionType.native ↦ account
]

abbrev pub amount_slot : PayoutTransaction → PayoutTransfer → PayoutFrom → Slot
amount_slot tx t from = record {
  platform_account_id = from.platform_account_id;
  integration_account = external_account tx from.integration_account;
  currency = t.transfer.currency;
  integration = tx.tx.integration;
}

-- The slot of the platform fee.
abbrev pub fee_slot : PayoutIntent → (platform_account_id account : Option ℕ) → Slot
fee_slot payout platform_account_id account = record {
  platform_account_id = platform_account_id;
  integration_account = account;
  currency = payout.from_currency;
  integration = payout.from_integration;
}

abbrev pub is_member : PayoutIntent → Option ℕ → Bool
is_member payout none = false
is_member payout (some id) = nat_beq id payout.member_account_id

-- `tx.fee && tx.fee.gt(0)`
abbrev pub positive : Option ℤ → Option ℤ
positive none = none
positive (some fee) = if leb_ℤ fee (pos 0) then none else some fee

-- The account of the initiator where the member is the initiator.
abbrev pub member_slot : PayoutIntent → AccountLink → (currency : ℕ) → Slot
member_slot payout link currency = record {
  platform_account_id = some payout.member_account_id;
  integration_account =
      if is_member payout (some link.platform_account_id) then some link.account else none;
  currency = currency;
  integration = payout.from_integration;
}

abbrev pub initiator_slot : PayoutTransaction → AccountLink → Slot
initiator_slot tx link = record {
  platform_account_id = some link.platform_account_id;
  integration_account = some link.account;
  currency = tx.fee_currency;
  integration = tx.tx.integration;
}

-- `SingleIntegrationAmountPayoutOperation`
unfoldable pub amount_payout :
    PayoutIntent → PayoutTransaction → PayoutTransfer → PayoutFrom → List BalanceChange
amount_payout payout tx t from =
    let slot = amount_slot tx t from in
    let metadata =
      payout_metadata tx (t.transfer.id ∷ []) BalanceChangeReason.amount
        BalanceChangeTxStatus.tx_confirmed none in
    payout_change payout BalanceChangeType.release_hold slot t.transfer.amount metadata
    ∷ payout_change payout BalanceChangeType.debit slot t.transfer.amount metadata
    ∷ []

-- `PlatformFeePayoutOperation`, with the fee and the account that it goes to.
unfoldable pub charge_platform_fee :
    PayoutIntent
    → PayoutTransaction
    → PayoutTransfer
    → PayoutFrom
    → ℤ
    → SourceIntegrationAccount
    → List BalanceChange
charge_platform_fee payout tx t from fee account =
    let metadata : BalanceChangeReason → BalanceChangeMetadata = λ reason.
      payout_metadata tx (t.transfer.id ∷ []) reason BalanceChangeTxStatus.tx_confirmed none in
    payout_change payout BalanceChangeType.release_hold
      (fee_slot payout from.platform_account_id (external_account tx from.integration_account)) fee
      (metadata BalanceChangeReason.fee)
    ∷ payout_change payout BalanceChangeType.debit (fee_slot payout from.platform_account_id none)
        fee (metadata BalanceChangeReason.fee)
    ∷ payout_change payout BalanceChangeType.credit
        (fee_slot payout (some account.platform_account_id) none) fee
        (metadata BalanceChangeReason.platform_fee_consolidation)
    ∷ []

-- The charge of a fee, where the payout has one and an account for it.
unfoldable pub platform_fee_charge :
    PayoutIntent
    → PayoutTransaction
    → PayoutTransfer
    → PayoutFrom
    → Option ℤ
    → Option SourceIntegrationAccount
    → List BalanceChange
platform_fee_charge payout tx t from none account = []
platform_fee_charge payout tx t from (some fee) none = []
platform_fee_charge payout tx t from (some fee) (some account) =
    if is_member payout from.platform_account_id
    then charge_platform_fee payout tx t from fee account
    else []

unfoldable pub platform_fee_payout :
    PayoutIntent → PayoutTransaction → PayoutTransfer → PayoutFrom → List BalanceChange
platform_fee_payout payout tx t from =
    platform_fee_charge payout tx t from payout.platform_fee payout.platform_fee_account

-- What the initiator gets back and pays, where it is not the member.
unfoldable pub initiator_changes :
    PayoutIntent → PayoutTransaction → AccountLink → ℤ → BalanceChangeMetadata → List BalanceChange
initiator_changes payout tx link fee metadata =
    if is_member payout (some link.platform_account_id)
    then []
    else (payout_change payout BalanceChangeType.release_hold (initiator_slot tx link) fee metadata
        ∷ payout_change payout BalanceChangeType.debit (initiator_slot tx link) fee metadata
        ∷ [])

module _ (fee_diff : (estimated fee rate : ℤ) → ℤ) where
  abbrev pub fee_metadata :
      PayoutIntent
      → PayoutTransaction
      → PayoutTransfer
      → BalanceChangeTxStatus
      → ℤ
      → BalanceChangeMetadata
  fee_metadata payout tx t status fee =
      payout_metadata tx (t.transfer.id ∷ []) BalanceChangeReason.integration_fee status
        (some (fee_diff payout.estimated_fee fee payout.integration_fee_rate))

  unfoldable pub charge_integration_fee :
      PayoutIntent
      → PayoutTransaction
      → PayoutTransfer
      → AccountLink
      → (fee integration_fee : ℤ) → List BalanceChange
  charge_integration_fee payout tx t link fee integration_fee =
      let metadata = fee_metadata payout tx t BalanceChangeTxStatus.tx_confirmed fee in
      payout_change payout BalanceChangeType.release_hold
        (member_slot payout link payout.estimated_fee_currency) payout.estimated_fee metadata
      ∷ payout_change payout BalanceChangeType.debit
          (member_slot payout link payout.integration_fee_currency) integration_fee metadata
      ∷ payout_change payout BalanceChangeType.credit
          (record {
            platform_account_id = some link.platform_account_id;
            integration_account = none;
            currency = payout.integration_fee_currency;
            integration = payout.from_integration;
          })
          integration_fee metadata
      ∷ initiator_changes payout tx link fee metadata

  -- The charge of a fee above zero; `none` where a change would have no amount.
  unfoldable pub integration_fee_charge :
      PayoutIntent
      → PayoutTransaction
      → PayoutTransfer
      → Option AccountLink
      → (fee integration_fee : Option ℤ) → Option (List BalanceChange)
  integration_fee_charge payout tx t link none integration_fee = some []
  integration_fee_charge payout tx t none (some fee) integration_fee = some []
  integration_fee_charge payout tx t (some link) (some fee) none = none
  integration_fee_charge payout tx t (some link) (some fee) (some integration_fee) =
      some (charge_integration_fee payout tx t link fee integration_fee)

  -- `IntegrationFeePayoutOperation`
  unfoldable pub integration_fee_payout :
      PayoutIntent
      → PayoutTransaction
      → PayoutTransfer
      → Option AccountLink
      → Option (List BalanceChange)
  integration_fee_payout payout tx t link =
      integration_fee_charge payout tx t link (positive tx.fee) payout.integration_fee
