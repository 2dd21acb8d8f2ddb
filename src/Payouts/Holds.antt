-- ===== src/Payouts/Holds.antt =====
-- `PayoutHoldsOperation`:
-- apps/core/src/module/payout-intent/transaction-converter/payout-converter/operation/payout-holds.operation.ts.
use multi_rail_payments_proc.Prelude.{
  Bool, true, false, Option, none, some, List, [], ◌∷◌, ◌++◌, if◌then◌else◌,
}
use multi_rail_payments_proc.Prelude.Int.{ℤ}
use multi_rail_payments_proc.Types.{
  BalanceChange, BalanceChangeType, BalanceChangeReason, BalanceChangeTxStatus,
}
use multi_rail_payments_proc.Payouts.Model.{
  PayoutIntent, PayoutTransaction, PayoutTransfer, AccountLink, PayoutFrom,
}
use multi_rail_payments_proc.Payouts.Operations.{
  payout_change, payout_metadata, external_account, amount_slot, fee_slot, is_member, positive,
  member_slot, initiator_slot, fee_metadata,
}

-- The hold of a fee above zero.
unfoldable pub fee_hold :
    PayoutIntent → PayoutTransaction → PayoutTransfer → PayoutFrom → Option ℤ → List BalanceChange
fee_hold payout tx t from none = []
fee_hold payout tx t from (some fee) =
    if is_member payout from.platform_account_id
    then (payout_change payout BalanceChangeType.hold
          (fee_slot payout (some payout.member_account_id)
            (external_account tx from.integration_account))
          fee
          (payout_metadata tx (t.transfer.id ∷ []) BalanceChangeReason.fee
            BalanceChangeTxStatus.tx_prepared none)
        ∷ [])
    else []

unfoldable pub platform_fee_hold :
    PayoutIntent → PayoutTransaction → PayoutTransfer → PayoutFrom → List BalanceChange
platform_fee_hold payout tx t from = fee_hold payout tx t from (positive payout.platform_fee)

-- `from.platformAccountId || from.integrationAccount`
abbrev pub has_side : PayoutFrom → Bool
has_side from = elim from.platform_account_id [
  | some id ↦ true
  | none ↦ elim from.integration_account [ some account ↦ true | none ↦ false ]
]

unfoldable pub initiator_hold :
    PayoutIntent → PayoutTransaction → PayoutTransfer → AccountLink → ℤ → List BalanceChange
initiator_hold payout tx t link fee =
    if is_member payout (some link.platform_account_id)
    then []
    else (payout_change payout BalanceChangeType.hold (initiator_slot tx link) fee (
          payout_metadata tx (t.transfer.id ∷ []) BalanceChangeReason.integration_fee
            BalanceChangeTxStatus.tx_prepared none)
        ∷ [])

module _ (fee_diff : (estimated fee rate : ℤ) → ℤ) where
  unfoldable pub initiator_holds :
      PayoutIntent
      → PayoutTransaction
      → PayoutTransfer
      → Option AccountLink
      → (fee : Option ℤ) → List BalanceChange
  initiator_holds payout tx t link none = []
  initiator_holds payout tx t none (some fee) = []
  initiator_holds payout tx t (some link) (some fee) =
      payout_change payout BalanceChangeType.hold
        (member_slot payout link payout.estimated_fee_currency) payout.estimated_fee
        (fee_metadata fee_diff payout tx t BalanceChangeTxStatus.tx_prepared fee)
      ∷ initiator_hold payout tx t link fee

  unfoldable pub integration_fee_hold :
      PayoutIntent → PayoutTransaction → PayoutTransfer → Option AccountLink → List BalanceChange
  integration_fee_hold payout tx t link = initiator_holds payout tx t link (positive tx.fee)

  unfoldable pub hold_changes :
      PayoutIntent
      → PayoutTransaction
      → PayoutTransfer
      → Option AccountLink
      → PayoutFrom
      → List BalanceChange
  hold_changes payout tx t link from =
      (payout_change payout BalanceChangeType.hold (amount_slot tx t from) t.transfer.amount (
          payout_metadata tx (t.transfer.id ∷ []) BalanceChangeReason.amount
            BalanceChangeTxStatus.tx_prepared none)
        ∷ platform_fee_hold payout tx t from)
      ++ integration_fee_hold payout tx t link

  unfoldable pub payout_holds :
      PayoutIntent
      → PayoutTransaction
      → PayoutTransfer
      → Option AccountLink
      → PayoutFrom
      → List BalanceChange
  payout_holds payout tx t link from =
      if has_side from then hold_changes payout tx t link from else []
