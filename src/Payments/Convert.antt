-- ===== src/Payments/Convert.antt =====
-- The converters of a payment transaction, in
-- apps/core/src/module/payment-intent/transaction-converter/converter/converter, and the engine that
-- runs them, apps/core/src/shared/projection/transaction-converter.engine.ts.
pub mod Classify
use multi_rail_payments_proc.Prelude.{
  ℕ, ◌≡◌, Bool, true, false, not, ◌&&◌, ◌||◌, Option, none, some, List, [], ◌∷◌, ◌++◌, leb, nat_beq,
  any, nat_eq, if◌then◌else◌,
}
use multi_rail_payments_proc.Prelude.Int.{ℤ, pos, ◌+ℤ◌, ◌-ℤ◌}
use multi_rail_payments_proc.Prelude.JsMap.{get}
use multi_rail_payments_proc.Types.{
  BalanceChange, BalanceChangeReason, BalanceChangeTxStatus, IntentType,
}
use multi_rail_payments_proc.Payments.Model.{
  PaymentIntent, Transfer, Transaction, TransactionStatus, accepted, PaymentTransactionContext,
  ConverterResult, temporal, regular, LinkModelType,
}
use multi_rail_payments_proc.Payments.Fee.{FeeArith}
use multi_rail_payments_proc.Payments.Operations.{
  HoldAction, hold, release, create_params_by_payment, hold_in_payment, payment_operation,
  overpay_operation, underpay_operation, mispay_operation,
}
use multi_rail_payments_proc.Prelude.Sort.{sort_by}
use multi_rail_payments_proc.Payments.Match.{older, lower_index, match_pairs, unused_transfers}
use Classify.{Match, exact_match, underpay_match, overpay_match}

abbrev pub is_accepted : Transaction → Bool
is_accepted tx = elim tx.status [ accepted ↦ true | _ ↦ false ]

abbrev pub hold_action : Transaction → HoldAction
hold_action tx = if is_accepted tx then hold else release

abbrev pub hold_status : Transaction → BalanceChangeTxStatus
hold_status tx =
    if is_accepted tx then BalanceChangeTxStatus.tx_accepted else BalanceChangeTxStatus.tx_confirmed

-- The payout that a transfer comes from.
abbrev pub payout_of : Transfer → Option ℕ
payout_of t = elim t.intent [
  | none ↦ none
  | some (type, id) ↦ elim type [ IntentType.payout ↦ some id | IntentType.payment ↦ none ]
]

abbrev pub hold_in_match : Transaction → BalanceChangeReason → Match → List BalanceChange
hold_in_match tx reason m = hold_in_payment (
    create_params_by_payment m.payment m.amount tx (m.transfer.id ∷ []) (payout_of m.transfer)
      (hold_action tx) reason (hold_status tx))

-- The changes of one match: the incoming hold alone while the transaction is only accepted.
unfoldable pub exact_changes : Transaction → Match → List BalanceChange
exact_changes tx m =
    let hold_in = hold_in_match tx BalanceChangeReason.amount m in
    if is_accepted tx
    then hold_in
    else hold_in
      ++ (m.fee_changes
          ++ payment_operation m.payment m.amount tx (m.transfer.id ∷ []) (payout_of m.transfer))

unfoldable pub underpay_changes : Transaction → Match → List BalanceChange
underpay_changes tx m =
    let hold_in = hold_in_match tx BalanceChangeReason.amount m in
    if is_accepted tx
    then hold_in
    else hold_in
      ++ (m.fee_changes
          ++ underpay_operation m.payment tx (m.transfer.id ∷ []) m.transfer.amount
              m.expected_amount (payout_of m.transfer))

unfoldable pub overpay_changes : Transaction → Match → List BalanceChange
overpay_changes tx m =
    let hold_in = hold_in_match tx BalanceChangeReason.overpay m in
    if is_accepted tx
    then hold_in
    else hold_in
      ++ overpay_operation m.payment tx (m.transfer.id ∷ []) m.amount m.expected_amount m.overpay

abbrev pub flat_changes : (Match → List BalanceChange) → List Match → List BalanceChange
flat_changes f [] = []
flat_changes f (m ∷ ms) = f m ++ flat_changes f ms

module _ (dec : FeeArith) where
  unfoldable pub exact_converter : PaymentTransactionContext → ConverterResult
  exact_converter ctx =
      let (matches, payments, transfers) = match_pairs dec ctx (exact_match dec ctx) in
      record {
        context = record ctx { payment_intents = payments; transfers = transfers };
        changes = flat_changes (exact_changes ctx.transaction) matches;
      }

  unfoldable pub underpay_converter : PaymentTransactionContext → ConverterResult
  underpay_converter ctx =
      let (matches, payments, transfers) = match_pairs dec ctx (underpay_match dec ctx) in
      record {
        context = record ctx { payment_intents = payments; transfers = transfers };
        changes = flat_changes (underpay_changes ctx.transaction) matches;
      }

  unfoldable pub overpay_converter : PaymentTransactionContext → ConverterResult
  overpay_converter ctx =
      let (matches, payments, transfers) = match_pairs dec ctx (overpay_match dec ctx) in
      record {
        context = record ctx { payment_intents = payments; transfers = transfers };
        changes = flat_changes (overpay_changes ctx.transaction) matches;
      }

-- The accounts that an unexpected transfer is credited to: its platform account, and its
-- integration account where it is not a platform account itself.
unfoldable pub mispay_accounts : PaymentTransactionContext → Transfer → Option ℕ × Option ℕ
mispay_accounts ctx t = elim (get t.to ctx.platform_accounts) [
  | some account ↦ (
    elim (get t.to ctx.accounts_link) [
      | some link ↦ some link.platform_account_id
      | none ↦ some account
    ],
    none,
  )
  | none ↦ (
    elim (get t.to ctx.accounts_link) [
      | none ↦ none
      | some link ↦ elim link.link_type [
        | temporal ↦ none
        | regular ↦ some link.platform_account_id
      ]
    ],
    elim (get t.to ctx.integration_accounts) [ some account ↦ some account | none ↦ some t.to ],
  )
]

-- `integrationAccounts.get(transfer.to) || platformAccounts.has(transfer.to)`
abbrev pub is_known : PaymentTransactionContext → Transfer → Bool
is_known ctx t = elim (get t.to ctx.integration_accounts) [
  | some _ ↦ true
  | none ↦ elim (get t.to ctx.platform_accounts) [ some _ ↦ true | none ↦ false ]
]

unfoldable pub mispay_changes : PaymentTransactionContext → Transfer → List BalanceChange
mispay_changes ctx t =
    let (platform_account_id, integration_account) = mispay_accounts ctx t in
    let tx = ctx.transaction in
    let hold_in = hold_in_payment (record {
      integration = tx.integration;
      platform_account_id = platform_account_id;
      integration_account = integration_account;
      amount = t.amount;
      currency = t.currency;
      tx = tx;
      transfer_ids = t.id ∷ [];
      operation_type = none;
      payment_id = none;
      payout_id = none;
      action = hold_action tx;
      reason = BalanceChangeReason.unexpected_payment;
      tx_status = hold_status tx;
    }) in
    if is_accepted tx
    then hold_in
    else hold_in ++ mispay_operation platform_account_id tx.integration integration_account tx t

-- The known transfers, in the order of their index: their changes and their ids. One with no
-- account on either side is passed over.
unfoldable pub mispay_transfers :
    PaymentTransactionContext → List Transfer → List BalanceChange × List ℕ
mispay_transfers ctx [] = ([], [])
mispay_transfers ctx (t ∷ ts) =
    let (changes, used) = mispay_transfers ctx ts in
    let here : List BalanceChange × List ℕ = (mispay_changes ctx t ++ changes, t.id ∷ used) in
    if is_known ctx t
    then (elim (mispay_accounts ctx t).0 [
      | some _ ↦ here
      | none ↦ elim (mispay_accounts ctx t).1 [ some _ ↦ here | none ↦ (changes, used) ]
    ])
    else (changes, used)

unfoldable pub mispay_converter : PaymentTransactionContext → ConverterResult
mispay_converter ctx =
    let (changes, used) = mispay_transfers ctx (sort_by lower_index ctx.transfers) in
    record {
      context = record ctx { transfers = unused_transfers used ctx.transfers };
      changes = changes;
    }

-- `TransactionConverterEngine.process` over its sorted matchers; `none` is the throw on a
-- transaction with no transfers.
unfoldable pub run_matchers :
    List (PaymentTransactionContext → ConverterResult)
    → PaymentTransactionContext
    → List BalanceChange
run_matchers [] ctx = []
run_matchers (m ∷ ms) ctx = elim ctx.transfers [
  | [] ↦ []
  | _ ∷ _ ↦ (m ctx).changes ++ run_matchers ms (m ctx).context
]

-- In the order of their priorities: 100, 90, 80 and 70.
abbrev pub matchers : FeeArith → List (PaymentTransactionContext → ConverterResult)
matchers dec =
    exact_converter dec ∷ underpay_converter dec ∷ overpay_converter dec ∷ mispay_converter ∷ []

unfoldable pub process : FeeArith → PaymentTransactionContext → Option (List BalanceChange)
process dec ctx = elim ctx.transfers [ [] ↦ none | _ ∷ _ ↦ some (run_matchers (matchers dec) ctx) ]
