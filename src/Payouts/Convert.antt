-- ===== src/Payouts/Convert.antt =====
-- The converters of payouts, of a prepared and of a confirmed transaction:
-- apps/core/src/module/payout-intent/transaction-converter/payout-converter/converter.
-- `is_uuid` stands for `isUUID` of class-validator.
use multi_rail_payments_proc.Prelude.{
  ℕ, Bool, true, false, ◌&&◌, ◌||◌, Option, none, some, List, [], ◌∷◌, ◌++◌, any, nat_beq, nat_eq,
  if◌then◌else◌,
}
use multi_rail_payments_proc.Prelude.Int.{ℤ}
use multi_rail_payments_proc.Prelude.JsMap.{get}
use multi_rail_payments_proc.Prelude.Sort.{filter}
use multi_rail_payments_proc.Types.{IntentType, integration_beq, BalanceChange}
use multi_rail_payments_proc.Payouts.Model.{
  PayoutIntent, PayoutTransaction, PayoutTransfer, AccountLink, PayoutFrom,
  PayoutTransactionContext, PayoutConverterResult,
}
use multi_rail_payments_proc.Payouts.Operations.{
  amount_payout, platform_fee_payout, integration_fee_payout,
}
use multi_rail_payments_proc.Payouts.Holds.{payout_holds}

pub record PayoutMatch : Type 0 where
  pub payout : PayoutIntent
  pub transfer : PayoutTransfer
  pub tx_initiator : Option AccountLink
  pub from : PayoutFrom

abbrev pub link_account : Option AccountLink → Option ℕ
link_account none = none
link_account (some link) = some link.account

abbrev pub link_platform : Option AccountLink → Option ℕ
link_platform none = none
link_platform (some link) = some link.platform_account_id

abbrev pub from_of : PayoutTransactionContext → PayoutTransfer → PayoutFrom
from_of ctx t = record {
  platform_account_id =
      if any (λ a. nat_beq a t.initiator) ctx.platform_account_ids
      then some t.initiator
      else link_platform (get t.initiator ctx.account_links);
  integration_account = link_account (get t.transfer.from ctx.account_links);
}

module _ (is_uuid : ℕ → Bool) where
  -- The payout that a transfer names.
  unfoldable pub named_payout : PayoutTransactionContext → PayoutTransfer → Option PayoutIntent
  named_payout ctx t = elim t.transfer.intent [
    | none ↦ none
    | some intent ↦ elim intent.0 [
      | IntentType.payment ↦ none
      | IntentType.payout ↦ if is_uuid intent.1 then get intent.1 ctx.payout_intents else none
    ]
  ]

  abbrev pub matched_with : PayoutTransactionContext → PayoutTransfer → PayoutIntent → PayoutMatch
  matched_with ctx t payout = record {
    payout = payout;
    transfer = t;
    tx_initiator = get ctx.transaction.initiator ctx.account_links;
    from = from_of ctx t;
  }

  unfoldable pub match_payouts : PayoutTransactionContext → List PayoutTransfer → List PayoutMatch
  match_payouts ctx [] = []
  match_payouts ctx (t ∷ ts) =
      let rest = match_payouts ctx ts in
      elim (named_payout ctx t) [ none ↦ rest | some payout ↦ matched_with ctx t payout ∷ rest ]

  -- The payouts and transfers that did not match.
  unfoldable pub unmatched : PayoutTransactionContext → List PayoutMatch → PayoutTransactionContext
  unmatched ctx matches = record ctx {
    payout_intents =
        filter
          (λ p. if any (λ (m : PayoutMatch). nat_beq m.payout.id p.0) matches then false else true)
          ctx.payout_intents;
    transfers =
        filter
          (λ (t : PayoutTransfer).
            if any (λ (m : PayoutMatch). nat_beq m.transfer.transfer.id t.transfer.id) matches
            then false
            else true)
          ctx.transfers;
  }

-- `transfer.to === payout.to.account || transfer.to === payout.to.platformAccountId`, on the
-- integration of the payee.
abbrev pub pays_payee : PayoutTransaction → PayoutMatch → Bool
pays_payee tx m =
    (nat_beq m.transfer.transfer.to m.payout.to.account || elim m.payout.to.platform_account_id [
      | none ↦ false
      | some id ↦ nat_beq m.transfer.transfer.to id
    ])
    && integration_beq tx.tx.integration m.payout.to_integration

infixl 5 ◌>>=◌
abbrev ◌>>=◌ : {A B : Type 0} → Option A → (A → Option B) → Option B
none >>= f = none
some a >>= f = f a

module _ (fee_diff : (estimated fee rate : ℤ) → ℤ) where
  unfoldable pub confirm_match : PayoutTransaction → PayoutMatch → Option (List BalanceChange)
  confirm_match tx m =
      (if pays_payee tx m
        then integration_fee_payout fee_diff m.payout tx m.transfer m.tx_initiator
        else some [])
      >>= (λ integration_fee. some (
          (amount_payout m.payout tx m.transfer m.from
            ++ platform_fee_payout m.payout tx m.transfer m.from)
          ++ integration_fee))

  unfoldable pub confirm_matches :
      PayoutTransaction → List PayoutMatch → Option (List BalanceChange)
  confirm_matches tx [] = some []
  confirm_matches tx (m ∷ ms) =
      confirm_match tx m >>= (λ changes. confirm_matches tx ms >>= (λ rest. some (changes ++ rest)))

  abbrev pub hold_match : PayoutTransaction → PayoutMatch → List BalanceChange
  hold_match tx m = payout_holds fee_diff m.payout tx m.transfer m.tx_initiator m.from

  unfoldable pub hold_matches : PayoutTransaction → List PayoutMatch → List BalanceChange
  hold_matches tx [] = []
  hold_matches tx (m ∷ ms) = hold_match tx m ++ hold_matches tx ms

  -- `SingleIntegrationPayoutHoldConverter`
  unfoldable pub hold_converter :
      (is_uuid : ℕ → Bool) → PayoutTransactionContext → PayoutConverterResult
  hold_converter is_uuid ctx =
      let matches = match_payouts is_uuid ctx ctx.transfers in
      record {
        context = unmatched is_uuid ctx matches;
        changes = hold_matches ctx.transaction matches;
      }

  -- `SingleIntegrationPayoutConverter`; `none` where a change would have no amount.
  unfoldable pub payout_converter :
      (is_uuid : ℕ → Bool) → PayoutTransactionContext → Option PayoutConverterResult
  payout_converter is_uuid ctx =
      let matches = match_payouts is_uuid ctx ctx.transfers in
      confirm_matches ctx.transaction matches
      >>= (λ changes. some (record { context = unmatched is_uuid ctx matches; changes = changes }))
