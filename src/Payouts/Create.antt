-- ===== src/Payouts/Create.antt =====
-- `CreatePayoutIntentInteractor`, `PayoutBalancePolicy` and `PayoutIntentRepository`:
-- apps/core/src/module/payout-intent/interactor/create-payout-intent/create-payout-intent.interactor.ts,
-- apps/core/src/module/payout-intent/policy/payout-balance.policy.ts and
-- apps/core/src/module/payout-intent/repository/payout-intent/payout-intent.repository.ts.
-- What the other services answer is a record. The advisory lock on the member's currency lets the
-- transaction run alone on its pending payouts, so that it is one step.
pub mod Pending
use multi_rail_payments_proc.Prelude.{
  ℕ, Bool, true, false, ◌&&◌, Option, none, some, List, [], ◌∷◌, map, any, nat_beq, if◌then◌else◌,
}
use multi_rail_payments_proc.Prelude.Int.{ℤ, pos, ◌+ℤ◌, ◌-ℤ◌, ltb_ℤ}
use multi_rail_payments_proc.Types.{IntegrationType, integration_beq}
use multi_rail_payments_proc.Payments.Model.{SourceIntegrationAccount}
use multi_rail_payments_proc.Payouts.Model.{
  PayoutIntent, PayoutOperationType, DestinationIntegrationAccount, AccountLink,
}

pub data PayoutIntentStatus : Type 0 where
  created prepared processing confirming success failed : PayoutIntentStatus

pub record PayoutRow : Type 0 where
  pub payout : PayoutIntent
  pub status : PayoutIntentStatus

-- The payouts, the keys of the inbox, and the payouts whose transfers were put into the outbox.
pub record PayoutDb : Type 0 where
  pub rows : List PayoutRow
  pub handled : List ℕ
  pub outbox : List ℕ

pub record CreatePayoutParams : Type 0 where
  pub idempotency_key : ℕ
  pub operation_type : PayoutOperationType
  pub member_account_id : ℕ
  pub amount : ℤ
  pub from_integration : IntegrationType
  pub from_currency : ℕ
  pub to_integration : IntegrationType
  pub to_account : ℕ

pub record TransferFee : Type 0 where
  pub integration : IntegrationType
  pub amount : ℤ
  pub currency : ℕ

-- The estimated fee of the transfer, that fee converted with its rate, the platform fee and its
-- account, the available amount of the member, the link of the payee in the currency, and the id
-- that the database gives to the payout.
pub record PayoutAnswers : Type 0 where
  pub transfer_fee : Option TransferFee
  pub converted_amount : ℤ
  pub rate : ℤ
  pub platform_fee : Option ℤ
  pub platform_fee_account : Option SourceIntegrationAccount
  pub available : Option ℤ
  pub link : Option AccountLink
  pub payout_id : ℕ

pub data PayoutRefusal : Type 0 where
  fee_not_found duplicate_request insufficient_balance : PayoutRefusal

pub data CreatePayoutResult : Type 0 where
  refused : PayoutRefusal → CreatePayoutResult
  accepted : PayoutIntent → PayoutDb → CreatePayoutResult

abbrev pub is_pending : PayoutIntentStatus → Bool
is_pending created = true
is_pending prepared = true
is_pending _ = false

abbrev pub is_of : (member : ℕ) → IntegrationType → (currency : ℕ) → PayoutIntent → Bool
is_of member integration currency p =
    nat_beq p.member_account_id member
    && (integration_beq p.from_integration integration && nat_beq p.from_currency currency)

-- `acquireLockAndGetPendingAmount`
unfoldable pub pending_amount : (member : ℕ) → IntegrationType → (currency : ℕ) → List PayoutRow → ℤ
pending_amount member integration currency [] = pos 0
pending_amount member integration currency (r ∷ rs) =
    let rest = pending_amount member integration currency rs in
    if is_of member integration currency r.payout && is_pending r.status
    then r.payout.from_amount +ℤ rest
    else rest

-- `PayoutBalancePolicy.validate` and `validateWithPending`, `true` where they do not throw.
unfoldable pub validate : (available total_amount : ℤ) → Bool
validate available total_amount = if ltb_ℤ available total_amount then false else true

unfoldable pub validate_with_pending : (available pending_total amount : ℤ) → Bool
validate_with_pending available pending_total amount =
    if ltb_ℤ (available -ℤ pending_total) amount then false else true

abbrev pub destination : CreatePayoutParams → Option AccountLink → DestinationIntegrationAccount
destination params none = record { account = params.to_account; platform_account_id = none }
destination params (some link) = record {
  account = link.account;
  platform_account_id = some link.platform_account_id;
}

unfoldable pub new_payout : CreatePayoutParams → PayoutAnswers → TransferFee → PayoutIntent
new_payout params answers fee = record {
  id = answers.payout_id;
  operation_type = params.operation_type;
  member_account_id = params.member_account_id;
  from_amount = params.amount;
  from_currency = params.from_currency;
  from_integration = params.from_integration;
  estimated_fee = answers.converted_amount;
  estimated_fee_currency = fee.currency;
  platform_fee = answers.platform_fee;
  platform_fee_account = answers.platform_fee_account;
  integration_fee = none;
  integration_fee_currency = fee.currency;
  integration_fee_rate = answers.rate;
  to = destination params answers.link;
  to_integration = params.to_integration;
}

-- The transaction.
unfoldable pub insert_payout :
    CreatePayoutParams → (available : ℤ) → PayoutIntent → PayoutDb → CreatePayoutResult
insert_payout params available payout db =
    if any (λ k. nat_beq k params.idempotency_key) db.handled
    then refused duplicate_request
    else if validate_with_pending available
        (pending_amount params.member_account_id params.from_integration params.from_currency
          db.rows)
        params.amount
    then accepted payout (record {
      rows = record { payout = payout; status = created } ∷ db.rows;
      handled = params.idempotency_key ∷ db.handled;
      outbox = payout.id ∷ db.outbox;
    })
    else refused insufficient_balance

-- The request with a fee and a balance that the services know.
unfoldable pub check_payout :
    CreatePayoutParams
    → PayoutAnswers
    → (fee : Option TransferFee) → (available : Option ℤ) → PayoutDb
    → CreatePayoutResult
check_payout params answers none available db = refused fee_not_found
check_payout params answers (some fee) none db =
    if integration_beq fee.integration params.from_integration
    then refused insufficient_balance
    else refused fee_not_found
check_payout params answers (some fee) (some available) db =
    if integration_beq fee.integration params.from_integration
    then if validate available (fee.amount +ℤ answers.converted_amount)
      then insert_payout params available (new_payout params answers fee) db
      else refused insufficient_balance
    else refused fee_not_found

unfoldable pub create_payout : CreatePayoutParams → PayoutAnswers → PayoutDb → CreatePayoutResult
create_payout params answers db =
    check_payout params answers answers.transfer_fee answers.available db

-- The updates of the status, each from the one before; the answers whether rows were updated are
-- dropped here.
abbrev is_created : PayoutIntentStatus → Bool
is_created created = true
is_created _ = false

abbrev pub is_prepared : PayoutIntentStatus → Bool
is_prepared prepared = true
is_prepared _ = false

abbrev is_processing : PayoutIntentStatus → Bool
is_processing processing = true
is_processing _ = false

abbrev is_confirming : PayoutIntentStatus → Bool
is_confirming confirming = true
is_confirming _ = false

abbrev pub with_fee : Option ℤ → PayoutIntent → PayoutIntent
with_fee fee p = record p { integration_fee = fee }

unfoldable pub make_prepared : (id : ℕ) (fee : Option ℤ) → List PayoutRow → List PayoutRow
make_prepared id fee rows =
    map
      (λ (r : PayoutRow).
        if nat_beq r.payout.id id && is_created r.status
        then record { payout = with_fee fee r.payout; status = prepared }
        else r)
      rows

unfoldable pub mark_processing : (ids : List ℕ) → List PayoutRow → List PayoutRow
mark_processing ids rows =
    map
      (λ (r : PayoutRow).
        if any (λ id. nat_beq id r.payout.id) ids && is_prepared r.status
        then record r { status = processing }
        else r)
      rows

unfoldable pub make_confirming : (id : ℕ) (fee : Option ℤ) → List PayoutRow → List PayoutRow
make_confirming id fee rows =
    map
      (λ (r : PayoutRow).
        if nat_beq r.payout.id id && is_processing r.status
        then record { payout = with_fee fee r.payout; status = confirming }
        else r)
      rows

unfoldable pub mark_success : (id : ℕ) → List PayoutRow → List PayoutRow
mark_success id rows =
    map
      (λ (r : PayoutRow).
        if nat_beq r.payout.id id && is_confirming r.status
        then record r { status = success }
        else r)
      rows
