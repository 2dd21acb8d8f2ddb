-- ===== src/Payments/Finalize.antt =====
-- `FinalizePaymentOperation`:
-- apps/core/src/module/payment-intent/interactor/operation/finalize-payment/finalize-payment.operation.ts,
-- with the queries of apps/core/src/module/payment-intent/repository that it uses.
pub mod Statuses
use multi_rail_payments_proc.Prelude.{
  ℕ, ◌≡◌, Bool, true, false, not, Option, none, some, List, [], ◌∷◌, map, any, nat_beq,
  if◌then◌else◌,
}
use multi_rail_payments_proc.Prelude.Int.{ℤ, pos, ◌+ℤ◌, ltb_ℤ, beq_ℤ}
use multi_rail_payments_proc.Types.{IntegrationType}
use multi_rail_payments_proc.Payments.Model.{
  PaymentIntent, PaymentIntentStatus, exact, overpay, underpay, PaymentAmountAccumulator,
}

pub record PaymentReceipt : Type 0 where
  pub intent_id : ℕ
  pub amount : ℤ
  pub integration : IntegrationType
  pub source_tx_id : ℕ
  pub tx_id : ℕ
  pub transfer_ids : List ℕ
  pub currency : ℕ
  pub executed_at : ℕ

pub record PaymentDb : Type 0 where
  pub payments : List PaymentIntent
  pub accumulators : List PaymentAmountAccumulator
  pub receipts : List PaymentReceipt

-- `SUM(amount)` of a group: no row where there is nothing to add up.
abbrev pub plus_sum : ℤ → Option ℤ → Option ℤ
plus_sum x none = some x
plus_sum x (some y) = some (x +ℤ y)

unfoldable pub sum_received : ℕ → List PaymentAmountAccumulator → Option ℤ
sum_received id [] = none
sum_received id (a ∷ amounts) =
    let rest = sum_received id amounts in
    if nat_beq a.payment_id id then plus_sum a.amount rest else rest

unfoldable pub sum_receipts : ℕ → List PaymentReceipt → Option ℤ
sum_receipts id [] = none
sum_receipts id (r ∷ rs) =
    let rest = sum_receipts id rs in if nat_beq r.intent_id id then plus_sum r.amount rest else rest

unfoldable pub find_amount : ℕ → List PaymentIntent → Option ℤ
find_amount id [] = none
find_amount id (p ∷ ps) = if nat_beq p.id id then some p.amount else find_amount id ps

unfoldable pub determine_status :
    (expected received_total receipt_total : ℤ) → Option PaymentIntentStatus
determine_status expected received_total receipt_total =
    if not (beq_ℤ receipt_total received_total)
    then none
    else if beq_ℤ expected receipt_total
    then some exact
    else if ltb_ℤ expected receipt_total
    then some overpay
    else some underpay

-- The status of one id: none where one of the three amounts is missing, or while transfers are
-- waited for.
unfoldable pub status_of : PaymentDb → ℕ → Option PaymentIntentStatus
status_of db id = elim (find_amount id db.payments) [
  | none ↦ none
  | some expected ↦ elim (sum_received id db.accumulators) [
    | none ↦ none
    | some received ↦ elim (sum_receipts id db.receipts) [
      | none ↦ none
      | some receipt ↦ determine_status expected received receipt
    ]
  ]
]

unfoldable pub payment_statuses : PaymentDb → List ℕ → List (ℕ × PaymentIntentStatus)
payment_statuses db [] = []
payment_statuses db (id ∷ ids) = elim (status_of db id) [
  | none ↦ payment_statuses db ids
  | some s ↦ (id, s) ∷ payment_statuses db ids
]

-- `UPDATE ... FROM (VALUES ...)`, with one value for an id.
unfoldable pub new_status : List (ℕ × PaymentIntentStatus) → PaymentIntent → PaymentIntentStatus
new_status [] p = p.status
new_status ((id, s) ∷ statuses) p = if nat_beq p.id id then s else new_status statuses p

unfoldable pub change_status_bulk :
    List (ℕ × PaymentIntentStatus) → List PaymentIntent → List PaymentIntent
change_status_bulk statuses ps =
    map (λ (p : PaymentIntent). record p { status = new_status statuses p }) ps

unfoldable pub delete_by_payment_ids :
    List (ℕ × PaymentIntentStatus) → List PaymentAmountAccumulator → List PaymentAmountAccumulator
delete_by_payment_ids statuses [] = []
delete_by_payment_ids statuses (a ∷ amounts) =
    if any (λ s. nat_beq s.0 a.payment_id) statuses
    then delete_by_payment_ids statuses amounts
    else a ∷ delete_by_payment_ids statuses amounts

unfoldable pub finalize : List ℕ → PaymentDb → PaymentDb
finalize ids db =
    let statuses = payment_statuses db ids in
    record db {
      payments = change_status_bulk statuses db.payments;
      accumulators = delete_by_payment_ids statuses db.accumulators;
    }
