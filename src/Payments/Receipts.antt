-- ===== src/Payments/Receipts.antt =====
-- `ChangePaymentStatusInteractor`, which makes receipts of the changes that the ledger confirms:
-- apps/core/src/module/payment-intent/interactor/change-payment-status/change-payment-status.interactor.ts,
-- with `create` of apps/core/src/module/payment-intent/repository/receipt/receipt.repository.ts and
-- of apps/core/src/data/repository/inbox/inbox.repository.ts. `none` is a rollback.
pub mod Single
use multi_rail_payments_proc.Prelude.{
  ℕ, ◌≡◌, ◌↔◌, Bool, true, false, not, ◌&&◌, ◌||◌, Option, none, some, List, [], ◌∷◌, any, nat_beq,
  arith, first_some, Equal, if◌then◌else◌,
}
use multi_rail_payments_proc.Prelude.JsMap.{JsMap}
use multi_rail_payments_proc.Prelude.Grouping.{group_by}
use multi_rail_payments_proc.Types.{
  BalanceChange, BalanceChangeType, BalanceChangeReason, BalanceChangeTxStatus,
}
use multi_rail_payments_proc.Payments.Finalize.{PaymentReceipt, PaymentDb, finalize}

-- The keys of handled events, and the tables.
pub record StatusDb : Type 0 where
  pub handled : List ℕ
  pub tables : PaymentDb

abbrev pub id_beq : Option ℕ → Option ℕ → Bool
id_beq none none = true
id_beq (some a) (some b) = nat_beq a b
id_beq _ _ = false

pub id_beq_iff : (a b : Option ℕ) → (id_beq a b ≡ true) ↔ (a ≡ b)
id_beq_iff a b = ground arith

instance abbrev pub id_eq : Equal (Option ℕ)
id_eq = record { same = id_beq; same_iff = id_beq_iff }

abbrev is_confirmed : BalanceChange → Bool
is_confirmed c = elim (c.metadata.tx_status) [
  | BalanceChangeTxStatus.tx_confirmed ↦ true
  | _ ↦ false
]

abbrev is_credit : BalanceChange → Bool
is_credit c = elim (c.type) [ BalanceChangeType.credit ↦ true | _ ↦ false ]

abbrev is_hold : BalanceChange → Bool
is_hold c = elim (c.type) [ BalanceChangeType.hold ↦ true | _ ↦ false ]

abbrev pub is_underpay : BalanceChange → Bool
is_underpay c =
    is_credit c
    && (elim (c.metadata.reason) [ BalanceChangeReason.underpay ↦ true | _ ↦ false ]
        && is_confirmed c)

abbrev pub is_overpay : BalanceChange → Bool
is_overpay c =
    is_hold c
    && (elim (c.metadata.reason) [ BalanceChangeReason.overpay ↦ true | _ ↦ false ]
        && is_confirmed c)

abbrev pub is_payment : BalanceChange → Bool
is_payment c =
    is_credit c
    && (elim (c.metadata.reason) [ BalanceChangeReason.amount ↦ true | _ ↦ false ]
        && is_confirmed c)

abbrev pub find_first : (BalanceChange → Bool) → List BalanceChange → Option BalanceChange
find_first p [] = none
find_first p (c ∷ cs) = if p c then some c else find_first p cs

-- `underpay ?? overpay ?? payment`
unfoldable pub receipt_change : List BalanceChange → Option BalanceChange
receipt_change cs =
    first_some (find_first is_underpay cs)
      (first_some (find_first is_overpay cs) (find_first is_payment cs))

-- Refused without a time of execution, or, by the column, without a payment.
unfoldable pub create_receipt : BalanceChange → Option PaymentReceipt
create_receipt c = elim (c.metadata.executed_at) [
  | none ↦ none
  | some executed_at ↦ elim (c.intent_id) [
    | none ↦ none
    | some id ↦ some (record {
      intent_id = id;
      amount = c.amount;
      integration = c.integration;
      source_tx_id = c.metadata.source_tx_id;
      tx_id = c.metadata.tx_id;
      transfer_ids = c.metadata.transfer_ids;
      currency = c.currency;
      executed_at = executed_at;
    })
  ]
]

-- The set of payments to finalize and the table of receipts, the newest first.
pub record Receipted : Type 0 where
  pub payment_ids : List ℕ
  pub receipts : List PaymentReceipt

abbrev has_some : {A : Type 0} → Option A → Bool
has_some none = false
has_some (some x) = true

-- A group without a payment adds no id: its receipt is refused.
abbrev add_id : Option ℕ → List BalanceChange → List ℕ → List ℕ
add_id none cs ids = ids
add_id (some id) cs ids =
    if has_some (find_first is_overpay cs) || has_some (find_first is_payment cs)
    then id ∷ ids
    else ids

infixl 5 ◌>>=◌
abbrev ◌>>=◌ : {A B : Type 0} → Option A → (A → Option B) → Option B
none >>= f = none
some a >>= f = f a

abbrev pub add_receipt : Option BalanceChange → List PaymentReceipt → Option (List PaymentReceipt)
add_receipt none receipts = some receipts
add_receipt (some c) receipts = create_receipt c >>= (λ r. some (r ∷ receipts))

unfoldable pub handle_group : Option ℕ × List BalanceChange → Receipted → Option Receipted
handle_group (id, cs) done = add_receipt (receipt_change cs) done.receipts >>= (λ receipts.
    some (record { payment_ids = add_id id cs done.payment_ids; receipts = receipts }))

unfoldable pub handle_groups : JsMap (Option ℕ) (List BalanceChange) → Receipted → Option Receipted
handle_groups [] done = some done
handle_groups (g ∷ groups) done = handle_group g done >>= handle_groups groups

unfoldable pub change_payment_status :
    (idempotency_key : ℕ) → List BalanceChange → StatusDb → Option StatusDb
change_payment_status key changes s =
    if any (λ k. nat_beq k key) s.handled
    then some s
    else (handle_groups (group_by (λ (c : BalanceChange). c.intent_id) changes)
          (record { payment_ids = []; receipts = s.tables.receipts })
        >>= (λ done. some (record {
          handled = key ∷ s.handled;
          tables = finalize done.payment_ids (record s.tables { receipts = done.receipts });
        })))
