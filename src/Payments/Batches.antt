-- ===== src/Payments/Batches.antt =====
-- `groupForPublish` and `buildIdempotencyKey` of `ProcessPaymentTransactionInteractor`:
-- apps/core/src/module/payment-intent/interactor/process-payment-transaction/process-payment-transaction.interactor.ts.
-- `text_before` stands for the order of texts and `digest` for the hash.
pub mod Grouped
use multi_rail_payments_proc.Prelude.{
  ℕ, suc, Bool, true, false, not, ◌&&◌, ◌||◌, Option, none, some, List, [], ◌∷◌, ◌++◌, map, any,
  nat_beq, if◌then◌else◌, Equal, nat_eq, nat_beq_iff, ◌≡◌, ◌↔◌, arith, length,
}
use multi_rail_payments_proc.Prelude.Int.{ℤ}
use multi_rail_payments_proc.Prelude.Sort.{sort_by}
use multi_rail_payments_proc.Prelude.JsMap.{JsMap}
use multi_rail_payments_proc.Prelude.Grouping.{group_by}
use multi_rail_payments_proc.Types.{
  IntentType, intent_type_from_domain, BalanceChangeType, BalanceChange, BalanceChangeTxStatus,
}
use multi_rail_payments_proc.Payments.Model.{
  PaymentIntent, PaymentIntentStatus, PaymentAmountAccumulator,
}
use multi_rail_payments_proc.Payments.Inbox.{
  InboxRow, InboxTable, delete, mark_blocked_with_successors, find_blocked, find_next_created,
}

-- A batch for the ledger, with its idempotency key.
pub record Batch : Type 0 where
  pub idempotency_key : ℕ
  pub changes : List BalanceChange

pub record ProcessResult : Type 0 where
  pub source : InboxRow
  pub balance_changes : List BalanceChange

-- `intent:...` and `tx:...`
pub data PublishKey : Type 0 where
  intent_key : (intent_id status : ℕ) → PublishKey
  tx_key : (tx_id transfer_id status : ℕ) → PublishKey

abbrev pub publish_key_beq : PublishKey → PublishKey → Bool
publish_key_beq (intent_key i s) (intent_key j t) = nat_beq i j && nat_beq s t
publish_key_beq (tx_key x i s) (tx_key y j t) = nat_beq x y && (nat_beq i j && nat_beq s t)
publish_key_beq _ _ = false

pub publish_key_beq_iff : (a b : PublishKey) → (publish_key_beq a b ≡ true) ↔ (a ≡ b)
publish_key_beq_iff a b = ground arith

instance abbrev pub publish_key_eq : Equal PublishKey
publish_key_eq = record { same = publish_key_beq; same_iff = publish_key_beq_iff }

abbrev pub status_code : BalanceChangeTxStatus → ℕ
status_code BalanceChangeTxStatus.tx_prepared = 0
status_code BalanceChangeTxStatus.tx_confirmed = 1
status_code BalanceChangeTxStatus.tx_accepted = 2

-- A change with the transfer that it is of.
unfoldable pub publish_key : InboxRow × BalanceChange → PublishKey
publish_key (source, c) = elim (c.intent_id) [
  | some id ↦ intent_key id (status_code c.metadata.tx_status)
  | none ↦
      tx_key source.transfer.tx_id source.transfer.transfer_id (status_code c.metadata.tx_status)
]

unfoldable pub changes_of : List ProcessResult → List (InboxRow × BalanceChange)
changes_of [] = []
changes_of (r ∷ rs) = map (λ c. (r.source, c)) r.balance_changes ++ changes_of rs

-- One text of an idempotency key.
pub record KeyPart : Type 0 where
  pub transfer_id : ℕ
  pub intent_type : Option IntentType
  pub intent_id : Option ℕ
  pub tx_id : ℕ
  pub tx_status : BalanceChangeTxStatus

abbrev id_code : Option ℕ → ℕ
id_code none = 0
id_code (some n) = suc n

abbrev type_code : Option IntentType → ℕ
type_code none = 0
type_code (some t) = suc (intent_type_from_domain t)

abbrev same_part : KeyPart → KeyPart → Bool
same_part a b =
    nat_beq a.transfer_id b.transfer_id
    && (nat_beq (type_code a.intent_type) (type_code b.intent_type)
        && (nat_beq (id_code a.intent_id) (id_code b.intent_id)
            && (nat_beq a.tx_id b.tx_id
                && nat_beq (status_code a.tx_status) (status_code b.tx_status))))

abbrev parts_of : BalanceChange → List KeyPart
parts_of c =
    map
      (λ id. record {
        transfer_id = id;
        intent_type = c.intent_type;
        intent_id = c.intent_id;
        tx_id = c.metadata.tx_id;
        tx_status = c.metadata.tx_status;
      })
      c.metadata.transfer_ids

unfoldable pub unique_parts : List KeyPart → List KeyPart
unique_parts [] = []
unique_parts (p ∷ ps) =
    let rest = unique_parts ps in if any (same_part p) rest then rest else p ∷ rest

unfoldable pub all_parts : List BalanceChange → List KeyPart
all_parts [] = []
all_parts (c ∷ cs) = parts_of c ++ all_parts cs

module _ (text_before : KeyPart → KeyPart → Bool) (digest : List KeyPart → ℕ) where
  unfoldable pub build_idempotency_key : List BalanceChange → ℕ
  build_idempotency_key changes = digest (sort_by text_before (unique_parts (all_parts changes)))

  unfoldable pub group_for_publish : List ProcessResult → List Batch
  group_for_publish results =
      map
        (λ g.
          let changes = map (λ p. p.1) g.1 in
          record { idempotency_key = build_idempotency_key changes; changes = changes })
        (group_by publish_key (changes_of results))
