-- ===== src/Payments/Inbox.antt =====
-- The queue of incoming transfers:
-- apps/core/src/module/payment-intent/repository/payment-inbox-transfer/payment-inbox-transfer.repository.ts,
-- its entity and model, and the loop of
-- apps/core/src/module/payment-intent/interactor/process-payment-transaction/process-payment-transaction.interactor.ts.
-- The data of the transaction is left out; the conversion that reads it is a parameter.
pub mod Order
pub mod Reach
use multi_rail_payments_proc.Prelude.{
  ℕ, ◌+◌, ◌≡◌, ◌↔◌, Bool, true, false, not, ◌&&◌, Option, none, some, List, [], ◌∷◌, ◌++◌, map,
  arith, any, nat_beq, nat_eq, nat_beq_iff, ltb, Equal, ◌==◌, if◌then◌else◌,
}
use multi_rail_payments_proc.Prelude.JsMap.{JsMap, get, set}
use multi_rail_payments_proc.Types.{
  IntegrationType, integration_beq, integration_beq_iff, ExecutionType, internal, native,
  BalanceChange,
}
use multi_rail_payments_proc.Payments.Model.{TransactionStatus}
use multi_rail_payments_proc.Prelude.Sort.{sort_by, filter}

pub data InboxState : Type 0 where
  created blocked : InboxState

pub data BlockReason : Type 0 where
  predecessor_blocked : BlockReason
  processing_error : (message : ℕ) → BlockReason

-- `PaymentInboxTransferKey`, a number that names the text.
pub record InboxTransfer : Type 0 where
  pub key : ℕ
  pub tx_id : ℕ
  pub transfer_id : ℕ
  pub integration : IntegrationType
  pub tx_status : TransactionStatus

pub record InboxRow : Type 0 where
  pub id : ℕ
  pub transfer : InboxTransfer
  pub created_at : ℕ
  pub state : InboxState
  pub reason : Option BlockReason
  pub is_deleted : Bool

-- The table, the newest row first, and the next value of its sequence.
pub record InboxTable : Type 0 where
  pub rows : List InboxRow
  pub next_id : ℕ

abbrev status_number : TransactionStatus → ℕ
status_number TransactionStatus.prepared = 0
status_number TransactionStatus.promoted = 1
status_number TransactionStatus.accepted = 2
status_number TransactionStatus.confirmed = 3
status_number TransactionStatus.rejected = 4
status_number TransactionStatus.failed = 5
status_number TransactionStatus.reorg = 6

-- The columns of the unique index.
unfoldable pub same_transfer : InboxTransfer → InboxTransfer → Bool
same_transfer a b =
    integration_beq a.integration b.integration
    && (nat_beq a.tx_id b.tx_id
        && (nat_beq a.transfer_id b.transfer_id
            && nat_beq (status_number a.tx_status) (status_number b.tx_status)))

abbrev pub is_blocked : InboxState → Bool
is_blocked created = false
is_blocked blocked = true

-- A row that selects see, blocked, in the queue of the key.
unfoldable pub blocks : ℕ → InboxRow → Bool
blocks key r = not r.is_deleted && (nat_beq r.transfer.key key && is_blocked r.state)

unfoldable pub has_blocked : ℕ → List InboxRow → Bool
has_blocked key rows = any (blocks key) rows

abbrev pub new_row : InboxState → (now : ℕ) → InboxTransfer → (id : ℕ) → InboxRow
new_row state now t id = record {
  id = id;
  transfer = t;
  created_at = now;
  state = state;
  reason = elim state [ created ↦ none | blocked ↦ some predecessor_blocked ];
  is_deleted = false;
}

-- `ON CONFLICT DO NOTHING`: a known transfer makes no row, and uses up a value of the sequence.
unfoldable pub insert_row : InboxState → (now : ℕ) → InboxTransfer → InboxTable → InboxTable
insert_row state now t table =
    if any (λ (r : InboxRow). same_transfer r.transfer t) table.rows
    then record table { next_id = table.next_id + 1 }
    else record {
      rows = new_row state now t table.next_id ∷ table.rows;
      next_id = table.next_id + 1;
    }

unfoldable pub insert_rows : InboxState → (now : ℕ) → List InboxTransfer → InboxTable → InboxTable
insert_rows state now [] table = table
insert_rows state now (t ∷ ts) table = insert_rows state now ts (insert_row state now t table)

-- The transaction of one key.
unfoldable pub insert_group : (key now : ℕ) → List InboxTransfer → InboxTable → InboxTable
insert_group key now ts table =
    insert_rows (if has_blocked key table.rows then blocked else created) now ts table

unfoldable pub group_by_key :
    List InboxTransfer → JsMap ℕ (List InboxTransfer) → JsMap ℕ (List InboxTransfer)
group_by_key [] groups = groups
group_by_key (t ∷ ts) groups =
    group_by_key ts
      (set t.key (elim (get t.key groups) [ none ↦ t ∷ [] | some g ↦ g ++ (t ∷ []) ]) groups)

unfoldable pub insert_groups : (now : ℕ) → JsMap ℕ (List InboxTransfer) → InboxTable → InboxTable
insert_groups now [] table = table
insert_groups now ((key, ts) ∷ groups) table =
    insert_groups now groups (insert_group key now ts table)

unfoldable pub insert_transfers : (now : ℕ) → List InboxTransfer → InboxTable → InboxTable
insert_transfers now ts table = insert_groups now (group_by_key ts []) table

-- The update of the failed row, and the one of the later rows of its key.
unfoldable pub mark_failed : ℕ → (message : ℕ) → InboxRow → InboxRow
mark_failed id message r =
    if nat_beq r.id id
    then record r { state = blocked; reason = some (processing_error message) }
    else r

unfoldable pub mark_successor : (id key : ℕ) → InboxRow → InboxRow
mark_successor id key r =
    if nat_beq r.transfer.key key && (ltb id r.id && (not (is_blocked r.state) && not r.is_deleted))
    then record r { state = blocked; reason = some predecessor_blocked }
    else r

unfoldable pub mark_blocked_with_successors : (id key message : ℕ) → InboxTable → InboxTable
mark_blocked_with_successors id key message table = record table {
  rows = map (mark_successor id key) (map (mark_failed id message) table.rows);
}

-- `softDelete`, which passes over a deleted row.
unfoldable pub delete_row : ℕ → InboxRow → InboxRow
delete_row id r = if nat_beq r.id id then record r { is_deleted = true } else r

unfoldable pub delete : ℕ → InboxTable → InboxTable
delete id table = record table { rows = map (delete_row id) table.rows }

-- The selects are over the keys that the transaction has locked.
abbrev pub earlier : InboxRow → InboxRow → Bool
earlier a b =
    if ltb a.created_at b.created_at
    then true
    else if ltb b.created_at a.created_at
    then false
    else if ltb a.transfer.tx_id b.transfer.tx_id
    then true
    else if ltb b.transfer.tx_id a.transfer.tx_id
    then false
    else not (ltb b.transfer.transfer_id a.transfer.transfer_id)

abbrev is_locked : List ℕ → InboxRow → Bool
is_locked keys r = any (λ k. nat_beq k r.transfer.key) keys

unfoldable pub find_blocked : List ℕ → InboxTable → List InboxRow
find_blocked keys table =
    sort_by earlier (filter (λ r. is_locked keys r && blocks r.transfer.key r) table.rows)

-- `key_before` is the order of the texts of keys.
unfoldable pub find_next_created : (key_before : ℕ → ℕ → Bool) → List ℕ → InboxTable → List InboxRow
find_next_created key_before keys table =
    sort_by
      (λ a b.
        if nat_beq a.transfer.key b.transfer.key
        then earlier a b
        else key_before a.transfer.key b.transfer.key)
      (filter
        (λ r.
          is_locked keys r
          && (not r.is_deleted
              && (not (is_blocked r.state) && not (has_blocked r.transfer.key table.rows))))
        table.rows)
