-- ===== src/Payments/Batches/Grouped.antt =====
-- What the batches of a run have.
use multi_rail_payments_proc.Prelude.{
  ◌≡◌, ◌≢◌, Bool, true, false, ◌&&◌, some, none, List, map, All, nat_beq, length,
}
use multi_rail_payments_proc.Prelude.Sort.{filter}
use multi_rail_payments_proc.Prelude.JsMap.{JsMap, Unique}
use multi_rail_payments_proc.Prelude.Grouping.{group_of}
use multi_rail_payments_proc.Types.{BalanceChange, BalanceChangeTxStatus}
use multi_rail_payments_proc.Payments.Inbox.{InboxRow}
use multi_rail_payments_proc.Payments.Batches.{
  Batch, PublishKey, intent_key, tx_key, status_code, publish_key_eq,
}

-- The change of the transfer is one of the intent and status, or has no intent and is one of the
-- transfer and status.
abbrev pub belongs : PublishKey → InboxRow × BalanceChange → Bool
belongs (intent_key id status) (source, c) = elim (c.intent_id) [
  | some i ↦ nat_beq i id && nat_beq (status_code c.metadata.tx_status) status
  | none ↦ false
]
belongs (tx_key tx_id transfer_id status) (source, c) = elim (c.intent_id) [
  | some i ↦ false
  | none ↦
      nat_beq source.transfer.tx_id tx_id
      && (nat_beq source.transfer.transfer_id transfer_id
          && nat_beq (status_code c.metadata.tx_status) status)
]

-- A group has changes, all of its intent or transfer and its status.
abbrev pub IsGathered : PublishKey × List (InboxRow × BalanceChange) → Type 0
IsGathered g = All (λ x. belongs g.0 x ≡ true) g.1 × (length g.1 ≢ 0)

-- Batches of changes with their sources: one for each key that a change has, with all changes of the
-- key in their order.
pub record ArePublished (items : List (InboxRow × BalanceChange)) (batches : List Batch)
    : Type 0 where
  pub groups : JsMap PublishKey (List (InboxRow × BalanceChange))
  pub each : All IsGathered groups
  pub statuses : (s t : BalanceChangeTxStatus) → status_code s ≡ status_code t → s ≡ t
  pub one : Unique groups
  pub every : (k : PublishKey) → group_of k groups ≡ filter (belongs k) items
  pub contents : map (λ (b : Batch). b.changes) batches ≡ map (λ g. map (λ p. p.1) g.1) groups
