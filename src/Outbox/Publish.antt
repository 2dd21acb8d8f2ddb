-- ===== src/Outbox/Publish.antt =====
-- `OutboxPublishInteractor` of the three services:
-- apps/ledger/src/application/interactor/outbox-publish/outbox-publish.interactor.ts,
-- apps/core/src/application/interactor/outbox-publish/outbox-publish.interactor.ts and
-- apps/external-integration/src/application/interactor/outbox-publish/outbox-publish.interactor.ts.
-- They differ in `route`, the publisher that an entry goes to by its event. A publisher is a
-- parameter: `true` where it parses the payload and the stream takes the message, `false` where it
-- throws.
use multi_rail_payments_proc.Prelude.{
  ℕ, Bool, false, Option, some, List, [], ◌∷◌, or_else, if◌then◌else◌,
}
use multi_rail_payments_proc.Outbox.{
  OutboxEntity, balance_updated, balance_failed, balance_projection_updated, balance_change_request,
  transfer_create, transfer_held, transaction_event, is_empty, reset_stuck, find_pending, mark_sent,
  increment_retries,
}

pub record LedgerPublishers : Type 0 where
  pub publish_success : (payload : ℕ) → Bool
  pub publish_failed : (payload : ℕ) → Bool
  pub publish_projection : (payload : ℕ) → Bool

unfoldable pub ledger_route : LedgerPublishers → OutboxEntity → Bool
ledger_route p entry = elim (entry.event) [
  | balance_updated ↦ p.publish_success entry.payload
  | balance_failed ↦ p.publish_failed entry.payload
  | balance_projection_updated ↦ p.publish_projection entry.payload
  | _ ↦ false
]

pub record CorePublishers : Type 0 where
  pub publish_changes : (payload : ℕ) → Bool
  pub publish_transfer_create : (payload : ℕ) → Bool
  pub publish_transfer_held : (payload : ℕ) → Bool

unfoldable pub core_route : CorePublishers → OutboxEntity → Bool
core_route p entry = elim (entry.event) [
  | balance_change_request ↦ p.publish_changes entry.payload
  | transfer_create ↦ p.publish_transfer_create entry.payload
  | transfer_held ↦ p.publish_transfer_held entry.payload
  | _ ↦ false
]

unfoldable pub integration_route : (publish : ℕ → Bool) → OutboxEntity → Bool
integration_route publish entry = elim (entry.event) [
  | transaction_event ↦ publish entry.payload
  | _ ↦ false
]

pub record Routed : Type 0 where
  pub sent_ids : List ℕ
  pub failed_ids : List ℕ

-- `MAX_ITEMS`
abbrev pub max_items : ℕ
max_items = 50

module _ (route : OutboxEntity → Bool) where
  unfoldable pub route_entry : OutboxEntity → Routed → Routed
  route_entry entry routed =
      if route entry
      then record routed { sent_ids = entry.id ∷ routed.sent_ids }
      else record routed { failed_ids = entry.id ∷ routed.failed_ids }

  -- The sets of the loop, the first entry at the head.
  unfoldable pub route_all : List OutboxEntity → Routed
  route_all [] = record { sent_ids = []; failed_ids = [] }
  route_all (entry ∷ entries) = route_entry entry (route_all entries)

-- The first transaction.
unfoldable pub claim :
    (locked : Bool) (now : ℕ) → List OutboxEntity → List OutboxEntity × List OutboxEntity
claim locked now rows = find_pending locked max_items now (reset_stuck now rows)

-- The second transaction.
unfoldable pub settle : (now : ℕ) → Routed → List OutboxEntity → Option (List OutboxEntity)
settle now routed rows =
    let marked = if is_empty routed.sent_ids then rows else mark_sent now routed.sent_ids rows in
    if is_empty routed.failed_ids then some marked else increment_retries routed.failed_ids marked

-- The table after a call with no other caller in between; an error of the second transaction is
-- logged.
unfoldable pub publish :
    (route : OutboxEntity → Bool) (locked : Bool) (now later : ℕ)
    → List OutboxEntity
    → List OutboxEntity
publish route locked now later rows =
    let (found, claimed) = claim locked now rows in
    if is_empty found
    then claimed
    else or_else (settle later (route_all route found) claimed) claimed
