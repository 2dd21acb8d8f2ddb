-- ===== src/Outbox/Tests.antt =====
-- The theorems of the outbox on a table of three entries, and on what a claim leaves of them.
use multi_rail_payments_proc.Prelude.{
  Bool, ◌&&◌, ◌≡◌, ◌≤◌, refl, true, false, none, some, List, [], ◌∷◌, arith, All, any, length,
}
use multi_rail_payments_proc.Prelude.Sort.{filter, insert_sorted, sort_by, count}
use multi_rail_payments_proc.Outbox.{
  OutboxData, OutboxEntity, pending, processing, sent, balance_updated, balance_failed, is_pending,
  member, ids_of, from_domain, create, reset_row, reset_stuck, claim_row, oldest_pending,
  find_pending, mark_sent_row, mark_sent, retry_row, increment_retries,
}
use multi_rail_payments_proc.Outbox.Publish.{
  LedgerPublishers, ledger_route, route_entry, route_all, claim, settle, publish,
}
use multi_rail_payments_proc.Outbox.Round.{UniqueIds, found_entries, is_poison, publish-poisoned}
use multi_rail_payments_proc.Outbox.Drain.{IsTaken, is_waiting, publish_rounds}
use multi_rail_payments_proc.Outbox.Oldest.{
  AreOldestFirst, IsTurn, at_most, oldest_pending-AreOldestFirst,
}
use multi_rail_payments_proc.Outbox.Delivery.{
  OutboxWorld, OutboxReach, start, more, creates, begins, stops, IsSafe,
}
use multi_rail_payments_proc.Outbox.Delivery.Safe.{OutboxReach-IsSafe, OutboxReach-drained}

-- The publisher of failures is down.
abbrev publishers : LedgerPublishers
publishers = record {
  publish_success = λ payload. true;
  publish_failed = λ payload. false;
  publish_projection = λ payload. true;
}

abbrev updated_entry : OutboxEntity
updated_entry = record {
  id = 1;
  event = balance_updated;
  payload = 10;
  status = pending;
  created_at = 200;
  sent_at = none;
  processing_at = none;
  retries = 0;
}

abbrev failed_entry : OutboxEntity
failed_entry = record updated_entry { id = 2; event = balance_failed; created_at = 100 }

abbrev stuck_entry : OutboxEntity
stuck_entry = record updated_entry {
  id = 3;
  status = processing;
  processing_at = some 50;
  created_at = 50;
}

abbrev table : List OutboxEntity
table = updated_entry ∷ failed_entry ∷ stuck_entry ∷ []

abbrev worn_table : List OutboxEntity
worn_table = updated_entry ∷ record failed_entry { retries = 32767 } ∷ []

table-published : publish (ledger_route publishers) true 300100 300101 table ≡ (
    record updated_entry { status = sent; processing_at = some 300100; sent_at = some 300101 }
    ∷ record failed_entry { retries = 1 }
    ∷ record stuck_entry { status = sent; processing_at = some 300100; sent_at = some 300101 }
    ∷ [])
unfolding publish claim find_pending reset_stuck reset_row oldest_pending sort_by insert_sorted
    claim_row route_all route_entry ledger_route settle mark_sent mark_sent_row increment_retries
    retry_row
table-published = refl

worn_table-UniqueIds : UniqueIds worn_table
worn_table-UniqueIds =
    ((λ e. refl, (λ e. ground (arith, e), tt)), ((λ e. ground (arith, e), (λ e. refl, tt)), tt))

worn_table-poisoned :
    any
      (is_poison (ledger_route publishers) (found_entries true 300 worn_table))
      (reset_stuck 300 worn_table)
    ≡ true
unfolding reset_stuck reset_row oldest_pending sort_by insert_sorted ledger_route
worn_table-poisoned = refl

publish-poisoned_example :
    All
      (λ (r : OutboxEntity). r.status ≡ processing)
      (filter
        (λ (r : OutboxEntity). member r.id (ids_of (found_entries true 300 worn_table)))
        (publish (ledger_route publishers) true 300 301 worn_table))
publish-poisoned_example =
    publish-poisoned (ledger_route publishers) true 300 301 worn_table worn_table-UniqueIds
      worn_table-poisoned

oldest_pending-AreOldestFirst_example :
    (length (oldest_pending 1 table) ≡ at_most 1 (count is_pending table))
    × ((p : OutboxEntity → Bool)
        → count p (oldest_pending 1 table) ≤ count (λ e. p e && is_pending e) table)
    × (AreOldestFirst (oldest_pending 1 table)
        × All (IsTurn (oldest_pending 1 table)) (filter is_pending table))
oldest_pending-AreOldestFirst_example = oldest_pending-AreOldestFirst 1 table

-- An entry is created, a process claims it and stops.
abbrev new_data : OutboxData
new_data = record { id = 1; event = balance_updated; payload = 10 }

abbrev claimed_world : OutboxWorld
claimed_world = record {
  rows = record updated_entry { status = processing; processing_at = some 300 } ∷ [];
  created = 1 ∷ [];
  published = [];
  running = [];
}

claimed_world-reached : OutboxReach claimed_world
unfolding claim find_pending reset_stuck reset_row oldest_pending sort_by insert_sorted claim_row
    create from_domain
claimed_world-reached =
    more (more (more start (creates 200 new_data (updated_entry ∷ []) refl)) (begins true 300)) (
      stops [] []
        (record { todo = updated_entry ∷ []; routed = record { sent_ids = []; failed_ids = [] } })
        refl)

OutboxReach-IsSafe_example : IsSafe claimed_world
OutboxReach-IsSafe_example = OutboxReach-IsSafe claimed_world-reached

claimed_world-IsTaken : All (IsTaken (ledger_route publishers)) claimed_world.rows
unfolding ledger_route
claimed_world-IsTaken = (λ x e p. rw e refl, tt)

OutboxReach-drained_example :
    All
      (λ r. is_waiting r ≡ false)
      (publish_rounds (ledger_route publishers) ((300301, 300302) ∷ []) claimed_world.rows)
OutboxReach-drained_example =
    OutboxReach-drained (ledger_route publishers) claimed_world 300301 300302 []
      claimed_world-reached claimed_world-IsTaken (omega arith) (omega arith)
