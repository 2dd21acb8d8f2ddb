-- ===== src/Ledger/Tests/Deliveries.antt =====
-- Deliveries of a batch: the theorems of Ledger/Process/Once at concrete services.
use multi_rail_payments_proc.Prelude.{
  ℕ, ◌≡◌, refl, arith, true, ◌⊎◌, inl, Option, none, some, List, [], ◌∷◌, any, nat_beq, nat_beq_iff,
  if◌then◌else◌,
}
use multi_rail_payments_proc.Prelude.Int.{◌+ℤ◌}
use multi_rail_payments_proc.Types.{
  integration_beq, integration_type_from_domain, BalanceChange, credit,
}
use multi_rail_payments_proc.Ledger.Amounts.{column_limit, add_amounts, has_negative, compute_delta}
use multi_rail_payments_proc.Ledger.Keys.{
  key_beq, key_eq, platform_key, integration_key, collect_platform_keys, collect_integration_keys,
  collect, add_seen,
}
use multi_rail_payments_proc.Ledger.Snapshots.{
  apply_group_to_snapshots, post_changes, post, check_next,
}
use multi_rail_payments_proc.Ledger.Store.{
  LedgerDb, lock_projections, ensure_projections_exist, select_rows, write_changes, batch_insert_es,
  add_delta, batch_upsert_integration_projections, batch_upsert_platform_projections,
  apply_from_groups, apply_groups, read_snapshots, update_rows, delta_map, es_rows,
}
use multi_rail_payments_proc.Ledger.Groups.{
  group_by_intent, push_change, group_key_eq, group_changes,
}
use multi_rail_payments_proc.Ledger.Process.{
  LedgerService, execute, apply_event, inbox_exists, write_event, enqueue, event_rows,
  outbox_create, sort_results,
}
use multi_rail_payments_proc.Ledger.Process.Once.{
  World, Delivery, Reach, here, next, check, commit, IsTracked, Reach-IsTracked, execute_again,
}
use multi_rail_payments_proc.Ledger.Tests.{change, batch, empty_db}

-- A save that returns puts the key into the inbox, and one of a known key throws.
abbrev save : ℕ → List ℕ → Option (List ℕ)
save key inbox = if any (λ k. nat_beq k key) inbox then none else some (key ∷ inbox)

save-kept :
    (key : ℕ) (inbox inbox' : List ℕ)
    → save key inbox ≡ some inbox'
    → any (λ k. nat_beq k key) inbox' ≡ true
save-kept key inbox inbox' h = ground (arith, nat_beq_iff key key)

abbrev empty_service : LedgerService
empty_service = record { db = empty_db; inbox = []; outbox = [] }

execute_again_example :
    let s' = execute save 5 batch 900 1 empty_db empty_service in
    (s' ≡ empty_service)
    ⊎ ((changes' : List BalanceChange) (uuid' date' : ℕ) (seen' : LedgerDb)
        → execute save 5 changes' uuid' date' seen' s' ≡ s')
execute_again_example = execute_again save save-kept 5 batch 900 1 empty_db empty_service

abbrev delivery : Delivery
delivery = record { key = 5; changes = change credit 1 10 ∷ []; uuid = 900; date = 1 }

abbrev after : LedgerService
after = execute save 5 (change credit 1 10 ∷ []) 900 1 empty_db empty_service

abbrev start_world : World
start_world = record { service = empty_service; checked = []; applied = [] }

abbrev end_world : World
end_world = record { service = after; checked = delivery ∷ []; applied = 5 ∷ [] }

commits : apply_event save 5 (change credit 1 10 ∷ []) 900 1 empty_db empty_service ≡ some after
unfolding execute apply_event inbox_exists write_event apply_from_groups group_by_intent
    group_changes push_change lock_projections collect_integration_keys collect_platform_keys
    collect add_seen ensure_projections_exist read_snapshots select_rows apply_groups
    apply_group_to_snapshots post_changes post check_next write_changes batch_insert_es es_rows
    enqueue event_rows outbox_create sort_results has_negative add_amounts compute_delta ◌+ℤ◌
    batch_upsert_integration_projections batch_upsert_platform_projections update_rows delta_map
    add_delta column_limit key_beq integration_beq integration_type_from_domain platform_key
    integration_key
commits = refl

reached : Reach save start_world end_world
unfolding inbox_exists
reached =
    next (next here (check delivery refl))
      (commit delivery (5 ∷ []) empty_db after (inl refl) refl commits)

Reach-IsTracked_example : IsTracked end_world
Reach-IsTracked_example = Reach-IsTracked save empty_service refl reached
