-- ===== src/Ledger/Process.antt =====
-- `ProcessApplyBalanceInteractor`, its inbox and the outbox rows that it writes:
-- apps/ledger/src/module/balance/interactor/process-apply-balance/process-apply-balance.interactor.ts,
-- apps/ledger/src/module/balance/repository/balance-event-inbox/balance-event-inbox.repository.ts
-- and `create` of apps/ledger/src/data/repository/outbox/outbox.repository.ts.
-- A transaction is a function into an option: `none` is a rollback; `seen` is the ledger that it
-- reads, before other transactions that commit ahead of its writes. `save_row` is what
-- `EntityManager.save` does to the inbox: `none` where it throws.
pub mod Once
use multi_rail_payments_proc.Prelude.{
  ℕ, ◌≡◌, ◌≢◌, refl, sym, ◌∙◌, ap, ◌↔◌, Bool, true, false, Option, none, some, List, [], ◌∷◌, ◌++◌,
  map, arith, any, nat_beq, Equal, ◌==◌, if◌then◌else◌,
}
use multi_rail_payments_proc.Types.{BalanceChange}
use multi_rail_payments_proc.Ledger.Snapshots.{ProjectionSnapshot, BalanceApplyError, IntentGroup}
use multi_rail_payments_proc.Ledger.Store.{
  LedgerDb, IntentApplyResult, success, failure, apply_from_groups,
}
use multi_rail_payments_proc.Ledger.Groups.{group_by_intent}

-- `${uniqueKey}:success`, `${uniqueKey}:failed`, and the `randomUUID` of a projection event.
pub data OutboxKey : Type 0 where
  success_key : ℕ → OutboxKey
  failed_key : ℕ → OutboxKey
  uuid_key : ℕ → OutboxKey

pub data OutboxPayload : Type 0 where
  balance_updated : List BalanceChange → OutboxPayload
  balance_failed : List BalanceChange → List BalanceApplyError → OutboxPayload
  projection_updated : (date : ℕ) → List ProjectionSnapshot → OutboxPayload

pub record OutboxRow : Type 0 where
  pub id : OutboxKey
  pub payload : OutboxPayload

pub record LedgerService : Type 0 where
  pub db : LedgerDb
  pub inbox : List ℕ
  pub outbox : List OutboxRow

abbrev pub key_eqb : OutboxKey → OutboxKey → Bool
key_eqb (success_key a) (success_key b) = nat_beq a b
key_eqb (failed_key a) (failed_key b) = nat_beq a b
key_eqb (uuid_key a) (uuid_key b) = nat_beq a b
key_eqb _ _ = false

abbrev pub has_row : OutboxKey → List OutboxRow → Bool
has_row k rows = any (λ r. key_eqb r.id k) rows

-- `insert` into the outbox, refused by the primary key where the id is taken.
unfoldable pub outbox_create : OutboxRow → LedgerService → Option LedgerService
outbox_create row s =
    if has_row row.id s.outbox then none else some (record s { outbox = s.outbox ++ (row ∷ []) })

-- The accumulator of the `reduce` over the results.
pub record Sorted : Type 0 where
  pub projections : List ProjectionSnapshot
  pub succeeded_changes : List BalanceChange
  pub failed_changes : List BalanceChange
  pub errors : List BalanceApplyError

unfoldable pub sort_results : List IntentApplyResult → Sorted
sort_results [] = record {
  projections = [];
  succeeded_changes = [];
  failed_changes = [];
  errors = [];
}
sort_results (success id changes updates ∷ rs) =
    let rest = sort_results rs in
    record rest {
      projections = updates ++ rest.projections;
      succeeded_changes = changes ++ rest.succeeded_changes;
    }
sort_results (failure id changes error ∷ rs) =
    let rest = sort_results rs in
    record rest { failed_changes = changes ++ rest.failed_changes; errors = error ∷ rest.errors }

infixl 5 ◌>>=◌
abbrev pub ◌>>=◌ : {A B : Type 0} → Option A → (A → Option B) → Option B
none >>= f = none
some a >>= f = f a

-- `BalanceEventInboxRepository.exists`
unfoldable pub inbox_exists : ℕ → LedgerService → Bool
inbox_exists key s = any (λ k. nat_beq k key) s.inbox

-- `enqueueSuccess`, `enqueueFailed` and `enqueue` of the projections, one after the other.
unfoldable pub enqueue : List OutboxRow → LedgerService → Option LedgerService
enqueue [] s = some s
enqueue (row ∷ rows) s = outbox_create row s >>= enqueue rows

-- `ProcessApplyBalanceMapper` keeps the fields of the changes.
unfoldable pub event_rows : (key uuid date : ℕ) → Sorted → List OutboxRow
event_rows key uuid date sorted =
    record { id = success_key key; payload = balance_updated sorted.succeeded_changes }
    ∷ record { id = failed_key key; payload = balance_failed sorted.failed_changes sorted.errors }
    ∷ record { id = uuid_key uuid; payload = projection_updated date sorted.projections }
    ∷ []

-- The balances, then the three outbox rows; the key is in the inbox by now.
unfoldable pub write_event :
    (key : ℕ) (changes : List BalanceChange) (uuid date : ℕ) (inbox : List ℕ) (seen : LedgerDb)
    → LedgerService
    → Option LedgerService
write_event key changes uuid date inbox seen s = do
  (results, db) ← apply_from_groups (group_by_intent changes) seen s.db
  enqueue (event_rows key uuid date (sort_results results)) (record s { db = db; inbox = inbox })

module _ (save_row : ℕ → List ℕ → Option (List ℕ)) where
  -- The body of the transaction. Where the save throws, the event is a duplicate and nothing else
  -- is done.
  unfoldable pub apply_event :
      (key : ℕ) (changes : List BalanceChange) (uuid date : ℕ) (seen : LedgerDb)
      → LedgerService
      → Option LedgerService
  apply_event key changes uuid date seen s = elim (save_row key s.inbox) [
    | none ↦ some s
    | some inbox ↦ write_event key changes uuid date inbox seen s
  ]

  -- `execute`: the check of the inbox, and the transaction; a rollback leaves the service as it was.
  unfoldable pub execute :
      (key : ℕ) (changes : List BalanceChange) (uuid date : ℕ) (seen : LedgerDb)
      → LedgerService
      → LedgerService
  execute key changes uuid date seen s =
      if inbox_exists key s
      then s
      else elim (apply_event key changes uuid date seen s) [ none ↦ s | some s' ↦ s' ]
