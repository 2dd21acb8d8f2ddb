-- ===== src/Payments/Process/Stops.antt =====
-- The loop takes the transfers of a key in their order and stops at the first that fails.
use multi_rail_payments_proc.Prelude.{
  ℕ, ◌≡◌, ◌≤◌, refl, ap, true, false, Option, none, some, List, [], ◌∷◌, ◌++◌, map, arith, All,
  All-imp, All-map, All-every, nat_eq,
}
use multi_rail_payments_proc.Types.{BalanceChange}
use multi_rail_payments_proc.Payments.Inbox.{
  InboxRow, InboxTable, is_blocked, delete, delete_row, mark_failed, mark_successor,
  mark_blocked_with_successors,
}
use multi_rail_payments_proc.Payments.Batches.{ProcessResult}
use multi_rail_payments_proc.Payments.Process.{
  QueueDb, Projection, threw, projected, apply_transfer, keep_result, process_key,
}
use multi_rail_payments_proc.Payments.Process.Loop.{accumulate-inbox}

-- The rows with the id are deleted.
abbrev pub IsDone : InboxTable → InboxRow → Type 0
IsDone table r = All (λ (s : InboxRow). s.id ≡ r.id → s.is_deleted ≡ true) table.rows

-- The visible rows of the key from the failed one on are blocked.
abbrev pub AreBlockedFrom : InboxTable → InboxRow → Type 0
AreBlockedFrom table r =
    All
      (λ (s : InboxRow).
        s.is_deleted ≡ false
        → s.transfer.key ≡ r.transfer.key
        → r.id ≤ s.id
        → is_blocked s.state ≡ true)
      table.rows

abbrev pub sources : List ProcessResult → List InboxRow
sources results = map (λ (r : ProcessResult). r.source) results

-- The results are those of the transfers in their order, each with what the projector returned for
-- it on the tables that the transfers before it left, up to the first for which it threw.
unfoldable pub AreProjected :
    (project : InboxRow → QueueDb → Projection) (sender : InboxRow → ℕ)
    → List InboxRow
    → QueueDb
    → List ProcessResult
    → Type 0
AreProjected project sender [] db results = results ≡ []
AreProjected project sender (row ∷ rows) db results =
    ((message : ℕ) → project row db ≡ threw message → results ≡ [])
    × ((changes : List BalanceChange)
        → project row db ≡ projected changes
        → (rest : List ProcessResult) × (results
            ≡ record { source = row; balance_changes = changes } ∷ rest)
          × AreProjected project sender rows (apply_transfer project sender row db).1 rest)

-- All transfers are done, or those before one that failed.
pub data IsStopped (rows : List InboxRow) (out : List ProcessResult × QueueDb) : Type 0 where
  all_done : sources out.0 ≡ rows → All (IsDone out.1.inbox) rows → IsStopped rows out
  stopped :
      (failed : InboxRow) (left : List InboxRow)
      → sources out.0 ++ (failed ∷ left) ≡ rows
      → All (IsDone out.1.inbox) (sources out.0)
      → AreBlockedFrom out.1.inbox failed
      → IsStopped rows out

mark-blocked :
    (r : InboxRow) (message : ℕ) (table : InboxTable)
    → AreBlockedFrom (mark_blocked_with_successors r.id r.transfer.key message table) r
unfolding mark_blocked_with_successors mark_failed mark_successor
mark-blocked r message table =
    All-map _ (mark_successor r.id r.transfer.key) (map (mark_failed r.id message) table.rows) (
      All-map _ (mark_failed r.id message) table.rows
        (All-every (λ s a b c. ground (arith, a, b, c)) table.rows))

delete-IsDone : (r : InboxRow) (table : InboxTable) → IsDone (delete r.id table) r
unfolding delete delete_row
delete-IsDone r table =
    All-map _ (delete_row r.id) table.rows (All-every (λ s a. ground (arith, a)) table.rows)

-- What was done stays done.
KeepsDone : InboxTable → InboxTable → Type 0
KeepsDone u v = (r : InboxRow) → IsDone u r → IsDone v r

delete-KeepsDone : (id : ℕ) (u : InboxTable) → KeepsDone u (delete id u)
unfolding KeepsDone delete delete_row
delete-KeepsDone id u r h =
    All-map _ (delete_row id) u.rows (All-imp (λ s d a. ground (arith, d, a)) u.rows h)

mark-KeepsDone :
    (id key message : ℕ) (u : InboxTable)
    → KeepsDone u (mark_blocked_with_successors id key message u)
unfolding KeepsDone mark_blocked_with_successors mark_failed mark_successor
mark-KeepsDone id key message u r h =
    All-map _ (mark_successor id key) (map (mark_failed id message) u.rows)
      (All-map _ (mark_failed id message) u.rows (All-imp (λ s d a. ground (arith, d, a)) u.rows h))

module _ (project : InboxRow → QueueDb → Projection) (sender : InboxRow → ℕ) where
  applied-KeepsDone :
      (row : InboxRow) (db : QueueDb) (p : Projection)
      → project row db ≡ p
      → KeepsDone db.inbox (apply_transfer project sender row db).1.inbox
  unfolding apply_transfer
  applied-KeepsDone row db (threw message) e =
      rw (e, apply_transfer) (mark-KeepsDone row.id row.transfer.key message db.inbox)
  applied-KeepsDone row db (projected changes) e =
      rw (e, apply_transfer, accumulate-inbox) (delete-KeepsDone row.id db.inbox)

  kept-KeepsDone :
      (row : InboxRow) (applied : Option (List BalanceChange) × QueueDb)
      (rest : List ProcessResult × QueueDb)
      → KeepsDone applied.1.inbox rest.1.inbox
      → KeepsDone applied.1.inbox (keep_result row applied rest).1.inbox
  unfolding KeepsDone keep_result
  kept-KeepsDone row (none, after) rest h r d = d
  kept-KeepsDone row (some changes, after) rest h r d = h r d

  process_key-KeepsDone :
      (rows : List InboxRow) (db : QueueDb)
      → KeepsDone db.inbox (process_key project sender rows db).1.inbox
  unfolding KeepsDone process_key
  process_key-KeepsDone [] db r d = d
  process_key-KeepsDone (row ∷ rows) db r d =
      let applied = apply_transfer project sender row db in
      kept-KeepsDone row applied _ (process_key-KeepsDone rows applied.1) r
        (applied-KeepsDone row db (project row db) refl r d)

  -- The head of the list, and what follows.
  more-IsStopped :
      (row : InboxRow) (rows : List InboxRow) (changes : List BalanceChange)
      (rest : List ProcessResult × QueueDb)
      → IsDone rest.1.inbox row
      → IsStopped rows rest
      → IsStopped (row ∷ rows) (record { source = row; balance_changes = changes } ∷ rest.0, rest.1)
  more-IsStopped row rows changes rest d (all_done e done) =
      all_done (ap (λ l. row ∷ l) e) (d, done)
  more-IsStopped row rows changes rest d (stopped failed left e done b) =
      stopped failed left (ap (λ l. row ∷ l) e) (d, done) b

  applied-IsStopped :
      (row : InboxRow) (rows : List InboxRow) (rest : List ProcessResult × QueueDb) (db : QueueDb)
      (p : Projection)
      → project row db ≡ p
      → KeepsDone (apply_transfer project sender row db).1.inbox rest.1.inbox
      → IsStopped rows rest
      → IsStopped (row ∷ rows) (keep_result row (apply_transfer project sender row db) rest)
  unfolding apply_transfer keep_result KeepsDone
  applied-IsStopped row rows rest db (threw message) e keep h =
      rw (e, apply_transfer) (stopped row rows refl tt (mark-blocked row message db.inbox))
  applied-IsStopped row rows rest db (projected changes) e keep h =
      let out : IsDone (apply_transfer project sender row db).1.inbox row =
        rw (e, apply_transfer, accumulate-inbox) (delete-IsDone row db.inbox) in
      rw (e, apply_transfer) (more-IsStopped row rows changes rest (keep row out) h)

-- What the transaction of a transfer returns is what the projector did.
apply_transfer-changes :
    (project : InboxRow → QueueDb → Projection) (sender : InboxRow → ℕ) (row : InboxRow)
    (db : QueueDb)
    → ((message : ℕ)
        → project row db ≡ threw message
        → (apply_transfer project sender row db).0 ≡ none)
      × ((changes : List BalanceChange)
          → project row db ≡ projected changes
          → (apply_transfer project sender row db).0 ≡ some changes)
unfolding apply_transfer
apply_transfer-changes project sender row db =
    (λ message e. rw (e, apply_transfer) refl, λ changes e. rw (e, apply_transfer) refl)

keep_result-results :
    (row : InboxRow) (applied : Option (List BalanceChange) × QueueDb)
    (rest : List ProcessResult × QueueDb)
    → (applied.0 ≡ none → (keep_result row applied rest).0 ≡ [])
      × ((changes : List BalanceChange)
          → applied.0 ≡ some changes
          → (keep_result row applied rest).0
            ≡ record { source = row; balance_changes = changes } ∷ rest.0)
unfolding keep_result
keep_result-results row (none, after) rest = (λ e. refl, λ changes e. ground (arith, e))
keep_result-results row (some found, after) rest = (
  λ e. ground (arith, e),
  λ changes e. let same : found ≡ changes = ground (arith, e) in rw same refl,
)

process_key-AreProjected :
    (project : InboxRow → QueueDb → Projection) (sender : InboxRow → ℕ) (rows : List InboxRow)
    (db : QueueDb)
    → AreProjected project sender rows db (process_key project sender rows db).0
unfolding process_key AreProjected
process_key-AreProjected project sender [] db = refl
process_key-AreProjected project sender (row ∷ rows) db =
    let (fails, returns) = apply_transfer-changes project sender row db in
    let (stops, goes_on) =
      keep_result-results row (apply_transfer project sender row db)
        (process_key project sender rows (apply_transfer project sender row db).1) in
    (
      λ message e. stops (fails message e),
      λ changes e. (
        _,
        goes_on changes (returns changes e),
        process_key-AreProjected project sender rows (apply_transfer project sender row db).1,
      ),
    )

process_key-halts :
    (project : InboxRow → QueueDb → Projection) (sender : InboxRow → ℕ) (rows : List InboxRow)
    (db : QueueDb)
    → IsStopped rows (process_key project sender rows db)
unfolding process_key
process_key-halts project sender [] db = all_done refl tt
process_key-halts project sender (row ∷ rows) db =
    let after = (apply_transfer project sender row db).1 in
    applied-IsStopped project sender row rows (process_key project sender rows after) db
      (project row db) refl (process_key-KeepsDone project sender rows after)
      (process_key-halts project sender rows after)

-- The loop over the transfers of a key takes them in their order, up to the first for which the
-- projector throws: its results are those before that one, each with the changes that the projector
-- returned for it on the tables as the ones before it left them; these are deleted, and the one that
-- failed and the visible transfers of its key with a later id are blocked then.
pub process_key-IsStopped :
    (project : InboxRow → QueueDb → Projection) (sender : InboxRow → ℕ) (rows : List InboxRow)
    (db : QueueDb)
    → IsStopped rows (process_key project sender rows db)
      × AreProjected project sender rows db (process_key project sender rows db).0
process_key-IsStopped project sender rows db =
    (process_key-halts project sender rows db, process_key-AreProjected project sender rows db)
