-- ===== src/Ledger/Process/Once.antt =====
-- A delivered batch takes effect once, however deliveries and their transactions interleave: the
-- check of the inbox is made before the transaction, and the primary key of the outbox row
-- `${uniqueKey}:success` stops a second one.
use multi_rail_payments_proc.Prelude.{
  ℕ, ◌≡◌, ◌⊎◌, inl, inr, refl, sym, ◌∙◌, ap, Bool, true, false, Option, none, some, List, [], ◌∷◌,
  ◌++◌, arith, any, nat_beq, if◌then◌else◌, Option-cases, Bool-cases,
}
use multi_rail_payments_proc.Types.{BalanceChange}
use multi_rail_payments_proc.Ledger.Store.{LedgerDb, apply_from_groups}
use multi_rail_payments_proc.Ledger.Groups.{group_by_intent}
use multi_rail_payments_proc.Ledger.Process.{
  OutboxKey, success_key, OutboxRow, LedgerService, key_eqb, has_row, outbox_create, sort_results,
  inbox_exists, apply_event, execute, write_event, enqueue, event_rows, ◌>>=◌,
}

has_row-snoc :
    (k : OutboxKey) (rows : List OutboxRow) (r : OutboxRow)
    → has_row k (rows ++ (r ∷ [])) ≡ (if has_row k rows then true else key_eqb r.id k)
has_row-snoc k [] r = ground arith
has_row-snoc k (x ∷ rows) r = ground (arith, has_row-snoc k rows r)

outbox_create-some :
    (row : OutboxRow) (s s' : LedgerService)
    → outbox_create row s ≡ some s'
    → (has_row row.id s.outbox ≡ false) × (s' ≡ record s { outbox = s.outbox ++ (row ∷ []) })
unfolding outbox_create
outbox_create-some row s s' h = ground arith

-- An id that is written, or was there, is there; another one is not.
has_row-outbox_create :
    (k : OutboxKey) (row : OutboxRow) (s s' : LedgerService)
    → outbox_create row s ≡ some s'
    → has_row k s'.outbox ≡ (if has_row k s.outbox then true else key_eqb row.id k)
has_row-outbox_create k row s s' h =
    ap (λ (t : LedgerService). has_row k t.outbox) (outbox_create-some row s s' h).1
    ∙ has_row-snoc k s.outbox row

bind_some :
    {A B : Type 0} (m : Option A) (f : A → Option B) {b : B}
    → (m >>= f) ≡ some b
    → (a : A) × (m ≡ some a) × (f a ≡ some b)
bind_some none f h = cc
bind_some (some a) f h = (a, refl, h)

abbrev FirstIsFresh : List OutboxRow → LedgerService → Type 0
FirstIsFresh [] s = Unit {0}
FirstIsFresh (row ∷ rows) s = has_row row.id s.outbox ≡ false

-- What rows that are enqueued leave: their ids and those that were there.
record Enqueued (rows : List OutboxRow) (s s' : LedgerService) : Type 0 where
  ids :
      (k : OutboxKey) → has_row k s'.outbox ≡ (if has_row k s.outbox then true else has_row k rows)
  inbox : s'.inbox ≡ s.inbox
  first : FirstIsFresh rows s

enqueue-Enqueued :
    (rows : List OutboxRow) (s s' : LedgerService) → enqueue rows s ≡ some s' → Enqueued rows s s'
unfolding enqueue
enqueue-Enqueued [] s s' h = record { ids = λ k. ground arith; inbox = ground arith; first = tt }
enqueue-Enqueued (row ∷ rows) s s' h =
    let (s₁, e, h₁) = bind_some (outbox_create row s) (enqueue rows) h in
    let rest = enqueue-Enqueued rows s₁ s' h₁ in
    record {
      ids = λ k. ground (arith, rest.ids k, has_row-outbox_create k row s s₁ e);
      inbox = rest.inbox ∙ ap (λ (t : LedgerService). t.inbox) (outbox_create-some row s s₁ e).1;
      first = (outbox_create-some row s s₁ e).0;
    }

-- What a transaction that took effect found and left.
pub record Effect (key : ℕ) (inbox : List ℕ) (s s' : LedgerService) : Type 0 where
  pub fresh : has_row (success_key key) s.outbox ≡ false
  pub saved : s'.inbox ≡ inbox
  pub rows :
      (k : ℕ)
      → has_row (success_key k) s'.outbox
        ≡ (if has_row (success_key k) s.outbox then true else nat_beq key k)

-- It found no success row of its key, left one, and left the success rows of other keys alone.
pub write_event-Effect :
    (key : ℕ) (changes : List BalanceChange) (uuid date : ℕ) (inbox : List ℕ) (seen : LedgerDb)
    (s s' : LedgerService)
    → write_event key changes uuid date inbox seen s ≡ some s'
    → Effect key inbox s s'
unfolding write_event event_rows enqueue
write_event-Effect key changes uuid date inbox seen s s' h =
    let ((results, db), _, h₁) =
      bind_some (apply_from_groups (group_by_intent changes) seen s.db) _ h in
    let rows = event_rows key uuid date (sort_results results) in
    let done = enqueue-Enqueued rows (record s { db = db; inbox = inbox }) s' h₁ in
    record {
      fresh = done.first;
      saved = done.inbox;
      rows = λ k. done.ids (success_key k) ∙ ground arith;
    }

-- A delivery of a batch: its key, its changes, and the values that its run takes from outside.
pub record Delivery : Type 0 where
  pub key : ℕ
  pub changes : List BalanceChange
  pub uuid : ℕ
  pub date : ℕ

-- The service, the deliveries that have passed the check of the inbox, and the keys of those whose
-- transactions have taken effect.
pub record World : Type 0 where
  pub service : LedgerService
  pub checked : List Delivery
  pub applied : List ℕ

abbrev pub is_applied : ℕ → List ℕ → Bool
is_applied k ks = any (λ j. nat_beq j k) ks

-- A checked delivery may run at any later time, and more than once.
abbrev IsChecked : Delivery → List Delivery → Type 0
IsChecked d [] = ⊥
IsChecked d (e ∷ ds) = (d ≡ e) ⊎ IsChecked d ds

module _ (save_row : ℕ → List ℕ → Option (List ℕ)) where
  pub data Step (w : World) : World → Type 0 where
    check :
        (d : Delivery)
        → inbox_exists d.key w.service ≡ false
        → Step w (record w { checked = d ∷ w.checked })
    commit :
        (d : Delivery) (inbox : List ℕ) (seen : LedgerDb) (s : LedgerService)
        → IsChecked d w.checked
        → save_row d.key w.service.inbox ≡ some inbox
        → apply_event save_row d.key d.changes d.uuid d.date seen w.service ≡ some s
        → Step w (record w { service = s; applied = d.key ∷ w.applied })
    duplicate :
        (d : Delivery) (seen : LedgerDb) (s : LedgerService)
        → IsChecked d w.checked
        → save_row d.key w.service.inbox ≡ none
        → apply_event save_row d.key d.changes d.uuid d.date seen w.service ≡ some s
        → Step w (record w { service = s })

  pub data Reach (w : World) : World → Type 0 where
    here : Reach w w
    next : {u v : World} → Reach w u → Step u v → Reach w v

abbrev pub NoRepeat : List ℕ → Type 0
NoRepeat [] = Unit {0}
NoRepeat (k ∷ ks) = (is_applied k ks ≡ false) × NoRepeat ks

-- The outbox has a success row for exactly the keys that have been applied, each once.
pub record IsTracked (w : World) : Type 0 where
  pub rows : (k : ℕ) → has_row (success_key k) w.service.outbox ≡ is_applied k w.applied
  pub once : NoRepeat w.applied

module _ (save_row : ℕ → List ℕ → Option (List ℕ)) where
  Step-IsTracked : {w v : World} → Step save_row w v → IsTracked w → IsTracked v
  unfolding apply_event
  Step-IsTracked (check d h) t = record { rows = t.rows; once = t.once }
  Step-IsTracked {w} (commit d inbox seen s c saved e) t =
      let eff =
        write_event-Effect d.key d.changes d.uuid d.date inbox seen w.service s (ground arith) in
      record {
        rows = λ k. ground (arith, eff.rows k, t.rows k);
        once = (sym (t.rows d.key) ∙ eff.fresh, t.once);
      }
  Step-IsTracked {w} (duplicate d seen s c saved e) t =
      let same : s ≡ w.service = ground arith in
      record {
        rows = λ k. ap (λ (x : LedgerService). has_row (success_key k) x.outbox) same ∙ t.rows k;
        once = t.once;
      }

  -- However checks and transactions of deliveries interleave from a service with an empty outbox,
  -- the transaction of no key takes effect twice, and the outbox has a success row for exactly the
  -- keys whose transactions have.
  pub Reach-IsTracked :
      (s : LedgerService) {w : World}
      → s.outbox ≡ []
      → Reach save_row (record { service = s; checked = []; applied = [] }) w
      → IsTracked w
  Reach-IsTracked s e here = record { rows = λ k. ap (has_row (success_key k)) e; once = tt }
  Reach-IsTracked s e (next r st) = Step-IsTracked st (Reach-IsTracked s e r)

  execute_known :
      (key : ℕ) (changes : List BalanceChange) (uuid date : ℕ) (seen : LedgerDb) (s : LedgerService)
      → inbox_exists key s ≡ true
      → execute save_row key changes uuid date seen s ≡ s
  unfolding execute
  execute_known key changes uuid date seen s h = rw h refl

  module _
      (kept : (key : ℕ) (inbox inbox' : List ℕ)
        → save_row key inbox ≡ some inbox'
        → any (λ k. nat_beq k key) inbox' ≡ true) where
    execute_cases :
        (key : ℕ) (changes : List BalanceChange) (uuid date : ℕ) (seen : LedgerDb)
        (s : LedgerService)
        → (execute save_row key changes uuid date seen s ≡ s)
          ⊎ (inbox_exists key (execute save_row key changes uuid date seen s) ≡ true)
    unfolding execute apply_event inbox_exists
    execute_cases key changes uuid date seen s =
        elim (Bool-cases (any (λ k. nat_beq k key) s.inbox)) [
          | inl old ↦ inl (rw old refl)
          | inr new ↦ elim (Option-cases (save_row key s.inbox)) [
            | inl refused ↦ inl (ground arith)
            | inr (inbox, saved) ↦
                elim (Option-cases (write_event key changes uuid date inbox seen s)) [
                  | inl rolled_back ↦ inl (ground arith)
                  | inr (s', e) ↦
                      let left =
                        (write_event-Effect key changes uuid date inbox seen s s' e).saved in
                      inr (ground (arith, kept key s.inbox inbox saved))
                ]
          ]
        ]

    -- Where a save that returns leaves the key in the inbox, an event either changed nothing, and
    -- may be delivered again, or every later delivery of its key changes nothing.
    pub execute_again :
        (key : ℕ) (changes : List BalanceChange) (uuid date : ℕ) (seen : LedgerDb)
        (s : LedgerService)
        → let s' = execute save_row key changes uuid date seen s in
          (s' ≡ s)
          ⊎ ((changes' : List BalanceChange) (uuid' date' : ℕ) (seen' : LedgerDb)
              → execute save_row key changes' uuid' date' seen' s' ≡ s')
    execute_again key changes uuid date seen s = elim (execute_cases key changes uuid date seen s) [
      | inl same ↦ inl same
      | inr known ↦
          inr (λ changes' uuid' date' seen'. execute_known key changes' uuid' date' seen' _ known)
    ]
