-- ===== src/Outbox/Delivery.antt =====
-- Calls of the publisher by several processes, which may stop between any two of their actions: no
-- entry is lost, and none counts as sent that was not published.
pub mod Safe
use mathlib.Core.Path.{subst}
use multi_rail_payments_proc.Prelude.{
  ℕ, ◌+◌, ◌≡◌, ◌<◌, refl, sym, ap, ◌∙◌, Bool, true, false, not, ◌&&◌, ◌||◌, Option, none, some,
  List, [], ◌∷◌, ◌++◌, map, arith, any, nat_beq, nat_beq_iff, beq_self, All, All-imp, All-map,
  All-every, All-append, All-split, if◌then◌else◌, Bool-cases, Option-cases, inl, inr,
}
use multi_rail_payments_proc.Prelude.Sort.{filter}
use multi_rail_payments_proc.Outbox.{
  OutboxStatus, OutboxData, OutboxEntity, pending, processing, sent, failed, is_pending,
  is_processing, is_sent, is_stuck, is_empty, member, ids_of, from_domain, create, reset_row,
  reset_stuck, claim_row, mark_sent_row, mark_sent, retry_row, overflows, increment_retries,
  delete_old,
}
use multi_rail_payments_proc.Outbox.Publish.{Routed, route_entry, claim, settle}
use multi_rail_payments_proc.Outbox.Round.{
  SameRow, UniqueIds, found_entries, claim_lem, map-UniqueIds, reset_row-id, reset_stuck-UniqueIds,
  settle_lem,
}
use multi_rail_payments_proc.Outbox.Drain.{is_ready}

-- A call between its two transactions.
pub record Call : Type 0 where
  pub todo : List OutboxEntity
  pub routed : Routed

-- The table, the ids that were ever created, the ids that went to a stream, and the open calls.
pub record OutboxWorld : Type 0 where
  pub rows : List OutboxEntity
  pub created : List ℕ
  pub published : List ℕ
  pub running : List Call

pub data OutboxStep (w : OutboxWorld) : OutboxWorld → Type 0 where
  creates :
      (now : ℕ) (d : OutboxData) (rows : List OutboxEntity)
      → create now d w.rows ≡ some rows
      → OutboxStep w (record w { rows = rows; created = d.id ∷ w.created })
  begins :
      (locked : Bool) (now : ℕ)
      → OutboxStep w (record w {
        rows = (claim locked now w.rows).1;
        running =
            record {
              todo = (claim locked now w.rows).0;
              routed = record { sent_ids = []; failed_ids = [] };
            }
            ∷ w.running;
      })
  takes :
      (before after : List Call) (e : OutboxEntity) (es : List OutboxEntity) (routed : Routed)
      → w.running ≡ before ++ (record { todo = e ∷ es; routed = routed } ∷ after)
      → OutboxStep w (record w {
        published = e.id ∷ w.published;
        running =
            before ++ (record { todo = es; routed = route_entry (λ x. true) e routed } ∷ after);
      })
  refuses :
      (before after : List Call) (e : OutboxEntity) (es : List OutboxEntity) (routed : Routed)
      → w.running ≡ before ++ (record { todo = e ∷ es; routed = routed } ∷ after)
      → OutboxStep w (record w {
        running =
            before ++ (record { todo = es; routed = route_entry (λ x. false) e routed } ∷ after);
      })
  ends :
      (before after : List Call) (routed : Routed) (later : ℕ) (rows : List OutboxEntity)
      → w.running ≡ before ++ (record { todo = []; routed = routed } ∷ after)
      → settle later routed w.rows ≡ some rows
      → OutboxStep w (record w { rows = rows; running = before ++ after })
  stops :
      (before after : List Call) (c : Call)
      → w.running ≡ before ++ (c ∷ after)
      → OutboxStep w (record w { running = before ++ after })
  cleans : (seconds now : ℕ) → OutboxStep w (record w { rows = delete_old seconds now w.rows })

pub data OutboxReach : OutboxWorld → Type 0 where
  start : OutboxReach (record { rows = []; created = []; published = []; running = [] })
  more : {u v : OutboxWorld} → OutboxReach u → OutboxStep u v → OutboxReach v

-- Pending, sent, or in processing since a known time.
abbrev pub is_recoverable : OutboxEntity → Bool
is_recoverable r =
    is_pending r
    || (is_sent r || (is_processing r && elim r.processing_at [ none ↦ false | some t ↦ true ]))

abbrev pub ArePublished : (published ids : List ℕ) → Type 0
ArePublished published ids = All (λ k. member k published ≡ true) ids

abbrev IsGood : List ℕ → OutboxEntity → Type 0
IsGood published r = ((not (is_sent r) || member r.id published) ≡ true) × (is_recoverable r ≡ true)

pub record IsKept (published created_ids : List ℕ) (rows : List OutboxEntity) : Type 0 where
  pub unique : UniqueIds rows
  pub good : All (IsGood published) rows
  pub kept : All (λ k. (member k (ids_of rows) || member k published) ≡ true) created_ids

pub record IsSafe (w : OutboxWorld) : Type 0 where
  pub table : IsKept w.published w.created w.rows
  pub calls : All (λ (c : Call). ArePublished w.published c.routed.sent_ids) w.running

reset_row-IsGood :
    (now : ℕ) (published : List ℕ) (r : OutboxEntity)
    → IsGood published r
    → IsGood published (reset_row now r)
unfolding reset_row
reset_row-IsGood now published r h = elim (Bool-cases (is_stuck now r)) [
  | inl stuck ↦ rw stuck (refl, refl)
  | inr other ↦ rw other h
]

claim_row-IsGood :
    (now : ℕ) (ids published : List ℕ) (r : OutboxEntity)
    → IsGood published r
    → IsGood published (claim_row now ids r)
unfolding claim_row
claim_row-IsGood now ids published r h = elim (Bool-cases (member r.id ids)) [
  | inl in_batch ↦ rw in_batch (refl, refl)
  | inr out ↦ rw out h
]

member-ArePublished :
    (published ids : List ℕ) (k : ℕ)
    → ArePublished published ids
    → member k ids ≡ true
    → member k published ≡ true
member-ArePublished published [] k h m = ground (arith, m)
member-ArePublished published (i ∷ ids) k h m = elim (Bool-cases (nat_beq i k)) [
  | inl same ↦ rw (← (nat_beq_iff i k).0 same) h.0
  | inr other ↦ member-ArePublished published ids k h.1 (ground (arith, m, other))
]

mark_sent_row-IsGood :
    (later : ℕ) (published ids : List ℕ) (r : OutboxEntity)
    → ArePublished published ids
    → IsGood published r
    → IsGood published (mark_sent_row later ids r)
unfolding mark_sent_row
mark_sent_row-IsGood later published ids r known h = elim (Bool-cases (member r.id ids)) [
  | inl in_batch ↦ rw in_batch (member-ArePublished published ids r.id known in_batch, refl)
  | inr out ↦ rw out h
]

retry_row-IsGood :
    (ids published : List ℕ) (r : OutboxEntity)
    → IsGood published r
    → IsGood published (retry_row ids r)
unfolding retry_row
retry_row-IsGood ids published r h = elim (Bool-cases (member r.id ids)) [
  | inl in_batch ↦ rw in_batch (refl, refl)
  | inr out ↦ rw out h
]

ids_of-map :
    (f : OutboxEntity → OutboxEntity) (rows : List OutboxEntity)
    → ((r : OutboxEntity) → (f r).id ≡ r.id)
    → ids_of (map f rows) ≡ ids_of rows
ids_of-map f [] same = refl
ids_of-map f (r ∷ rows) same = rw (same r, ids_of-map f rows same) refl

-- An update of single rows keeps the table good where it keeps each row good.
map-IsKept :
    (f : OutboxEntity → OutboxEntity) (published created_ids : List ℕ) (rows : List OutboxEntity)
    → ((r : OutboxEntity) → (f r).id ≡ r.id)
    → ((r : OutboxEntity) → IsGood published r → IsGood published (f r))
    → IsKept published created_ids rows
    → IsKept published created_ids (map f rows)
map-IsKept f published created_ids rows same keep h = record {
  unique = map-UniqueIds f rows same h.unique;
  good = All-map (IsGood published) f rows (All-imp keep rows h.good);
  kept = rw (ids_of-map f rows same) h.kept;
}

claim_row-id : (now : ℕ) (ids : List ℕ) (r : OutboxEntity) → (claim_row now ids r).id ≡ r.id
unfolding claim_row
claim_row-id now ids r = ground arith

mark_sent_row-id :
    (later : ℕ) (ids : List ℕ) (r : OutboxEntity) → (mark_sent_row later ids r).id ≡ r.id
unfolding mark_sent_row
mark_sent_row-id later ids r = ground arith

retry_row-id : (ids : List ℕ) (r : OutboxEntity) → (retry_row ids r).id ≡ r.id
unfolding retry_row
retry_row-id ids r = ground arith

claim-IsKept :
    (locked : Bool) (now : ℕ) (published created_ids : List ℕ) (rows : List OutboxEntity)
    → IsKept published created_ids rows
    → IsKept published created_ids (claim locked now rows).1
unfolding reset_stuck
claim-IsKept locked now published created_ids rows h =
    let ids = ids_of (found_entries locked now rows) in
    rw (claim_lem locked now rows) (
      map-IsKept (claim_row now ids) published created_ids (reset_stuck now rows)
        (claim_row-id now ids) (claim_row-IsGood now ids published)
        (map-IsKept (reset_row now) published created_ids rows (reset_row-id now)
          (reset_row-IsGood now published) h))

incremented :
    (ids : List ℕ) (rows rows' : List OutboxEntity)
    → increment_retries ids rows ≡ some rows'
    → map (retry_row ids) rows ≡ rows'
unfolding increment_retries
incremented ids rows rows' e = ground (arith, e)

settle-IsKept :
    (later : ℕ) (routed : Routed) (published created_ids : List ℕ) (rows rows' : List OutboxEntity)
    → ArePublished published routed.sent_ids
    → settle later routed rows ≡ some rows'
    → IsKept published created_ids rows
    → IsKept published created_ids rows'
settle-IsKept later routed published created_ids rows rows' known e h =
    let marked = map (mark_sent_row later routed.sent_ids) rows in
    subst (IsKept published created_ids)
      (incremented routed.failed_ids marked rows' (sym (settle_lem later routed rows) ∙ e))
      (map-IsKept (retry_row routed.failed_ids) published created_ids marked
        (retry_row-id routed.failed_ids) (retry_row-IsGood routed.failed_ids published)
        (map-IsKept (mark_sent_row later routed.sent_ids) published created_ids rows
          (mark_sent_row-id later routed.sent_ids)
          (λ r. mark_sent_row-IsGood later published routed.sent_ids r known) h))
