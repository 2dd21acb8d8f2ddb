-- ===== src/Outbox/Delivery/Safe.antt =====
-- Every action of the callers keeps the outbox safe, and a safe outbox can be emptied.
use mathlib.Core.Path.{subst}
use multi_rail_payments_proc.Prelude.{
  ℕ, ◌+◌, ◌*◌, ◌≡◌, ◌≤◌, ◌<◌, refl, Bool, true, false, not, ◌&&◌, ◌||◌, some, List, [], ◌∷◌, ◌++◌,
  arith, nat_beq, nat_beq_iff, All, All-imp, All-append, All-split, or_else, leb, length,
  if◌then◌else◌, Bool-cases, inl, inr,
}
use multi_rail_payments_proc.Prelude.Sort.{filter, All-filter, count}
use multi_rail_payments_proc.Outbox.{
  OutboxData, OutboxEntity, is_sent, is_before, member, ids_of, from_domain, create, delete_old,
}
use multi_rail_payments_proc.Outbox.Publish.{route_entry}
use multi_rail_payments_proc.Outbox.Round.{SameRow, UniqueIds}
use multi_rail_payments_proc.Outbox.Drain.{
  IsTaken, is_waiting, is_ready, publish_rounds, publish_rounds-drained,
}
use multi_rail_payments_proc.Outbox.Delivery.{
  Call, OutboxWorld, OutboxStep, creates, begins, takes, refuses, ends, stops, cleans, OutboxReach,
  start, more, ArePublished, IsGood, IsKept, IsSafe, claim-IsKept, settle-IsKept,
}

-- No row has an id that is not taken.
fresh-rows :
    (k : ℕ) (rows : List OutboxEntity)
    → member k (ids_of rows) ≡ false
    → All (λ (e : OutboxEntity). nat_beq e.id k ≡ false) rows
fresh-rows k [] h = tt
fresh-rows k (r ∷ rows) h = (ground (arith, h), fresh-rows k rows (ground (arith, h)))

new-apart :
    (n : OutboxEntity) (us rows : List OutboxEntity)
    → All (λ (e : OutboxEntity). nat_beq e.id n.id ≡ false) us
    → All (λ r. All (SameRow r) rows) us
    → All (λ r. SameRow r n × All (SameRow r) rows) us
new-apart n [] rows apart h = tt
new-apart n (u ∷ us) rows apart h =
    ((((λ same. absurd (ground (arith, apart.0, same))), h.0)), new-apart n us rows apart.1 h.1)

new-UniqueIds :
    (n : OutboxEntity) (rows : List OutboxEntity)
    → member n.id (ids_of rows) ≡ false
    → UniqueIds rows
    → UniqueIds (n ∷ rows)
new-UniqueIds n rows fresh h =
    let apart = fresh-rows n.id rows fresh in
    (
      ((λ same. refl), All-imp (λ e other same. absurd (ground (arith, other, same))) rows apart),
      new-apart n rows rows apart h,
    )

created_rows :
    (now : ℕ) (d : OutboxData) (rows rows' : List OutboxEntity)
    → member d.id (ids_of rows) ≡ false
    → create now d rows ≡ some rows'
    → (from_domain now d ∷ rows) ≡ rows'
unfolding create
created_rows now d rows rows' fresh e = ground (arith, fresh, e)

create-IsKept :
    (now : ℕ) (d : OutboxData) (published created_ids : List ℕ) (rows rows' : List OutboxEntity)
    → create now d rows ≡ some rows'
    → IsKept published created_ids rows
    → IsKept published (d.id ∷ created_ids) rows'
unfolding create from_domain
create-IsKept now d published created_ids rows rows' e h =
    elim (Bool-cases (member d.id (ids_of rows))) [
      | inl taken ↦ absurd (ground (arith, e, taken))
      | inr fresh ↦
          subst (IsKept published (d.id ∷ created_ids)) (created_rows now d rows rows' fresh e)
            (record {
              unique = new-UniqueIds (from_domain now d) rows fresh h.unique;
              good = ((refl, refl), h.good);
              kept = (
                ground (arith, nat_beq_iff d.id d.id),
                All-imp (λ k old. ground (arith, old)) created_ids h.kept,
              );
            })
    ]

publish-IsKept :
    (id : ℕ) (published created_ids : List ℕ) (rows : List OutboxEntity)
    → IsKept published created_ids rows
    → IsKept (id ∷ published) created_ids rows
publish-IsKept id published created_ids rows h = record {
  unique = h.unique;
  good = All-imp (λ r g. (ground (arith, g.0), g.1)) rows h.good;
  kept = All-imp (λ k old. ground (arith, old)) created_ids h.kept;
}

publish-ArePublished :
    (id : ℕ) (published ids : List ℕ)
    → ArePublished published ids
    → ArePublished (id ∷ published) ids
publish-ArePublished id published ids h = All-imp (λ k old. ground (arith, old)) ids h

filter-UniqueIds :
    (p : OutboxEntity → Bool) (rows : List OutboxEntity)
    → UniqueIds rows
    → UniqueIds (filter p rows)
filter-UniqueIds p rows h =
    All-filter (λ r. All (SameRow r) (filter p rows)) p rows
      (All-imp (λ r known t. All-filter (SameRow r) p rows (All-imp (λ e same u. same) rows known))
        rows h)

-- An id is in the table after the cleaning, or was that of a sent entry.
filter-kept :
    (p : OutboxEntity → Bool) (published : List ℕ) (k : ℕ) (rows : List OutboxEntity)
    → All (λ r. p r ≡ false → member r.id published ≡ true) rows
    → (member k (ids_of rows) || member k published) ≡ true
    → (member k (ids_of (filter p rows)) || member k published) ≡ true
filter-kept p published k [] h m = m
filter-kept p published k (r ∷ rows) h m = elim (Bool-cases (p r)) [
  | inl stays ↦ ground (arith, stays, m, filter-kept p published k rows h.1)
  | inr goes ↦ elim (Bool-cases (nat_beq r.id k)) [
    | inl same ↦
        let here : member k published ≡ true = rw (← (nat_beq_iff r.id k).0 same) (h.0 goes) in
        ground (arith, here)
    | inr other ↦ ground (arith, goes, m, other, filter-kept p published k rows h.1)
  ]
]

deleted-published :
    (seconds now : ℕ) (published : List ℕ) (r : OutboxEntity)
    → (not (is_sent r) || member r.id published) ≡ true
    → not (is_sent r && is_before r.sent_at (1000 * seconds) now) ≡ false
    → member r.id published ≡ true
deleted-published seconds now published r g h = ground (arith, g, h)

delete_old-IsKept :
    (seconds now : ℕ) (published created_ids : List ℕ) (rows : List OutboxEntity)
    → IsKept published created_ids rows
    → IsKept published created_ids (delete_old seconds now rows)
unfolding delete_old
delete_old-IsKept seconds now published created_ids rows h =
    let p : OutboxEntity → Bool =
      λ r. not (is_sent r && is_before r.sent_at (1000 * seconds) now) in
    record {
      unique = filter-UniqueIds p rows h.unique;
      good = All-filter (IsGood published) p rows (All-imp (λ r g t. g) rows h.good);
      kept =
          All-imp
            (λ k old.
              filter-kept p published k rows
                (All-imp (λ r g f. deleted-published seconds now published r g.0 f) rows h.good)
                old)
            created_ids h.kept;
    }

abbrev AreCalls : List ℕ → List Call → Type 0
AreCalls published cs = All (λ (c : Call). ArePublished published c.routed.sent_ids) cs

-- What is known of the open calls is known of those around one, and of that one.
module _ (published : List ℕ) (before after : List Call) where
  call-other :
      (c : Call) → AreCalls published (before ++ (c ∷ after)) → AreCalls published (before ++ after)
  call-other c h =
      let parts =
        All-split (λ (c : Call). ArePublished published c.routed.sent_ids) before (c ∷ after) h in
      All-append (λ (c : Call). ArePublished published c.routed.sent_ids) before after parts.0
        parts.1.1

  call-own :
      (c : Call)
      → AreCalls published (before ++ (c ∷ after))
      → ArePublished published c.routed.sent_ids
  call-own c h =
      (All-split (λ (c : Call). ArePublished published c.routed.sent_ids) before (c ∷ after) h).1.0

  call-set :
      (c c' : Call)
      → ArePublished published c'.routed.sent_ids
      → AreCalls published (before ++ (c ∷ after))
      → AreCalls published (before ++ (c' ∷ after))
  call-set c c' known h =
      let parts =
        All-split (λ (c : Call). ArePublished published c.routed.sent_ids) before (c ∷ after) h in
      All-append (λ (c : Call). ArePublished published c.routed.sent_ids) before (c' ∷ after)
        parts.0 (known, parts.1.1)

OutboxStep-IsSafe : {w v : OutboxWorld} → OutboxStep w v → IsSafe w → IsSafe v
unfolding route_entry
OutboxStep-IsSafe {w} (creates now d rows e) h = record {
  table = create-IsKept now d w.published w.created w.rows rows e h.table;
  calls = h.calls;
}
OutboxStep-IsSafe {w} (begins locked now) h = record {
  table = claim-IsKept locked now w.published w.created w.rows h.table;
  calls = (tt, h.calls);
}
OutboxStep-IsSafe {w} (takes before after e es routed at) h =
    let calls =
      All-imp (λ (c : Call) known. publish-ArePublished e.id w.published c.routed.sent_ids known)
        (before ++ (record { todo = e ∷ es; routed = routed } ∷ after))
        (subst (AreCalls w.published) at h.calls) in
    record {
      table = publish-IsKept e.id w.published w.created w.rows h.table;
      calls =
          call-set (e.id ∷ w.published) before after _ _
            (
              ground (arith, nat_beq_iff e.id e.id),
              call-own (e.id ∷ w.published) before after _ calls,
            )
            calls;
    }
OutboxStep-IsSafe {w} (refuses before after e es routed at) h =
    let calls = subst (AreCalls w.published) at h.calls in
    record {
      table = h.table;
      calls =
          call-set w.published before after (record { todo = e ∷ es; routed = routed }) _
            (call-own w.published before after (record { todo = e ∷ es; routed = routed }) calls)
            calls;
    }
OutboxStep-IsSafe {w} (ends before after routed later rows at e) h =
    let calls = subst (AreCalls w.published) at h.calls in
    record {
      table =
          settle-IsKept later routed w.published w.created w.rows rows
            (call-own w.published before after (record { todo = []; routed = routed }) calls) e
            h.table;
      calls = call-other w.published before after (record { todo = []; routed = routed }) calls;
    }
OutboxStep-IsSafe {w} (stops before after c at) h = record {
  table = h.table;
  calls = call-other w.published before after c (subst (AreCalls w.published) at h.calls);
}
OutboxStep-IsSafe {w} (cleans seconds now) h = record {
  table = delete_old-IsKept seconds now w.published w.created w.rows h.table;
  calls = h.calls;
}

-- However processes create entries, claim, publish and settle them, stop in between, and delete old
-- entries: ids stay unique, each entry marked as sent was published, each entry ever created is in
-- the table or was published, and each one in the table is pending, sent, or in processing since a
-- known time.
pub OutboxReach-IsSafe : {w : OutboxWorld} → OutboxReach w → IsSafe w
OutboxReach-IsSafe start = record {
  table = record { unique = tt; good = tt; kept = tt };
  calls = tt;
}
OutboxReach-IsSafe (more r s) = OutboxStep-IsSafe s (OutboxReach-IsSafe r)

-- The time from which on no entry is held back by a call that stopped.
abbrev pub recovery_time : List OutboxEntity → ℕ
recovery_time [] = 0
recovery_time (r ∷ rows) =
    let here = or_else r.processing_at 0 + 300000 in
    let rest = recovery_time rows in if leb here rest then rest else here

recoverable-ready :
    (published : List ℕ) (now : ℕ) (rows : List OutboxEntity)
    → recovery_time rows < now
    → All (IsGood published) rows
    → All (λ r. is_ready now r ≡ true) rows
recoverable-ready published now [] p h = tt
recoverable-ready published now (r ∷ rows) p h =
    (ground (arith, p, h.0.1), recoverable-ready published now rows (ground (arith, p)) h.1)

-- Whatever happened to an outbox: after its recovery time, calls that get the lock, with publishers
-- that take every entry and nobody else at work, leave all entries sent, as many calls as 50 goes
-- into the number of entries that wait.
pub OutboxReach-drained :
    (route : OutboxEntity → Bool) (w : OutboxWorld) (now later : ℕ) (times : List (ℕ × ℕ))
    → OutboxReach w
    → All (IsTaken route) w.rows
    → recovery_time w.rows < now
    → count is_waiting w.rows ≤ 50 * length ((now, later) ∷ times)
    → All (λ r. is_waiting r ≡ false) (publish_rounds route ((now, later) ∷ times) w.rows)
OutboxReach-drained route w now later times reach taken p enough =
    let safe = OutboxReach-IsSafe reach in
    publish_rounds-drained route now later times w.rows safe.table.unique taken
      (recoverable-ready w.published now w.rows p safe.table.good) enough
