-- ===== src/Payments/Inbox/Reach.antt =====
-- The tables that insertions, failures and deletions lead to.
use mathlib.Core.Path.{subst}
use multi_rail_payments_proc.Prelude.{
  ℕ, ◌≡◌, refl, Bool, true, some, List, [], ◌∷◌, arith, All, All-append, nat_beq, nat_eq,
  nat_beq_iff, if◌then◌else◌, Bool-cases, Option-cases, inl, inr,
}
use multi_rail_payments_proc.Prelude.JsMap.{JsMap, get, set}
use multi_rail_payments_proc.Payments.Inbox.{
  InboxState, created, blocked, InboxTransfer, InboxTable, is_blocked, has_blocked, insert_row,
  insert_rows, insert_group, insert_groups, group_by_key, insert_transfers,
  mark_blocked_with_successors, delete,
}
use multi_rail_payments_proc.Payments.Inbox.Order.{
  IsQueue, IsIn, delete-IsQueue, mark-IsQueue, insert_row-IsQueue,
}

-- All transfers have the key.
abbrev HaveKey : ℕ → List InboxTransfer → Type 0
HaveKey key ts = All (λ (t : InboxTransfer). t.key ≡ key) ts

insert_rows-IsQueue :
    (key : ℕ) (state : InboxState) (now : ℕ) (ts : List InboxTransfer) (table : InboxTable)
    → HaveKey key ts
    → (has_blocked key table.rows ≡ true → is_blocked state ≡ true)
    → IsQueue table
    → IsQueue (insert_rows state now ts table)
unfolding insert_rows
insert_rows-IsQueue key state now [] table k fit q = q
insert_rows-IsQueue key state now (t ∷ ts) table k fit q =
    let (q', fit') = insert_row-IsQueue state now t table (rw k.0 fit) q in
    insert_rows-IsQueue key state now ts (insert_row state now t table) k.1
      (subst
        (λ x. has_blocked x (insert_row state now t table).rows ≡ true → is_blocked state ≡ true)
        k.0 fit')
      q'

group_state : (b : Bool) → b ≡ true → is_blocked (if b then blocked else created) ≡ true
group_state b h = ground arith

insert_group-IsQueue :
    (key now : ℕ) (ts : List InboxTransfer) (table : InboxTable)
    → HaveKey key ts
    → IsQueue table
    → IsQueue (insert_group key now ts table)
unfolding insert_group
insert_group-IsQueue key now ts table k q =
    insert_rows-IsQueue key _ now ts table k (group_state (has_blocked key table.rows)) q

-- A group has the transfers of its key.
abbrev AreKeyed : JsMap ℕ (List InboxTransfer) → Type 0
AreKeyed groups = All (λ g. HaveKey g.0 g.1) groups

insert_groups-IsQueue :
    (now : ℕ) (groups : JsMap ℕ (List InboxTransfer)) (table : InboxTable)
    → AreKeyed groups
    → IsQueue table
    → IsQueue (insert_groups now groups table)
unfolding insert_groups
insert_groups-IsQueue now [] table k q = q
insert_groups-IsQueue now ((key, ts) ∷ groups) table k q =
    insert_groups-IsQueue now groups (insert_group key now ts table) k.1
      (insert_group-IsQueue key now ts table k.0 q)

set-AreKeyed :
    (key : ℕ) (ts : List InboxTransfer) (groups : JsMap ℕ (List InboxTransfer))
    → HaveKey key ts
    → AreKeyed groups
    → AreKeyed (set key ts groups)
set-AreKeyed key ts [] k h = (k, tt)
set-AreKeyed key ts ((j, us) ∷ groups) k h = elim (Bool-cases (nat_beq j key)) [
  | inl same ↦ rw same (rw ((nat_beq_iff j key).0 same) k, h.1)
  | inr other ↦ rw other (h.0, set-AreKeyed key ts groups k h.1)
]

get-HaveKey :
    (key : ℕ) (groups : JsMap ℕ (List InboxTransfer)) (ts : List InboxTransfer)
    → AreKeyed groups
    → get key groups ≡ some ts
    → HaveKey key ts
get-HaveKey key [] ts h e = ground arith
get-HaveKey key ((j, us) ∷ groups) ts h e = elim (Bool-cases (nat_beq j key)) [
  | inl same ↦
      let here : us ≡ ts = ground (arith, same, e) in rw⁻¹ (here, (nat_beq_iff j key).0 same) h.0
  | inr other ↦ get-HaveKey key groups ts h.1 (ground (arith, other, e))
]

group_by_key-AreKeyed :
    (ts : List InboxTransfer) (groups : JsMap ℕ (List InboxTransfer))
    → AreKeyed groups
    → AreKeyed (group_by_key ts groups)
unfolding group_by_key
group_by_key-AreKeyed [] groups h = h
group_by_key-AreKeyed (t ∷ ts) groups h = group_by_key-AreKeyed ts _ (
    set-AreKeyed t.key _ groups
      (elim (Option-cases (get t.key groups)) [
        | inl e ↦ rw e (refl, tt)
        | inr (g, e) ↦ rw e (All-append _ g (t ∷ []) (get-HaveKey t.key groups g h e) (refl, tt))
      ])
      h)

insert_transfers-IsQueue :
    (now : ℕ) (ts : List InboxTransfer) (table : InboxTable)
    → IsQueue table
    → IsQueue (insert_transfers now ts table)
unfolding insert_transfers
insert_transfers-IsQueue now ts table q =
    insert_groups-IsQueue now (group_by_key ts []) table (group_by_key-AreKeyed ts [] tt) q

-- A batch of transfers comes, a transfer of the queue of `key` fails, or one is done.
pub data InboxStep (table : InboxTable) : InboxTable → Type 0 where
  arrive : (now : ℕ) (ts : List InboxTransfer) → InboxStep table (insert_transfers now ts table)
  fail :
      (id key message : ℕ)
      → All (IsIn id key) table.rows
      → InboxStep table (mark_blocked_with_successors id key message table)
  done : (id : ℕ) → InboxStep table (delete id table)

pub data InboxReach (table : InboxTable) : InboxTable → Type 0 where
  start : InboxReach table table
  more : {u v : InboxTable} → InboxReach table u → InboxStep u v → InboxReach table v

InboxStep-IsQueue : {u v : InboxTable} → InboxStep u v → IsQueue u → IsQueue v
InboxStep-IsQueue {u} (arrive now ts) q = insert_transfers-IsQueue now ts u q
InboxStep-IsQueue {u} (fail id key message known) q = mark-IsQueue id key message u known q
InboxStep-IsQueue {u} (done id) q = delete-IsQueue id u q

-- From an empty queue, whatever transfers arrive, fail in the queue that they are in, and are done,
-- in any order: of two visible transfers of one key, the later one is blocked where the earlier one
-- is.
pub InboxReach-IsQueue :
    {table : InboxTable} → InboxReach (record { rows = []; next_id = 1 }) table → IsQueue table
InboxReach-IsQueue start = record { ordered = tt; ids = tt }
InboxReach-IsQueue (more r s) = InboxStep-IsQueue s (InboxReach-IsQueue r)
