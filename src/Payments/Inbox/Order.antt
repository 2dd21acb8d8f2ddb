-- ===== src/Payments/Inbox/Order.antt =====
-- No transfer overtakes a blocked one of its queue.
use multi_rail_payments_proc.Prelude.{
  ℕ, ◌+◌, ◌<◌, ◌≡◌, refl, ap, true, false, List, [], ◌∷◌, map, arith, any, All, Bool-cases, inl,
  inr,
}
use multi_rail_payments_proc.Payments.Inbox.{
  InboxState, InboxTransfer, InboxRow, InboxTable, is_blocked, blocks, has_blocked, insert_row,
  new_row, mark_failed, mark_successor, mark_blocked_with_successors, delete_row, delete,
  same_transfer,
}

-- Of two rows that selects see in one queue, the later one is blocked where the earlier one is.
abbrev pub Follows : InboxRow → InboxRow → Type 0
Follows r s =
    r.is_deleted ≡ false
    → s.is_deleted ≡ false
    → r.transfer.key ≡ s.transfer.key
    → is_blocked r.state ≡ true
    → r.id < s.id
    → is_blocked s.state ≡ true

abbrev pub AreOrdered : List InboxRow → Type 0
AreOrdered [] = Unit {0}
AreOrdered (r ∷ rs) = All (λ s. Follows r s × Follows s r) rs × AreOrdered rs

pub record IsQueue (t : InboxTable) : Type 0 where
  pub ordered : AreOrdered t.rows
  pub ids : All (λ (r : InboxRow). r.id < t.next_id) t.rows

-- An update of single rows keeps the order where it keeps it for any two rows.
module _ (f : InboxRow → InboxRow) (P : InboxRow → Type 0)
    (keep : (r s : InboxRow) → P r → P s → Follows r s → Follows (f r) (f s)) where
  map-All :
      (r : InboxRow) (rs : List InboxRow)
      → P r
      → All P rs
      → All (λ s. Follows r s × Follows s r) rs
      → All (λ s. Follows (f r) s × Follows s (f r)) (map f rs)
  map-All r [] p ps h = tt
  map-All r (s ∷ rs) p ps h =
      ((keep r s p ps.0 h.0.0, keep s r ps.0 p h.0.1), map-All r rs p ps.1 h.1)

  map-AreOrdered : (rs : List InboxRow) → All P rs → AreOrdered rs → AreOrdered (map f rs)
  map-AreOrdered [] ps h = tt
  map-AreOrdered (r ∷ rs) ps h = (map-All r rs ps.0 ps.1 h.0, map-AreOrdered rs ps.1 h.1)

delete_row-Follows :
    (id : ℕ) (r s : InboxRow) → Follows r s → Follows (delete_row id r) (delete_row id s)
unfolding delete_row
delete_row-Follows id r s h = λ a b c d e. ground (arith, a, b, c, d, e, h)

mark-Follows :
    (id key message : ℕ) (r s : InboxRow)
    → (r.id ≡ id → r.transfer.key ≡ key)
    → (s.id ≡ id → s.transfer.key ≡ key)
    → Follows r s
    → Follows
        (mark_successor id key (mark_failed id message r))
        (mark_successor id key (mark_failed id message s))
unfolding mark_failed mark_successor
mark-Follows id key message r s kr ks h = λ a b c d e. ground (arith, a, b, c, d, e, h, kr, ks)

-- The failed row is in the queue of the key.
abbrev pub IsIn : (id key : ℕ) → InboxRow → Type 0
IsIn id key r = r.id ≡ id → r.transfer.key ≡ key

map-map :
    (f g : InboxRow → InboxRow) (rs : List InboxRow) → map g (map f rs) ≡ map (λ r. g (f r)) rs
map-map f g [] = refl
map-map f g (r ∷ rs) = ap (λ l. g (f r) ∷ l) (map-map f g rs)

map-ids :
    (f : InboxRow → InboxRow) (n : ℕ) (rs : List InboxRow)
    → ((r : InboxRow) → (f r).id ≡ r.id)
    → All (λ (r : InboxRow). r.id < n) rs
    → All (λ (r : InboxRow). r.id < n) (map f rs)
map-ids f n [] same h = tt
map-ids f n (r ∷ rs) same h = (rw (same r) h.0, map-ids f n rs same h.1)

mark-id :
    (id key message : ℕ) (r : InboxRow)
    → (mark_successor id key (mark_failed id message r)).id ≡ r.id
unfolding mark_successor mark_failed
mark-id id key message r = ground arith

delete_row-id : (id : ℕ) (r : InboxRow) → (delete_row id r).id ≡ r.id
unfolding delete_row
delete_row-id id r = ground arith

unit_rows : (rs : List InboxRow) → All (λ r. Unit {0}) rs
unit_rows [] = tt
unit_rows (r ∷ rs) = (tt, unit_rows rs)

pub delete-IsQueue : (id : ℕ) (table : InboxTable) → IsQueue table → IsQueue (delete id table)
unfolding delete
delete-IsQueue id table q = record {
  ordered =
      map-AreOrdered (delete_row id) (λ r. Unit {0}) (λ r s p p'. delete_row-Follows id r s)
        table.rows (unit_rows table.rows) q.ordered;
  ids = map-ids (delete_row id) table.next_id table.rows (delete_row-id id) q.ids;
}

pub mark-IsQueue :
    (id key message : ℕ) (table : InboxTable)
    → All (IsIn id key) table.rows
    → IsQueue table
    → IsQueue (mark_blocked_with_successors id key message table)
unfolding mark_blocked_with_successors
mark-IsQueue id key message table known q =
    rw (map-map (mark_failed id message) (mark_successor id key) table.rows) (record {
      ordered =
          map-AreOrdered (λ r. mark_successor id key (mark_failed id message r)) (IsIn id key)
            (mark-Follows id key message) table.rows known q.ordered;
      ids =
          map-ids (λ r. mark_successor id key (mark_failed id message r)) table.next_id table.rows
            (mark-id id key message) q.ids;
    })

-- A new row of the state comes after all rows, and is blocked if one of its queue is.
new-Follows :
    (key : ℕ) (n : InboxRow) (rs : List InboxRow)
    → n.transfer.key ≡ key
    → (has_blocked key rs ≡ true → is_blocked n.state ≡ true)
    → All (λ (r : InboxRow). r.id < n.id) rs
    → All (λ s. Follows n s × Follows s n) rs
unfolding has_blocked blocks
new-Follows key n [] k h ids = tt
new-Follows key n (r ∷ rs) k h ids = (
  (λ a b c d e. ground (arith, e, ids.0), λ a b c d e. h (ground (arith, a, c, d, k))),
  new-Follows key n rs k (λ b. h (ground (arith, b))) ids.1,
)

raise-ids :
    (n : ℕ) (rs : List InboxRow)
    → All (λ (r : InboxRow). r.id < n) rs
    → All (λ (r : InboxRow). r.id < n + 1) rs
raise-ids n [] h = tt
raise-ids n (r ∷ rs) h = (omega (arith, h.0), raise-ids n rs h.1)

-- A new row of the state keeps what its queue asks of the state.
new_fits :
    (state : InboxState) (t : InboxTransfer) (rs : List InboxRow)
    → (has_blocked t.key rs ≡ true → is_blocked state ≡ true)
    → (n : InboxRow) → n.state ≡ state
    → has_blocked t.key (n ∷ rs) ≡ true
    → is_blocked state ≡ true
unfolding has_blocked blocks
new_fits state t rs fit n same h = ground (arith, fit, same, h)

pub insert_row-IsQueue :
    (state : InboxState) (now : ℕ) (t : InboxTransfer) (table : InboxTable)
    → (has_blocked t.key table.rows ≡ true → is_blocked state ≡ true)
    → IsQueue table
    → IsQueue (insert_row state now t table)
      × (has_blocked t.key (insert_row state now t table).rows ≡ true → is_blocked state ≡ true)
unfolding insert_row
insert_row-IsQueue state now t table fit q =
    elim (Bool-cases (any (λ (r : InboxRow). same_transfer r.transfer t) table.rows)) [
      | inl known ↦
          rw (known, insert_row)
            (record { ordered = q.ordered; ids = raise-ids table.next_id table.rows q.ids }, fit)
      | inr new ↦
          rw (new, insert_row)
            (
              record {
                ordered = (
                  new-Follows t.key (new_row state now t table.next_id) table.rows refl fit q.ids,
                  q.ordered,
                );
                ids = (omega arith, raise-ids table.next_id table.rows q.ids);
              },
              new_fits state t table.rows fit (new_row state now t table.next_id) refl,
            )
    ]
