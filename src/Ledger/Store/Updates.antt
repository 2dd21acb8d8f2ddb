-- ===== src/Ledger/Store/Updates.antt =====
-- The grouped update of a projection table adds up to posting the changes one by one.
use multi_rail_payments_proc.Prelude.{
  ◌≡◌, refl, sym, ◌∙◌, ap, ◌≢◌, inl, inr, Bool, false, Option, none, some, List, [], ◌∷◌, arith,
  ◌==◌, if◌then◌else◌, Option-cases, Bool-cases, All,
}
use multi_rail_payments_proc.Prelude.JsMap.{JsMap, get, get-set, Unique}
use multi_rail_payments_proc.Types.{BalanceChange}
use multi_rail_payments_proc.Ledger.Amounts.{
  Amounts, no_amounts, add_amounts, compute_delta, add_amounts_assoc,
}
use multi_rail_payments_proc.Ledger.Keys.{AccountKey, key_eq, key_beq_iff}
use multi_rail_payments_proc.Ledger.Store.{ProjectionTable, add_delta, delta_map, update_rows}
use multi_rail_payments_proc.Ledger.Store.Reads.{amounts_in, row_amounts}

abbrev pub is_at : Option AccountKey → AccountKey → Bool
is_at none k = false
is_at (some j) k = j == k

-- The amounts of one key after changes of one side.
abbrev pub posted_at :
    (BalanceChange → Option AccountKey) → List BalanceChange → AccountKey → Amounts → Amounts
posted_at key [] k a = a
posted_at key (c ∷ cs) k a =
    posted_at key cs k (if is_at (key c) k then add_amounts a (compute_delta c) else a)

abbrev plus_delta : Option Amounts → Amounts → Amounts
plus_delta none a = a
plus_delta (some d) a = add_amounts a d

plus_delta-add_delta :
    (ko : Option AccountKey) (d : Amounts) (deltas : JsMap AccountKey Amounts) (k : AccountKey)
    (a : Amounts)
    → plus_delta (get k (add_delta ko d deltas)) a ≡ (
        if is_at ko k
        then add_amounts (plus_delta (get k deltas) a) d
        else plus_delta (get k deltas) a)
unfolding add_delta
plus_delta-add_delta none d deltas k a = refl
plus_delta-add_delta (some j) d deltas k a = elim (Option-cases (get j deltas)) [
  | inl e ↦ ground (arith, get-set j k d deltas, key_beq_iff j k)
  | inr (old, e) ↦
      ground
        (arith, get-set j k (add_amounts old d) deltas, key_beq_iff j k, add_amounts_assoc a old d)
]

plus_delta-delta_map :
    (key : BalanceChange → Option AccountKey) (cs : List BalanceChange)
    (deltas : JsMap AccountKey Amounts) (k : AccountKey) (a : Amounts)
    → plus_delta (get k (delta_map key cs deltas)) a
      ≡ posted_at key cs k (plus_delta (get k deltas) a)
unfolding delta_map
plus_delta-delta_map key [] deltas k a = refl
plus_delta-delta_map key (c ∷ cs) deltas k a =
    plus_delta-delta_map key cs (add_delta (key c) (compute_delta c) deltas) k a
    ∙ ap (posted_at key cs k) (plus_delta-add_delta (key c) (compute_delta c) deltas k a)

abbrev updated : JsMap AccountKey Amounts → AccountKey → Option Amounts → Option Amounts
updated deltas k none = none
updated deltas k (some a) = some (plus_delta (get k deltas) a)

get-update_rows :
    (deltas : JsMap AccountKey Amounts) (k : AccountKey) (t : ProjectionTable)
    → get k (update_rows deltas t) ≡ updated deltas k (get k t)
unfolding update_rows
get-update_rows deltas k [] = refl
get-update_rows deltas k ((j, a) ∷ t) = ground (arith, key_beq_iff j k, get-update_rows deltas k t)

pub update_rows-Unique :
    (deltas : JsMap AccountKey Amounts) (t : ProjectionTable)
    → Unique t
    → Unique (update_rows deltas t)
unfolding update_rows
update_rows-Unique deltas [] u = tt
update_rows-Unique deltas ((j, a) ∷ t) u =
    (get-update_rows deltas j t ∙ ap (updated deltas j) u.0, update_rows-Unique deltas t u.1)

-- Every key of the changes has a row.
abbrev pub HasRow : Option AccountKey → ProjectionTable → Type 0
HasRow none t = Unit {0}
HasRow (some k) t = get k t ≢ none

abbrev pub HaveRows :
    (BalanceChange → Option AccountKey) → List BalanceChange → ProjectionTable → Type 0
HaveRows key cs t = All (λ c. HasRow (key c) t) cs

is_at-HasRow :
    (ko : Option AccountKey) (k : AccountKey) (t : ProjectionTable)
    → HasRow ko t
    → get k t ≡ none
    → is_at ko k ≡ false
is_at-HasRow none k t h e = refl
is_at-HasRow (some j) k t h e = elim (Bool-cases (j == k)) [
  | inl same ↦ absurd (h (ground (arith, key_beq_iff j k)))
  | inr other ↦ other
]

posted_at-no_row :
    (key : BalanceChange → Option AccountKey) (cs : List BalanceChange) (k : AccountKey)
    (t : ProjectionTable) (a : Amounts)
    → HaveRows key cs t
    → get k t ≡ none
    → posted_at key cs k a ≡ a
posted_at-no_row key [] k t a h e = refl
posted_at-no_row key (c ∷ cs) k t a h e =
    rw (is_at-HasRow (key c) k t h.0 e) (posted_at-no_row key cs k t a h.1 e)

-- The update of the table by the summed deltas posts every change once.
pub update_rows-posted_at :
    (key : BalanceChange → Option AccountKey) (cs : List BalanceChange) (k : AccountKey)
    (t : ProjectionTable)
    → HaveRows key cs t
    → amounts_in k (update_rows (delta_map key cs []) t) ≡ posted_at key cs k (amounts_in k t)
update_rows-posted_at key cs k t h =
    ap row_amounts (get-update_rows (delta_map key cs []) k t) ∙ elim (Option-cases (get k t)) [
      | inl e ↦ rw e (sym (posted_at-no_row key cs k t no_amounts h e))
      | inr (a, e) ↦ rw e (plus_delta-delta_map key cs [] k a)
    ]
