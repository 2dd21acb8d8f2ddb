-- ===== src/Ledger/Groups.antt =====
-- `groupByIntent` of
-- apps/ledger/src/module/balance/interactor/process-apply-balance/process-apply-balance.interactor.ts.
-- A change with no intent gets a key from `randomUUID`, unlike any other: its position here.
use multi_rail_payments_proc.Prelude.{
  ℕ, suc, ◌≡◌, refl, sym, ◌∙◌, ap, ◌↔◌, Bool, true, false, Option, none, some, List, [], ◌∷◌, ◌++◌,
  arith, nat_beq, Equal, ◌==◌, if◌then◌else◌, Option-cases, Bool-cases, inl, inr,
}
use multi_rail_payments_proc.Prelude.JsMap.{JsMap, get, set, values, get-set, Unique, set-Unique}
use multi_rail_payments_proc.Types.{BalanceChange}
use multi_rail_payments_proc.Ledger.Snapshots.{IntentGroup}

pub data GroupKey : Type 0 where
  intent : ℕ → GroupKey
  no_intent : ℕ → GroupKey

abbrev pub group_beq : GroupKey → GroupKey → Bool
group_beq (intent a) (intent b) = nat_beq a b
group_beq (intent a) (no_intent b) = false
group_beq (no_intent a) (intent b) = false
group_beq (no_intent a) (no_intent b) = nat_beq a b

pub group_beq_iff : (a b : GroupKey) → (group_beq a b ≡ true) ↔ (a ≡ b)
group_beq_iff a b = ground arith

instance abbrev pub group_key_eq : Equal GroupKey
group_key_eq = record { same = group_beq; same_iff = group_beq_iff }

abbrev pub GroupMap : Type 0
GroupMap = JsMap GroupKey IntentGroup

abbrev pub group_key : BalanceChange → ℕ → GroupKey
group_key c position = elim c.intent_id [ none ↦ no_intent position | some id ↦ intent id ]

-- The group of the key, made if there is none, with the change pushed to it.
unfoldable pub push_change : GroupKey → BalanceChange → GroupMap → GroupMap
push_change k c groups = elim (get k groups) [
  | none ↦ set k (record { intent_id = c.intent_id; changes = c ∷ [] }) groups
  | some g ↦ set k (record g { changes = g.changes ++ (c ∷ []) }) groups
]

unfoldable pub group_changes : List BalanceChange → ℕ → GroupMap → GroupMap
group_changes [] position groups = groups
group_changes (c ∷ cs) position groups =
    group_changes cs (suc position) (push_change (group_key c position) c groups)

unfoldable pub group_by_intent : List BalanceChange → List IntentGroup
group_by_intent changes = values (group_changes changes 0 [])

-- The changes of one intent, in order.
abbrev pub of_intent : ℕ → List BalanceChange → List BalanceChange
of_intent id [] = []
of_intent id (c ∷ cs) =
    if (elim c.intent_id [ none ↦ false | some j ↦ nat_beq j id ])
    then c ∷ of_intent id cs
    else of_intent id cs

abbrev pub changes_under : Option IntentGroup → List BalanceChange
changes_under none = []
changes_under (some g) = g.changes

abbrev is_intent : ℕ → BalanceChange → Bool
is_intent id c = elim c.intent_id [ none ↦ false | some j ↦ nat_beq j id ]

append_snoc : {A : Type 0} (xs ys : List A) (y : A) → (xs ++ (y ∷ [])) ++ ys ≡ xs ++ (y ∷ ys)
append_snoc [] ys y = refl
append_snoc (x ∷ xs) ys y = ap (◌∷◌ x) (append_snoc xs ys y)

append_none : {A : Type 0} (xs : List A) → xs ++ [] ≡ xs
append_none [] = refl
append_none (x ∷ xs) = ap (◌∷◌ x) (append_none xs)

changes-push_change :
    (j k : GroupKey) (c : BalanceChange) (groups : GroupMap)
    → changes_under (get j (push_change k c groups))
      ≡ (if k == j then changes_under (get j groups) ++ (c ∷ []) else changes_under (get j groups))
unfolding push_change
changes-push_change j k c groups = elim (Option-cases (get k groups)) [
  | inl e ↦ ground (
    arith,
    get-set k j (record { intent_id = c.intent_id; changes = c ∷ [] }) groups,
    group_beq_iff k j,
  )
  | inr (g, e) ↦ ground (
    arith,
    get-set k j (record { intent_id = g.intent_id; changes = g.changes ++ (c ∷ []) }) groups,
    group_beq_iff k j,
  )
]

is_intent-group_key :
    (id position : ℕ) (c : BalanceChange) → (group_key c position == intent id) ≡ is_intent id c
is_intent-group_key id position c = ground arith

group_changes_intent :
    (id : ℕ) (cs : List BalanceChange) (position : ℕ) (groups : GroupMap)
    → changes_under (get (intent id) (group_changes cs position groups))
      ≡ changes_under (get (intent id) groups) ++ of_intent id cs
unfolding group_changes
group_changes_intent id [] position groups = sym (append_none _)
group_changes_intent id (c ∷ cs) position groups =
    group_changes_intent id cs (suc position) (push_change (group_key c position) c groups)
    ∙ elim (Bool-cases (is_intent id c)) [
      | inl e ↦
          rw
            (
              changes-push_change (intent id) (group_key c position) c groups,
              is_intent-group_key id position c,
              e,
            )
            (append_snoc _ (of_intent id cs) c)
      | inr e ↦
          rw
            (
              changes-push_change (intent id) (group_key c position) c groups,
              is_intent-group_key id position c,
              e,
            )
            refl
    ]

push_change-Unique :
    (k : GroupKey) (c : BalanceChange) (groups : GroupMap)
    → Unique groups
    → Unique (push_change k c groups)
unfolding push_change
push_change-Unique k c groups u = elim (Option-cases (get k groups)) [
  | inl e ↦
      ground (arith, set-Unique k (record { intent_id = c.intent_id; changes = c ∷ [] }) groups u)
  | inr (g, e) ↦ ground (
    arith,
    set-Unique k (record { intent_id = g.intent_id; changes = g.changes ++ (c ∷ []) }) groups u,
  )
]

group_changes-Unique :
    (cs : List BalanceChange) (position : ℕ) (groups : GroupMap)
    → Unique groups
    → Unique (group_changes cs position groups)
unfolding group_changes
group_changes-Unique [] position groups u = u
group_changes-Unique (c ∷ cs) position groups u =
    group_changes-Unique cs (suc position) (push_change (group_key c position) c groups)
      (push_change-Unique (group_key c position) c groups u)

-- Of the groups that are made of a batch there is at most one for an intent, and it holds all the
-- changes of the intent in the batch, in their order.
pub group_changes-of_intent :
    (changes : List BalanceChange) (id : ℕ)
    → Unique (group_changes changes 0 [])
      × (changes_under (get (intent id) (group_changes changes 0 [])) ≡ of_intent id changes)
group_changes-of_intent changes id =
    (group_changes-Unique changes 0 [] tt, group_changes_intent id changes 0 [])
