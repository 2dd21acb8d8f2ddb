-- ===== src/Prelude/JsMap.antt =====
-- JavaScript's `Map`: entries in insertion order; `set` on a present key keeps its place.
use multi_rail_payments_proc.Prelude.Tests.{if◌then◌else◌, Bool-cases}
use multi_rail_payments_proc.Prelude.Lists.{first_some, All}
use multi_rail_payments_proc.Prelude.Equality.{Equal, ◌==◌}
use mathlib.Core.Path.{◌≡◌, refl, subst}
use mathlib.Core.Logic.{inl, inr}
use mathlib.Core.Option.{Option, none, some}
use mathlib.Core.List.{List, [], ◌∷◌, map}
use native.Mathlib.Omega.{arith}

abbrev pub JsMap : Type 0 → Type 0 → Type 0
JsMap K V = List (K × V)

module _ {K V : Type 0} ⦃e : Equal K⦄ where
  abbrev pub get : K → JsMap K V → Option V
  get k [] = none
  get k ((j, v) ∷ m) = if j == k then some v else get k m

  abbrev pub set : K → V → JsMap K V → JsMap K V
  set k v [] = (k, v) ∷ []
  set k v ((j, w) ∷ m) = if j == k then (j, v) ∷ m else (j, w) ∷ set k v m

  -- `new Map([...a, ...b])`
  abbrev pub union : JsMap K V → JsMap K V → JsMap K V
  union a [] = a
  union a ((k, v) ∷ b) = union (set k v a) b

  pub get-set :
      (k j : K) (v : V) (m : JsMap K V) → get j (set k v m) ≡ (if k == j then some v else get j m)
  get-set k j v [] = refl
  get-set k j v ((i, w) ∷ m) =
      ground (arith, e.same_iff i k, e.same_iff i j, e.same_iff k j, get-set k j v m)

-- `m.values()`
abbrev pub values : {K V : Type 0} → JsMap K V → List V
values m = map (λ p. p.1) m

-- Every key occurs once, as in every real `Map` and in a table with a unique index.
abbrev pub Unique : {K V : Type 0} ⦃e : Equal K⦄ → JsMap K V → Type 0
Unique [] = Unit {0}
Unique ((k, v) ∷ m) = (get k m ≡ none) × Unique m

module _ {K V : Type 0} ⦃e : Equal K⦄ where
  pub set-Unique : (k : K) (v : V) (m : JsMap K V) → Unique m → Unique (set k v m)
  set-Unique k v [] u = (refl, tt)
  set-Unique k v ((j, w) ∷ m) u =
      ground (arith, e.same_iff j k, e.same_iff k j, get-set k j v m, set-Unique k v m u.1)

  pub get-union :
      (j : K) (a b : JsMap K V) → Unique b → get j (union a b) ≡ first_some (get j b) (get j a)
  get-union j a [] u = refl
  get-union j a ((k, v) ∷ b) u =
      ground (arith, e.same_iff k j, get-set k j v a, get-union j (set k v a) b u.1)

  pub union-Unique : (a b : JsMap K V) → Unique a → Unique (union a b)
  union-Unique a [] u = u
  union-Unique a ((k, v) ∷ b) u = union-Unique (set k v a) b (set-Unique k v a u)

-- A predicate of the values.
abbrev pub AllValues : {K V : Type 0} → (V → Type 0) → JsMap K V → Type 0
AllValues P m = All (λ p. P p.1) m

module _ {K V : Type 0} ⦃e : Equal K⦄ (P : V → Type 0) where
  pub set-AllValues :
      (k : K) (v : V) (m : JsMap K V) → P v → AllValues P m → AllValues P (set k v m)
  set-AllValues k v [] h a = (h, tt)
  set-AllValues k v ((j, w) ∷ m) h a = elim (Bool-cases (j == k)) [
    | inl b ↦ rw b (h, a.1)
    | inr b ↦ rw b (a.0, set-AllValues k v m h a.1)
  ]

  pub get-AllValues : (k : K) (v : V) (m : JsMap K V) → AllValues P m → get k m ≡ some v → P v
  get-AllValues k v [] a h = ground (arith, h)
  get-AllValues k v ((j, w) ∷ m) a h = elim (Bool-cases (j == k)) [
    | inl b ↦ let same : w ≡ v = ground (arith, b, h) in subst P same a.0
    | inr b ↦ get-AllValues k v m a.1 (ground (arith, b, h))
  ]

  pub union-AllValues : (a b : JsMap K V) → AllValues P a → AllValues P b → AllValues P (union a b)
  union-AllValues a [] h k = h
  union-AllValues a ((j, v) ∷ b) h k = union-AllValues (set j v a) b (set-AllValues j v a k.0 h) k.1
