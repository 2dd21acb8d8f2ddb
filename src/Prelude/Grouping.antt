-- ===== src/Prelude/Grouping.antt =====
-- JavaScript's `Map.groupBy`: groups in the order of their first elements.
use multi_rail_payments_proc.Prelude.Tests.{if◌then◌else◌, Bool-cases}
use multi_rail_payments_proc.Prelude.Lists.{All, All-append, or_else, length, length-append}
use multi_rail_payments_proc.Prelude.Equality.{Equal, ◌==◌}
use multi_rail_payments_proc.Prelude.JsMap.{JsMap, get, Unique}
use multi_rail_payments_proc.Prelude.Sort.{filter}
use mathlib.Core.Path.{◌≡◌, refl, sym, ◌∙◌}
use mathlib.Core.Logic.{inl, inr, ◌≢◌}
use mathlib.Core.Bool.{false}
use mathlib.Core.List.{List, [], ◌∷◌, ◌++◌}
use native.Mathlib.Omega.{arith}

append-nil {ℓ} : {A : Type ℓ} (xs : List A) → xs ++ [] ≡ xs
append-nil [] = refl
append-nil (x ∷ xs) = rw (append-nil xs) refl

append_assoc {ℓ} : {A : Type ℓ} (xs ys zs : List A) → (xs ++ ys) ++ zs ≡ xs ++ (ys ++ zs)
append_assoc [] ys zs = refl
append_assoc (x ∷ xs) ys zs = rw (append_assoc xs ys zs) refl

module _ {K A : Type 0} ⦃e : Equal K⦄ where
  abbrev pub push : K → A → JsMap K (List A) → JsMap K (List A)
  push k x [] = (k, x ∷ []) ∷ []
  push k x ((j, g) ∷ m) = if j == k then (j, g ++ (x ∷ [])) ∷ m else (j, g) ∷ push k x m

  -- The elements of a key, none where it has no group.
  abbrev pub group_of : K → JsMap K (List A) → List A
  group_of k m = or_else (get k m) []

  group_of-push :
      (k : K) (x : A) (j : K) (m : JsMap K (List A))
      → group_of j (push k x m) ≡ (if k == j then group_of j m ++ (x ∷ []) else group_of j m)
  group_of-push k x j [] = ground (arith, e.same_iff k j)
  group_of-push k x j ((i, g) ∷ m) =
      ground (arith, e.same_iff i k, e.same_iff i j, e.same_iff k j, group_of-push k x j m)

  get-push :
      (k : K) (x : A) (j : K) (m : JsMap K (List A))
      → (k == j) ≡ false
      → get j (push k x m) ≡ get j m
  get-push k x j [] other = ground (arith, other)
  get-push k x j ((i, g) ∷ m) other =
      ground (arith, e.same_iff i k, e.same_iff i j, other, get-push k x j m other)

  push-Unique : (k : K) (x : A) (m : JsMap K (List A)) → Unique m → Unique (push k x m)
  push-Unique k x [] u = (refl, tt)
  push-Unique k x ((j, g) ∷ m) u = elim (Bool-cases (j == k)) [
    | inl same ↦ rw same u
    | inr other ↦
        let apart : (k == j) ≡ false = ground (arith, e.same_iff j k, e.same_iff k j, other) in
        rw other (get-push k x j m apart ∙ u.0, push-Unique k x m u.1)
  ]

module _ {K A : Type 0} ⦃e : Equal K⦄ (key : A → K) where
  unfoldable pub group_into : List A → JsMap K (List A) → JsMap K (List A)
  group_into [] m = m
  group_into (x ∷ xs) m = group_into xs (push (key x) x m)

  unfoldable pub group_by : List A → JsMap K (List A)
  group_by xs = group_into xs []

  group_of-group_into :
      (xs : List A) (j : K) (m : JsMap K (List A))
      → group_of j (group_into xs m) ≡ group_of j m ++ filter (λ x. key x == j) xs
  unfolding group_into
  group_of-group_into [] j m = sym (append-nil (group_of j m))
  group_of-group_into (x ∷ xs) j m =
      group_of-group_into xs j (push (key x) x m) ∙ (elim (Bool-cases (key x == j)) [
        | inl same ↦
            rw (group_of-push (key x) x j m, same)
              (append_assoc (group_of j m) (x ∷ []) (filter (λ x. key x == j) xs))
        | inr other ↦ rw (group_of-push (key x) x j m, other) refl
      ])

  -- The group of a key has just the elements with the key, in their order.
  pub group_of-group_by :
      (xs : List A) (j : K) → group_of j (group_by xs) ≡ filter (λ x. key x == j) xs
  unfolding group_by
  group_of-group_by xs j = group_of-group_into xs j []

  -- A group has elements, all of its key.
  abbrev pub IsGroup : K × List A → Type 0
  IsGroup g = All (λ x. key x ≡ g.0) g.1 × (length g.1 ≢ 0)

  push-IsGroup : (x : A) (m : JsMap K (List A)) → All IsGroup m → All IsGroup (push (key x) x m)
  push-IsGroup x [] h = (((refl, tt), λ z. ground (arith, z)), tt)
  push-IsGroup x ((j, g) ∷ m) h = elim (Bool-cases (j == key x)) [
    | inl same ↦ rw same (
      (
        All-append (λ y. key y ≡ j) g (x ∷ []) h.0.0 (sym ((e.same_iff j (key x)).0 same), tt),
        λ z. absurd (omega (arith, z, length-append g (x ∷ []))),
      ),
      h.1,
    )
    | inr other ↦ rw other (h.0, push-IsGroup x m h.1)
  ]

  group_into-IsGroup :
      (xs : List A) (m : JsMap K (List A))
      → (All IsGroup m × Unique m)
      → All IsGroup (group_into xs m) × Unique (group_into xs m)
  unfolding group_into
  group_into-IsGroup [] m h = h
  group_into-IsGroup (x ∷ xs) m h =
      group_into-IsGroup xs (push (key x) x m) (push-IsGroup x m h.0, push-Unique (key x) x m h.1)

  -- Every key has one group at most.
  pub group_by-IsGroup : (xs : List A) → All IsGroup (group_by xs) × Unique (group_by xs)
  unfolding group_by
  group_by-IsGroup xs = group_into-IsGroup xs [] (tt, tt)

  -- What holds of all elements holds of those of each group.
  push-All :
      (P : A → Type 0) (x : A) (m : JsMap K (List A))
      → P x
      → All (λ g. All P g.1) m
      → All (λ g. All P g.1) (push (key x) x m)
  push-All P x [] p h = ((p, tt), tt)
  push-All P x ((j, g) ∷ m) p h = elim (Bool-cases (j == key x)) [
    | inl same ↦ rw same (All-append P g (x ∷ []) h.0 (p, tt), h.1)
    | inr other ↦ rw other (h.0, push-All P x m p h.1)
  ]

  group_into-All :
      (P : A → Type 0) (xs : List A) (m : JsMap K (List A))
      → All P xs
      → All (λ g. All P g.1) m
      → All (λ g. All P g.1) (group_into xs m)
  unfolding group_into
  group_into-All P [] m ps h = h
  group_into-All P (x ∷ xs) m ps h =
      group_into-All P xs (push (key x) x m) ps.1 (push-All P x m ps.0 h)

  pub group_by-All : (P : A → Type 0) (xs : List A) → All P xs → All (λ g. All P g.1) (group_by xs)
  unfolding group_by
  group_by-All P xs ps = group_into-All P xs [] ps tt
