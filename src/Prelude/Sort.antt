-- ===== src/Prelude/Sort.antt =====
-- Sorting by a comparison, selections, prefixes and counts of lists.
use multi_rail_payments_proc.Prelude.Tests.{if◌then◌else◌, Bool-cases}
use multi_rail_payments_proc.Prelude.Lists.{length, All}
use Prim.Native.Nat.{ℕ, zero, suc, ◌-◌, ◌≤◌}
use mathlib.Core.Path.{◌≡◌, refl}
use mathlib.Core.Logic.{inl, inr}
use mathlib.Core.Bool.{Bool, true, false, ◌&&◌}
use mathlib.Core.List.{List, [], ◌∷◌, map}
use native.Mathlib.Omega.{arith}

-- `toSorted` by a comparison: stable, since an element goes before those that it may precede.
module _ {A : Type 0} (before : A → A → Bool) where
  unfoldable pub insert_sorted : A → List A → List A
  insert_sorted x [] = x ∷ []
  insert_sorted x (y ∷ ys) = if before x y then x ∷ y ∷ ys else y ∷ insert_sorted x ys

  unfoldable pub sort_by : List A → List A
  sort_by [] = []
  sort_by (x ∷ xs) = insert_sorted x (sort_by xs)

module _ {A : Type 0} where
  abbrev pub take : ℕ → List A → List A
  take n [] = []
  take zero (x ∷ xs) = []
  take (suc n) (x ∷ xs) = x ∷ take n xs

  abbrev pub filter : (A → Bool) → List A → List A
  filter p [] = []
  filter p (x ∷ xs) = if p x then x ∷ filter p xs else filter p xs

  abbrev pub count : (A → Bool) → List A → ℕ
  count p [] = 0
  count p (x ∷ xs) = if p x then suc (count p xs) else count p xs

module _ {A : Type 0} (P : A → Type 0) where
  pub All-take : (n : ℕ) (xs : List A) → All P xs → All P (take n xs)
  All-take n [] h = tt
  All-take zero (x ∷ xs) h = tt
  All-take (suc n) (x ∷ xs) h = (h.0, All-take n xs h.1)

  -- What holds of the elements that the test passes holds of the filtered list.
  pub All-filter :
      (p : A → Bool) (xs : List A) → All (λ x. p x ≡ true → P x) xs → All P (filter p xs)
  All-filter p [] h = tt
  All-filter p (x ∷ xs) h = elim (Bool-cases (p x)) [
    | inl t ↦ rw t (h.0 t, All-filter p xs h.1)
    | inr f ↦ rw f (All-filter p xs h.1)
  ]

  pub All-insert_sorted :
      (before : A → A → Bool) (x : A) (ys : List A)
      → P x
      → All P ys
      → All P (insert_sorted before x ys)
  unfolding insert_sorted
  All-insert_sorted before x [] p h = (p, tt)
  All-insert_sorted before x (y ∷ ys) p h = elim (Bool-cases (before x y)) [
    | inl t ↦ rw t (p, h)
    | inr f ↦ rw f (h.0, All-insert_sorted before x ys p h.1)
  ]

  pub All-sort_by : (before : A → A → Bool) (xs : List A) → All P xs → All P (sort_by before xs)
  unfolding sort_by
  All-sort_by before [] h = tt
  All-sort_by before (x ∷ xs) h =
      All-insert_sorted before x (sort_by before xs) h.0 (All-sort_by before xs h.1)

module _ {A : Type 0} where
  count-insert_sorted :
      (before : A → A → Bool) (p : A → Bool) (x : A) (ys : List A)
      → count p (insert_sorted before x ys) ≡ count p (x ∷ ys)
  unfolding insert_sorted
  count-insert_sorted before p x [] = refl
  count-insert_sorted before p x (y ∷ ys) = ground (arith, count-insert_sorted before p x ys)

  -- Sorting keeps how often a test holds.
  pub count-sort_by :
      (before : A → A → Bool) (p : A → Bool) (xs : List A)
      → count p (sort_by before xs) ≡ count p xs
  unfolding sort_by
  count-sort_by before p [] = refl
  count-sort_by before p (x ∷ xs) =
      ground (arith, count-sort_by before p xs, count-insert_sorted before p x (sort_by before xs))

  pub count-filter :
      (p q : A → Bool) (xs : List A) → count p (filter q xs) ≡ count (λ x. p x && q x) xs
  count-filter p q [] = refl
  count-filter p q (x ∷ xs) = ground (arith, count-filter p q xs)

  pub count-le :
      (p q : A → Bool) (xs : List A)
      → All (λ x. p x ≡ true → q x ≡ true) xs
      → count p xs ≤ count q xs
  count-le p q [] h = omega arith
  count-le p q (x ∷ xs) h = ground (arith, count-le p q xs h.1, h.0)

  count-length : (p : A → Bool) (xs : List A) → count p xs ≤ length xs
  count-length p [] = omega arith
  count-length p (x ∷ xs) = ground (arith, count-length p xs)

  -- A test that fails on the first `n` elements holds at most of the others.
  pub count-take :
      (p : A → Bool) (n : ℕ) (xs : List A)
      → All (λ x. p x ≡ false) (take n xs)
      → count p xs ≤ length xs - n
  count-take p n [] h = omega arith
  count-take p zero (x ∷ xs) h = omega (arith, count-length p (x ∷ xs))
  count-take p (suc n) (x ∷ xs) h = ground (arith, count-take p n xs h.1, h.0)

module _ {A : Type 0} where
  pub count-map :
      (p : A → Bool) (f : A → A) (xs : List A) → count p (map f xs) ≡ count (λ x. p (f x)) xs
  count-map p f [] = refl
  count-map p f (x ∷ xs) = ground (arith, count-map p f xs)

  pub length-count : (xs : List A) → length xs ≡ count (λ x. true) xs
  length-count [] = refl
  length-count (x ∷ xs) = omega (arith, length-count xs)

  pub count-none : (p : A → Bool) (xs : List A) → count p xs ≤ 0 → All (λ x. p x ≡ false) xs
  count-none p [] h = tt
  count-none p (x ∷ xs) h = elim (Bool-cases (p x)) [
    | inl t ↦ absurd (ground (arith, t, h))
    | inr f ↦ (f, count-none p xs (ground (arith, f, h)))
  ]
