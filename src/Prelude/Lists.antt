-- ===== src/Prelude/Lists.antt =====
-- Lists and options over the native numbers, where the library's stand on the unary ones.
use Prim.Native.Nat.{ℕ, suc, ◌+◌}
use mathlib.Core.Path.{◌≡◌, refl}
use mathlib.Core.Bool.{Bool, true, false}
use mathlib.Core.List.{List, [], ◌∷◌, ◌++◌, map}
use mathlib.Core.Option.{Option, none, some}
use native.Mathlib.Omega.{arith}

module _ {ℓ} {A : Type ℓ} where
  abbrev pub length : List A → ℕ
  length [] = 0
  length (x ∷ xs) = suc (length xs)

  pub length-append : (xs ys : List A) → length (xs ++ ys) ≡ length xs + length ys
  length-append [] ys = omega arith
  length-append (x ∷ xs) ys = omega (arith, length-append xs ys)

  -- `xs.some(p)`
  abbrev pub any : (A → Bool) → List A → Bool
  any p [] = false
  any p (x ∷ xs) = elim (p x) [ true ↦ true | false ↦ any p xs ]

  -- `x ?? d`
  abbrev pub or_else : Option A → A → A
  or_else none d = d
  or_else (some x) d = x

  -- `x ?? y` where `y` may be missing too.
  abbrev pub first_some : Option A → Option A → Option A
  first_some none y = y
  first_some (some x) y = some x

-- A predicate holds of every element.
abbrev pub All {ℓ κ} : {A : Type ℓ} → (A → Type κ) → List A → Type κ
All P [] = Unit
All P (x ∷ xs) = P x × All P xs

pub All-append {ℓ κ} :
    {A : Type ℓ} (P : A → Type κ) (xs ys : List A) → All P xs → All P ys → All P (xs ++ ys)
All-append P [] ys hx hy = hy
All-append P (x ∷ xs) ys hx hy = (hx.0, All-append P xs ys hx.1 hy)

pub All-imp {ℓ κ} :
    {A : Type ℓ} {P Q : A → Type κ} (imp : (x : A) → P x → Q x) (xs : List A) → All P xs → All Q xs
All-imp imp [] h = tt
All-imp imp (x ∷ xs) h = (imp x h.0, All-imp imp xs h.1)

pub All-map {ℓ κ} :
    {A : Type ℓ} (P : A → Type κ) (f : A → A) (xs : List A)
    → All (λ x. P (f x)) xs
    → All P (map f xs)
All-map P f [] h = tt
All-map P f (x ∷ xs) h = (h.0, All-map P f xs h.1)

-- Two functions that agree on the elements of a list map it to the same.
pub map_ext {ℓ} :
    {A : Type ℓ} (f g : A → A) (xs : List A) → All (λ x. f x ≡ g x) xs → map f xs ≡ map g xs
map_ext f g [] h = refl
map_ext f g (x ∷ xs) h = rw (h.0, map_ext f g xs h.1) refl

pub map_id {ℓ} : {A : Type ℓ} (f : A → A) (xs : List A) → ((x : A) → f x ≡ x) → map f xs ≡ xs
map_id f [] h = refl
map_id f (x ∷ xs) h = rw (h x, map_id f xs h) refl

pub map-map {ℓ} :
    {A : Type ℓ} (f g : A → A) (xs : List A) → map g (map f xs) ≡ map (λ x. g (f x)) xs
map-map f g [] = refl
map-map f g (x ∷ xs) = rw (map-map f g xs) refl

pub any-map {ℓ} :
    {A : Type ℓ} (f : A → A) (p q : A → Bool) (xs : List A)
    → All (λ x. p (f x) ≡ q x) xs
    → any p (map f xs) ≡ any q xs
any-map f p q [] h = refl
any-map f p q (x ∷ xs) h = ground (arith, h.0, any-map f p q xs h.1)

pub All-every {ℓ κ} : {A : Type ℓ} {P : A → Type κ} (each : (x : A) → P x) (xs : List A) → All P xs
All-every each [] = tt
All-every each (x ∷ xs) = (each x, All-every each xs)

pub All-both {ℓ κ} :
    {A : Type ℓ} (P Q : A → Type κ) (xs : List A) → All P xs → All Q xs → All (λ x. P x × Q x) xs
All-both P Q [] h k = tt
All-both P Q (x ∷ xs) h k = ((h.0, k.0), All-both P Q xs h.1 k.1)

pub All-split {ℓ κ} :
    {A : Type ℓ} (P : A → Type κ) (xs ys : List A) → All P (xs ++ ys) → All P xs × All P ys
All-split P [] ys h = (tt, h)
All-split P (x ∷ xs) ys h = ((h.0, (All-split P xs ys h.1).0), (All-split P xs ys h.1).1)
