-- ===== src/Prelude/Equality.antt =====
-- The equality test of a type, `===` on its values, as an instance.
use mathlib.Core.Path.{◌≡◌, refl}
use mathlib.Core.Logic.{◌↔◌}
use mathlib.Core.Bool.{Bool, true}
use Prim.Native.Nat.{ℕ}
use multi_rail_payments_proc.Prelude.Tests.{nat_beq, nat_beq_iff}

-- `same_iff` makes the test a decision of the equality.
pub record Equal {ℓ} (X : Type ℓ) : Type ℓ where
  pub same : (x y : X) → Bool
  pub same_iff : (x y : X) → (same x y ≡ true) ↔ (x ≡ y)

module _ {ℓ} {X : Type ℓ} ⦃test : Equal X⦄ where
  infix 50 ◌==◌
  abbrev pub ◌==◌ : (x y : X) → Bool
  x == y = test.same x y

  pub beq_self : (x : X) → (x == x) ≡ true
  beq_self x = (test.same_iff x x).1 refl

instance abbrev pub nat_eq : Equal ℕ
nat_eq = record { same_iff = nat_beq_iff; same = nat_beq }
