-- ===== src/Types/RoundTrip.antt =====
-- The numbers that columns store for the enumerations (Types/Enums.antt).
use multi_rail_payments_proc.Prelude.{ℕ, ◌≡◌, Option, some, arith}
use multi_rail_payments_proc.Types.Enums.{
  integration_type_from_domain, integration_type_to_domain, intent_type_from_domain,
  intent_type_to_domain, execution_type_from_domain, execution_type_to_domain,
}

-- A conversion to numbers, and one back that may throw, are inverse to each other.
pub record IsRoundTrip {A : Type 0} (from_domain : A → ℕ) (to_domain : ℕ → Option A) : Type 0 where
  pub back : (a : A) → to_domain (from_domain a) ≡ some a
  pub forth : (n : ℕ) (a : A) → to_domain n ≡ some a → from_domain a ≡ n

-- The conversions of integration, intent and execution types are inverse to each other: what is
-- written is read back, and a number that is read is the one that its value is written as.
pub to_domain-IsRoundTrip :
    IsRoundTrip integration_type_from_domain integration_type_to_domain
    × IsRoundTrip intent_type_from_domain intent_type_to_domain
    × IsRoundTrip execution_type_from_domain execution_type_to_domain
unfolding integration_type_from_domain integration_type_to_domain intent_type_from_domain
    intent_type_to_domain execution_type_from_domain execution_type_to_domain
to_domain-IsRoundTrip = (
  record { back = λ a. ground arith; forth = λ n a h. ground arith },
  record { back = λ a. ground arith; forth = λ n a h. ground arith },
  record { back = λ a. ground arith; forth = λ n a h. ground arith },
)
