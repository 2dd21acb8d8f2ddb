-- ===== src/Types/Enums.antt =====
-- The enumerations of libs/shared/src/types/{integration.type,intent.type,execution-type,
-- balance-change.type}.ts and their conversions. An `...EntityType` is the number that a column
-- stores; a conversion from a number outside the enumeration throws, which is `none` here.
use multi_rail_payments_proc.Prelude.{
  ℕ, ◌≡◌, ◌↔◌, Bool, true, Option, none, some, arith, nat_beq, Equal, if◌then◌else◌,
}

pub data IntegrationType : Type 0 where
  platform ethereum polygon : IntegrationType

pub data IntentType : Type 0 where
  payout payment : IntentType

pub data ExecutionType : Type 0 where
  native internal : ExecutionType

pub data BalanceChangeType : Type 0 where
  credit debit hold hold_in release_hold release_hold_in platform_fee_accrued : BalanceChangeType

unfoldable pub integration_type_from_domain : IntegrationType → ℕ
integration_type_from_domain platform = 1
integration_type_from_domain ethereum = 2
integration_type_from_domain polygon = 3

unfoldable pub integration_type_to_domain : ℕ → Option IntegrationType
integration_type_to_domain n =
    if nat_beq n 1
    then some platform
    else if nat_beq n 2
    then some ethereum
    else if nat_beq n 3
    then some polygon
    else none

unfoldable pub intent_type_from_domain : IntentType → ℕ
intent_type_from_domain payout = 1
intent_type_from_domain payment = 2

unfoldable pub intent_type_to_domain : ℕ → Option IntentType
intent_type_to_domain n =
    if nat_beq n 1 then some payout else if nat_beq n 2 then some payment else none

unfoldable pub execution_type_from_domain : ExecutionType → ℕ
execution_type_from_domain native = 1
execution_type_from_domain internal = 2

unfoldable pub execution_type_to_domain : ℕ → Option ExecutionType
execution_type_to_domain n =
    if nat_beq n 1 then some native else if nat_beq n 2 then some internal else none

-- `===` on integration types.
unfoldable pub integration_beq : IntegrationType → IntegrationType → Bool
unfolding integration_type_from_domain
integration_beq a b = nat_beq (integration_type_from_domain a) (integration_type_from_domain b)

pub integration_beq_iff : (a b : IntegrationType) → (integration_beq a b ≡ true) ↔ (a ≡ b)
unfolding integration_type_from_domain integration_beq
integration_beq_iff a b = ground arith

instance abbrev pub integration_eq : Equal IntegrationType
integration_eq = record { same = integration_beq; same_iff = integration_beq_iff }
