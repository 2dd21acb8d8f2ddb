-- ===== src/Ledger/Amounts.antt =====
-- The three amounts of a projection and their change by an event: `ProjectionDelta` and
-- `computeDelta` of apps/ledger/src/module/balance/repository/balance/balance.repository.ts, and the
-- columns of amounts, libs/types/src/type-orm/decorator/numeric-column.decorator.ts.
use multi_rail_payments_proc.Prelude.{ℕ, ◌+◌, ◌≡◌, Bool, false, ◌||◌, ◌&&◌, arith, ltb}
use multi_rail_payments_proc.Prelude.Int.{
  ℤ, pos, pos_part, neg_part, ◌+ℤ◌, ◌≤ℤ◌, negated, is_negative, is_negative_iff, +ℤ_assoc, +ℤ-zero,
  zero-+ℤ,
}
use multi_rail_payments_proc.Types.{
  BalanceChange, BalanceChangeType, credit, debit, hold, hold_in, release_hold, release_hold_in,
  platform_fee_accrued,
}

pub record Amounts : Type 0 where
  pub available : ℤ
  pub hold : ℤ
  pub hold_in : ℤ

-- A column is `numeric(60,30)`: a value has up to 60 digits in units of 10^-30.
unfoldable pub column_limit : ℕ
column_limit = 1000000000000000000000000000000000000000000000000000000000000

abbrev pub magnitude : ℤ → ℕ
magnitude x = pos_part x + neg_part x

-- `NumericColumn` throws on a value with more digits, and so does the database.
abbrev pub fits_column : ℤ → Bool
fits_column x = ltb (magnitude x) column_limit

abbrev pub amounts_fit : Amounts → Bool
amounts_fit a = fits_column a.available && fits_column a.hold && fits_column a.hold_in

abbrev pub no_amounts : Amounts
no_amounts = record { available = pos 0; hold = pos 0; hold_in = pos 0 }

unfoldable pub add_amounts : Amounts → Amounts → Amounts
add_amounts a b = record {
  available = a.available +ℤ b.available;
  hold = a.hold +ℤ b.hold;
  hold_in = a.hold_in +ℤ b.hold_in;
}

-- `available.isNegative() || hold.isNegative() || holdIn.isNegative()`
unfoldable pub has_negative : Amounts → Bool
has_negative a = is_negative a.available || is_negative a.hold || is_negative a.hold_in

abbrev pub delta_of : BalanceChangeType → ℤ → Amounts
delta_of credit x = record { available = x; hold = pos 0; hold_in = pos 0 }
delta_of debit x = record { available = negated x; hold = pos 0; hold_in = pos 0 }
delta_of hold x = record { available = negated x; hold = x; hold_in = pos 0 }
delta_of release_hold x = record { available = x; hold = negated x; hold_in = pos 0 }
delta_of hold_in x = record { available = pos 0; hold = pos 0; hold_in = x }
delta_of release_hold_in x = record { available = pos 0; hold = pos 0; hold_in = negated x }
delta_of platform_fee_accrued x = record { available = negated x; hold = x; hold_in = pos 0 }

unfoldable pub compute_delta : BalanceChange → Amounts
compute_delta c = delta_of c.type c.amount

pub record IsSolvent (a : Amounts) : Type 0 where
  pub available : pos 0 ≤ℤ a.available
  pub hold : pos 0 ≤ℤ a.hold
  pub hold_in : pos 0 ≤ℤ a.hold_in

pub add_amounts_assoc :
    (a b c : Amounts) → add_amounts (add_amounts a b) c ≡ add_amounts a (add_amounts b c)
unfolding add_amounts
add_amounts_assoc a b c = λ i. record {
  available = +ℤ_assoc a.available b.available c.available i;
  hold = +ℤ_assoc a.hold b.hold c.hold i;
  hold_in = +ℤ_assoc a.hold_in b.hold_in c.hold_in i;
}

pub add_amounts-none : (a : Amounts) → add_amounts a no_amounts ≡ a
unfolding add_amounts
add_amounts-none a = λ i. record {
  available = +ℤ-zero a.available i;
  hold = +ℤ-zero a.hold i;
  hold_in = +ℤ-zero a.hold_in i;
}

pub none-add_amounts : (a : Amounts) → add_amounts no_amounts a ≡ a
unfolding add_amounts
none-add_amounts a = λ i. record {
  available = zero-+ℤ a.available i;
  hold = zero-+ℤ a.hold i;
  hold_in = zero-+ℤ a.hold_in i;
}

pub has_negative-IsSolvent : (a : Amounts) → has_negative a ≡ false → IsSolvent a
unfolding has_negative
has_negative-IsSolvent a h =
    ground (arith, is_negative_iff a.available, is_negative_iff a.hold, is_negative_iff a.hold_in)
