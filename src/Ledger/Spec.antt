-- ===== src/Ledger/Spec.antt =====
-- What the ledger promises: every account has three amounts, a group of changes is posted as a
-- whole or refused, and it is refused exactly when some amount would fall below zero on the way.
-- An account of the ledger is a key on one of the two sides.
pub mod Group
pub mod Run
use multi_rail_payments_proc.Prelude.{
  ◌≡◌, refl, Bool, true, false, Option, none, some, List, [], ◌∷◌, ◌++◌, arith, ◌==◌, first_some,
  if◌then◌else◌,
}
use multi_rail_payments_proc.Prelude.JsMap.{JsMap, get}
use multi_rail_payments_proc.Types.{BalanceChange}
use multi_rail_payments_proc.Ledger.Amounts.{
  Amounts, no_amounts, add_amounts, has_negative, compute_delta,
}
use multi_rail_payments_proc.Ledger.Keys.{
  AccountKey, key_eq, key_beq_iff, integration_key, platform_key,
}
use multi_rail_payments_proc.Ledger.Snapshots.{ProjectionSnapshot, SnapshotMap, IntentGroup}
use multi_rail_payments_proc.Ledger.Store.{LedgerDb}
use multi_rail_payments_proc.Ledger.Store.Reads.{amounts_in}

pub data LedgerAccount : Type 0 where
  on_integration : AccountKey → LedgerAccount
  on_platform : AccountKey → LedgerAccount

abbrev pub account_beq : LedgerAccount → LedgerAccount → Bool
account_beq (on_integration j) (on_integration k) = j == k
account_beq (on_integration j) (on_platform k) = false
account_beq (on_platform j) (on_integration k) = false
account_beq (on_platform j) (on_platform k) = j == k

abbrev pub Balances : Type 0
Balances = LedgerAccount → Amounts

abbrev pub bump : LedgerAccount → Amounts → Balances → Balances
bump x d b y = if account_beq x y then add_amounts (b y) d else b y

abbrev pub integration_side : BalanceChange → Option LedgerAccount
integration_side c = elim (integration_key c) [ none ↦ none | some k ↦ some (on_integration k) ]

abbrev pub platform_side : BalanceChange → Option LedgerAccount
platform_side c = elim (platform_key c) [ none ↦ none | some k ↦ some (on_platform k) ]

-- A posting to an account, refused if an amount would be negative.
unfoldable pub spec_post : Option LedgerAccount → Amounts → Balances → Option Balances
spec_post none d b = some b
spec_post (some x) d b = if has_negative (add_amounts (b x) d) then none else some (bump x d b)

infixl 5 ◌>>=◌
abbrev pub ◌>>=◌ {ℓ κ} : {A : Type ℓ} {B : Type κ} → Option A → (A → Option B) → Option B
none >>= f = none
some a >>= f = f a

unfoldable pub spec_changes : List BalanceChange → Balances → Option Balances
spec_changes [] b = some b
spec_changes (c ∷ cs) b = do
  b' ← spec_post (integration_side c) (compute_delta c) b
  b'' ← spec_post (platform_side c) (compute_delta c) b'
  spec_changes cs b''

-- The verdict on each group, and the balances after all.
unfoldable pub spec_groups : List IntentGroup → Balances → List Bool × Balances
spec_groups [] b = ([], b)
spec_groups (g ∷ gs) b = elim (spec_changes g.changes b) [
  | none ↦ let (verdicts, b') = spec_groups gs b in (false ∷ verdicts, b')
  | some b₁ ↦ let (verdicts, b') = spec_groups gs b₁ in (true ∷ verdicts, b')
]

-- The balances that the tables hold.
unfoldable pub db_balances : LedgerDb → Balances
db_balances db (on_integration k) = amounts_in k db.integration_projection
db_balances db (on_platform k) = amounts_in k db.platform_projection
