-- ===== src/Ledger/Keys.antt =====
-- The keys of the projections: `IntegrationAccountKey`, `PlatformAccountKey` and the two
-- `collect...Keys` of apps/ledger/src/module/balance/repository/balance/balance.repository.ts.
-- The code writes a key as the text `account|integration|currency`; a key is the triple here, and
-- Keys/Text has the text.
pub mod Text
pub mod Collected
use multi_rail_payments_proc.Prelude.{
  ℕ, ◌≡◌, ◌↔◌, Bool, true, false, ◌&&◌, Option, none, some, List, [], ◌∷◌, map, arith, nat_beq,
  Equal, ◌==◌, any, if◌then◌else◌, nat_beq_iff,
}
use multi_rail_payments_proc.Prelude.JsMap.{JsMap, get, set, values}
use multi_rail_payments_proc.Types.{
  IntegrationType, BalanceChange, integration_beq, integration_beq_iff,
}

pub record AccountKey : Type 0 where
  pub account : ℕ
  pub integration : IntegrationType
  pub currency : ℕ

unfoldable pub key_beq : AccountKey → AccountKey → Bool
key_beq a b =
    nat_beq a.account b.account
    && (integration_beq a.integration b.integration && nat_beq a.currency b.currency)

pub key_beq_iff : (a b : AccountKey) → (key_beq a b ≡ true) ↔ (a ≡ b)
unfolding key_beq
key_beq_iff a b = ground (arith, integration_beq_iff a.integration b.integration)

instance abbrev pub key_eq : Equal AccountKey
key_eq = record { same = key_beq; same_iff = key_beq_iff }

-- The key of the change on its integration account, where it has one.
unfoldable pub integration_key : BalanceChange → Option AccountKey
integration_key c = elim c.integration_account [
  | none ↦ none
  | some a ↦ some (record { account = a; integration = c.integration; currency = c.currency })
]

unfoldable pub platform_key : BalanceChange → Option AccountKey
platform_key c = elim c.platform_account_id [
  | none ↦ none
  | some a ↦ some (record { account = a; integration = c.integration; currency = c.currency })
]

-- The loop of both functions, over the `seen` map.
unfoldable pub add_seen :
    Option AccountKey → JsMap AccountKey AccountKey → JsMap AccountKey AccountKey
add_seen none seen = seen
add_seen (some k) seen = elim (get k seen) [ none ↦ set k k seen | some _ ↦ seen ]

unfoldable pub collect :
    (BalanceChange → Option AccountKey)
    → List BalanceChange
    → JsMap AccountKey AccountKey
    → JsMap AccountKey AccountKey
collect key [] seen = seen
collect key (c ∷ cs) seen = collect key cs (add_seen (key c) seen)

unfoldable pub collect_integration_keys : List BalanceChange → List AccountKey
unfolding collect add_seen integration_key
collect_integration_keys changes = values (collect integration_key changes [])

unfoldable pub collect_platform_keys : List BalanceChange → List AccountKey
unfolding collect add_seen platform_key
collect_platform_keys changes = values (collect platform_key changes [])
