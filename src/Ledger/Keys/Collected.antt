-- ===== src/Ledger/Keys/Collected.antt =====
-- The keys that are collected from changes are all the keys that the changes have.
use multi_rail_payments_proc.Prelude.{
  ◌≡◌, refl, ◌≢◌, true, Option, none, some, List, [], ◌∷◌, arith, ◌==◌, any, All, beq_self,
}
use multi_rail_payments_proc.Prelude.JsMap.{JsMap, get, set, values}
use multi_rail_payments_proc.Types.{BalanceChange}
use multi_rail_payments_proc.Ledger.Keys.{
  AccountKey, key_eq, key_beq_iff, add_seen, collect, integration_key, platform_key,
  collect_integration_keys, collect_platform_keys,
}

abbrev pub Listed : AccountKey → List AccountKey → Type 0
Listed k ks = any (λ j. j == k) ks ≡ true

abbrev pub ListedIfSome : Option AccountKey → List AccountKey → Type 0
ListedIfSome none ks = Unit {0}
ListedIfSome (some k) ks = Listed k ks

abbrev Mirrors : JsMap AccountKey AccountKey → Type 0
Mirrors [] = Unit {0}
Mirrors ((j, w) ∷ m) = (j ≡ w) × Mirrors m

get-Listed :
    (k : AccountKey) (m : JsMap AccountKey AccountKey)
    → Mirrors m
    → get k m ≢ none
    → Listed k (values m)
get-Listed k [] h g = absurd (g refl)
get-Listed k ((j, w) ∷ m) h g = ground (arith, get-Listed k m h.1)

set-Mirrors : (k : AccountKey) (m : JsMap AccountKey AccountKey) → Mirrors m → Mirrors (set k k m)
set-Mirrors k [] h = (refl, tt)
set-Mirrors k ((j, w) ∷ m) h = ground (arith, key_beq_iff j k, set-Mirrors k m h.1)

set-Listed_self :
    (k : AccountKey) (m : JsMap AccountKey AccountKey) → Mirrors m → Listed k (values (set k k m))
set-Listed_self k [] h = ground (arith, beq_self k)
set-Listed_self k ((j, w) ∷ m) h =
    ground (arith, key_beq_iff j k, beq_self k, set-Listed_self k m h.1)

set-Listed :
    (k j : AccountKey) (m : JsMap AccountKey AccountKey)
    → Mirrors m
    → Listed j (values m)
    → Listed j (values (set k k m))
set-Listed k j [] h l = cc
set-Listed k j ((i, w) ∷ m) h l =
    ground (arith, key_beq_iff i k, key_beq_iff w j, set-Listed k j m h.1)

add_seen-Mirrors :
    (k : Option AccountKey) (m : JsMap AccountKey AccountKey) → Mirrors m → Mirrors (add_seen k m)
unfolding add_seen
add_seen-Mirrors none m h = h
add_seen-Mirrors (some k) m h = ground (arith, set-Mirrors k m h)

add_seen-Listed :
    (k : Option AccountKey) (j : AccountKey) (m : JsMap AccountKey AccountKey)
    → Mirrors m
    → Listed j (values m)
    → Listed j (values (add_seen k m))
unfolding add_seen
add_seen-Listed none j m h l = l
add_seen-Listed (some k) j m h l = ground (arith, set-Listed k j m h l)

add_seen-Listed_self :
    (k : Option AccountKey) (m : JsMap AccountKey AccountKey)
    → Mirrors m
    → ListedIfSome k (values (add_seen k m))
unfolding add_seen
add_seen-Listed_self none m h = tt
add_seen-Listed_self (some k) m h = ground (arith, set-Listed_self k m h, get-Listed k m h)

module _ (key : BalanceChange → Option AccountKey) where
  collect-Listed :
      (cs : List BalanceChange) (j : Option AccountKey) (m : JsMap AccountKey AccountKey)
      → Mirrors m
      → ListedIfSome j (values m)
      → ListedIfSome j (values (collect key cs m))
  unfolding collect
  collect-Listed [] j m h l = l
  collect-Listed (c ∷ cs) none m h l = tt
  collect-Listed (c ∷ cs) (some j) m h l =
      collect-Listed cs (some j) (add_seen (key c) m) (add_seen-Mirrors (key c) m h)
        (add_seen-Listed (key c) j m h l)

  abbrev pub AllListed : List BalanceChange → List AccountKey → Type 0
  AllListed cs ks = All (λ c. ListedIfSome (key c) ks) cs

  pub collect-AllListed :
      (cs : List BalanceChange) (m : JsMap AccountKey AccountKey)
      → Mirrors m
      → AllListed cs (values (collect key cs m))
  unfolding collect
  collect-AllListed [] m h = tt
  collect-AllListed (c ∷ cs) m h = (
    collect-Listed cs (key c) (add_seen (key c) m) (add_seen-Mirrors (key c) m h)
        (add_seen-Listed_self (key c) m h),
    collect-AllListed cs (add_seen (key c) m) (add_seen-Mirrors (key c) m h),
  )

pub collect_integration_keys-AllListed :
    (cs : List BalanceChange) → AllListed integration_key cs (collect_integration_keys cs)
unfolding collect_integration_keys
collect_integration_keys-AllListed cs = collect-AllListed integration_key cs [] tt

pub collect_platform_keys-AllListed :
    (cs : List BalanceChange) → AllListed platform_key cs (collect_platform_keys cs)
unfolding collect_platform_keys
collect_platform_keys-AllListed cs = collect-AllListed platform_key cs [] tt
