-- ===== src/Ledger/Spec/Group.antt =====
-- A group posted to the snapshots does what the specification says of it.
use multi_rail_payments_proc.Prelude.{
  ◌≡◌, refl, ap, ◌≢◌, ◌⊎◌, inl, inr, true, false, Option, none, some, List, [], ◌∷◌, arith,
  first_some, All, Option-cases, Bool-cases,
}
use multi_rail_payments_proc.Prelude.JsMap.{get, set, get-set, Unique, set-Unique}
use mathlib.Core.Path.{fun_ext}
use multi_rail_payments_proc.Types.{BalanceChange}
use multi_rail_payments_proc.Ledger.Amounts.{
  Amounts, no_amounts, add_amounts, has_negative, compute_delta,
}
use multi_rail_payments_proc.Ledger.Keys.{
  AccountKey, key_eq, key_beq_iff, integration_key, platform_key,
}
use multi_rail_payments_proc.Ledger.Snapshots.{
  ProjectionSnapshot, SnapshotMap, BalanceApplyError, insufficient, Checked, ok, failed, thrown,
  check_next, post, post_changes, ◌>>=◌,
}
use multi_rail_payments_proc.Ledger.Spec.{
  LedgerAccount, on_integration, on_platform, Balances, bump, spec_post, spec_changes,
  ◌>>=◌ as bind,
}

abbrev pub amounts_of : Amounts → Option ProjectionSnapshot → Amounts
amounts_of d none = d
amounts_of d (some s) = s.amounts

-- The balances that the working maps show under the pending ones, and `rest` where they have none.
abbrev pub view : Balances → (integration platform ip pp : SnapshotMap) → Balances
view rest integration platform ip pp (on_integration k) =
    amounts_of (rest (on_integration k)) (first_some (get k ip) (get k integration))
view rest integration platform ip pp (on_platform k) =
    amounts_of (rest (on_platform k)) (first_some (get k pp) (get k platform))

-- The key has a snapshot.
abbrev pub HasSnapshot : Option AccountKey → SnapshotMap → Type 0
HasSnapshot none m = Unit {0}
HasSnapshot (some k) m = get k m ≢ none

abbrev pub Covered : (BalanceChange → Option AccountKey) → List BalanceChange → SnapshotMap → Type 0
Covered key cs m = All (λ c. HasSnapshot (key c) m) cs

abbrev pub posted : {A : Type 0} → (A → Balances) → Checked A → Option Balances
posted f (ok a) = some (f a)
posted f (failed e) = none
posted f thrown = none

-- It did not throw, and what it leaves pending holds each key once.
abbrev pub IsSettled : Checked SnapshotMap → Type 0
IsSettled (ok m) = Unique m
IsSettled (failed e) = Unit {0}
IsSettled thrown = ⊥

abbrev pub IsSettled₂ : Checked (SnapshotMap × SnapshotMap) → Type 0
IsSettled₂ (ok (ip, pp)) = Unique ip × Unique pp
IsSettled₂ (failed e) = Unit {0}
IsSettled₂ thrown = ⊥

-- The two ways in which a change is posted to a key that has a snapshot.
abbrev next_amounts : Amounts → BalanceChange → AccountKey → (m pending : SnapshotMap) → Amounts
next_amounts d c k m pending =
    add_amounts (amounts_of d (first_some (get k pending) (get k m))) (compute_delta c)

abbrev next_map : Amounts → BalanceChange → AccountKey → (m pending : SnapshotMap) → SnapshotMap
next_map d c k m pending =
    set k (record { key = k; amounts = next_amounts d c k m pending }) pending

post_cases :
    (d : Amounts) (c : BalanceChange) (k : AccountKey) (m pending : SnapshotMap)
    → get k m ≢ none
    → ((e : BalanceApplyError) × (post c (some k) m pending ≡ failed e)
        × (has_negative (next_amounts d c k m pending) ≡ true))
      ⊎ ((post c (some k) m pending ≡ ok (next_map d c k m pending))
          × (has_negative (next_amounts d c k m pending) ≡ false))
unfolding post check_next
post_cases d c k m pending h = elim (Option-cases (first_some (get k pending) (get k m))) [
  | inl e ↦ absurd (h (ground arith))
  | inr (s, e) ↦ elim (Bool-cases (has_negative (add_amounts s.amounts (compute_delta c)))) [
    | inl neg ↦
        inl
          (insufficient c s.amounts (compute_delta c), rw (e, post, check_next, neg) refl, rw e neg)
    | inr fine ↦ inr (rw (e, post, check_next, fine) refl, rw e fine)
  ]
]

pub post-IsSettled :
    (c : BalanceChange) (k : Option AccountKey) (m pending : SnapshotMap)
    → HasSnapshot k m
    → Unique pending
    → IsSettled (post c k m pending)
unfolding post
post-IsSettled c none m pending h u = u
post-IsSettled c (some k) m pending h u = elim (post_cases no_amounts c k m pending h) [
  | inl (e, p, _) ↦ rw (p, IsSettled) tt
  | inr (p, _) ↦ rw (p, IsSettled) (set-Unique k _ pending u)
]

module _ (rest : Balances) (c : BalanceChange) (integration platform ip pp : SnapshotMap) where
  bump-integration :
      (k : AccountKey) (y : LedgerAccount)
      → bump (on_integration k) (compute_delta c) (view rest integration platform ip pp) y
        ≡ view rest integration platform
            (next_map (rest (on_integration k)) c k integration ip)
            pp
            y
  bump-integration k (on_integration j) = ground (
    arith,
    key_beq_iff k j,
    get-set k j
        (record { key = k; amounts = next_amounts (rest (on_integration k)) c k integration ip })
        ip,
  )
  bump-integration k (on_platform j) = refl

  post_integration :
      (k : Option AccountKey)
      → HasSnapshot k integration
      → spec_post
          (elim k [ none ↦ none | some j ↦ some (on_integration j) ])
          (compute_delta c)
          (view rest integration platform ip pp)
        ≡ posted (λ m. view rest integration platform m pp) (post c k integration ip)
  unfolding spec_post post
  post_integration none h = refl
  post_integration (some k) h = elim (post_cases (rest (on_integration k)) c k integration ip h) [
    | inl (e, p, neg) ↦ rw (p, neg, posted) refl
    | inr (p, fine) ↦ rw (p, fine, posted) (ap some (fun_ext (bump-integration k)))
  ]

  bump-platform :
      (k : AccountKey) (y : LedgerAccount)
      → bump (on_platform k) (compute_delta c) (view rest integration platform ip pp) y
        ≡ view rest integration platform ip (next_map (rest (on_platform k)) c k platform pp) y
  bump-platform k (on_platform j) = ground (
    arith,
    key_beq_iff k j,
    get-set k j (record { key = k; amounts = next_amounts (rest (on_platform k)) c k platform pp })
        pp,
  )
  bump-platform k (on_integration j) = refl

  post_platform :
      (k : Option AccountKey)
      → HasSnapshot k platform
      → spec_post
          (elim k [ none ↦ none | some j ↦ some (on_platform j) ])
          (compute_delta c)
          (view rest integration platform ip pp)
        ≡ posted (λ m. view rest integration platform ip m) (post c k platform pp)
  unfolding spec_post post
  post_platform none h = refl
  post_platform (some k) h = elim (post_cases (rest (on_platform k)) c k platform pp h) [
    | inl (e, p, neg) ↦ rw (p, neg, posted) refl
    | inr (p, fine) ↦ rw (p, fine, posted) (ap some (fun_ext (bump-platform k)))
  ]

bind-posted :
    {A B : Type 0} (r : Checked A) (f : A → Balances) (k : Balances → Option Balances)
    (g : B → Balances) (next : A → Checked B)
    → ((a : A) → r ≡ ok a → k (f a) ≡ posted g (next a))
    → bind (posted f r) k ≡ posted g (r >>= next)
bind-posted (ok a) f k g next h = h a refl
bind-posted (failed e) f k g next h = refl
bind-posted thrown f k g next h = refl

settled_bind :
    (r : Checked SnapshotMap) (next : SnapshotMap → Checked (SnapshotMap × SnapshotMap))
    → IsSettled r
    → ((m : SnapshotMap) → Unique m → IsSettled₂ (next m))
    → IsSettled₂ (r >>= next)
settled_bind (ok m) next s h = h m s
settled_bind (failed e) next s h = tt
settled_bind thrown next s h = absurd s

module _ (rest : Balances) (integration platform : SnapshotMap) where
  pub post_changes_lem :
      (cs : List BalanceChange) (ip pp : SnapshotMap)
      → Covered integration_key cs integration
      → Covered platform_key cs platform
      → spec_changes cs (view rest integration platform ip pp)
        ≡ posted
            (λ m. view rest integration platform m.0 m.1)
            (post_changes cs integration platform ip pp)
  unfolding spec_changes post_changes
  post_changes_lem [] ip pp hi hp = refl
  post_changes_lem (c ∷ cs) ip pp hi hp =
      rw (post_integration rest c integration platform ip pp (integration_key c) hi.0) (
        bind-posted (post c (integration_key c) integration ip) _ _ _ _ λ ip' _.
          rw (post_platform rest c integration platform ip' pp (platform_key c) hp.0) (
            bind-posted (post c (platform_key c) platform pp) _ _ _ _
              λ pp' _. post_changes_lem cs ip' pp' hi.1 hp.1))

module _ (integration platform : SnapshotMap) where
  pub post_changes-IsSettled :
      (cs : List BalanceChange) (ip pp : SnapshotMap)
      → Covered integration_key cs integration
      → Covered platform_key cs platform
      → Unique ip
      → Unique pp
      → IsSettled₂ (post_changes cs integration platform ip pp)
  unfolding post_changes
  post_changes-IsSettled [] ip pp hi hp ui up = (ui, up)
  post_changes-IsSettled (c ∷ cs) ip pp hi hp ui up =
      settled_bind (post c (integration_key c) integration ip) _
        (post-IsSettled c (integration_key c) integration ip hi.0 ui)
        λ ip' ui'.
          settled_bind (post c (platform_key c) platform pp) _
            (post-IsSettled c (platform_key c) platform pp hp.0 up)
            λ pp' up'. post_changes-IsSettled cs ip' pp' hi.1 hp.1 ui' up'
