-- ===== src/Ledger/Spec/Run.antt =====
-- A run over the groups gives the verdicts and the balances of the specification, and throws never.
use multi_rail_payments_proc.Prelude.{
  ◌≡◌, refl, sym, ap, ◌∙◌, ◌⊎◌, inl, inr, Bool, true, false, Option, none, some, List, [], ◌∷◌,
  ◌++◌, map, arith,
}
use multi_rail_payments_proc.Prelude.JsMap.{union, get-union, Unique}
use mathlib.Core.Path.{fun_ext}
use multi_rail_payments_proc.Types.{BalanceChange}
use multi_rail_payments_proc.Ledger.Amounts.{Amounts, compute_delta}
use multi_rail_payments_proc.Ledger.Keys.{AccountKey, key_eq, integration_key, platform_key}
use multi_rail_payments_proc.Ledger.Snapshots.{
  ProjectionSnapshot, SnapshotMap, IntentGroup, BalanceApplyError, Checked, ok, failed, thrown,
  post_changes, apply_group_to_snapshots,
}
use multi_rail_payments_proc.Ledger.Store.{
  IntentApplyResult, success, failure, apply_groups, all_changes,
}
use multi_rail_payments_proc.Ledger.Spec.{
  LedgerAccount, on_integration, on_platform, Balances, bump, integration_side, platform_side,
  spec_post, spec_changes, spec_groups, ◌>>=◌,
}
use multi_rail_payments_proc.Ledger.Spec.Group.{
  view, Covered, HasSnapshot, posted, IsSettled₂, post_changes_lem, post_changes-IsSettled,
}

abbrev pub bump_side : Option LedgerAccount → Amounts → Balances → Balances
bump_side none d b = b
bump_side (some x) d b = bump x d b

-- The balances after changes that nothing refuses.
unfoldable pub bump_all : List BalanceChange → Balances → Balances
bump_all [] b = b
bump_all (c ∷ cs) b = bump_all cs (
    bump_side (platform_side c) (compute_delta c)
      (bump_side (integration_side c) (compute_delta c) b))

pub bump_all-append :
    (cs ds : List BalanceChange) (b : Balances)
    → bump_all (cs ++ ds) b ≡ bump_all ds (bump_all cs b)
unfolding bump_all
bump_all-append [] ds b = refl
bump_all-append (c ∷ cs) ds b = bump_all-append cs ds _

pub bind_some :
    {A B : Type 0} (m : Option A) (f : A → Option B) {b : B}
    → (m >>= f) ≡ some b
    → (a : A) × (m ≡ some a) × (f a ≡ some b)
bind_some none f h = cc
bind_some (some a) f h = (a, refl, h)

-- A posting that is not refused leaves no negative amount and bumps its account.
pub spec_post-some :
    (x : Option LedgerAccount) (d : Amounts) (b b' : Balances)
    → spec_post x d b ≡ some b'
    → b' ≡ bump_side x d b
unfolding spec_post
spec_post-some none d b b' h = cc
spec_post-some (some x) d b b' h = ground arith

pub spec_changes-bump_all :
    (cs : List BalanceChange) (b b' : Balances) → spec_changes cs b ≡ some b' → b' ≡ bump_all cs b
unfolding spec_changes bump_all
spec_changes-bump_all [] b b' h = cc
spec_changes-bump_all (c ∷ cs) b b' h =
    let (b₁, e₁, h₁) = bind_some (spec_post (integration_side c) (compute_delta c) b) _ h in
    let (b₂, e₂, h₂) = bind_some (spec_post (platform_side c) (compute_delta c) b₁) _ h₁ in
    let p₁ = spec_post-some (integration_side c) (compute_delta c) b b₁ e₁ in
    let p₂ = spec_post-some (platform_side c) (compute_delta c) b₁ b₂ e₂ in
    spec_changes-bump_all cs b₂ b' h₂
    ∙ ap (bump_all cs) (p₂ ∙ ap (bump_side (platform_side c) (compute_delta c)) p₁)

pub Covered-append :
    (key : BalanceChange → Option AccountKey) (cs ds : List BalanceChange) (m : SnapshotMap)
    → Covered key (cs ++ ds) m
    → Covered key cs m × Covered key ds m
Covered-append key [] ds m h = (tt, h)
Covered-append key (c ∷ cs) ds m h = let (l, r) = Covered-append key cs ds m h.1 in ((h.0, l), r)

HasSnapshot-union :
    (k : Option AccountKey) (m u : SnapshotMap)
    → Unique u
    → HasSnapshot k m
    → HasSnapshot k (union m u)
HasSnapshot-union none m u w h = tt
HasSnapshot-union (some k) m u w h = λ e. h (ground (arith, get-union k m u w))

Covered-union :
    (key : BalanceChange → Option AccountKey) (cs : List BalanceChange) (m u : SnapshotMap)
    → Unique u
    → Covered key cs m
    → Covered key cs (union m u)
Covered-union key [] m u w h = tt
Covered-union key (c ∷ cs) m u w h =
    (HasSnapshot-union (key c) m u w h.0, Covered-union key cs m u w h.1)

view-union :
    (rest : Balances) (i p iu pu : SnapshotMap)
    → Unique iu
    → Unique pu
    → (x : LedgerAccount) → view rest i p iu pu x ≡ view rest (union i iu) (union p pu) [] [] x
view-union rest i p iu pu ui up (on_integration k) = rw (get-union k i iu ui) refl
view-union rest i p iu pu ui up (on_platform k) = rw (get-union k p pu up) refl

abbrev pub succeeded : IntentApplyResult → Bool
succeeded (success _ _ _) = true
succeeded (failure _ _ _) = false

-- What a run over the groups gives, told by the specification at the balances `b`.
abbrev pub Runs :
    List IntentGroup → Balances → Option (List IntentApplyResult × List BalanceChange) → Type 0
Runs gs b none = ⊥
Runs gs b (some (results, changes)) =
    (map succeeded results ≡ (spec_groups gs b).0) × (bump_all changes b ≡ (spec_groups gs b).1)

pub Checked-cases :
    {A : Type 0} (r : Checked A)
    → ((a : A) × (r ≡ ok a)) ⊎ (((e : BalanceApplyError) × (r ≡ failed e)) ⊎ (r ≡ thrown))
Checked-cases (ok a) = inl (a, refl)
Checked-cases (failed e) = inr (inl (e, refl))
Checked-cases thrown = inr (inr refl)

-- Adding the result of one group to the run of the rest.
Runs-failure :
    (g : IntentGroup) (gs : List IntentGroup) (b : Balances) (e : BalanceApplyError)
    (rest : Option (List IntentApplyResult × List BalanceChange))
    → spec_changes g.changes b ≡ none
    → Runs gs b rest
    → Runs (g ∷ gs) b (elim rest [
      | none ↦ none
      | some (results, changes) ↦ some (failure g.intent_id g.changes e ∷ results, changes)
    ])
unfolding spec_groups
Runs-failure g gs b e none refused h = h
Runs-failure g gs b e (some (results, changes)) refused h =
    rw (refused, spec_groups) (ground arith, h.1)

Runs-success :
    (g : IntentGroup) (gs : List IntentGroup) (b b' : Balances) (updates : List ProjectionSnapshot)
    (rest : Option (List IntentApplyResult × List BalanceChange))
    → spec_changes g.changes b ≡ some b'
    → Runs gs b' rest
    → Runs (g ∷ gs) b (elim rest [
      | none ↦ none
      | some (results, changes) ↦
          some (success g.intent_id g.changes updates ∷ results, g.changes ++ changes)
    ])
unfolding spec_groups
Runs-success g gs b b' updates none fine h = h
Runs-success g gs b b' updates (some (results, changes)) fine h =
    rw (fine, spec_groups)
      (
        ground arith,
        bump_all-append g.changes changes b
            ∙ ap (bump_all changes) (sym (spec_changes-bump_all g.changes b b' fine))
            ∙ h.1,
      )

-- From maps that hold a snapshot of every key of the changes, the loop over the groups accepts and
-- refuses as the specification does, and the changes it accepts lead to the specified balances.
pub apply_groups-Runs :
    (rest : Balances) (gs : List IntentGroup) (i p : SnapshotMap)
    → Covered integration_key (all_changes gs) i
    → Covered platform_key (all_changes gs) p
    → Runs gs (view rest i p [] []) (apply_groups gs i p)
unfolding apply_groups spec_groups apply_group_to_snapshots bump_all
apply_groups-Runs rest [] i p hi hp = (refl, refl)
apply_groups-Runs rest (g ∷ gs) i p hi hp =
    elim (Checked-cases (post_changes g.changes i p [] [])) [
      | inl ((iu, pu), e) ↦
          let settled = rw e at settles in
          let after = rw e at spec in
          rw (e, apply_groups)
            (Runs-success g gs (view rest i p [] []) (view rest i p iu pu) _ _ after (
              rw (fun_ext (view-union rest i p iu pu settled.0 settled.1)) (
                apply_groups-Runs rest gs (union i iu) (union p pu)
                  (Covered-union integration_key (all_changes gs) i iu settled.0 ci.1)
                  (Covered-union platform_key (all_changes gs) p pu settled.1 cp.1))))
      | inr (inl (err, e)) ↦
          rw (e, apply_groups)
            (Runs-failure g gs (view rest i p [] []) err _ (rw e at spec)
              (apply_groups-Runs rest gs i p ci.1 cp.1))
      | inr (inr e) ↦ absurd (rw e at settles)
    ]
  where
    ci : Covered integration_key g.changes i × Covered integration_key (all_changes gs) i
    ci = Covered-append integration_key g.changes (all_changes gs) i hi

    cp : Covered platform_key g.changes p × Covered platform_key (all_changes gs) p
    cp = Covered-append platform_key g.changes (all_changes gs) p hp

    settles : IsSettled₂ (post_changes g.changes i p [] [])
    settles = post_changes-IsSettled i p g.changes [] [] ci.0 cp.0 tt tt

    spec :
        spec_changes g.changes (view rest i p [] [])
        ≡ posted (λ m. view rest i p m.0 m.1) (post_changes g.changes i p [] [])
    spec = post_changes_lem rest i p g.changes [] [] ci.0 cp.0
