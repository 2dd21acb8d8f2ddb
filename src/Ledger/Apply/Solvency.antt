-- ===== src/Ledger/Apply/Solvency.antt =====
-- No accepted group makes an amount negative.
use multi_rail_payments_proc.Prelude.{
  ◌≡◌, ap, inl, inr, true, false, Option, none, some, List, [], ◌∷◌, arith, Option-cases,
  Bool-cases,
}
use mathlib.Core.Path.{subst}
use multi_rail_payments_proc.Types.{BalanceChange}
use multi_rail_payments_proc.Ledger.Amounts.{
  Amounts, add_amounts, has_negative, compute_delta, IsSolvent, has_negative-IsSolvent,
}
use multi_rail_payments_proc.Ledger.Keys.{key_beq_iff}
use multi_rail_payments_proc.Ledger.Snapshots.{IntentGroup}
use multi_rail_payments_proc.Ledger.Store.{LedgerDb, IntentApplyResult, apply_from_groups}
use multi_rail_payments_proc.Ledger.Spec.{
  LedgerAccount, on_integration, on_platform, account_beq, Balances, bump, integration_side,
  platform_side, spec_post, spec_changes, spec_groups, db_balances,
}
use multi_rail_payments_proc.Ledger.Spec.Run.{bind_some}
use multi_rail_payments_proc.Ledger.Apply.Batch.{IsConsistent}
use multi_rail_payments_proc.Ledger.Apply.Range.{HasRoom}
use multi_rail_payments_proc.Ledger.Apply.Refinement.{Applies, apply_from_groups-Applies}

-- No account has a negative amount.
abbrev pub AreSolvent : Balances → Type 0
AreSolvent b = (x : LedgerAccount) → IsSolvent (b x)

account_beq-eq : (x y : LedgerAccount) → account_beq x y ≡ true → x ≡ y
account_beq-eq (on_integration j) (on_integration k) h = ap on_integration ((key_beq_iff j k).0 h)
account_beq-eq (on_integration j) (on_platform k) h = cc
account_beq-eq (on_platform j) (on_integration k) h = cc
account_beq-eq (on_platform j) (on_platform k) h = ap on_platform ((key_beq_iff j k).0 h)

bump-AreSolvent :
    (x : LedgerAccount) (d : Amounts) (b : Balances)
    → has_negative (add_amounts (b x) d) ≡ false
    → AreSolvent b
    → AreSolvent (bump x d b)
bump-AreSolvent x d b fine s y = elim (Bool-cases (account_beq x y)) [
  | inl same ↦ rw same (
      subst (λ z. IsSolvent (add_amounts (b z) d)) (account_beq-eq x y same)
        (has_negative-IsSolvent (add_amounts (b x) d) fine))
  | inr other ↦ rw other (s y)
]

spec_post-AreSolvent :
    (x : Option LedgerAccount) (d : Amounts) (b b' : Balances)
    → spec_post x d b ≡ some b'
    → AreSolvent b
    → AreSolvent b'
unfolding spec_post
spec_post-AreSolvent none d b b' h s = subst (λ o. AreSolvent o) (ground arith) s
spec_post-AreSolvent (some x) d b b' h s = elim (Bool-cases (has_negative (add_amounts (b x) d))) [
  | inl neg ↦ absurd (ground arith)
  | inr fine ↦ subst (λ o. AreSolvent o) (ground arith) (bump-AreSolvent x d b fine s)
]

spec_changes-AreSolvent :
    (cs : List BalanceChange) (b b' : Balances)
    → spec_changes cs b ≡ some b'
    → AreSolvent b
    → AreSolvent b'
unfolding spec_changes
spec_changes-AreSolvent [] b b' h s = subst (λ o. AreSolvent o) (ground arith) s
spec_changes-AreSolvent (c ∷ cs) b b' h s =
    let (b₁, e₁, h₁) = bind_some (spec_post (integration_side c) (compute_delta c) b) _ h in
    let (b₂, e₂, h₂) = bind_some (spec_post (platform_side c) (compute_delta c) b₁) _ h₁ in
    spec_changes-AreSolvent cs b₂ b' h₂ (
      spec_post-AreSolvent (platform_side c) (compute_delta c) b₁ b₂ e₂
        (spec_post-AreSolvent (integration_side c) (compute_delta c) b b₁ e₁ s))

spec_groups-AreSolvent :
    (gs : List IntentGroup) (b : Balances) → AreSolvent b → AreSolvent (spec_groups gs b).1
unfolding spec_groups
spec_groups-AreSolvent [] b s = s
spec_groups-AreSolvent (g ∷ gs) b s = elim (Option-cases (spec_changes g.changes b)) [
  | inl e ↦ rw (e, spec_groups) (spec_groups-AreSolvent gs b s)
  | inr (b₁, e) ↦
      rw (e, spec_groups)
        (spec_groups-AreSolvent gs b₁ (spec_changes-AreSolvent g.changes b b₁ e s))
]

-- The database after the call, solvent if the call returned one.
abbrev pub LeavesSolvent : Option (List IntentApplyResult × LedgerDb) → Type 0
LeavesSolvent none = ⊥
LeavesSolvent (some (results, db')) = AreSolvent (db_balances db')

leaves :
    (groups : List IntentGroup) (db : LedgerDb) (r : Option (List IntentApplyResult × LedgerDb))
    → Applies groups db r
    → AreSolvent (db_balances db)
    → LeavesSolvent r
leaves groups db none a s = a
leaves groups db (some (results, db')) a s =
    rw a.1 (spec_groups-AreSolvent groups (db_balances db) s)

-- From an event-sourced database in which no amount is negative, and whose rows leave room in the
-- columns for the changes of the groups, `applyFromGroups` returns one in which none is negative,
-- where no other transaction commits between its reads and its writes.
pub apply_from_groups-solvent :
    (groups : List IntentGroup) (db : LedgerDb)
    → IsConsistent db
    → AreSolvent (db_balances db)
    → HasRoom groups db
    → LeavesSolvent (apply_from_groups groups db db)
apply_from_groups-solvent groups db c s h =
    leaves groups db (apply_from_groups groups db db) (apply_from_groups-Applies groups db c h) s
