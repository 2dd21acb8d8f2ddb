-- ===== src/Ledger/Snapshots.antt =====
-- Posting a group of changes to the snapshots in memory: `applyGroupToSnapshots` of
-- apps/ledger/src/module/balance/repository/balance/balance.repository.ts. A group is applied as
-- a whole: the maps of the caller are only read, and what changes is collected in pending maps.
use multi_rail_payments_proc.Prelude.{ℕ, true, false, Option, none, some, List, [], ◌∷◌, first_some}
use multi_rail_payments_proc.Prelude.Int.{ℤ, negated}
use multi_rail_payments_proc.Prelude.JsMap.{JsMap, get, set}
use multi_rail_payments_proc.Types.{BalanceChange}
use multi_rail_payments_proc.Ledger.Amounts.{Amounts, add_amounts, has_negative, compute_delta}
use multi_rail_payments_proc.Ledger.Keys.{AccountKey, key_eq, integration_key, platform_key}

pub record ProjectionSnapshot : Type 0 where
  pub key : AccountKey
  pub amounts : Amounts

abbrev pub SnapshotMap : Type 0
SnapshotMap = JsMap AccountKey ProjectionSnapshot

-- No code of the ledger makes the second one.
pub data BalanceApplyError : Type 0 where
  insufficient_funds :
      (integration_account platform_account_id : Option ℕ)
      → (available required : ℤ) → BalanceApplyError
  projection_not_found : (integration_account platform_account_id : Option ℕ) → BalanceApplyError

pub record IntentGroup : Type 0 where
  pub intent_id : Option ℕ
  pub changes : List BalanceChange

-- A step that goes on, that returns `{ ok: false }`, or that throws.
pub data Checked (A : Type 0) : Type 0 where
  ok : A → Checked A
  failed : BalanceApplyError → Checked A
  thrown : Checked A

infixl 5 ◌>>=◌
abbrev pub ◌>>=◌ : {A B : Type 0} → Checked A → (A → Checked B) → Checked B
ok a >>= f = f a
failed e >>= f = failed e
thrown >>= f = thrown

abbrev pub insufficient : BalanceChange → Amounts → Amounts → BalanceApplyError
insufficient c amounts delta =
    insufficient_funds c.integration_account c.platform_account_id amounts.available
      (negated delta.available)

-- The new snapshot, written to the pending map unless an amount would be negative.
unfoldable pub check_next :
    BalanceChange → AccountKey → ProjectionSnapshot → SnapshotMap → Checked SnapshotMap
check_next c k snapshot pending =
    let next = add_amounts snapshot.amounts (compute_delta c) in
    elim (has_negative next) [
      | true ↦ failed (insufficient c snapshot.amounts (compute_delta c))
      | false ↦ ok (set k (record { key = k; amounts = next }) pending)
    ]

-- One change on one of the two sides: `pending.get(key) ?? snapshots.get(key)!`, the throw where
-- there is none, and the new snapshot.
unfoldable pub post :
    BalanceChange → Option AccountKey → SnapshotMap → SnapshotMap → Checked SnapshotMap
post c none snapshots pending = ok pending
post c (some k) snapshots pending = elim (first_some (get k pending) (get k snapshots)) [
  | none ↦ thrown
  | some snapshot ↦ check_next c k snapshot pending
]

-- The loop over the changes, with the integration side before the platform side.
unfoldable pub post_changes :
    List BalanceChange
    → (integration platform integration_pending platform_pending : SnapshotMap)
    → Checked (SnapshotMap × SnapshotMap)
post_changes [] integration platform ip pp = ok (ip, pp)
post_changes (c ∷ cs) integration platform ip pp = do
  ip' ← post c (integration_key c) integration ip
  pp' ← post c (platform_key c) platform pp
  post_changes cs integration platform ip' pp'

unfoldable pub apply_group_to_snapshots :
    IntentGroup → (integration platform : SnapshotMap) → Checked (SnapshotMap × SnapshotMap)
apply_group_to_snapshots group integration platform =
    post_changes group.changes integration platform [] []
