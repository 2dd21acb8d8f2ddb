-- ===== src/Ledger/Apply/Writes.antt =====
-- The writes of a batch on one side: the table and the event rows.
use multi_rail_payments_proc.Prelude.{
  ◌≡◌, refl, sym, ◌∙◌, ap, ◌≢◌, inl, inr, Option, none, some, List, [], ◌∷◌, ◌++◌, arith, ◌==◌, any,
  Option-cases, Bool-cases,
}
use multi_rail_payments_proc.Prelude.JsMap.{get, Unique}
use multi_rail_payments_proc.Types.{BalanceChange}
use multi_rail_payments_proc.Ledger.Amounts.{no_amounts}
use multi_rail_payments_proc.Ledger.Keys.{AccountKey, key_eq}
use multi_rail_payments_proc.Ledger.Keys.Collected.{Listed, ListedIfSome, AllListed}
use multi_rail_payments_proc.Ledger.Snapshots.{SnapshotMap}
use multi_rail_payments_proc.Ledger.Store.{
  ProjectionTable, EsRow, ensure_projections_exist, read_snapshots, delta_map, update_rows,
}
use multi_rail_payments_proc.Ledger.Store.Reads.{
  amounts_in, ensure-amounts, ensure-Listed, ensure-Unique, get-read_snapshots,
}
use multi_rail_payments_proc.Ledger.Store.Updates.{
  posted_at, HasRow, HaveRows, update_rows-posted_at, update_rows-Unique,
}
use multi_rail_payments_proc.Ledger.Store.Events.{
  replay, last_after, replay-append, last_after-append, Records,
}
use multi_rail_payments_proc.Ledger.Spec.Group.{Covered, HasSnapshot, amounts_of}

-- One side of the ledger is event-sourced: each key has one row, the amounts of the row are the
-- replay of all events of the key, and they are the amounts that its last event stores.
pub record IsSourced (t : ProjectionTable) (es : List EsRow) : Type 0 where
  pub unique : Unique t
  pub replayed : (k : AccountKey) → replay k es no_amounts ≡ amounts_in k t
  pub stored : (k : AccountKey) → last_after k es no_amounts ≡ amounts_in k t

pub empty-IsSourced : IsSourced [] []
unfolding replay last_after
empty-IsSourced = record { unique = tt; replayed = λ k. refl; stored = λ k. refl }

pub ensure-IsSourced :
    (ks : List AccountKey) (t : ProjectionTable) (es : List EsRow)
    → IsSourced t es
    → IsSourced (ensure_projections_exist ks t) es
ensure-IsSourced ks t es s = record {
  unique = ensure-Unique ks t s.unique;
  replayed = λ k. s.replayed k ∙ sym (ensure-amounts ks k t);
  stored = λ k. s.stored k ∙ sym (ensure-amounts ks k t);
}

-- The snapshots hold what the table holds, for the keys that they hold.
abbrev pub Shows : SnapshotMap → ProjectionTable → Type 0
Shows m t = (k : AccountKey) → amounts_of (amounts_in k t) (get k m) ≡ amounts_in k t

pub read_snapshots-Shows :
    (ks : List AccountKey) (t : ProjectionTable) → Unique t → Shows (read_snapshots ks t) t
read_snapshots-Shows ks t u k =
    rw (get-read_snapshots ks k t u) (elim (Bool-cases (any (λ j. j == k) ks)) [
      | inl e ↦ rw e (elim (Option-cases (get k t)) [ inl f ↦ rw f refl | inr (a, f) ↦ rw f refl ])
      | inr e ↦ rw e refl
    ])

HasSnapshot-read :
    (ks : List AccountKey) (k : AccountKey) (t : ProjectionTable)
    → Unique t
    → get k t ≢ none
    → Listed k ks
    → get k (read_snapshots ks t) ≢ none
HasSnapshot-read ks k t u h l = ground (arith, get-read_snapshots ks k t u)

module _ (ks : List AccountKey) (t : ProjectionTable) (u : Unique t) where
  abbrev ensured : ProjectionTable
  ensured = ensure_projections_exist ks t

  ListedIfSome-HasRow : (ko : Option AccountKey) → ListedIfSome ko ks → HasRow ko ensured
  ListedIfSome-HasRow none l = tt
  ListedIfSome-HasRow (some k) l = ensure-Listed ks k t l

  ListedIfSome-HasSnapshot :
      (ko : Option AccountKey) → ListedIfSome ko ks → HasSnapshot ko (read_snapshots ks ensured)
  ListedIfSome-HasSnapshot none l = tt
  ListedIfSome-HasSnapshot (some k) l =
      HasSnapshot-read ks k ensured (ensure-Unique ks t u) (ensure-Listed ks k t l) l

  pub AllListed-HaveRows :
      (key : BalanceChange → Option AccountKey) (cs : List BalanceChange)
      → AllListed key cs ks
      → HaveRows key cs ensured
  AllListed-HaveRows key [] l = tt
  AllListed-HaveRows key (c ∷ cs) l =
      (ListedIfSome-HasRow (key c) l.0, AllListed-HaveRows key cs l.1)

  pub AllListed-Covered :
      (key : BalanceChange → Option AccountKey) (cs : List BalanceChange)
      → AllListed key cs ks
      → Covered key cs (read_snapshots ks ensured)
  AllListed-Covered key [] l = tt
  AllListed-Covered key (c ∷ cs) l =
      (ListedIfSome-HasSnapshot (key c) l.0, AllListed-Covered key cs l.1)

-- The update of the table and the new event rows keep the side event-sourced.
pub update-IsSourced :
    (key : BalanceChange → Option AccountKey) (cs : List BalanceChange) (m : SnapshotMap)
    (t : ProjectionTable) (es rows : List EsRow)
    → HaveRows key cs t
    → Shows m t
    → Records key cs m (some rows)
    → IsSourced t es
    → IsSourced (update_rows (delta_map key cs []) t) (es ++ rows)
update-IsSourced key cs m t es rows h shows r s = record {
  unique = update_rows-Unique (delta_map key cs []) t s.unique;
  replayed = λ k.
      replay-append k es rows no_amounts
      ∙ ap (replay k rows) (s.replayed k)
      ∙ (r k (amounts_in k t)).0
      ∙ sym (update_rows-posted_at key cs k t h);
  stored = λ k.
      last_after-append k es rows no_amounts
      ∙ ap (last_after k rows) (s.stored k ∙ sym (shows k))
      ∙ (r k (amounts_in k t)).1
      ∙ ap (posted_at key cs k) (shows k)
      ∙ sym (update_rows-posted_at key cs k t h);
}
