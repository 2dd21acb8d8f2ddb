-- ===== src/Payments/Receipts/Single.antt =====
-- An event makes one receipt of a payment at most, and takes effect once.
use mathlib.Core.Path.{subst}
use multi_rail_payments_proc.Prelude.{
  ℕ, ◌≡◌, refl, sym, ap, ◌∙◌, ◌↔◌, ◌⊎◌, Bool, true, false, Option, none, some, List, [], ◌∷◌, ◌++◌,
  any, nat_beq, nat_beq_iff, arith, All, first_some, if◌then◌else◌, Bool-cases, Option-cases, inl,
  inr,
}
use multi_rail_payments_proc.Prelude.JsMap.{JsMap, get, Unique}
use multi_rail_payments_proc.Prelude.Sort.{filter}
use multi_rail_payments_proc.Prelude.Grouping.{
  group_by, group_of, group_of-group_by, IsGroup, group_by-IsGroup,
}
use multi_rail_payments_proc.Types.{
  BalanceChange, BalanceChangeType, BalanceChangeReason, BalanceChangeTxStatus,
}
use multi_rail_payments_proc.Payments.Finalize.{PaymentReceipt, finalize}
use multi_rail_payments_proc.Payments.Receipts.{
  StatusDb, Receipted, id_beq, id_beq_iff, id_eq, is_underpay, is_overpay, is_payment, find_first,
  receipt_change, create_receipt, add_receipt, handle_group, handle_groups, change_payment_status,
}

abbrev pub receipts_of : ℕ → List PaymentReceipt → List PaymentReceipt
receipts_of id receipts = filter (λ (r : PaymentReceipt). nat_beq r.intent_id id) receipts

-- The receipt of a change, if it has a time of execution and a payment.
abbrev pub made_at : (executed_at intent_id : Option ℕ) → BalanceChange → List PaymentReceipt
made_at none id c = []
made_at (some time) none c = []
made_at (some time) (some id) c =
    record {
      intent_id = id;
      amount = c.amount;
      integration = c.integration;
      source_tx_id = c.metadata.source_tx_id;
      tx_id = c.metadata.tx_id;
      transfer_ids = c.metadata.transfer_ids;
      currency = c.currency;
      executed_at = time;
    }
    ∷ []

-- The receipts that the chosen change of a payment makes.
abbrev pub made_of : Option BalanceChange → List PaymentReceipt
made_of none = []
made_of (some c) = made_at c.metadata.executed_at c.intent_id c

-- The confirmed changes of the three kinds.
pub record Confirms (type : BalanceChangeType) (reason : BalanceChangeReason) (c : BalanceChange)
    : Type 0 where
  pub of_type : c.type ≡ type
  pub of_reason : c.metadata.reason ≡ reason
  pub confirmed : c.metadata.tx_status ≡ BalanceChangeTxStatus.tx_confirmed

abbrev pub Underpays : BalanceChange → Type 0
Underpays c = Confirms BalanceChangeType.credit BalanceChangeReason.underpay c

abbrev pub Overpays : BalanceChange → Type 0
Overpays c = Confirms BalanceChangeType.hold BalanceChangeReason.overpay c

abbrev pub Pays : BalanceChange → Type 0
Pays c = Confirms BalanceChangeType.credit BalanceChangeReason.amount c

-- No change of the list is of the kind.
abbrev pub Lacks : (BalanceChange → Type 0) → List BalanceChange → Type 0
Lacks P cs = All (λ c. ¬ P c) cs

-- The change is the first of its kind in the list.
pub record IsFirst (P : BalanceChange → Type 0) (cs : List BalanceChange) (c : BalanceChange)
    : Type 0 where
  pub before_it : List BalanceChange
  pub later : List BalanceChange
  pub place : cs ≡ before_it ++ (c ∷ later)
  pub kind : P c
  pub lacks : Lacks P before_it

-- The first underpayment, else the first overpayment, else the first payment.
abbrev pub Chosen : List BalanceChange → Option BalanceChange → Type 0
Chosen cs none = Lacks Underpays cs × Lacks Overpays cs × Lacks Pays cs
Chosen cs (some c) =
    IsFirst Underpays cs c
    ⊎ ((Lacks Underpays cs × IsFirst Overpays cs c)
        ⊎ (Lacks Underpays cs × Lacks Overpays cs × IsFirst Pays cs c))

is_underpay_iff : (c : BalanceChange) → (is_underpay c ≡ true) ↔ Underpays c
is_underpay_iff c = (
  λ h. record {
    of_type = ground (arith, h);
    of_reason = ground (arith, h);
    confirmed = ground (arith, h);
  },
  λ u. ground (arith, u.of_type, u.of_reason, u.confirmed),
)

is_overpay_iff : (c : BalanceChange) → (is_overpay c ≡ true) ↔ Overpays c
is_overpay_iff c = (
  λ h. record {
    of_type = ground (arith, h);
    of_reason = ground (arith, h);
    confirmed = ground (arith, h);
  },
  λ u. ground (arith, u.of_type, u.of_reason, u.confirmed),
)

is_payment_iff : (c : BalanceChange) → (is_payment c ≡ true) ↔ Pays c
is_payment_iff c = (
  λ h. record {
    of_type = ground (arith, h);
    of_reason = ground (arith, h);
    confirmed = ground (arith, h);
  },
  λ u. ground (arith, u.of_type, u.of_reason, u.confirmed),
)

-- What a search of the list finds.
abbrev FoundFirst : (BalanceChange → Type 0) → List BalanceChange → Option BalanceChange → Type 0
FoundFirst P cs none = Lacks P cs
FoundFirst P cs (some c) = IsFirst P cs c

module _ (p : BalanceChange → Bool) (P : BalanceChange → Type 0)
    (iff : (c : BalanceChange) → (p c ≡ true) ↔ P c) where
  FoundFirst-skip :
      (d : BalanceChange) (cs : List BalanceChange) (o : Option BalanceChange)
      → (¬ P d)
      → FoundFirst P cs o
      → FoundFirst P (d ∷ cs) o
  FoundFirst-skip d cs none not_d h = (not_d, h)
  FoundFirst-skip d cs (some c) not_d h = record {
    before_it = d ∷ h.before_it;
    later = h.later;
    place = ap (λ l. d ∷ l) h.place;
    kind = h.kind;
    lacks = (not_d, h.lacks);
  }

  find_first-FoundFirst : (cs : List BalanceChange) → FoundFirst P cs (find_first p cs)
  find_first-FoundFirst [] = tt
  find_first-FoundFirst (d ∷ cs) = elim (Bool-cases (p d)) [
    | inl found ↦
        rw found
          (record { before_it = []; later = cs; place = refl; kind = (iff d).0 found; lacks = tt })
    | inr other ↦ rw other (
        FoundFirst-skip d cs (find_first p cs) (λ is. ground (arith, other, (iff d).1 is))
          (find_first-FoundFirst cs))
  ]

Chosen-first_some :
    (cs : List BalanceChange) (u o p : Option BalanceChange)
    → FoundFirst Underpays cs u
    → FoundFirst Overpays cs o
    → FoundFirst Pays cs p
    → Chosen cs (first_some u (first_some o p))
Chosen-first_some cs (some u) o p hu ho hp = inl hu
Chosen-first_some cs none (some o) p hu ho hp = inr (inl (hu, ho))
Chosen-first_some cs none none (some p) hu ho hp = inr (inr (hu, ho, hp))
Chosen-first_some cs none none none hu ho hp = (hu, ho, hp)

receipt_change-Chosen : (cs : List BalanceChange) → Chosen cs (receipt_change cs)
unfolding receipt_change
receipt_change-Chosen cs =
    Chosen-first_some cs (find_first is_underpay cs) (find_first is_overpay cs)
      (find_first is_payment cs) (find_first-FoundFirst is_underpay Underpays is_underpay_iff cs)
      (find_first-FoundFirst is_overpay Overpays is_overpay_iff cs)
      (find_first-FoundFirst is_payment Pays is_payment_iff cs)

abbrev IsOf : Option ℕ → BalanceChange → Type 0
IsOf id c = c.intent_id ≡ id

find_first-IsOf :
    (id : Option ℕ) (p : BalanceChange → Bool) (cs : List BalanceChange) (c : BalanceChange)
    → All (IsOf id) cs
    → find_first p cs ≡ some c
    → IsOf id c
find_first-IsOf id p [] c h e = ground (arith, e)
find_first-IsOf id p (d ∷ cs) c h e = elim (Bool-cases (p d)) [
  | inl t ↦ let same : d ≡ c = ground (arith, t, e) in rw (← same) h.0
  | inr f ↦ find_first-IsOf id p cs c h.1 (ground (arith, f, e))
]

first_some-IsOf :
    (id : Option ℕ) (a b : Option BalanceChange) (c : BalanceChange)
    → ((d : BalanceChange) → a ≡ some d → IsOf id d)
    → ((d : BalanceChange) → b ≡ some d → IsOf id d)
    → first_some a b ≡ some c
    → IsOf id c
first_some-IsOf id none b c ha hb e = hb c e
first_some-IsOf id (some a) b c ha hb e = ha c e

receipt_change-IsOf :
    (id : Option ℕ) (cs : List BalanceChange) (c : BalanceChange)
    → All (IsOf id) cs
    → receipt_change cs ≡ some c
    → IsOf id c
unfolding receipt_change
receipt_change-IsOf id cs c h e =
    first_some-IsOf id (find_first is_underpay cs) _ c (λ d. find_first-IsOf id is_underpay cs d h)
      (λ d.
        first_some-IsOf id (find_first is_overpay cs) (find_first is_payment cs) d
          (λ f. find_first-IsOf id is_overpay cs f h) (λ f. find_first-IsOf id is_payment cs f h))
      e

-- A receipt has the payment of its change.
create_receipt-id :
    (c : BalanceChange) (r : PaymentReceipt)
    → create_receipt c ≡ some r
    → c.intent_id ≡ some r.intent_id
unfolding create_receipt
create_receipt-id c r e = ground (arith, e)

made_of-some :
    (c : BalanceChange) (r : PaymentReceipt) → create_receipt c ≡ some r → made_of (some c) ≡ r ∷ []
unfolding create_receipt
made_of-some c r e = ground (arith, e)

-- No change makes no receipt.
made_of-nil : made_of (receipt_change []) ≡ []
unfolding receipt_change
made_of-nil = refl

made_if : Bool → Option BalanceChange → List PaymentReceipt
made_if b o = if b then made_of o else []

add_receipt-receipts :
    (id : ℕ) (key : Option ℕ) (o : Option BalanceChange) (before after : List PaymentReceipt)
    → ((c : BalanceChange) → o ≡ some c → IsOf key c)
    → add_receipt o before ≡ some after
    → receipts_of id after ≡ made_if (id_beq key (some id)) o ++ receipts_of id before
unfolding made_if
add_receipt-receipts id key none before after own e =
    let same : before ≡ after = ground (arith, e) in
    elim (Bool-cases (id_beq key (some id))) [
      | inl t ↦ rw (t, ← same) refl
      | inr f ↦ rw (f, ← same) refl
    ]
add_receipt-receipts id key (some c) before after own e = elim (Option-cases (create_receipt c)) [
  | inl refused ↦ absurd (ground (arith, e, refused))
  | inr (r, made) ↦
      let same : (r ∷ before) ≡ after = ground (arith, e, made) in
      let is_key : key ≡ some r.intent_id = sym (own c refl) ∙ create_receipt-id c r made in
      elim (Bool-cases (nat_beq r.intent_id id)) [
        | inl t ↦ rw (← same, is_key, t, made_of-some c r made) refl
        | inr f ↦ rw (← same, is_key, f) refl
      ]
]

handled :
    (id : Option ℕ) (cs : List BalanceChange) (done after : Receipted)
    → handle_group (id, cs) done ≡ some after
    → add_receipt (receipt_change cs) done.receipts ≡ some after.receipts
unfolding handle_group
handled id cs done after e = elim (Option-cases (add_receipt (receipt_change cs) done.receipts)) [
  | inl refused ↦ absurd (ground (arith, e, refused))
  | inr (receipts, made) ↦ ground (arith, e, made)
]

-- The groups after that of a key have none of it.
group-receipts :
    (id : ℕ) (key : Option ℕ) (cs : List BalanceChange)
    (groups : JsMap (Option ℕ) (List BalanceChange)) (before next after : List PaymentReceipt)
    → get key groups ≡ none
    → next ≡ made_if (id_beq key (some id)) (receipt_change cs) ++ before
    → after ≡ made_of (receipt_change (group_of (some id) groups)) ++ next
    → after ≡ made_of (receipt_change (group_of (some id) ((key, cs) ∷ groups))) ++ before
unfolding made_if
group-receipts id key cs groups before next after alone here rest =
    elim (Bool-cases (id_beq key (some id))) [
      | inl same ↦
          let is_key : key ≡ some id = (id_beq_iff key (some id)).0 same in
          let gone : group_of (some id) groups ≡ [] = rw (← is_key, alone) refl in
          let next' : next ≡ made_of (receipt_change cs) ++ before = rw same at here in
          let after' : after ≡ next = rw (gone, made_of-nil) at rest in rw same (after' ∙ next')
      | inr other ↦ let next' : next ≡ before = rw other at here in rw (other, ← next') rest
    ]

handle_groups-receipts :
    (id : ℕ) (groups : JsMap (Option ℕ) (List BalanceChange)) (done after : Receipted)
    → All (IsGroup (λ (c : BalanceChange). c.intent_id)) groups
    → Unique groups
    → handle_groups groups done ≡ some after
    → receipts_of id after.receipts
      ≡ made_of (receipt_change (group_of (some id) groups)) ++ receipts_of id done.receipts
unfolding handle_groups
handle_groups-receipts id [] done after each one e =
    let same : done ≡ after = ground (arith, e) in rw (made_of-nil, ← same) refl
handle_groups-receipts id ((key, cs) ∷ groups) done after each one e =
    elim (Option-cases (handle_group (key, cs) done)) [
      | inl refused ↦ absurd (ground (arith, e, refused))
      | inr (next, first) ↦
          let rest =
            handle_groups-receipts id groups next after each.1 one.1 (ground (arith, e, first)) in
          let here =
            add_receipt-receipts id key (receipt_change cs) done.receipts next.receipts
              (λ c. receipt_change-IsOf key cs c each.0.0) (handled key cs done next first) in
          group-receipts id key cs groups (receipts_of id done.receipts)
            (receipts_of id next.receipts) (receipts_of id after.receipts) one.0 here rest
    ]

-- The tables after an event that takes effect.
abbrev settled : (key : ℕ) → StatusDb → Receipted → StatusDb
settled key s done = record {
  handled = key ∷ s.handled;
  tables = finalize done.payment_ids (record s.tables { receipts = done.receipts });
}

change_payment_status-settled :
    (key : ℕ) (changes : List BalanceChange) (s after : StatusDb) (done : Receipted)
    → any (λ k. nat_beq k key) s.handled ≡ false
    → handle_groups
        (group_by (λ (c : BalanceChange). c.intent_id) changes)
        (record { payment_ids = []; receipts = s.tables.receipts })
      ≡ some done
    → change_payment_status key changes s ≡ some after
    → settled key s done ≡ after
unfolding change_payment_status
change_payment_status-settled key changes s after done new made e =
    let there : some (settled key s done) ≡ some after =
      rw (new, change_payment_status, made) at e in
    ground (arith, there)

settled-receipts :
    (key : ℕ) (s : StatusDb) (done : Receipted)
    → (settled key s done).tables.receipts ≡ done.receipts
unfolding finalize
settled-receipts key s done = refl

change_payment_status-made :
    (id key : ℕ) (changes : List BalanceChange) (s after : StatusDb)
    → any (λ k. nat_beq k key) s.handled ≡ false
    → change_payment_status key changes s ≡ some after
    → receipts_of id after.tables.receipts
      ≡ made_of
          (receipt_change (filter (λ (c : BalanceChange). id_beq c.intent_id (some id)) changes))
        ++ receipts_of id s.tables.receipts
unfolding change_payment_status
change_payment_status-made id key changes s after new e =
    let groups = group_by (λ (c : BalanceChange). c.intent_id) changes in
    let begun : Receipted = record { payment_ids = []; receipts = s.tables.receipts } in
    elim (Option-cases (handle_groups groups begun)) [
      | inl refused ↦ absurd (ground (arith, e, new, refused))
      | inr (done, made) ↦
          let there = change_payment_status-settled key changes s after done new made e in
          rw
            (
              ← there,
              settled-receipts key s done,
              ← group_of-group_by (λ (c : BalanceChange). c.intent_id) changes (some id),
            )
            (handle_groups-receipts id groups begun done
              (group_by-IsGroup (λ (c : BalanceChange). c.intent_id) changes).0
              (group_by-IsGroup (λ (c : BalanceChange). c.intent_id) changes).1 made)
    ]

-- An event that takes effect makes at most one receipt of a payment, whatever confirmed changes of
-- the payment it has: that of its first underpayment, else of its first overpayment, else of its first
-- payment, with the amount, the transaction and the time of that change.
pub change_payment_status-receipts :
    (id key : ℕ) (changes : List BalanceChange) (s after : StatusDb)
    → any (λ k. nat_beq k key) s.handled ≡ false
    → change_payment_status key changes s ≡ some after
    → (chosen : Option BalanceChange) × Chosen
        (filter (λ (c : BalanceChange). id_beq c.intent_id (some id)) changes)
        chosen
      × (receipts_of id after.tables.receipts ≡ made_of chosen ++ receipts_of id s.tables.receipts)
change_payment_status-receipts id key changes s after new e = (
  receipt_change (filter (λ (c : BalanceChange). id_beq c.intent_id (some id)) changes),
  receipt_change-Chosen (filter (λ (c : BalanceChange). id_beq c.intent_id (some id)) changes),
  change_payment_status-made id key changes s after new e,
)

change_payment_status-known :
    (key : ℕ) (changes : List BalanceChange) (s : StatusDb)
    → any (λ k. nat_beq k key) s.handled ≡ true
    → change_payment_status key changes s ≡ some s
unfolding change_payment_status
change_payment_status-known key changes s known = rw known refl

-- Where an event was handled, by a commit, its later deliveries change nothing.
pub change_payment_status-once :
    (key : ℕ) (changes again : List BalanceChange) (s after : StatusDb)
    → change_payment_status key changes s ≡ some after
    → change_payment_status key again after ≡ some after
unfolding change_payment_status
change_payment_status-once key changes again s after e =
    let groups = group_by (λ (c : BalanceChange). c.intent_id) changes in
    let begun : Receipted = record { payment_ids = []; receipts = s.tables.receipts } in
    elim (Bool-cases (any (λ k. nat_beq k key) s.handled)) [
      | inl known ↦
          let same : s ≡ after = ground (arith, e, known) in
          subst (λ a. change_payment_status key again a ≡ some a) same
            (change_payment_status-known key again s known)
      | inr new ↦ elim (Option-cases (handle_groups groups begun)) [
        | inl refused ↦ absurd (ground (arith, e, new, refused))
        | inr (done, made) ↦
            let there = change_payment_status-settled key changes s after done new made e in
            subst (λ a. change_payment_status key again a ≡ some a) there
              (change_payment_status-known key again (settled key s done)
                (ground (arith, nat_beq_iff key key)))
      ]
    ]
