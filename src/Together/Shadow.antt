-- ===== src/Together/Shadow.antt =====
-- The ledger beside its shadow, in which a sale is committed as soon as the backend has stored it.
use storepulse.Prelude.{
  ℕ, ◌≡◌, ◌≢◌, ◌⊎◌, refl, sym, ap, ◌∙◌, some, none, arith, inl, inr, Option-cases, Bool-cases, ◌==◌,
}
use storepulse.Simulator.Config.{SimulatorConfig}
use storepulse.Simulator.Rng.{Rng}
use storepulse.Simulator.Domain.{
  SaleLedgerEntry, Sales, OutboundEvent, find_sale, set_default, update_sale, take_out,
  commit_delivery,
}
use storepulse.Simulator.Domain.Ledger.{IsLedger, IsPriced}
use storepulse.Simulator.Domain.InFlight.{
  find-update_same, find-update_other, find-update_none, find-set_default_old, find-set_default_new,
  set_default-IsLedger,
}
use storepulse.Together.Invariant.{Cargo}
use storepulse.Together.Settling.{sold_entry}

-- Every entry of the ledger is in the shadow.
abbrev pub Covers : Sales → Sales → Type 0
Covers shadow sales =
    (i : ℕ) (e : SaleLedgerEntry) → find_sale i sales ≡ some e → find_sale i shadow ≡ some e

-- The entry that the delivery of an event commits, if any.
pub record Entry (event : OutboundEvent) : Type 0 where
  pub entry : SaleLedgerEntry
  pub key : entry.event_id ≡ event.payload.event_id
  pub priced : IsPriced entry
  pub commits : (s : Sales) → commit_delivery event s ≡ set_default entry s

abbrev pub Commits : OutboundEvent → Type 0
Commits event = Entry event ⊎ ((s : Sales) → commit_delivery event s ≡ s)

-- The shadow has the entry that the delivery will commit.
abbrev pub Entered : {event : OutboundEvent} → Sales → Sales → Commits event → Type 0
Entered sales shadow (inl x) =
    find_sale x.entry.event_id sales ≡ none → find_sale x.entry.event_id shadow ≡ some x.entry
Entered sales shadow (inr _) = Unit

abbrev pub Pending : Sales → Sales → OutboundEvent → Type 0
Pending sales shadow event = (c : Commits event) × Entered sales shadow c

pub Cargo-Commits :
    {S : Type 0} (rng : Rng S) (config : SimulatorConfig) (sales : Sales) (event : OutboundEvent)
    → Cargo rng config sales event
    → Commits event
unfolding commit_delivery
Cargo-Commits rng config sales event (inl (id, sold)) = inl (record {
  entry = sold_entry event sold.product;
  key = refl;
  priced = refl;
  commits = λ s.
      rw
        (
          ap (λ x. x.kind) sold.made,
          ap (λ x. x.sale_entry) sold.made,
          ap (λ x. x.payload.event_id) sold.made,
        )
        refl;
})
Cargo-Commits rng config sales event (inr r) = inr (λ s. rw (ap (λ x. x.kind) r.made) refl)

pub commit-Covers_before :
    (event : OutboundEvent) (s : Sales) → Commits event → Covers (commit_delivery event s) s
commit-Covers_before event s (inl x) i e found =
    rw (x.commits s) (find-set_default_old i x.entry e s found)
commit-Covers_before event s (inr same) i e found = rw (same s) found

pub commit-IsLedger :
    (event : OutboundEvent) (s : Sales)
    → Commits event
    → IsLedger s
    → IsLedger (commit_delivery event s)
commit-IsLedger event s (inl x) h = rw (x.commits s) (set_default-IsLedger x.entry s x.priced h)
commit-IsLedger event s (inr same) h = rw (same s) h

-- What is not in the later ledger is not in the earlier one.
absent-Covers :
    (shadow sales : Sales) (i : ℕ)
    → Covers shadow sales
    → find_sale i shadow ≡ none
    → find_sale i sales ≡ none
absent-Covers shadow sales i h absent = elim (Option-cases (find_sale i sales)) [
  | inl k ↦ k
  | inr (o, k) ↦ absurd (ground (arith, h i o k, absent))
]

-- A larger shadow, and a larger ledger, have what they need.
pub Pending-Covers :
    (shadow shadow' sales sales' : Sales) (event : OutboundEvent)
    → Covers shadow' shadow
    → Covers sales' sales
    → Pending sales shadow event
    → Pending sales' shadow' event
Pending-Covers shadow shadow' sales sales' event grows more (inl x, h) =
    (inl x, λ absent. grows x.entry.event_id x.entry (h (absent-Covers sales' sales _ more absent)))
Pending-Covers shadow shadow' sales sales' event grows more (inr same, h) = (inr same, tt)

-- The shadow covers the ledger once the delivery is committed there too.
pub commit-Covers :
    (shadow sales : Sales) (event : OutboundEvent)
    → Pending sales shadow event
    → Covers shadow sales
    → Covers shadow (commit_delivery event sales)
commit-Covers shadow sales event (inr same, _) h i e found = h i e (rw (sym (same sales)) found)
commit-Covers shadow sales event (inl x, entered) h i e found =
    let found' : find_sale i (set_default x.entry sales) ≡ some e =
      rw (sym (x.commits sales)) found in
    elim (Option-cases (find_sale i sales)) [
      | inr (o, k) ↦ h i o k ∙ ground (arith, found', find-set_default_old i x.entry o sales k)
      | inl k ↦
          let added = find-set_default_new i x.entry sales k in
          let is_i : x.entry.event_id ≡ i = ground (arith, added, found') in
          let is_e : x.entry ≡ e = ground (arith, added, found', is_i) in
          rw (sym is_i, sym is_e) (entered (rw is_i k))
    ]

-- An event that is stored is entered in the shadow.
pub commit-Pending :
    (shadow sales : Sales) (event : OutboundEvent)
    → find_sale event.payload.event_id shadow ≡ none
    → Commits event
    → Pending sales (commit_delivery event shadow) event
commit-Pending shadow sales event absent (inr same) = (inr same, tt)
commit-Pending shadow sales event absent (inl x) = (
  inl x,
  λ _.
      rw (x.commits shadow)
        (ground (arith, find-set_default_new x.entry.event_id x.entry shadow (rw x.key absent))),
)

module _ (shadow sales : Sales) (o : SaleLedgerEntry) (q a : ℕ)
    (known : find_sale o.event_id sales ≡ some o) (h : Covers shadow sales) where
  -- A reservation in both.
  pub reserve-Covers :
      Covers
        (update_sale o.event_id (take_out q a) shadow)
        (update_sale o.event_id (take_out q a) sales)
  reserve-Covers i e found = elim (Bool-cases (o.event_id == i)) [
    | inl p ↦
        let same : i ≡ o.event_id = ground arith in
        let is_e : take_out q a o ≡ e = ground (
          arith,
          same,
          found,
          find-update_same o.event_id (take_out q a) o sales (λ x. refl) known,
        ) in
        rw (same, sym is_e)
          (find-update_same o.event_id (take_out q a) o shadow (λ x. refl) (h o.event_id o known))
    | inr p ↦
        let other : i ≢ o.event_id = ground arith in
        find-update_other i o.event_id (take_out q a) shadow (λ x. refl) other
        ∙ h i e
            (sym (find-update_other i o.event_id (take_out q a) sales (λ x. refl) other) ∙ found)
  ]

  pub reserve-Pending :
      (event : OutboundEvent)
      → Pending sales shadow event
      → Pending
          (update_sale o.event_id (take_out q a) sales)
          (update_sale o.event_id (take_out q a) shadow)
          event
  reserve-Pending event (inr same, _) = (inr same, tt)
  reserve-Pending event (inl x, entered) = (
    inl x,
    λ absent.
        let was =
          (find-update_none x.entry.event_id o.event_id (take_out q a) sales (λ y. refl)).0
            absent in
        let other : x.entry.event_id ≢ o.event_id = λ k. ground (arith, k, was, known) in
        find-update_other x.entry.event_id o.event_id (take_out q a) shadow (λ y. refl) other
        ∙ entered was,
  )
