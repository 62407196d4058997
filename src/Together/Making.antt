-- ===== src/Together/Making.antt =====
-- An event that is made keeps the invariant.
use storepulse.Prelude.{
  ℕ, ◌≡◌, refl, sym, ap, ◌∙◌, some, List, [], ◌∷◌, All, arith, inl, inr, ◌==◌, Bool-cases,
}
use mathlib.Core.Path.{subst}
use storepulse.Simulator.Config.{SimulatorConfig}
use storepulse.Simulator.Rng.{Rng}
use storepulse.Simulator.Domain.{
  SaleLedgerEntry, Sales, OutboundEvent, find_sale, update_sale, take_out,
}
use storepulse.Simulator.Domain.Refunding.{Reserves}
use storepulse.Simulator.Domain.Making.{IsSale}
use storepulse.Simulator.Domain.Traffic.{held}
use storepulse.Simulator.Domain.InFlight.{find-update_same, find-update_other}
use storepulse.Backend.Database.{Db}
use storepulse.Together.{IsFresh}
use storepulse.Together.Invariant.{Joint, Backed, IsRefund, Cargo, Sound, reweigh}

pub All-map {ℓ} :
    {A : Type 0} {P Q : A → Type ℓ} (f : (a : A) → P a → Q a) (l : List A) → All P l → All Q l
All-map f [] h = tt
All-map f (x ∷ l) h = (f x h.0, All-map f l h.1)

-- A change of one entry that keeps its key, product and price.
take_out-IsRefund :
    (config : SimulatorConfig) (j q a : ℕ) (sales : Sales) (event : OutboundEvent)
    → IsRefund config sales event
    → IsRefund config (update_sale j (take_out q a) sales) event
take_out-IsRefund config j q a sales event h = elim (Bool-cases (h.source.event_id == j)) [
  | inl p ↦
      let same : h.source.event_id ≡ j = ground arith in
      record {
        source = h.source;
        entry = take_out q a h.entry;
        id = h.id;
        made = h.made;
        at_least_one = h.at_least_one;
        found =
            rw same
              (find-update_same j (take_out q a) h.entry sales (λ x. refl) (rw (sym same) h.found));
        same_sku = h.same_sku;
        same_price = h.same_price;
      }
  | inr p ↦ record {
    source = h.source;
    entry = h.entry;
    id = h.id;
    made = h.made;
    at_least_one = h.at_least_one;
    found =
        find-update_other h.source.event_id j (take_out q a) sales (λ x. refl) (ground arith)
        ∙ h.found;
    same_sku = h.same_sku;
    same_price = h.same_price;
  }
]

module _ (config : SimulatorConfig) (id : ℕ) (sales after : Sales) (event : OutboundEvent)
    (o : SaleLedgerEntry) (r : Reserves config id sales event o after) where
  Reserves-IsRefund : IsRefund config after event
  Reserves-IsRefund = rw r.taken_out (record {
    source = o;
    entry = take_out event.payload.quantity event.payload.amount_cents o;
    id = id;
    made = r.made;
    at_least_one = r.at_least_one;
    found =
        find-update_same o.event_id (take_out event.payload.quantity event.payload.amount_cents) o
          sales (λ x. refl) r.in_ledger;
    same_sku = refl;
    same_price = refl;
  })

  reserve-Backed :
      {J : Type 0} (fl : List OutboundEvent) (db : Db J)
      → ((i : ℕ) (e : SaleLedgerEntry) → find_sale i sales ≡ some e → Backed config fl db i e)
      → (i : ℕ) (e : SaleLedgerEntry)
      → find_sale i (
          update_sale o.event_id (take_out event.payload.quantity event.payload.amount_cents) sales)
        ≡ some e
      → Backed config (event ∷ fl) db i e
  unfolding held
  reserve-Backed fl db backed i e found =
      let q : ℕ = event.payload.quantity in
      let a : ℕ = event.payload.amount_cents in
      elim (Bool-cases (o.event_id == i)) [
        | inl p ↦
            let same : i ≡ o.event_id = ground arith in
            let is_e : take_out q a o ≡ e = ground (
              arith,
              same,
              found,
              find-update_same o.event_id (take_out q a) o sales (λ x. refl) r.in_ledger,
            ) in
            rw (sym is_e) (
              reweigh config fl (event ∷ fl) db i o (take_out q a o) refl refl
                (ground (arith, r.releases, r.reserved_quantity_sent, r.within_quantity, same))
                (backed i o (rw same r.in_ledger)))
        | inr p ↦ reweigh config fl (event ∷ fl) db i e e refl refl (ground (arith, r.releases)) (
            backed i e (
              sym (find-update_other i o.event_id (take_out q a) sales (λ x. refl) (ground arith))
              ∙ found))
      ]

module _ {S : Type 0} (rng : Rng S) (config : SimulatorConfig) where
  kept-Cargo :
      (sales : Sales) (j q a : ℕ) (event : OutboundEvent)
      → Cargo rng config sales event
      → Cargo rng config (update_sale j (take_out q a) sales) event
  kept-Cargo sales j q a event (inl sold) = inl sold
  kept-Cargo sales j q a event (inr r) = inr (take_out-IsRefund config j q a sales event r)

module _ {J S : Type 0} (rng : Rng S) (config : SimulatorConfig) where
  pub sale-Sound :
      (t : Joint J) (id : ℕ) (event : OutboundEvent)
      → IsSale rng config id event
      → IsFresh id t.backend.db t.in_flight
      → Sound rng config t
      → Sound rng config (record t { in_flight = event ∷ t.in_flight })
  unfolding held
  sale-Sound t id event sold fresh sound =
      let key = ap (λ e. e.payload.event_id) sold.made in
      record {
        well = sound.well;
        served = sound.served;
        ledger = sound.ledger;
        backed = λ i e found.
            reweigh config t.in_flight (event ∷ t.in_flight) t.backend.db i e e refl refl
              (ground (arith, ap (λ x. x.refund_original_event_id) sold.made))
              (sound.backed i e found);
        cargo = (inl (id, sold), sound.cargo);
        absent = (rw key fresh.0, sound.absent);
        distinct = (rw key fresh.1, sound.distinct);
      }

  pub refund-Sound :
      (t : Joint J) (id : ℕ) (event : OutboundEvent) (o : SaleLedgerEntry) (after : Sales)
      → Reserves config id t.sales event o after
      → IsFresh id t.backend.db t.in_flight
      → Sound rng config t
      → Sound rng config (record t { sales = after; in_flight = event ∷ t.in_flight })
  refund-Sound t id event o after r fresh sound =
      let key = ap (λ e. e.payload.event_id) r.made in
      record {
        well = sound.well;
        served = sound.served;
        ledger = r.still_ledger;
        backed = λ i e found.
            reserve-Backed config id t.sales after event o r t.in_flight t.backend.db sound.backed i
              e (rw (sym r.taken_out) found);
        cargo = (
          inr (Reserves-IsRefund config id t.sales after event o r),
          subst (λ m. All (Cargo rng config m) t.in_flight) (sym r.taken_out)
              (All-map
                (kept-Cargo rng config t.sales o.event_id event.payload.quantity
                  event.payload.amount_cents)
                t.in_flight sound.cargo),
        );
        absent = (rw key fresh.0, sound.absent);
        distinct = (rw key fresh.1, sound.distinct);
      }
