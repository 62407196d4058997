-- ===== src/Together/Settling.antt =====
-- An accepted event, once it is settled, keeps the invariant.
use mathlib.Core.Path.{subst}
use storepulse.Prelude.{
  ℕ, ◌*◌, ◌≤◌, ◌≡◌, refl, sym, ap, ◌∙◌, some, none, List, ◌∷◌, ◌++◌, arith, All, inl, inr,
  Option-cases, Bool-cases, ◌==◌,
}
use storepulse.Simulator.Config.{SimulatorConfig}
use storepulse.Simulator.Rng.{Rng}
use storepulse.Simulator.Domain.{
  ProductSpec, SaleLedgerEntry, OutboundEvent, find_sale, set_default,
}
use storepulse.Simulator.Domain.Making.{IsSale}
use storepulse.Simulator.Domain.Traffic.{held}
use storepulse.Simulator.Domain.InFlight.{
  held-split, find-set_default_old, find-set_default_new, set_default-IsLedger,
}
use storepulse.Backend.Models.{Store, Product, EventCreate, refund_event, sale_event, base_of}
use storepulse.Backend.Database.{Db, find_store_code, find_product_sku}
use storepulse.Backend.Database.Lookup.{find_event-cons, refunded-cons}
use storepulse.Backend.Ingestion.{event_values}
use storepulse.Backend.Ingestion.Stored.{stored_db, stored_row}
use storepulse.Backend.Ingestion.Consistency.{refunded_fresh}
use storepulse.Backend.Ingestion.WellFormed.{IsWellFormed}
use storepulse.Backend.Realtime.{ConnectionManager}
use storepulse.Backend.Validation.Printing.{Printer, received_base}
use storepulse.Backend.Validation.Delivery.{listed}
use storepulse.Together.Invariant.{Joint, Backed, IsRefund, Cargo, Distinct, IsAbsent, Sound}
use storepulse.Together.Making.{All-map}
use storepulse.Together.Posting.{refunded_held}
use storepulse.Together.Storing.{stored-IsServed, stored-IsAbsent, stored-store, stored-Backed}
use storepulse.Together.Flight.{All-split, All-both, Distinct-split, held_absent, set_default-Cargo}

-- The entry that the delivery of a sale commits.
abbrev pub sold_entry : OutboundEvent → ProductSpec → SaleLedgerEntry
sold_entry event spec = record {
  event_id = event.payload.event_id;
  product_sku = spec.sku;
  unit_price_cents = spec.unit_price_cents;
  occurred_at = event.payload.occurred_at;
  remaining_quantity = event.payload.quantity;
  remaining_amount_cents = spec.unit_price_cents * event.payload.quantity;
}

module _ {J S : Type 0} (rng : Rng S) (config : SimulatorConfig) (w : Printer J) (clock : ℕ)
    (t : Joint J) (sound : Sound rng config t) (xs ys : List OutboundEvent) (event : OutboundEvent)
    (e : t.in_flight ≡ xs ++ event ∷ ys) (store : Store) (product : Product) where
  -- The database once the event is stored.
  abbrev pub grown : EventCreate J → Db J
  grown p = stored_db clock p store product t.backend.db

  others-IsAbsent :
      (p : EventCreate J)
      → (base_of p).event_id ≡ event.payload.event_id
      → All (IsAbsent (grown p)) (xs ++ ys)
  others-IsAbsent p same =
      let absent = (All-split (IsAbsent t.backend.db) xs ys event (rw (sym e) sound.absent)).1 in
      let distinct = (Distinct-split xs ys event (rw (sym e) sound.distinct)).0 in
      All-both (xs ++ ys)
        (λ x a d. stored-IsAbsent config clock p store product t.backend.db x (λ k. d (k ∙ same)) a)
        absent distinct

  IsAbsent-event : IsAbsent t.backend.db event
  IsAbsent-event = (All-split (IsAbsent t.backend.db) xs ys event (rw (sym e) sound.absent)).0

  remaining-Cargo : All (Cargo rng config t.sales) (xs ++ ys)
  remaining-Cargo = (All-split (Cargo rng config t.sales) xs ys event (rw (sym e) sound.cargo)).1

  remaining-Distinct : Distinct (xs ++ ys)
  remaining-Distinct = (Distinct-split xs ys event (rw (sym e) sound.distinct)).1

  held-less : (i : ℕ) → held i (xs ++ ys) ≤ held i t.in_flight
  held-less i = omega (arith, ap (λ l. held i l) e, held-split i xs ys event)

  abbrev pub asked_refund : ℕ → EventCreate J
  asked_refund i =
      refund_event (record { base = received_base w event.payload; original_event_id = i })

  refund_grown-Backed :
      (r : IsRefund config t.sales event) (i : ℕ) (entry : SaleLedgerEntry)
      → find_sale i t.sales ≡ some entry
      → Backed config (xs ++ ys) (grown (asked_refund r.source.event_id)) i entry
  unfolding event_values
  refund_grown-Backed r i entry found = elim (Bool-cases (r.source.event_id == i)) [
    | inl k ↦
        let is_i : r.source.event_id ≡ i = ground (arith, k) in
        let is_entry : entry ≡ r.entry = ground (arith, found, r.found, k) in
        stored-Backed config clock (asked_refund r.source.event_id) store product t.backend.db
          t.in_flight (xs ++ ys) i event.payload.quantity entry IsAbsent-event (ground (arith, k))
          (rw (k, ap (λ x. x.payload.amount_cents) r.made, is_entry, r.same_price) refl)
          (rw (sym is_i) (
            omega (
              arith,
              refunded_held config w t.in_flight t.backend.db sound.served event xs ys r e,
            )))
          (sound.backed i entry found)
    | inr k ↦
        stored-Backed config clock (asked_refund r.source.event_id) store product t.backend.db
          t.in_flight (xs ++ ys) i 0 entry IsAbsent-event (ground (arith, k)) (ground (arith, k))
          (omega (arith, held-less i)) (sound.backed i entry found)
  ]

  pub refund_settled :
      (r : IsRefund config t.sales event) (m : ConnectionManager)
      → IsWellFormed (grown (asked_refund r.source.event_id))
      → Sound rng config (record {
        sales = t.sales;
        in_flight = xs ++ ys;
        backend = record { db = grown (asked_refund r.source.event_id); manager = m };
      })
  refund_settled r m well = record {
    well = well;
    served =
        stored-IsServed config clock (asked_refund r.source.event_id) store product t.backend.db
          sound.served;
    ledger = sound.ledger;
    backed = refund_grown-Backed r;
    cargo = remaining-Cargo;
    absent = others-IsAbsent (asked_refund r.source.event_id) refl;
    distinct = remaining-Distinct;
  }

  abbrev pub asked_sale : EventCreate J
  asked_sale = sale_event (received_base w event.payload)

  sold-Backed :
      (id : ℕ) (sold : IsSale rng config id event)
      → find_store_code event.payload.store_code t.backend.db.stores ≡ some store
      → find_product_sku event.payload.product_sku t.backend.db.products ≡ some product
      → find_sale event.payload.event_id t.sales ≡ none
      → Backed config
          (xs ++ ys)
          (grown asked_sale)
          event.payload.event_id
          (sold_entry event sold.product)
  unfolding event_values
  sold-Backed id sold store_found product_found missing =
      let i : ℕ = event.payload.event_id in
      let fresh =
        refunded_fresh i t.backend.db.events IsAbsent-event sound.well.consistent.linked in
      let grows = refunded-cons i (stored_row clock asked_sale store product) t.backend.db.events in
      let still = held_absent rng config i t.sales (xs ++ ys) missing remaining-Cargo in
      let spec = listed rng config t.backend.db sound.served id event sold in
      record {
        row = stored_row clock asked_sale store product;
        found = ground (
          arith,
          find_event-cons i (stored_row clock asked_sale store product) t.backend.db.events,
        );
        is_sale = refl;
        top_level = refl;
        price_pos = spec.price_pos;
        price = ap (λ x. x.payload.amount_cents) sold.made;
        refunds_price = rw (grows.0, grows.1, fresh.0, fresh.1) (omega arith);
        room = rw (grows.0, fresh.0, still) (omega arith);
        same_store = λ s found.
            let (s0, e0, same) =
              stored-store config clock asked_sale store product t.backend.db config.store_code s
                found in
            ground (arith, e0, same, store_found, ap (λ x. x.payload.store_code) sold.made);
        product = product;
        product_found = rw (sym (ap (λ x. x.payload.product_sku) sold.made)) product_found;
        same_product = refl;
        sku_plain = spec.sku_plain;
        sku_within = spec.sku_within;
      }

  sale_grown-Backed :
      (id : ℕ) (sold : IsSale rng config id event)
      → find_store_code event.payload.store_code t.backend.db.stores ≡ some store
      → find_product_sku event.payload.product_sku t.backend.db.products ≡ some product
      → (i : ℕ) (entry : SaleLedgerEntry)
      → find_sale i (set_default (sold_entry event sold.product) t.sales) ≡ some entry
      → Backed config (xs ++ ys) (grown asked_sale) i entry
  unfolding event_values
  sale_grown-Backed id sold store_found product_found i entry found =
      let x : SaleLedgerEntry = sold_entry event sold.product in
      elim (Option-cases (find_sale i t.sales)) [
        | inr (o, k) ↦
            let is_o : o ≡ entry = ground (arith, found, find-set_default_old i x o t.sales k) in
            stored-Backed config clock asked_sale store product t.backend.db t.in_flight (xs ++ ys)
              i 0 entry IsAbsent-event refl (omega arith) (omega (arith, held-less i))
              (sound.backed i entry (k ∙ ap some is_o))
        | inl k ↦
            let added = find-set_default_new i x t.sales k in
            let is_i : event.payload.event_id ≡ i = ground (arith, added, found) in
            let is_x : x ≡ entry = ground (arith, added, found, is_i) in
            subst (λ n. Backed config (xs ++ ys) (grown asked_sale) n entry) is_i
              (subst (λ y. Backed config (xs ++ ys) (grown asked_sale) event.payload.event_id y)
                is_x (sold-Backed id sold store_found product_found (rw is_i k)))
      ]

  pub sale_settled :
      (id : ℕ) (sold : IsSale rng config id event) (m : ConnectionManager)
      → find_store_code event.payload.store_code t.backend.db.stores ≡ some store
      → find_product_sku event.payload.product_sku t.backend.db.products ≡ some product
      → IsWellFormed (grown asked_sale)
      → Sound rng config (record {
        sales = set_default (sold_entry event sold.product) t.sales;
        in_flight = xs ++ ys;
        backend = record { db = grown asked_sale; manager = m };
      })
  sale_settled id sold m store_found product_found well = record {
    well = well;
    served = stored-IsServed config clock asked_sale store product t.backend.db sound.served;
    ledger = set_default-IsLedger (sold_entry event sold.product) t.sales refl sound.ledger;
    backed = sale_grown-Backed id sold store_found product_found;
    cargo =
        All-map (set_default-Cargo rng config (sold_entry event sold.product) t.sales) (xs ++ ys)
          remaining-Cargo;
    absent = others-IsAbsent asked_sale refl;
    distinct = remaining-Distinct;
  }
