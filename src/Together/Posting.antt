-- ===== src/Together/Posting.antt =====
-- The post of an event in flight is accepted.
use native.Mathlib.Nat.{mul-add}
use storepulse.Prelude.{
  ℕ, ◌+◌, ◌≤◌, ◌≡◌, refl, sym, ap, ◌∙◌, Bool, List, ◌∷◌, ◌++◌, arith, inl, inr,
}
use storepulse.Simulator.Config.{SimulatorConfig}
use storepulse.Simulator.Rng.{Rng}
use storepulse.Simulator.Domain.{SaleLedgerEntry, OutboundEvent}
use storepulse.Simulator.Domain.Refunding.{mul_mono}
use storepulse.Simulator.Domain.Traffic.{held}
use storepulse.Simulator.Domain.InFlight.{held-split}
use storepulse.Backend.Models.{RefundEventCreate, refund_event, JsonEq}
use storepulse.Backend.Database.{Db, refunded_quantity}
use storepulse.Backend.Database.Lookup.{find_event_id}
use storepulse.Backend.Session.{run}
use storepulse.Backend.Ingestion.{ingest}
use storepulse.Backend.Ingestion.Stored.{Stored, stored_db, accepted_result}
use storepulse.Backend.Ingestion.Decision.{ingest-Stored}
use storepulse.Backend.Ingestion.Refunds.{Returnable, refund-IsAccepted_iff}
use storepulse.Backend.Realtime.{SetChange}
use storepulse.Backend.Api.{replied, create_event}
use storepulse.Backend.Validation.{Pydantic, post_event}
use storepulse.Backend.Validation.Printing.{
  Printer, IsCodec, event_json, received, received_base, IsPrintable, validate_event-event_json,
}
use storepulse.Backend.Validation.Delivery.{IsServed, is_some-some, sold-Stored, sold-IsPrintable}
use storepulse.Together.Invariant.{Joint, Backed, IsRefund, Cargo, IsAbsent, Sound}

module _ {J : Type 0} (config : SimulatorConfig) (w : Printer J) (fl : List OutboundEvent)
    (db : Db J) (served : IsServed config db) (event : OutboundEvent) where
  refunded-IsPrintable :
      {sales : List SaleLedgerEntry} (r : IsRefund config sales event)
      → Backed config fl db r.source.event_id r.entry
      → IsPrintable w event.payload
  refunded-IsPrintable r b =
      let shop = ap (λ e. e.payload.store_code) r.made in
      let label = ap (λ e. e.payload.source_instance) r.made in
      let sku = ap (λ e. e.payload.product_sku) r.made ∙ sym r.same_sku in
      record {
        kind =
            rw (ap (λ e. e.payload.event_type) r.made, ap (λ e. e.payload.original_event_id) r.made)
              refl;
        store_plain = rw shop served.store_plain;
        sku_plain = rw sku b.sku_plain;
        source_plain = rw label served.label_plain;
        bounded = record {
          positive = record {
            quantity_pos = r.at_least_one;
            amount_pos =
                rw (ap (λ e. e.payload.amount_cents) r.made, sym r.same_price)
                  (omega (
                    arith,
                    mul_mono r.entry.unit_price_cents 1 event.payload.quantity r.at_least_one,
                    b.price_pos,
                  ));
          };
          store_code = rw shop served.store_within;
          product_sku = rw sku b.sku_within;
          source_instance = rw label served.label_within;
        };
      }

  -- A refund in flight is a part of what is in flight of its sale.
  pub refunded_held :
      {sales : List SaleLedgerEntry} (xs ys : List OutboundEvent) (r : IsRefund config sales event)
      → fl ≡ xs ++ event ∷ ys
      → held r.source.event_id fl ≡ event.payload.quantity + held r.source.event_id (xs ++ ys)
  refunded_held xs ys r e = ground (
    arith,
    ap (λ l. held r.source.event_id l) e,
    held-split r.source.event_id xs ys event,
    ap (λ x. x.refund_original_event_id) r.made,
    ap (λ x. x.reserved_quantity) r.made,
  )

  abbrev refund_of_payload : ℕ → RefundEventCreate J
  refund_of_payload i = record { base = received_base w event.payload; original_event_id = i }

  refunded-Returnable :
      {sales : List SaleLedgerEntry} (xs ys : List OutboundEvent) (r : IsRefund config sales event)
      → fl ≡ xs ++ event ∷ ys
      → IsAbsent db event
      → Backed config fl db r.source.event_id r.entry
      → Returnable db (refund_of_payload r.source.event_id)
  refunded-Returnable xs ys r e absent b =
      let q : ℕ = event.payload.quantity in
      let before : ℕ = refunded_quantity r.source.event_id db.events in
      let key = find_event_id r.source.event_id db.events b.row b.found in
      let fits : before + q ≤ b.row.quantity = omega (arith, b.room, refunded_held xs ys r e) in
      let (store, in_stores) = is_some-some _ served.store_known in
      record {
        store = store;
        product = b.product;
        original = b.row;
        absent = absent;
        store_found = rw (ap (λ e. e.payload.store_code) r.made) in_stores;
        product_found = rw (ap (λ e. e.payload.product_sku) r.made, sym r.same_sku) b.product_found;
        refundable = record {
          found = b.found;
          is_sale = b.is_sale;
          top_level = b.top_level;
          same_store = b.same_store store in_stores;
          same_product = b.same_product;
          quantity_left = rw key fits;
          amount_left =
              rw
                (
                  key,
                  ap (λ x. x.payload.amount_cents) r.made,
                  sym r.same_price,
                  b.refunds_price,
                  b.price,
                  sym (mul-add r.entry.unit_price_cents before q),
                )
                (mul_mono r.entry.unit_price_cents (before + q) b.row.quantity fits);
        };
      }

module _ {J S : Type 0} ⦃j : JsonEq J⦄ (rng : Rng S) (config : SimulatorConfig) (p : Pydantic J)
    (w : Printer J) (c : IsCodec p w) (fails : ℕ → Bool) (meanwhile : List SetChange) (clock : ℕ)
    (t : Joint J) (sound : Sound rng config t) (xs ys : List OutboundEvent) (event : OutboundEvent)
    (e : t.in_flight ≡ xs ++ event ∷ ys) (absent : IsAbsent t.backend.db event) where
  pub Cargo-IsPrintable : Cargo rng config t.sales event → IsPrintable w event.payload
  Cargo-IsPrintable (inl (id, sold)) =
      sold-IsPrintable rng config t.backend.db sound.served id event sold w
  Cargo-IsPrintable (inr r) =
      refunded-IsPrintable config w t.in_flight t.backend.db sound.served event r
        (sound.backed r.source.event_id r.entry r.found)

  pub Cargo-Stored :
      Cargo rng config t.sales event
      → Stored clock
          (received w event.payload)
          t.backend.db
          (run clock (ingest (received w event.payload)) t.backend.db t.backend.db)
  Cargo-Stored (inl (id, sold)) = rw (ap (λ x. x.payload.original_event_id) sold.made) (
      sold-Stored rng config p w c fails meanwhile clock t.backend sound.well sound.served id
        (rw (sym (ap (λ x. x.payload.event_id) sold.made)) absent) event sold)
  Cargo-Stored (inr r) =
      let back = sound.backed r.source.event_id r.entry r.found in
      let asked =
        refund_of_payload config w t.in_flight t.backend.db sound.served event r.source.event_id in
      rw (ap (λ x. x.payload.original_event_id) r.made) (
        ingest-Stored clock t.backend.db (refund_event asked) (
          (refund-IsAccepted_iff clock t.backend.db sound.well asked
              (Cargo-IsPrintable (inr r)).bounded.positive).1
            (refunded-Returnable config w t.in_flight t.backend.db sound.served event xs ys r e
              absent back)))

  -- What a post replies and leaves.
  pub Cargo-posted :
      (k : Cargo rng config t.sales event)
      → let s = Cargo-Stored k in
        let h = post_event p fails meanwhile clock (event_json w event.payload) t.backend in
        (h.reply ≡ replied 201 (accepted_result clock (received w event.payload)))
        × (h.state.db ≡ stored_db clock (received w event.payload) s.store s.product t.backend.db)
  unfolding post_event create_event
  Cargo-posted k =
      rw
        (
          validate_event-event_json p w c event.payload (Cargo-IsPrintable k),
          (Cargo-Stored k).result,
        )
        (refl, refl)
