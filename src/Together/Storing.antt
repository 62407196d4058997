-- ===== src/Together/Storing.antt =====
-- What a row that is stored does to the tables of the invariant.
use native.Mathlib.Nat.{mul-add}
use storepulse.Prelude.{
  ℕ, ◌+◌, ◌*◌, ◌≤◌, ◌≡◌, ◌≢◌, sym, some, none, String, List, arith, inl, inr, if◌then◌else◌,
  Option-cases,
}
use storepulse.Simulator.Config.{SimulatorConfig}
use storepulse.Simulator.Domain.{SaleLedgerEntry, OutboundEvent}
use storepulse.Simulator.Domain.Traffic.{held}
use storepulse.Backend.Models.{Store, Product, EventCreate, base_of}
use storepulse.Backend.Database.{Db, find_event, find_store_code, is_refund_of, refunded_quantity}
use storepulse.Backend.Database.Lookup.{
  find_event-cons, refunded-cons, find_store_code-touch_store, touched_keys,
}
use storepulse.Backend.Ingestion.{event_values}
use storepulse.Backend.Ingestion.Stored.{stored_db, stored_row}
use storepulse.Backend.Ingestion.Consistency.{find_event_weaken}
use storepulse.Backend.Validation.Delivery.{IsServed}
use storepulse.Together.Invariant.{Backed, IsAbsent}

module _ {J : Type 0} (config : SimulatorConfig) (clock : ℕ) (p : EventCreate J) (store : Store)
    (product : Product) (db : Db J) where
  pub stored-IsServed : IsServed config db → IsServed config (stored_db clock p store product db)
  stored-IsServed h = record {
    store_plain = h.store_plain;
    store_within = h.store_within;
    label_plain = h.label_plain;
    label_within = h.label_within;
    amount_fits = h.amount_fits;
    store_known = ground (
      arith,
      h.store_known,
      find_store_code-touch_store store.id clock clock config.store_code db.stores,
    );
    stocked = h.stocked;
  }

  -- An id that is not the row's stays absent.
  pub stored-IsAbsent :
      (event : OutboundEvent)
      → event.payload.event_id ≢ (base_of p).event_id
      → IsAbsent db event
      → IsAbsent (stored_db clock p store product db) event
  unfolding event_values
  stored-IsAbsent event other absent = ground (
    arith,
    other,
    absent,
    find_event-cons event.payload.event_id (stored_row clock p store product) db.events,
  )

  -- Our store under its code has the id that it had.
  pub stored-store :
      (code : String) (s : Store)
      → find_store_code code (stored_db clock p store product db).stores ≡ some s
      → (s0 : Store) × (find_store_code code db.stores ≡ some s0) × (s0.id ≡ s.id)
  stored-store code s found = elim (Option-cases (find_store_code code db.stores)) [
    | inl e ↦
        absurd (
          ground (arith, e, found, find_store_code-touch_store store.id clock clock code db.stores))
    | inr (s0, e) ↦ (
      s0,
      e,
      ground (
        arith,
        e,
        found,
        find_store_code-touch_store store.id clock clock code db.stores,
        touched_keys store.id clock clock s0,
      ),
    )
  ]

  -- An entry stays backed where the row refunds `q` of it, at its price, that was in flight.
  pub stored-Backed :
      (fl fl' : List OutboundEvent) (i q : ℕ) (e : SaleLedgerEntry)
      → find_event (base_of p).event_id db.events ≡ none
      → (if is_refund_of i (event_values p store product) then (base_of p).quantity else 0) ≡ q
      → (if is_refund_of i (event_values p store product) then (base_of p).amount_cents else 0)
        ≡ e.unit_price_cents * q
      → q + held i fl' ≤ held i fl
      → Backed config fl db i e
      → Backed config fl' (stored_db clock p store product db) i e
  unfolding event_values
  stored-Backed fl fl' i q e absent quantity amount less b =
      let (grown_q, grown_a) = refunded-cons i (stored_row clock p store product) db.events in
      record {
        row = b.row;
        found =
            find_event_weaken (stored_row clock p store product) db.events i b.row absent b.found;
        is_sale = b.is_sale;
        top_level = b.top_level;
        price = b.price;
        refunds_price =
            rw (grown_q, grown_a, quantity, amount, b.refunds_price)
              (sym (mul-add e.unit_price_cents q (refunded_quantity i db.events)));
        room = rw (grown_q, quantity) (omega (arith, b.room, less));
        same_store = λ s found.
            let (s0, e0, same) = stored-store config.store_code s found in
            ground (arith, same, b.same_store s0 e0);
        product = b.product;
        product_found = b.product_found;
        same_product = b.same_product;
        price_pos = b.price_pos;
        sku_plain = b.sku_plain;
        sku_within = b.sku_within;
      }
