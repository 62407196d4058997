-- ===== src/Backend/Validation/Delivery.antt =====
-- A sale of the simulator, from its making to its row in the database.
use mathlib.Core.Option.{some-injective}
use storepulse.Prelude.{
  ℕ, zero, suc, ◌*◌, ◌≤◌, ◌≡◌, refl, Bool, true, Option, none, some, List, [], ◌∷◌, arith, sym, ◌∙◌,
  ap, All,
}
use storepulse.Prelude.Int.{pos_part}
use storepulse.Simulator.Config.{SimulatorConfig}
use storepulse.Simulator.Rng.{Rng}
use storepulse.Simulator.Domain.{ProductSpec, product_catalog, Sales, OutboundEvent, get_elem?}
use storepulse.Simulator.Domain.Generator.{make_sale}
use storepulse.Simulator.Domain.Making.{IsSpan, IsSale, make_sale_total}
use storepulse.Backend.Models.{sale, PosEvent, sale_event, JsonEq, max_bigint}
use storepulse.Backend.Database.{Db, find_event, find_store_code, find_product_sku, is_some}
use storepulse.Backend.Session.{run}
use storepulse.Backend.Classify.{EventIngestionResult, accepted}
use storepulse.Backend.Ingestion.{event_values, ingest}
use storepulse.Backend.Ingestion.WellFormed.{IsWellFormed}
use storepulse.Backend.Ingestion.Stored.{Stored, stored_row}
use storepulse.Backend.Ingestion.Decision.{ingest-Stored}
use storepulse.Backend.Ingestion.Sales.{Sellable, sale-IsAccepted_iff}
use storepulse.Backend.Realtime.{SetChange}
use storepulse.Backend.Api.{Handled, replied, BackendState, create_event}
use storepulse.Backend.Validation.{Pydantic, validate_event, post_event}
use storepulse.Backend.Validation.Bounds.{Within}
use storepulse.Backend.Validation.Catalog.{IsListed, catalog-IsListed, product_within}
use storepulse.Backend.Validation.Printing.{
  is_plain, Printer, IsCodec, event_json, received_base, IsPrintable, validate_event-event_json,
}

All-get_elem? :
    {A : Type 0} (P : A → Type 0) (l : List A) (i : ℕ) (a : A)
    → All P l
    → get_elem? l i ≡ some a
    → P a
All-get_elem? P [] i a h e = absurd (ground (arith, e))
All-get_elem? P (x ∷ l) zero a h e = rw (sym (some-injective x a e)) h.0
All-get_elem? P (x ∷ l) (suc i) a h e = All-get_elem? P l i a h.1 e

abbrev pub Stocked : {J : Type 0} → Db J → ProductSpec → Type 0
Stocked db spec = is_some (find_product_sku spec.sku db.products) ≡ true

-- The settings of a simulator that a service takes events of: its store and the catalogue are
-- known, its texts pass the schema, and its largest amount fits a BIGINT.
pub record IsServed {J : Type 0} (config : SimulatorConfig) (db : Db J) : Type 0 where
  pub store_plain : is_plain config.store_code ≡ true
  pub store_within : Within 40 config.store_code
  pub label_plain : is_plain config.instance_label ≡ true
  pub label_within : Within 120 config.instance_label
  pub amount_fits : 2499 * pos_part config.max_quantity ≤ max_bigint
  pub store_known : is_some (find_store_code config.store_code db.stores) ≡ true
  pub stocked : All (Stocked db) product_catalog

pub is_some-some : {A : Type 0} (o : Option A) → is_some o ≡ true → (a : A) × (o ≡ some a)
is_some-some none h = absurd (ground (arith, h))
is_some-some (some a) h = (a, refl)

module _ {J S : Type 0} (rng : Rng S) (config : SimulatorConfig) (db : Db J)
    (served : IsServed config db) (id : ℕ) (event : OutboundEvent)
    (sold : IsSale rng config id event) where
  pub listed : IsListed sold.product
  listed =
      All-get_elem? IsListed product_catalog sold.in_catalog.0 sold.product catalog-IsListed
        sold.in_catalog.1

  stocked : Stocked db sold.product
  stocked =
      All-get_elem? (Stocked db) product_catalog sold.in_catalog.0 sold.product served.stocked
        sold.in_catalog.1

  amount :
      (1 ≤ event.payload.amount_cents)
      × (event.payload.amount_cents ≤ 2499 * pos_part config.max_quantity)
  amount = rw (ap (λ e. e.payload.amount_cents) sold.made) (
      product_within sold.product.unit_price_cents event.payload.quantity 2499
        (pos_part config.max_quantity) listed.price_pos listed.price_most sold.at_least_one
        sold.at_most)

  pub sold-IsPrintable : (w : Printer J) → IsPrintable w event.payload
  sold-IsPrintable w = record {
    kind =
        rw
          (
            ap (λ e. e.payload.event_type) sold.made,
            ap (λ e. e.payload.original_event_id) sold.made,
          )
          refl;
    store_plain = rw (ap (λ e. e.payload.store_code) sold.made) served.store_plain;
    sku_plain = rw (ap (λ e. e.payload.product_sku) sold.made) listed.sku_plain;
    source_plain = rw (ap (λ e. e.payload.source_instance) sold.made) served.label_plain;
    bounded = record {
      positive = record { quantity_pos = sold.at_least_one; amount_pos = amount.0 };
      store_code = rw (ap (λ e. e.payload.store_code) sold.made) served.store_within;
      product_sku = rw (ap (λ e. e.payload.product_sku) sold.made) listed.sku_within;
      source_instance = rw (ap (λ e. e.payload.source_instance) sold.made) served.label_within;
    };
  }

-- The reply says that the sale was accepted, and it is in the database as it was made.
pub record Arrived {J : Type 0} (clock id : ℕ) (event : OutboundEvent)
    (h : Handled J EventIngestionResult) : Type 0 where
  pub replied_201 :
      h.reply ≡ replied 201 (record { event_id = id; status = accepted; received_at = clock })
  pub row : PosEvent J
  pub found : find_event id h.state.db.events ≡ some row
  pub is_sale : row.event_type ≡ sale
  pub quantity : row.quantity ≡ event.payload.quantity
  pub amount : row.amount_cents ≡ event.payload.amount_cents
  pub occurred_at : row.occurred_at ≡ event.payload.occurred_at

module _ {J S : Type 0} ⦃j : JsonEq J⦄ (rng : Rng S) (config : SimulatorConfig) (p : Pydantic J)
    (w : Printer J) (c : IsCodec p w) (fails : ℕ → Bool) (meanwhile : List SetChange) (clock : ℕ)
    (b : BackendState J) (well : IsWellFormed b.db) (served : IsServed config b.db) (id : ℕ)
    (absent : find_event id b.db.events ≡ none) where
  sold-Sellable :
      (event : OutboundEvent)
      → IsSale rng config id event
      → Sellable b.db (received_base w event.payload)
  sold-Sellable event sold =
      let (store, in_stores) = is_some-some _ served.store_known in
      let (product, in_products) = is_some-some _ (stocked rng config b.db served id event sold) in
      record {
        store = store;
        product = product;
        absent = rw (ap (λ e. e.payload.event_id) sold.made) absent;
        store_found = rw (ap (λ e. e.payload.store_code) sold.made) in_stores;
        product_found = rw (ap (λ e. e.payload.product_sku) sold.made) in_products;
        quantity_fits = omega (arith, served.amount_fits, sold.at_most);
        amount_fits =
            omega (arith, served.amount_fits, (amount rng config b.db served id event sold).1);
      }

  pub sold-Stored :
      (event : OutboundEvent)
      → IsSale rng config id event
      → Stored clock
          (sale_event (received_base w event.payload))
          b.db
          (run clock (ingest (sale_event (received_base w event.payload))) b.db b.db)
  sold-Stored event sold = ingest-Stored clock b.db (sale_event (received_base w event.payload)) (
      (sale-IsAccepted_iff clock b.db well (received_base w event.payload)
          (sold-IsPrintable rng config b.db served id event sold w).bounded.positive).1
        (sold-Sellable event sold))

  pub sold-validates :
      (event : OutboundEvent)
      → IsSale rng config id event
      → validate_event p (event_json w event.payload)
        ≡ some (sale_event (received_base w event.payload))
  sold-validates event sold =
      validate_event-event_json p w c event.payload
        (sold-IsPrintable rng config b.db served id event sold w)
      ∙ rw (ap (λ e. e.payload.original_event_id) sold.made) refl

  sold-Arrived :
      (event : OutboundEvent)
      → IsSale rng config id event
      → Arrived clock id event (post_event p fails meanwhile clock (event_json w event.payload) b)
  unfolding post_event create_event find_event event_values
  sold-Arrived event sold =
      let stored = sold-Stored event sold in
      let same = ap (λ e. e.payload.event_id) sold.made in
      rw (sold-validates event sold, stored.result)
        (record {
          replied_201 = rw same refl;
          row =
              stored_row clock (sale_event (received_base w event.payload)) stored.store
                stored.product;
          found = ground (arith, same);
          is_sale = refl;
          quantity = refl;
          amount = refl;
          occurred_at = refl;
        })

  -- Under a printer and a pydantic that agree, on a well-formed database that has the simulator's
  -- store and its whole catalogue: `make_sale` makes a sale, and its JSON, posted, is answered 201
  -- with the event's id and the server's time, and is in the database as a sale with the quantity,
  -- amount and time that were drawn. The `event_id` is not taken, the store code and the label are
  -- plain texts of the lengths that the schema allows, the catalogue's highest price times the
  -- largest quantity fits a BIGINT, the two limits are positive, and the longest delay of a late
  -- event fits before `now`.
  pub sale_arrives :
      (now : ℕ) (sales : Sales) (s : S)
      → IsSpan rng config now
      → (event : OutboundEvent) × (s' : S) × (make_sale rng config now id sales s
          ≡ some (some event, sales, s'))
        × Arrived clock id event (post_event p fails meanwhile clock (event_json w event.payload) b)
  sale_arrives now sales s span =
      let (event, s', made, sold) = make_sale_total rng config now id sales s span in
      (event, s', made, sold-Arrived event sold)
