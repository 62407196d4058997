-- ===== src/Together/Invariant.antt =====
-- What holds of a simulator's ledger, its events in flight and the backend's tables.
use mathlib.Core.Path.{subst}
use storepulse.Prelude.{
  ℕ, sym, ◌+◌, ◌*◌, ◌≤◌, ◌≡◌, ◌≢◌, ◌⊎◌, true, none, some, List, [], ◌∷◌, All, arith,
}
use storepulse.Simulator.Config.{SimulatorConfig}
use storepulse.Simulator.Rng.{Rng}
use storepulse.Simulator.Domain.{SaleLedgerEntry, Sales, OutboundEvent, find_sale}
use storepulse.Simulator.Domain.Generator.{refund_event}
use storepulse.Simulator.Domain.Ledger.{IsLedger}
use storepulse.Simulator.Domain.Making.{IsSale}
use storepulse.Simulator.Domain.Traffic.{held}
use storepulse.Backend.Models.{Store, Product, PosEvent, sale}
use storepulse.Backend.Database.{
  Db, find_event, find_store_code, find_product_sku, refunded_quantity, refunded_amount,
}
use storepulse.Backend.Ingestion.WellFormed.{IsWellFormed}
use storepulse.Backend.Validation.Bounds.{Within}
use storepulse.Backend.Validation.Printing.{is_plain}
use storepulse.Backend.Validation.Delivery.{IsServed}
use storepulse.Backend.Api.{BackendState}

-- A ledger, the events of which no attempt has reached the backend, and the backend.
pub record Joint (J : Type 0) : Type 0 where
  pub sales : Sales
  pub in_flight : List OutboundEvent
  pub backend : BackendState J

-- An entry of the ledger has its row, and what was refunded of the row, what is in flight and what
-- remains in the entry fit in the quantity that was sold.
pub record Backed {J : Type 0} (config : SimulatorConfig) (in_flight : List OutboundEvent)
    (db : Db J) (i : ℕ) (e : SaleLedgerEntry) : Type 0 where
  pub row : PosEvent J
  pub found : find_event i db.events ≡ some row
  pub is_sale : row.event_type ≡ sale
  pub top_level : row.original_event_id ≡ none
  pub price_pos : 1 ≤ e.unit_price_cents
  pub price : row.amount_cents ≡ e.unit_price_cents * row.quantity
  pub refunds_price :
      refunded_amount i db.events ≡ e.unit_price_cents * refunded_quantity i db.events
  pub room : refunded_quantity i db.events + held i in_flight + e.remaining_quantity ≤ row.quantity
  pub same_store :
      (s : Store) → find_store_code config.store_code db.stores ≡ some s → row.store_id ≡ s.id
  pub product : Product
  pub product_found : find_product_sku e.product_sku db.products ≡ some product
  pub same_product : row.product_id ≡ product.id
  pub sku_plain : is_plain e.product_sku ≡ true
  pub sku_within : Within 64 e.product_sku

-- A refund that was made of an entry: `source` is the entry as it was then.
pub record IsRefund (config : SimulatorConfig) (sales : Sales) (event : OutboundEvent)
    : Type 0 where
  pub source : SaleLedgerEntry
  pub entry : SaleLedgerEntry
  pub id : ℕ
  pub made :
      event
      ≡ refund_event config source id event.payload.quantity event.payload.occurred_at
          event.payload.late
  pub at_least_one : 1 ≤ event.payload.quantity
  pub found : find_sale source.event_id sales ≡ some entry
  pub same_sku : entry.product_sku ≡ source.product_sku
  pub same_price : entry.unit_price_cents ≡ source.unit_price_cents

abbrev pub Cargo : {S : Type 0} → Rng S → SimulatorConfig → Sales → OutboundEvent → Type 0
Cargo rng config sales event = ((id : ℕ) × IsSale rng config id event) ⊎ IsRefund config sales event

-- No two events in flight have one id.
abbrev pub Distinct : List OutboundEvent → Type 0
Distinct [] = Unit
Distinct (e ∷ l) =
    All (λ (x : OutboundEvent). x.payload.event_id ≢ e.payload.event_id) l × Distinct l

abbrev pub IsAbsent : {J : Type 0} → Db J → OutboundEvent → Type 0
IsAbsent db event = find_event event.payload.event_id db.events ≡ none

pub record Sound {J S : Type 0} (rng : Rng S) (config : SimulatorConfig) (t : Joint J)
    : Type 0 where
  pub well : IsWellFormed t.backend.db
  pub served : IsServed config t.backend.db
  pub ledger : IsLedger t.sales
  pub backed :
      (i : ℕ) (e : SaleLedgerEntry)
      → find_sale i t.sales ≡ some e
      → Backed config t.in_flight t.backend.db i e
  pub cargo : All (Cargo rng config t.sales) t.in_flight
  pub absent : All (IsAbsent t.backend.db) t.in_flight
  pub distinct : Distinct t.in_flight

-- An entry and a list of events that together weigh no more are backed by the same row.
pub reweigh :
    {J : Type 0} (config : SimulatorConfig) (fl fl' : List OutboundEvent) (db : Db J) (i : ℕ)
    (e e' : SaleLedgerEntry)
    → e'.product_sku ≡ e.product_sku
    → e'.unit_price_cents ≡ e.unit_price_cents
    → held i fl' + e'.remaining_quantity ≤ held i fl + e.remaining_quantity
    → Backed config fl db i e
    → Backed config fl' db i e'
reweigh config fl fl' db i e e' sku price less b = record {
  row = b.row;
  found = b.found;
  is_sale = b.is_sale;
  top_level = b.top_level;
  price_pos = rw price b.price_pos;
  price = rw price b.price;
  refunds_price = rw price b.refunds_price;
  room = omega (arith, b.room, less);
  same_store = b.same_store;
  product = b.product;
  product_found = rw sku b.product_found;
  same_product = b.same_product;
  sku_plain = rw sku b.sku_plain;
  sku_within = rw sku b.sku_within;
}

-- Only the database of a backend counts.
pub Sound-at :
    {J S : Type 0} (rng : Rng S) (config : SimulatorConfig) (sales : Sales)
    (fl : List OutboundEvent) (b : BackendState J) (db : Db J)
    → b.db ≡ db
    → Sound rng config (record {
      sales = sales;
      in_flight = fl;
      backend = record { db = db; manager = b.manager };
    })
    → Sound rng config (record { sales = sales; in_flight = fl; backend = b })
Sound-at rng config sales fl b db same sound =
    subst
      (λ d. Sound rng config (record {
        sales = sales;
        in_flight = fl;
        backend = record { db = d; manager = b.manager };
      }))
      (sym same) sound
