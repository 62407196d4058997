-- ===== src/Backend/Ingestion/Stored.antt =====
-- The two things that a request can do to the database: nothing, or store its event.
use storepulse.Prelude.{ℕ, ◌+◌, ◌≤◌, ◌≡◌, true, ◌⊎◌, none, some, ◌∷◌}
use storepulse.Backend.Models.{
  Store, Product, sale, PosEvent, RefundEventCreate, EventCreate, sale_event, refund_event, base_of,
}
use storepulse.Backend.Database.{
  Db, find_store_code, find_product_sku, find_event, refunded_quantity, refunded_amount,
  touch_store, row_check, foreign_keys_check,
}
use storepulse.Backend.Session.{Outcome, ok, err}
use storepulse.Backend.Classify.{EventIngestionResult, accepted, duplicate}
use storepulse.Backend.Ingestion.{event_values}

-- Nothing was accepted and nothing changed.
abbrev pub Unchanged : {J : Type 0} → Db J → Outcome EventIngestionResult × Db J → Type 0
Unchanged db (ok r, db') = (r.status ≡ duplicate) × (db' ≡ db)
Unchanged db (err e, db') = db' ≡ db

-- What a refund needs of the sale that it names, at the time of its insert.
pub record Refundable {J : Type 0} (p : RefundEventCreate J) (store : Store) (product : Product)
    (db : Db J) (o : PosEvent J) : Type 0 where
  pub found : find_event p.original_event_id db.events ≡ some o
  pub is_sale : o.event_type ≡ sale
  pub top_level : o.original_event_id ≡ none
  pub same_store : o.store_id ≡ store.id
  pub same_product : o.product_id ≡ product.id
  pub quantity_left : refunded_quantity o.event_id db.events + p.quantity ≤ o.quantity
  pub amount_left : refunded_amount o.event_id db.events + p.amount_cents ≤ o.amount_cents

abbrev pub Allowed : {J : Type 0} → EventCreate J → Store → Product → Db J → Type 0
Allowed (sale_event p) store product db = Unit
Allowed {J} (refund_event p) store product db = (o : PosEvent J) × Refundable p store product db o

abbrev pub stored_row : {J : Type 0} → ℕ → EventCreate J → Store → Product → PosEvent J
stored_row now p store product = record { values = event_values p store product; received_at = now }

-- The database after an accepted event: one more row, and the store's `last_seen_at`.
abbrev pub stored_db : {J : Type 0} → ℕ → EventCreate J → Store → Product → Db J → Db J
stored_db now p store product db = record db {
  stores = touch_store store.id now now db.stores;
  events = stored_row now p store product ∷ db.events;
}

abbrev pub accepted_result : {J : Type 0} → ℕ → EventCreate J → EventIngestionResult
accepted_result now p = record {
  event_id = (base_of p).event_id;
  status = accepted;
  received_at = now;
}

-- The event was accepted, and this is all that changed.
pub record Stored {J : Type 0} (now : ℕ) (p : EventCreate J) (db : Db J)
    (res : Outcome EventIngestionResult × Db J) : Type 0 where
  pub store : Store
  pub product : Product
  pub absent : find_event (base_of p).event_id db.events ≡ none
  pub store_found : find_store_code (base_of p).store_code db.stores ≡ some store
  pub product_found : find_product_sku (base_of p).product_sku db.products ≡ some product
  pub row_fits : row_check (event_values p store product) ≡ true
  pub keys_exist : foreign_keys_check (event_values p store product) db ≡ true
  pub allowed : Allowed p store product db
  pub result : res ≡ (ok (accepted_result now p), stored_db now p store product db)

abbrev pub Effect :
    {J : Type 0} → ℕ → EventCreate J → Db J → Outcome EventIngestionResult × Db J → Type 0
Effect now p db res = Unchanged db res ⊎ Stored now p db res
