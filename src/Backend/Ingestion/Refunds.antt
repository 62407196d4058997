-- ===== src/Backend/Ingestion/Refunds.antt =====
-- Exactly when a new refund is accepted, and the refusals at its limits.
use storepulse.Prelude.{ℕ, ◌+◌, ◌≤◌, ◌<◌, ◌≡◌, ◌↔◌, true, refl, none, some, arith}
use storepulse.Backend.Models.{
  Store, Product, sale, PosEvent, RefundEventCreate, refund_event, JsonEq,
}
use storepulse.Backend.Database.{
  Db, find_event, find_store_code, find_product_sku, row_check, foreign_keys_check, insert_row,
  refunded_quantity, refunded_amount,
}
use storepulse.Backend.Database.Lookup.{find_event_id}
use storepulse.Backend.Session.{ok, err, run, refund_limit_exceeded}
use storepulse.Backend.Ingestion.{event_values, ingest}
use storepulse.Backend.Ingestion.Stored.{Stored, Refundable, accepted_result, stored_db}
use storepulse.Backend.Ingestion.WellFormed.{IsWellFormed}
use storepulse.Backend.Ingestion.Replay.{All-find_event}
use storepulse.Backend.Ingestion.Decision.{IsAccepted, IsPositive, ingest-Stored}

-- What is asked of a new refund.
pub record Returnable {J : Type 0} (db : Db J) (p : RefundEventCreate J) : Type 0 where
  pub store : Store
  pub product : Product
  pub original : PosEvent J
  pub absent : find_event p.event_id db.events ≡ none
  pub store_found : find_store_code p.store_code db.stores ≡ some store
  pub product_found : find_product_sku p.product_sku db.products ≡ some product
  pub refundable : Refundable p store product db original

module _ {J : Type 0} ⦃j : JsonEq J⦄ (now : ℕ) (db : Db J) where
  module _ (h : IsWellFormed db) where
    -- The original's numbers are BIGINTs, so the refund's are.
    refund_row_check :
        (p : RefundEventCreate J)
        → IsPositive p.base
        → (s : Returnable db p) → row_check (event_values (refund_event p) s.store s.product) ≡ true
    unfolding row_check event_values
    refund_row_check p pos s = ground (
      arith,
      pos,
      s.absent,
      s.refundable,
      s.refundable.found,
      s.refundable.quantity_left,
      s.refundable.amount_left,
      All-find_event _ p.original_event_id s.original db.events s.refundable.found
          h.consistent.checked,
    )

    refund_keys_check :
        (p : RefundEventCreate J)
        → (s : Returnable db p)
        → foreign_keys_check (event_values (refund_event p) s.store s.product) db ≡ true
    unfolding foreign_keys_check event_values
    refund_keys_check p s = ground (
      arith,
      s.refundable.found,
      s.store_found,
      s.product_found,
      h.store_by_id p.store_code s.store s.store_found,
      h.product_by_id p.product_sku s.product s.product_found,
    )

    refund_stored :
        (p : RefundEventCreate J)
        → IsPositive p.base
        → (s : Returnable db p)
        → run now (ingest (refund_event p)) db db ≡ (
          ok (accepted_result now (refund_event p)),
          stored_db now (refund_event p) s.store s.product db,
        )
    unfolding run ingest insert_row
    refund_stored p pos s = ground (
      arith,
      s.absent,
      s.store_found,
      s.product_found,
      s.refundable,
      s.refundable.found,
      s.refundable.is_sale,
      s.refundable.top_level,
      s.refundable.same_store,
      s.refundable.same_product,
      s.refundable.quantity_left,
      s.refundable.amount_left,
      refund_row_check p pos s,
      refund_keys_check p s,
    )

    Returnable-of_Stored :
        (p : RefundEventCreate J)
        → Stored now (refund_event p) db (run now (ingest (refund_event p)) db db)
        → Returnable db p
    Returnable-of_Stored p s = record {
      store = s.store;
      product = s.product;
      original = s.allowed.0;
      absent = s.absent;
      store_found = s.store_found;
      product_found = s.product_found;
      refundable = s.allowed.1;
    }

    -- A refund with a positive quantity and amount is accepted exactly if its `event_id` is new,
    -- its store and product are known, the event that it names is a top-level sale of that store
    -- and product, and its quantity and amount are within what is left of that sale's.
    pub refund-IsAccepted_iff :
        (p : RefundEventCreate J)
        → IsPositive p.base
        → IsAccepted (run now (ingest (refund_event p)) db db) ↔ Returnable db p
    refund-IsAccepted_iff p pos = (
      λ a. Returnable-of_Stored p (ingest-Stored now db (refund_event p) a),
      λ s. rw (refund_stored p pos s) refl,
    )

    -- A refund of a known sale that asks for more than is left of its quantity is refused with the
    -- limit error, and nothing changes.
    pub refund_over_quantity :
        (p : RefundEventCreate J) (store : Store) (product : Product) (o : PosEvent J)
        → find_event p.event_id db.events ≡ none
        → find_store_code p.store_code db.stores ≡ some store
        → find_product_sku p.product_sku db.products ≡ some product
        → find_event p.original_event_id db.events ≡ some o
        → o.event_type ≡ sale
        → o.store_id ≡ store.id
        → o.product_id ≡ product.id
        → o.quantity < refunded_quantity p.original_event_id db.events + p.quantity
        → run now (ingest (refund_event p)) db db
          ≡ (err (refund_limit_exceeded "refund exceeds remaining sale quantity"), db)
    unfolding run ingest row_check
    refund_over_quantity p store product o absent hs hp found is_sale ss sp over = ground (
      arith,
      absent,
      hs,
      hp,
      found,
      All-find_event _ p.original_event_id o db.events found h.consistent.checked,
      find_event_id p.original_event_id db.events o found,
    )

    -- One that is within the quantity and asks for more than is left of the amount is refused
    -- with the limit error of the amount, and nothing changes.
    pub refund_over_amount :
        (p : RefundEventCreate J) (store : Store) (product : Product) (o : PosEvent J)
        → find_event p.event_id db.events ≡ none
        → find_store_code p.store_code db.stores ≡ some store
        → find_product_sku p.product_sku db.products ≡ some product
        → find_event p.original_event_id db.events ≡ some o
        → o.event_type ≡ sale
        → o.store_id ≡ store.id
        → o.product_id ≡ product.id
        → refunded_quantity p.original_event_id db.events + p.quantity ≤ o.quantity
        → o.amount_cents < refunded_amount p.original_event_id db.events + p.amount_cents
        → run now (ingest (refund_event p)) db db
          ≡ (err (refund_limit_exceeded "refund exceeds remaining sale amount"), db)
    unfolding run ingest row_check
    refund_over_amount p store product o absent hs hp found is_sale ss sp within over = ground (
      arith,
      absent,
      hs,
      hp,
      found,
      All-find_event _ p.original_event_id o db.events found h.consistent.checked,
      find_event_id p.original_event_id db.events o found,
    )
