-- ===== src/Backend/Ingestion/Sales.antt =====
-- Exactly when a new sale is accepted.
use storepulse.Prelude.{ℕ, ◌≤◌, ◌<◌, ◌≡◌, ◌↔◌, refl, none, some, arith, ◌⊎◌}
use storepulse.Backend.Models.{Store, Product, SaleEventCreate, sale_event, JsonEq, max_bigint}
use storepulse.Backend.Database.{
  Db, find_event, find_store_code, find_product_sku, row_check, insert_row,
}
use storepulse.Backend.Session.{ok, err, run, database_error}
use storepulse.Backend.Ingestion.{event_values, ingest}
use storepulse.Backend.Ingestion.Stored.{Stored, accepted_result, stored_db}
use storepulse.Backend.Ingestion.WellFormed.{IsWellFormed}
use storepulse.Backend.Ingestion.Decision.{IsAccepted, IsPositive, ingest-Stored}

-- What is asked of a new sale.
pub record Sellable {J : Type 0} (db : Db J) (p : SaleEventCreate J) : Type 0 where
  pub store : Store
  pub product : Product
  pub absent : find_event p.event_id db.events ≡ none
  pub store_found : find_store_code p.store_code db.stores ≡ some store
  pub product_found : find_product_sku p.product_sku db.products ≡ some product
  pub quantity_fits : p.quantity ≤ max_bigint
  pub amount_fits : p.amount_cents ≤ max_bigint

module _ {J : Type 0} ⦃j : JsonEq J⦄ (now : ℕ) (db : Db J) where
  module _ (h : IsWellFormed db) where
    sale_stored :
        (p : SaleEventCreate J)
        → IsPositive p
        → (s : Sellable db p)
        → run now (ingest (sale_event p)) db db ≡ (
          ok (accepted_result now (sale_event p)),
          stored_db now (sale_event p) s.store s.product db,
        )
    unfolding run ingest insert_row event_values
    sale_stored p pos s = ground (
      arith,
      s.absent,
      s.store_found,
      s.product_found,
      h.store_by_id p.store_code s.store s.store_found,
      h.product_by_id p.product_sku s.product s.product_found,
    )

    Sellable-of_Stored :
        (p : SaleEventCreate J)
        → Stored now (sale_event p) db (run now (ingest (sale_event p)) db db)
        → Sellable db p
    unfolding row_check event_values
    Sellable-of_Stored p s = record {
      store = s.store;
      product = s.product;
      absent = s.absent;
      store_found = s.store_found;
      product_found = s.product_found;
      quantity_fits = ground (arith, s.row_fits);
      amount_fits = ground (arith, s.row_fits);
    }

    -- A sale with a positive quantity and amount is accepted exactly if its `event_id` is new, its
    -- store and product are known and both numbers fit a BIGINT.
    pub sale-IsAccepted_iff :
        (p : SaleEventCreate J)
        → IsPositive p
        → IsAccepted (run now (ingest (sale_event p)) db db) ↔ Sellable db p
    sale-IsAccepted_iff p pos = (
      λ a. Sellable-of_Stored p (ingest-Stored now db (sale_event p) a),
      λ s. rw (sale_stored p pos s) refl,
    )

  -- A sale whose quantity or amount passes the range of BIGINT, which the request schema does
  -- not bound, is neither stored nor refused by an answer of its own: the database raises.
  pub sale_overflow :
      (p : SaleEventCreate J) (store : Store) (product : Product)
      → find_event p.event_id db.events ≡ none
      → find_store_code p.store_code db.stores ≡ some store
      → find_product_sku p.product_sku db.products ≡ some product
      → (max_bigint < p.quantity) ⊎ (max_bigint < p.amount_cents)
      → run now (ingest (sale_event p)) db db ≡ (err database_error, db)
  unfolding run ingest row_check insert_row event_values
  sale_overflow p store product absent hs hp over = ground (arith, absent, hs, hp)
