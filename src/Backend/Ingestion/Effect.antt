-- ===== src/Backend/Ingestion/Effect.antt =====
-- What one request does to the database, run alone: the lemma from which the properties follow.
use storepulse.Prelude.{
  ℕ, ◌+◌, ◌≡◌, not, ◌||◌, inl, inr, Option, none, some, arith, Option-cases, ltb, ◌==◌, Bool-cases,
}
use storepulse.Backend.Models.{
  Store, Product, sale, event_type_eq, PosEvent, SaleEventCreate, RefundEventCreate, EventCreate,
  sale_event, refund_event, JsonEq, base_of,
}
use storepulse.Backend.Database.{
  Db, find_store_code, find_product_sku, find_event, refunded_quantity, refunded_amount, row_check,
  foreign_keys_check, is_some, insert_row,
}
use storepulse.Backend.Session.{run, ◌>>=◌}
use storepulse.Backend.Classify.{classify_existing_and_rollback}
use storepulse.Backend.Ingestion.{
  event_values, ingest_sale_event, ingest_refund_event, ingest, ingest_new_sale, ingest_new_refund,
  ingest_locked_refund, insert_payload, finish_insert,
}
use storepulse.Backend.Ingestion.Stored.{Unchanged, Allowed, Effect}

module _ {J : Type 0} ⦃j : JsonEq J⦄ (now : ℕ) (c w : Db J) where
  classify-Unchanged :
      (p : EventCreate J) (s : Option Store) (q : Option Product)
      → Unchanged c (run now (classify_existing_and_rollback p s q) c w)
  unfolding run classify_existing_and_rollback
  classify-Unchanged p (some s) (some q) = ground arith
  classify-Unchanged p none none = ground arith
  classify-Unchanged p _ _ = ground arith

module _ {J : Type 0} ⦃j : JsonEq J⦄ (now : ℕ) (db : Db J) where
  -- The insert, and what follows on its answer.
  finish_insert-Effect :
      (p : EventCreate J) (store : Store) (product : Product)
      → find_event (base_of p).event_id db.events ≡ none
      → find_store_code (base_of p).store_code db.stores ≡ some store
      → find_product_sku (base_of p).product_sku db.products ≡ some product
      → Allowed p store product db
      → Effect now p db
          (run now (insert_payload p store product >>= finish_insert p store product) db db)
  unfolding run insert_payload finish_insert ◌>>=◌ insert_row
  finish_insert-Effect p store product absent hs hp ha =
      elim (Bool-cases (row_check (event_values p store product))) [
        | inl fits ↦ elim (Bool-cases (foreign_keys_check (event_values p store product) db)) [
          | inl keys ↦ inr (record {
            store = store;
            product = product;
            absent = absent;
            store_found = hs;
            product_found = hp;
            row_fits = fits;
            keys_exist = keys;
            allowed = ha;
            result = ground arith;
          })
          | inr bad ↦ inl (ground arith)
        ]
        | inr bad ↦ inl (ground arith)
      ]

  ingest_new_sale-Effect :
      (p : SaleEventCreate J)
      → find_event p.event_id db.events ≡ none
      → Effect now (sale_event p) db (run now (ingest_new_sale p) db db)
  unfolding run ingest_new_sale
  ingest_new_sale-Effect p absent = elim (Option-cases (find_store_code p.store_code db.stores)) [
    | inl no_store ↦ inl (ground arith)
    | inr (store, hs) ↦
        rw (hs, run)
          (elim (Option-cases (find_product_sku p.product_sku db.products)) [
            | inl no_product ↦ inl (ground arith)
            | inr (product, hp) ↦
                rw (hp, run) (finish_insert-Effect (sale_event p) store product absent hs hp tt)
          ])
  ]

  ingest_sale_event-Effect :
      (p : SaleEventCreate J) → Effect now (sale_event p) db (run now (ingest_sale_event p) db db)
  unfolding run ingest_sale_event
  ingest_sale_event-Effect p = elim (Option-cases (find_event p.event_id db.events)) [
    | inl absent ↦ rw (absent, run) (ingest_new_sale-Effect p absent)
    | inr (e, there) ↦ rw (there, run) (inl (classify-Unchanged now db db (sale_event p) none none))
  ]

  ingest_locked_refund-Effect :
      (p : RefundEventCreate J) (store : Store) (product : Product) (o : PosEvent J)
      → find_event p.event_id db.events ≡ none
      → find_store_code p.store_code db.stores ≡ some store
      → find_product_sku p.product_sku db.products ≡ some product
      → find_event p.original_event_id db.events ≡ some o
      → o.event_type ≡ sale
      → o.original_event_id ≡ none
      → Effect now (refund_event p) db (run now (ingest_locked_refund p store product o none) db db)
  unfolding run ingest_locked_refund
  ingest_locked_refund-Effect p store product o absent hs hp found is_sale top =
      elim (Bool-cases (o.store_id == store.id)) [
        | inr e ↦ inl (ground arith)
        | inl same_store ↦ elim (Bool-cases (o.product_id == product.id)) [
          | inr e ↦ inl (ground arith)
          | inl same_product ↦
              elim (Bool-cases
                (ltb o.quantity (refunded_quantity o.event_id db.events + p.quantity))) [
                  | inl e ↦ inl (ground arith)
                  | inr quantity_left ↦
                      elim (Bool-cases (
                        ltb o.amount_cents
                          (refunded_amount o.event_id db.events + p.amount_cents))) [
                            | inl e ↦ inl (ground arith)
                            | inr amount_left ↦ ground (
                              arith,
                              finish_insert-Effect (refund_event p) store product absent hs hp (
                                o,
                                record {
                                  found = found;
                                  is_sale = is_sale;
                                  top_level = top;
                                  same_store = ground arith;
                                  same_product = ground arith;
                                  quantity_left = ground arith;
                                  amount_left = ground arith;
                                },
                              ),
                            )
                          ]
                ]
        ]
      ]

  ingest_new_refund-Effect :
      (p : RefundEventCreate J)
      → find_event p.event_id db.events ≡ none
      → Effect now (refund_event p) db (run now (ingest_new_refund p) db db)
  unfolding run ingest_new_refund
  ingest_new_refund-Effect p absent = elim (Option-cases (find_store_code p.store_code db.stores)) [
    | inl no_store ↦ inl (ground arith)
    | inr (store, hs) ↦
        rw (hs, run)
          (elim (Option-cases (find_product_sku p.product_sku db.products)) [
            | inl no_product ↦ inl (ground arith)
            | inr (product, hp) ↦
                rw (hp, run)
                  (elim (Option-cases (find_event p.original_event_id db.events)) [
                    | inl no_original ↦ inl (ground arith)
                    | inr (o, found) ↦
                        elim (Bool-cases
                          (not (event_type_eq o.event_type sale) || is_some o.original_event_id)) [
                            | inl bad ↦ inl (ground arith)
                            | inr good ↦ ground (
                              arith,
                              ingest_locked_refund-Effect p store product o absent hs hp found
                                  (ground arith) (ground arith),
                            )
                          ]
                  ])
          ])
  ]

  ingest_refund_event-Effect :
      (p : RefundEventCreate J)
      → Effect now (refund_event p) db (run now (ingest_refund_event p) db db)
  unfolding run ingest_refund_event
  ingest_refund_event-Effect p = elim (Option-cases (find_event p.event_id db.events)) [
    | inl absent ↦ rw (absent, run) (ingest_new_refund-Effect p absent)
    | inr (e, there) ↦
        rw (there, run) (inl (classify-Unchanged now db db (refund_event p) none none))
  ]

  -- Every request is refused or a duplicate and changes nothing, or is accepted and stores its row.
  pub ingest-Effect : (p : EventCreate J) → Effect now p db (run now (ingest p) db db)
  unfolding ingest
  ingest-Effect (sale_event p) = ingest_sale_event-Effect p
  ingest-Effect (refund_event p) = ingest_refund_event-Effect p
