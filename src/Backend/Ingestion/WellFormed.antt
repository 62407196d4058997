-- ===== src/Backend/Ingestion/WellFormed.antt =====
-- What is true of all three tables between requests, and that every request keeps it.
use storepulse.Prelude.{
  ℕ, ◌≡◌, ap, true, String, none, some, List, arith, All, Option-cases, inl, inr,
}
use storepulse.Backend.Models.{Store, Product, EventCreate, JsonEq, base_of}
use storepulse.Backend.Database.{
  Db, find_event, is_some, row_check, foreign_keys_check, find_store_id, find_store_code,
  touch_store, find_product_id, find_product_sku,
}
use storepulse.Backend.Database.Lookup.{
  find_store_code-touch_store, find_store_id-touch_store, touched_keys,
}
use storepulse.Backend.Ingestion.{event_values, ingest}
use storepulse.Backend.Classify.{EventIngestionResult}
use storepulse.Backend.Session.{Outcome, ok, err, run}
use storepulse.Backend.Ingestion.Stored.{Effect, stored_db, Allowed}
use storepulse.Backend.Ingestion.Effect.{ingest-Effect}
use storepulse.Backend.Ingestion.Consistency.{IsConsistent, stored-IsConsistent, All-map}

-- The whole database: the keys of the two catalogues agree, and every event has its store and
-- its product.
pub record IsWellFormed {J : Type 0} (db : Db J) : Type 0 where
  pub consistent : IsConsistent db.events
  pub store_by_id :
      (c : String) (s : Store)
      → find_store_code c db.stores ≡ some s
      → find_store_id s.id db.stores ≡ some s
  pub product_by_id :
      (k : String) (q : Product)
      → find_product_sku k db.products ≡ some q
      → find_product_id q.id db.products ≡ some q
  pub has_store : All (λ e. is_some (find_store_id e.store_id db.stores) ≡ true) db.events
  pub has_product : All (λ e. is_some (find_product_id e.product_id db.products) ≡ true) db.events

module _ (i t now : ℕ) (l : List Store) where
  is_some-touch_store :
      (k : ℕ) → is_some (find_store_id k (touch_store i t now l)) ≡ is_some (find_store_id k l)
  is_some-touch_store k = ground (arith, find_store_id-touch_store i t now k l)

  touch_store_by_id :
      ((c : String) (s : Store) → find_store_code c l ≡ some s → find_store_id s.id l ≡ some s)
      → (c : String) (s : Store) → find_store_code c (touch_store i t now l) ≡ some s
      → find_store_id s.id (touch_store i t now l) ≡ some s
  touch_store_by_id h c s found = elim (Option-cases (find_store_code c l)) [
    | inl e ↦ ground (arith, find_store_code-touch_store i t now c l)
    | inr (s0, e) ↦ ground (
      arith,
      find_store_code-touch_store i t now c l,
      find_store_id-touch_store i t now s.id l,
      touched_keys i t now s0,
      h c s0 e,
    )
  ]

module _ {J : Type 0} (now : ℕ) (p : EventCreate J) (store : Store) (product : Product) (db : Db J)
    (absent : find_event (base_of p).event_id db.events ≡ none)
    (fits : row_check (event_values p store product) ≡ true)
    (allowed : Allowed p store product db) where
  stored-IsWellFormed :
      foreign_keys_check (event_values p store product) db ≡ true
      → IsWellFormed db
      → IsWellFormed (stored_db now p store product db)
  unfolding event_values foreign_keys_check
  stored-IsWellFormed keys h = record {
    consistent = stored-IsConsistent now p store product db absent fits allowed h.consistent;
    store_by_id = touch_store_by_id store.id now now db.stores h.store_by_id;
    product_by_id = h.product_by_id;
    has_store = (
      rw is_some-touch_store (ground arith),
      All-map (λ e x. rw is_some-touch_store x) db.events h.has_store,
    );
    has_product = (ground arith, h.has_product);
  }

module _ {J : Type 0} ⦃j : JsonEq J⦄ (now : ℕ) (p : EventCreate J) (db : Db J) where
  Effect-IsWellFormed :
      (res : Outcome EventIngestionResult × Db J)
      → Effect now p db res
      → IsWellFormed db
      → IsWellFormed res.1
  Effect-IsWellFormed (ok r, db') (inl same) h = rw same.1 h
  Effect-IsWellFormed (err e, db') (inl same) h = rw same h
  Effect-IsWellFormed (o, db') (inr s) h =
      rw (ap (λ (r : Outcome EventIngestionResult × Db J). r.1) s.result) (
        stored-IsWellFormed now p s.store s.product db s.absent s.row_fits s.allowed s.keys_exist h)

  -- Whatever a request is answered, a well-formed database stays well-formed.
  pub ingest-IsWellFormed : IsWellFormed db → IsWellFormed (run now (ingest p) db db).1
  ingest-IsWellFormed h = Effect-IsWellFormed (run now (ingest p) db db) (ingest-Effect now db p) h
