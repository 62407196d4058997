-- ===== src/Backend/Ingestion/Retry.antt =====
-- What stays as the table grows, and the retry of a request that was accepted.
use storepulse.Prelude.{
  ℕ, ◌≡◌, refl, ◌∙◌, some, none, List, [], ◌∷◌, arith, inl, inr, ap, option_eq_refl,
}
use storepulse.Backend.Models.{Store, Product, PosEvent, EventCreate, JsonEq, base_of}
use storepulse.Backend.Database.{Db, find_event, find_store_code, find_product_sku, find_store_id}
use storepulse.Backend.Database.Lookup.{
  find_event-cons, find_store_id-touch_store, find_store_code_code, find_product_sku_sku, touched,
  touched_keys,
}
use storepulse.Backend.Session.{Outcome, ok, err, run}
use storepulse.Backend.Classify.{EventIngestionResult, duplicate}
use storepulse.Backend.Ingestion.{ingest, event_values}
use storepulse.Backend.Ingestion.Stored.{Effect, Stored, stored_db, stored_row}
use storepulse.Backend.Ingestion.Effect.{ingest-Effect}
use storepulse.Backend.Ingestion.WellFormed.{IsWellFormed}
use storepulse.Backend.Ingestion.Replay.{SameEvent, Owners, ingest_replay}
use storepulse.Backend.Ingestion.History.{Request, handle, serve}

-- The later database has every row of the earlier one as it was, every store under its key with
-- its code, and the same products.
pub record Extends {J : Type 0} (db db' : Db J) : Type 0 where
  pub rows :
      (i : ℕ) (e : PosEvent J) → find_event i db.events ≡ some e → find_event i db'.events ≡ some e
  pub stores :
      (i : ℕ) (s : Store)
      → find_store_id i db.stores ≡ some s
      → (s' : Store) × (find_store_id i db'.stores ≡ some s') × (s'.code ≡ s.code)
  pub products : db'.products ≡ db.products

module _ {J : Type 0} where
  pub Extends-refl : (db : Db J) → Extends db db
  Extends-refl db = record { rows = λ i e h. h; stores = λ i s h. (s, h, refl); products = refl }

  pub Extends-trans : {a b c : Db J} → Extends a b → Extends b c → Extends a c
  Extends-trans f g = record {
    rows = λ i e h. g.rows i e (f.rows i e h);
    stores = λ i s h.
        let (t, ht, et) = f.stores i s h in let (u, hu, eu) = g.stores i t ht in (u, hu, eu ∙ et);
    products = g.products ∙ f.products;
  }

  pub stored_db-Extends :
      (now : ℕ) (p : EventCreate J) (store : Store) (product : Product) (db : Db J)
      → find_event (base_of p).event_id db.events ≡ none
      → Extends db (stored_db now p store product db)
  unfolding event_values
  stored_db-Extends now p store product db absent = record {
    rows = λ i e h. ground (arith, find_event-cons i (stored_row now p store product) db.events);
    stores = λ i s h. (
      touched store.id now now s,
      ground (arith, find_store_id-touch_store store.id now now i db.stores),
      (touched_keys store.id now now s).1,
    );
    products = refl;
  }

module _ {J : Type 0} ⦃j : JsonEq J⦄ where
  pub Effect-Extends :
      (now : ℕ) (p : EventCreate J) (db : Db J) (res : Outcome EventIngestionResult × Db J)
      → Effect now p db res
      → Extends db res.1
  Effect-Extends now p db (ok r, db') (inl same) = rw same.1 (Extends-refl db)
  Effect-Extends now p db (err e, db') (inl same) = rw same (Extends-refl db)
  Effect-Extends now p db (o, db') (inr s) =
      rw (ap (λ (r : Outcome EventIngestionResult × Db J). r.1) s.result)
        (stored_db-Extends now p s.store s.product db s.absent)

  -- No request changes or removes a stored event, whatever requests come.
  pub serve-Extends : (l : List (Request J)) (db : Db J) → Extends db (serve l db)
  unfolding serve
  serve-Extends [] db = Extends-refl db
  serve-Extends (r ∷ l) db =
      Extends-trans
        (Effect-Extends r.at r.payload db (handle r db) (ingest-Effect r.at db r.payload))
        (serve-Extends l (handle r db).1)

module _ {J : Type 0} ⦃j : JsonEq J⦄ (now : ℕ) (p : EventCreate J) (store : Store)
    (product : Product) where
  -- The row that a payload leaves is that payload's event.
  row-SameEvent :
      (s : Store)
      → s.code ≡ (base_of p).store_code
      → product.sku ≡ (base_of p).product_sku
      → SameEvent s product (stored_row now p store product) p
  unfolding event_values
  row-SameEvent s hs hq = record {
    store_code = hs;
    product_sku = hq;
    event_type = refl;
    quantity = refl;
    amount_cents = refl;
    occurred_at = refl;
    original_event_id = refl;
    source_instance = refl;
    metadata = option_eq_refl j.json_eq j.json_eq_refl (base_of p).metadata;
    note = refl;
  }

  stored_owners :
      (db db' : Db J)
      → IsWellFormed db
      → find_store_code (base_of p).store_code db.stores ≡ some store
      → find_product_sku (base_of p).product_sku db.products ≡ some product
      → Extends (stored_db now p store product db) db'
      → (o : Owners db' (stored_row now p store product)) × SameEvent o.store o.product
          (stored_row now p store product)
          p
  unfolding event_values
  stored_owners db db' h hs hq ext =
      let (s', found, code) = ext.stores store.id (touched store.id now now store) (
        ground (
          arith,
          find_store_id-touch_store store.id now now store.id db.stores,
          h.store_by_id _ store hs,
        )) in
      (
        record {
          store = s';
          product = product;
          store_found = found;
          product_found = ground (arith, ext.products, h.product_by_id _ product hq);
        },
        row-SameEvent s'
            (code
              ∙ (touched_keys store.id now now store).1
              ∙ find_store_code_code _ db.stores store hs)
            (find_product_sku_sku _ db.products product hq),
      )

module _ {J : Type 0} ⦃j : JsonEq J⦄ where
  abbrev pub retry_result : Request J → EventIngestionResult
  retry_result r = record {
    event_id = (base_of r.payload).event_id;
    status = duplicate;
    received_at = r.at;
  }

  pub retry_of_Stored :
      (r : Request J) (again : ℕ) (db db' : Db J) (res : Outcome EventIngestionResult × Db J)
      → IsWellFormed db
      → (s : Stored r.at r.payload db res)
      → Extends (stored_db r.at r.payload s.store s.product db) db'
      → run again (ingest r.payload) db' db' ≡ (ok (retry_result r), db')
  unfolding event_values
  retry_of_Stored r again db db' res h s ext =
      let row = stored_row r.at r.payload s.store s.product in
      let (o, same) =
        stored_owners r.at r.payload s.store s.product db db' h s.store_found s.product_found ext in
      let found : find_event (base_of r.payload).event_id db'.events ≡ some row =
        ext.rows _ row
          (ground (arith, find_event-cons (base_of r.payload).event_id row db.events)) in
      elim (ingest_replay again db' row r.payload found o) [
        | inl yes_same ↦ yes_same.1
        | inr other ↦ absurd (other.0 same)
      ]
