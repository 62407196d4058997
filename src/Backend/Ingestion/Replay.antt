-- ===== src/Backend/Ingestion/Replay.antt =====
-- A request whose `event_id` is taken: the exact retry and the conflicting reuse.
use storepulse.Prelude.{
  ℕ, ◌≡◌, ◌↔◌, ◌&&◌, if◌then◌else◌, Bool-cases, Bool, true, refl, Option, none, some, List, [], ◌∷◌,
  arith, ◌==◌, ◌⊎◌, inl, inr, All, option_eq, option_eq_iff, ==_iff, str_eq, str_eq_iff,
}
use mathlib.Core.Path.{subst}
use storepulse.Backend.Models.{
  Store, Product, EventType, event_type_eq, PosEvent, EventCreate, sale_event, refund_event, JsonEq,
  base_of, event_type_of,
}
use storepulse.Backend.Database.{Db, find_event, find_store_id, find_product_id, is_some}
use storepulse.Backend.Database.Lookup.{find_store_id_id, find_product_id_id}
use storepulse.Backend.Session.{ok, err, run, event_conflict}
use storepulse.Backend.Classify.{
  EventIngestionResult, duplicate, payload_original_event_id, classify_existing_and_rollback,
  matches_event_payload,
}
use storepulse.Backend.Ingestion.{ingest}
use storepulse.Backend.Ingestion.WellFormed.{IsWellFormed}

-- The stored row is the event that the payload describes, field by field.
pub record SameEvent {J : Type 0} ⦃j : JsonEq J⦄ (s : Store) (q : Product) (e : PosEvent J)
    (p : EventCreate J) : Type 0 where
  pub store_code : s.code ≡ (base_of p).store_code
  pub product_sku : q.sku ≡ (base_of p).product_sku
  pub event_type : e.event_type ≡ event_type_of p
  pub quantity : e.quantity ≡ (base_of p).quantity
  pub amount_cents : e.amount_cents ≡ (base_of p).amount_cents
  pub occurred_at : e.occurred_at ≡ (base_of p).occurred_at
  pub original_event_id : e.original_event_id ≡ payload_original_event_id p
  pub source_instance : e.source_instance ≡ (base_of p).source_instance
  pub metadata : option_eq j.json_eq e.metadata_json (base_of p).metadata ≡ true
  pub note : e.note ≡ (base_of p).note

event_type_eq_iff : (a b : EventType) → (event_type_eq a b ≡ true) ↔ (a ≡ b)
event_type_eq_iff a b = ground arith

abbrev pub duplicate_result : {J : Type 0} → PosEvent J → EventIngestionResult
duplicate_result e = record {
  event_id = e.event_id;
  status = duplicate;
  received_at = e.received_at;
}

module _ {J : Type 0} ⦃j : JsonEq J⦄ (now : ℕ) (c w : Db J) (e : PosEvent J) (s : Store)
    (q : Product) (p : EventCreate J) (there : find_event (base_of p).event_id w.events ≡ some e)
    (hs : find_store_id e.store_id w.stores ≡ some s)
    (hq : find_product_id e.product_id w.products ≡ some q) (s_id : s.id ≡ e.store_id)
    (q_id : q.id ≡ e.product_id) where
  -- The condition of `_classify_existing_event`, on the rows that the stored event names.
  abbrev same_test : Bool
  same_test =
      str_eq s.code (base_of p).store_code
      && str_eq q.sku (base_of p).product_sku
      && matches_event_payload e s.id q.id p

  run-classify : run now (classify_existing_and_rollback p none none) c w ≡ (
    (if same_test then ok (duplicate_result e) else err (event_conflict (base_of p).event_id)),
    c,
  )
  unfolding run classify_existing_and_rollback
  run-classify = ground (arith, there, hs, hq)

  SameEvent-of_test : same_test ≡ true → SameEvent s q e p
  unfolding matches_event_payload
  SameEvent-of_test h = ground (
    arith,
    str_eq_iff s.code (base_of p).store_code,
    str_eq_iff q.sku (base_of p).product_sku,
    event_type_eq_iff e.event_type (event_type_of p),
    str_eq_iff e.source_instance (base_of p).source_instance,
    option_eq_iff str_eq str_eq_iff e.note (base_of p).note,
    option_eq_iff ◌==◌ ==_iff e.original_event_id (payload_original_event_id p),
  )

  test_of_SameEvent : SameEvent s q e p → same_test ≡ true
  unfolding matches_event_payload
  test_of_SameEvent h = ground (
    arith,
    str_eq_iff s.code (base_of p).store_code,
    str_eq_iff q.sku (base_of p).product_sku,
    event_type_eq_iff e.event_type (event_type_of p),
    str_eq_iff e.source_instance (base_of p).source_instance,
    option_eq_iff str_eq str_eq_iff e.note (base_of p).note,
    option_eq_iff ◌==◌ ==_iff e.original_event_id (payload_original_event_id p),
  )

  classify_cases :
      (SameEvent s q e p
        × (run now (classify_existing_and_rollback p none none) c w ≡ (ok (duplicate_result e), c)))
      ⊎ ((¬ SameEvent s q e p)
          × (run now (classify_existing_and_rollback p none none) c w
              ≡ (err (event_conflict (base_of p).event_id), c)))
  classify_cases = elim (Bool-cases same_test) [
    | inl same ↦ inl (SameEvent-of_test same, rw run-classify (rw same))
    | inr other ↦ inr ((λ h. cc (test_of_SameEvent h)), rw run-classify (rw other))
  ]

module _ {J : Type 0} where
  pub All-find_event :
      (P : PosEvent J → Type 0) (i : ℕ) (e : PosEvent J) (l : List (PosEvent J))
      → find_event i l ≡ some e
      → All P l
      → P e
  unfolding find_event
  All-find_event P i e [] found h = cc
  All-find_event P i e (x ∷ l) found h = elim (Bool-cases (x.event_id == i)) [
    | inl here ↦ subst P (ground arith) h.0
    | inr further ↦ All-find_event P i e l (ground arith) h.1
  ]

value_of : {A : Type 0} (o : Option A) → is_some o ≡ true → (a : A) × (o ≡ some a)
value_of none h = cc
value_of (some a) h = (a, refl)

-- The store and the product that a stored row names.
pub record Owners {J : Type 0} (db : Db J) (e : PosEvent J) : Type 0 where
  pub store : Store
  pub product : Product
  pub store_found : find_store_id e.store_id db.stores ≡ some store
  pub product_found : find_product_id e.product_id db.products ≡ some product

module _ {J : Type 0} (db : Db J) where
  pub owners :
      (i : ℕ) (e : PosEvent J) → IsWellFormed db → find_event i db.events ≡ some e → Owners db e
  owners i e h found =
      let (s, hs) =
        value_of (find_store_id e.store_id db.stores)
          (All-find_event _ i e db.events found h.has_store) in
      let (q, hq) =
        value_of (find_product_id e.product_id db.products)
          (All-find_event _ i e db.events found h.has_product) in
      record { store = s; product = q; store_found = hs; product_found = hq }

module _ {J : Type 0} ⦃j : JsonEq J⦄ (now : ℕ) (db : Db J) (e : PosEvent J) where
  -- The first `session.get` finds the row.
  ingest_taken :
      (p : EventCreate J)
      → find_event (base_of p).event_id db.events ≡ some e
      → run now (ingest p) db db ≡ run now (classify_existing_and_rollback p none none) db db
  unfolding run ingest
  ingest_taken (sale_event p) found = ground arith
  ingest_taken (refund_event p) found = ground arith

  -- Of a key that is taken:
  pub ingest_replay :
      (p : EventCreate J)
      → find_event (base_of p).event_id db.events ≡ some e
      → (o : Owners db e)
      → (SameEvent o.store o.product e p
          × (run now (ingest p) db db ≡ (ok (duplicate_result e), db)))
        ⊎ ((¬ SameEvent o.store o.product e p)
            × (run now (ingest p) db db ≡ (err (event_conflict (base_of p).event_id), db)))
  ingest_replay p found o = rw (ingest_taken p found) (
      classify_cases now db db e o.store o.product p found o.store_found o.product_found
        (find_store_id_id e.store_id db.stores o.store o.store_found)
        (find_product_id_id e.product_id db.products o.product o.product_found))
