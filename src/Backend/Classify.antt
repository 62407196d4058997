-- ===== src/Backend/Classify.antt =====
-- backend/app/event_ingestion.py: lookups, and the classification of a taken `event_id`.
use storepulse.Prelude.{
  ℕ, Bool, ◌&&◌, String, Option, none, some, ◌==◌, if◌then◌else◌, str_eq, option_eq,
}
use storepulse.Backend.Models.{
  Store, Product, event_type_eq, PosEvent, EventCreate, sale_event, refund_event, JsonEq, base_of,
  event_type_of,
}
use storepulse.Backend.Session.{
  Session, IngestError, return, raise, get_event, get_store, get_product, select_store,
  select_product, finally_rollback, unknown_store, unknown_product, event_conflict, runtime_error,
  ◌>>=◌,
}

pub data IngestStatus : Type 0 where
  accepted duplicate : IngestStatus

pub record EventIngestionResult : Type 0 where
  pub event_id : ℕ
  pub status : IngestStatus
  pub received_at : ℕ

abbrev pub or_raise : {J A : Type 0} → IngestError → Option A → Session J A
or_raise e none = raise e
or_raise e (some a) = return a

module _ {J : Type 0} where
  unfoldable pub find_store : String → Session J Store
  unfolding ◌>>=◌
  find_store code = select_store code (or_raise (unknown_store code))

  unfoldable pub find_product : String → Session J Product
  find_product sku = select_product sku (or_raise (unknown_product sku))

  unfoldable pub payload_original_event_id : EventCreate J → Option ℕ
  payload_original_event_id (refund_event p) = some p.original_event_id
  payload_original_event_id (sale_event p) = none

  unfoldable pub matches_event_payload : ⦃j : JsonEq J⦄ → PosEvent J → ℕ → ℕ → EventCreate J → Bool
  unfolding payload_original_event_id
  matches_event_payload ⦃j⦄ existing store_id product_id payload =
      existing.store_id == store_id
      && existing.product_id == product_id
      && event_type_eq existing.event_type (event_type_of payload)
      && existing.quantity == (base_of payload).quantity
      && existing.amount_cents == (base_of payload).amount_cents
      && existing.occurred_at == (base_of payload).occurred_at
      && option_eq ◌==◌ existing.original_event_id (payload_original_event_id payload)
      && str_eq existing.source_instance (base_of payload).source_instance
      && option_eq j.json_eq existing.metadata_json (base_of payload).metadata
      && option_eq str_eq existing.note (base_of payload).note

  -- `store_matches` and `store_id`: from the store that was looked up, or from the stored row's.
  unfoldable pub resolve_store : PosEvent J → EventCreate J → Option Store → Session J (Bool × ℕ)
  resolve_store existing payload (some store) = return (existing.store_id == store.id, store.id)
  resolve_store existing payload none = get_store existing.store_id (elim [
    | none ↦ raise (runtime_error "stored event references a missing store")
    | some store ↦ return (str_eq store.code (base_of payload).store_code, store.id)
  ])

  unfoldable pub resolve_product :
      PosEvent J → EventCreate J → Option Product → Session J (Bool × ℕ)
  resolve_product existing payload (some product) =
      return (existing.product_id == product.id, product.id)
  resolve_product existing payload none = get_product existing.product_id (elim [
    | none ↦ raise (runtime_error "stored event references a missing product")
    | some product ↦ return (str_eq product.sku (base_of payload).product_sku, product.id)
  ])

  abbrev pub get_existing : ℕ → Session J (PosEvent J)
  get_existing i =
      get_event i
        (or_raise (runtime_error "event conflict was reported but the existing row is not visible"))

  unfoldable pub classify_existing_event :
      ⦃j : JsonEq J⦄
      → EventCreate J
      → Option Store
      → Option Product
      → Session J EventIngestionResult
  unfolding ◌>>=◌ resolve_store resolve_product matches_event_payload
  classify_existing_event payload store product = do
    existing ← get_existing (base_of payload).event_id
    (store_matches, store_id) ← resolve_store existing payload store
    (product_matches, product_id) ← resolve_product existing payload product
    if store_matches
          && product_matches
          && matches_event_payload existing store_id product_id payload
        then return (record {
          event_id = existing.event_id;
          status = duplicate;
          received_at = existing.received_at;
        })
        else raise (event_conflict (base_of payload).event_id)

  unfoldable pub classify_existing_and_rollback :
      ⦃j : JsonEq J⦄
      → EventCreate J
      → Option Store
      → Option Product
      → Session J EventIngestionResult
  unfolding finally_rollback classify_existing_event
  classify_existing_and_rollback payload store product =
      finally_rollback (classify_existing_event payload store product)
