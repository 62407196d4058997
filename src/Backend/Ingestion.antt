-- ===== src/Backend/Ingestion.antt =====
-- backend/app/event_ingestion.py: the insert and the two handlers, over the statements of a session.
pub mod Stored
pub mod Effect
pub mod Consistency
pub mod WellFormed
pub mod Replay
pub mod Decision
pub mod Sales
pub mod Refunds
pub mod History
pub mod Retry
pub mod Fixtures
mod Tests
use storepulse.Prelude.{
  ℕ, ◌+◌, Bool, true, false, ◌&&◌, ◌||◌, not, String, Option, none, some, ltb, ◌==◌, if◌then◌else◌,
  str_eq, option_eq,
}
use storepulse.Backend.Models.{
  Store, Product, EventType, sale, refund, event_type_eq, EventValues, PosEvent, SaleEventCreate,
  RefundEventCreate, EventCreate, sale_event, refund_event, JsonEq, base_of, event_type_of,
}
use storepulse.Backend.Database.{is_some}
use storepulse.Backend.Session.{
  Session, IngestError, return, raise, get_event, get_store, get_product, select_store,
  select_product, lock_event, sum_refunds, insert_event, set_last_seen, commit, finally_rollback,
  unknown_store, unknown_product, event_conflict, original_sale_not_found, invalid_original_sale,
  refund_reference_mismatch, refund_limit_exceeded, runtime_error, ◌>>=◌, ◌>>◌,
}
use storepulse.Backend.Classify.{
  EventIngestionResult, IngestStatus, accepted, duplicate, or_raise, find_store, find_product,
  payload_original_event_id, classify_existing_and_rollback,
}

module _ {J : Type 0} where
  -- The columns of `statement` in `_insert_event`.
  unfoldable pub event_values : EventCreate J → Store → Product → EventValues J
  unfolding payload_original_event_id
  event_values payload store product = record {
    event_id = (base_of payload).event_id;
    store_id = store.id;
    product_id = product.id;
    event_type = event_type_of payload;
    quantity = (base_of payload).quantity;
    amount_cents = (base_of payload).amount_cents;
    occurred_at = (base_of payload).occurred_at;
    original_event_id = payload_original_event_id payload;
    source_instance = (base_of payload).source_instance;
    metadata_json = (base_of payload).metadata;
    note = (base_of payload).note;
  }

  unfoldable pub insert_payload : EventCreate J → Store → Product → Session J (Option ℕ)
  unfolding event_values
  insert_payload payload store product = insert_event (event_values payload store product) return

  unfoldable pub commit_accepted_event : EventCreate J → Store → ℕ → Session J EventIngestionResult
  commit_accepted_event payload store received_at = set_last_seen store.id received_at (
      commit (
        return (record {
          event_id = (base_of payload).event_id;
          status = accepted;
          received_at = received_at;
        })))

  -- The end of both handlers: `if received_at is None`.
  unfoldable pub finish_insert :
      ⦃j : JsonEq J⦄ → EventCreate J → Store → Product → Option ℕ → Session J EventIngestionResult
  unfolding classify_existing_and_rollback commit_accepted_event
  finish_insert payload store product none =
      classify_existing_and_rollback payload (some store) (some product)
  finish_insert payload store product (some received_at) =
      commit_accepted_event payload store received_at

  -- `ingest_sale_event` after the first `session.get`.
  unfoldable pub ingest_new_sale :
      ⦃j : JsonEq J⦄ → SaleEventCreate J → Session J EventIngestionResult
  unfolding ◌>>=◌ find_store find_product insert_payload finish_insert
  ingest_new_sale payload = do
    store ← find_store payload.store_code
    product ← find_product payload.product_sku
    received_at ← insert_payload (sale_event payload) store product
    finish_insert (sale_event payload) store product received_at

  unfoldable pub ingest_sale_event :
      ⦃j : JsonEq J⦄ → SaleEventCreate J → Session J EventIngestionResult
  unfolding ingest_new_sale classify_existing_and_rollback
  ingest_sale_event payload = get_event payload.event_id (elim [
    | none ↦ ingest_new_sale payload
    | some _ ↦ classify_existing_and_rollback (sale_event payload) none none
  ])

  unfoldable pub lock_original_sale : ℕ → Session J (PosEvent J)
  lock_original_sale i = lock_event i (elim [
    | none ↦ raise (original_sale_not_found i)
    | some original ↦
        if not (event_type_eq original.event_type sale) || is_some original.original_event_id
        then raise (invalid_original_sale i)
        else return original
  ])

  -- The two tests on the sums of `_validate_refund_reference`.
  unfoldable pub check_limits : PosEvent J → RefundEventCreate J → ℕ × ℕ → Session J (Unit {0})
  check_limits original payload (refunded_quantity, refunded_amount_cents) =
      if ltb original.quantity (refunded_quantity + payload.quantity)
      then raise (refund_limit_exceeded "refund exceeds remaining sale quantity")
      else if ltb original.amount_cents (refunded_amount_cents + payload.amount_cents)
      then raise (refund_limit_exceeded "refund exceeds remaining sale amount")
      else return tt

  unfoldable pub validate_refund_reference :
      PosEvent J → Store → Product → RefundEventCreate J → Session J (Unit {0})
  unfolding check_limits
  validate_refund_reference original store product payload =
      if not (original.store_id == store.id)
      then raise (refund_reference_mismatch "refund store must match original sale")
      else if not (original.product_id == product.id)
      then raise (refund_reference_mismatch "refund product must match original sale")
      else sum_refunds original.event_id (check_limits original payload)

  -- `ingest_refund_event` once the original is locked, with the answer of the second look at
  -- `event_id`.
  unfoldable pub ingest_locked_refund :
      ⦃j : JsonEq J⦄
      → RefundEventCreate J
      → Store
      → Product
      → PosEvent J
      → Option (PosEvent J)
      → Session J EventIngestionResult
  unfolding ◌>>=◌ validate_refund_reference insert_payload finish_insert
  ingest_locked_refund payload store product original (some _) =
      classify_existing_and_rollback (refund_event payload) (some store) (some product)
  ingest_locked_refund payload store product original none = do
    validate_refund_reference original store product payload
    received_at ← insert_payload (refund_event payload) store product
    finish_insert (refund_event payload) store product received_at

  -- `ingest_refund_event` after the first `session.get`.
  unfoldable pub ingest_new_refund :
      ⦃j : JsonEq J⦄ → RefundEventCreate J → Session J EventIngestionResult
  unfolding ◌>>=◌ find_store find_product lock_original_sale ingest_locked_refund
  ingest_new_refund payload = do
    store ← find_store payload.store_code
    product ← find_product payload.product_sku
    original ← lock_original_sale payload.original_event_id
    get_event payload.event_id (ingest_locked_refund payload store product original)

  unfoldable pub ingest_refund_event :
      ⦃j : JsonEq J⦄ → RefundEventCreate J → Session J EventIngestionResult
  unfolding ingest_new_refund classify_existing_and_rollback
  ingest_refund_event payload = get_event payload.event_id (elim [
    | none ↦ ingest_new_refund payload
    | some _ ↦ classify_existing_and_rollback (refund_event payload) none none
  ])

  -- The dispatch of `create_event` in backend/app/main.py.
  unfoldable pub ingest : ⦃j : JsonEq J⦄ → EventCreate J → Session J EventIngestionResult
  unfolding ingest_sale_event ingest_refund_event
  ingest (sale_event p) = ingest_sale_event p
  ingest (refund_event p) = ingest_refund_event p
