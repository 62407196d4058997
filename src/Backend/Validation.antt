-- ===== src/Backend/Validation.antt =====
-- backend/app/schemas.py: how the JSON body of `POST /api/v1/events` becomes a validated payload,
-- and the request as a whole.
-- pydantic collects all errors of a body; here a body with any error is `none`, which FastAPI
-- answers with 422. `J` is the JSON of `metadata`.
pub mod Bounds
pub mod Printing
pub mod Catalog
pub mod Delivery
pub mod Fixtures
mod Tests
use Prim.Native.Char.{Char, code}
use Prim.Native.String
use storepulse.Prelude.{
  ℕ, zero, suc, Bool, true, false, ◌&&◌, ◌||◌, String, Option, none, some, List, [], ◌∷◌, leb, ltb,
  if◌then◌else◌, str_eq,
}
use storepulse.Prelude.Int.{ℤ, pos, negsuc}
use storepulse.Backend.Models.{
  SaleEventCreate, RefundEventCreate, EventCreate, sale_event, refund_event, JsonEq,
}
use storepulse.Backend.Classify.{EventIngestionResult}
use storepulse.Backend.Realtime.{SetChange}
use storepulse.Backend.Api.{BackendState, Handled, http_error, create_event}

-- A JSON value; `other` is a number with a fraction or an exponent, or an array.
pub data Value (J : Type 0) : Type 0 where
  null : Value J
  boolean : Bool → Value J
  integer : ℤ → Value J
  text : String → Value J
  object : J → Value J
  other : J → Value J

-- The parser has left one value for each key.
abbrev pub Body : Type 0 → Type 0
Body J = List (String × Value J)

-- What pydantic does with the text of a UUID, with an aware datetime and with white space, in a
-- text and in the keys of an object.
pub record Pydantic (J : Type 0) : Type 0 where
  pub to_uuid : String → Option ℕ
  pub to_aware : Value J → Option ℕ
  pub strip : String → String
  pub strip_keys : J → J

unfoldable pub chars : String → ℕ
chars String.[] = 0
chars (String.◌∷◌ c s) = suc (chars s)

abbrev pub contains_name : String → List String → Bool
contains_name k [] = false
contains_name k (x ∷ l) = str_eq k x || contains_name k l

module _ {J : Type 0} where
  unfoldable pub field : String → Body J → Option (Value J)
  field name [] = none
  field name ((k, v) ∷ l) = if str_eq name k then some v else field name l

  -- `extra="forbid"`
  unfoldable pub only_names : List String → Body J → Bool
  only_names names [] = true
  only_names names ((k, v) ∷ l) = contains_name k names && only_names names l

  -- `int = Field(gt=0, strict=True)`
  abbrev pub to_positive : Option (Value J) → Option ℕ
  to_positive (some (integer (pos n))) = if ltb 0 n then some n else none
  to_positive _ = none

abbrev pub base_names : List String
base_names =
    "event_id" ∷ "store_code" ∷ "product_sku" ∷ "quantity" ∷ "amount_cents" ∷ "occurred_at"
    ∷ "source_instance" ∷ "metadata" ∷ "note" ∷ "event_type" ∷ []

-- A chain of validations.
module _ {A B : Type 0} where
  infixl 5 ◌>>=◌
  abbrev pub ◌>>=◌ : Option A → (A → Option B) → Option B
  none >>= f = none
  (some a) >>= f = f a

module _ {J : Type 0} (p : Pydantic J) where
  -- `str = Field(min_length=1, max_length=limit)` under `str_strip_whitespace`
  abbrev pub bounded : ℕ → String → Option String
  bounded limit s = if leb 1 (chars s) && leb (chars s) limit then some s else none

  abbrev pub to_text : ℕ → Option (Value J) → Option String
  to_text limit (some (text s)) = bounded limit (p.strip s)
  to_text limit _ = none

  abbrev pub to_uuid_field : Option (Value J) → Option ℕ
  to_uuid_field (some (text s)) = p.to_uuid s
  to_uuid_field _ = none

  abbrev pub to_instant : Option (Value J) → Option ℕ
  to_instant none = none
  to_instant (some v) = p.to_aware v

  -- `dict[str, object] | None = None`
  abbrev pub to_metadata : Option (Value J) → Option (Option J)
  to_metadata none = some none
  to_metadata (some null) = some none
  to_metadata (some (object j)) = some (some (p.strip_keys j))
  to_metadata (some _) = none

  -- `str | None = None`
  abbrev pub to_note : Option (Value J) → Option (Option String)
  to_note none = some none
  to_note (some null) = some none
  to_note (some (text s)) = some (some (p.strip s))
  to_note (some _) = none

  -- The fields of `PosEventCreateBase`.
  unfoldable pub validate_base : Body J → Option (SaleEventCreate J)
  unfolding chars field
  validate_base body = do
    event_id ← to_uuid_field (field "event_id" body)
    store_code ← to_text 40 (field "store_code" body)
    product_sku ← to_text 64 (field "product_sku" body)
    quantity ← to_positive (field "quantity" body)
    amount_cents ← to_positive (field "amount_cents" body)
    occurred_at ← to_instant (field "occurred_at" body)
    source_instance ← to_text 120 (field "source_instance" body)
    metadata ← to_metadata (field "metadata" body)
    note ← to_note (field "note" body)
    some (record {
      event_id = event_id;
      store_code = store_code;
      product_sku = product_sku;
      quantity = quantity;
      amount_cents = amount_cents;
      occurred_at = occurred_at;
      source_instance = source_instance;
      metadata = metadata;
      note = note;
    })

  unfoldable pub validate_sale : Body J → Option (EventCreate J)
  unfolding validate_base only_names
  validate_sale body =
      if only_names base_names body
      then (do base ← validate_base body; some (sale_event base))
      else none

  unfoldable pub validate_refund : Body J → Option (EventCreate J)
  unfolding validate_base only_names
  validate_refund body =
      if only_names ("original_event_id" ∷ base_names) body
      then (do
        base ← validate_base body
        original_event_id ← to_uuid_field (field "original_event_id" body)
        some (refund_event (record { base = base; original_event_id = original_event_id })))
      else none

  -- The discriminator of `EventBody`.
  abbrev pub by_event_type : Option (Value J) → Body J → Option (EventCreate J)
  by_event_type (some (text s)) body =
      if str_eq s "SALE"
      then validate_sale body
      else if str_eq s "REFUND"
      then validate_refund body
      else none
  by_event_type _ body = none

  unfoldable pub validate_event : Body J → Option (EventCreate J)
  unfolding validate_sale validate_refund
  validate_event body = by_event_type (field "event_type" body) body

  abbrev pub handle_validated :
      ⦃j : JsonEq J⦄
      → (ℕ → Bool)
      → List SetChange
      → ℕ
      → Option (EventCreate J)
      → BackendState J
      → Handled J EventIngestionResult
  handle_validated fails meanwhile now none s = record {
    reply = http_error 422 "validation error";
    sent = [];
    state = s;
  }
  handle_validated fails meanwhile now (some payload) s = create_event fails meanwhile now payload s

  -- `POST /api/v1/events`
  unfoldable pub post_event :
      ⦃j : JsonEq J⦄
      → (ℕ → Bool)
      → List SetChange
      → ℕ
      → Body J
      → BackendState J
      → Handled J EventIngestionResult
  unfolding validate_event create_event
  post_event fails meanwhile now body s =
      handle_validated fails meanwhile now (validate_event body) s
