-- ===== src/Backend/Models.antt =====
-- The rows of backend/app/models.py and the request bodies of backend/app/schemas.py.
-- A UUID is a number that is only compared. An instant is a number of microseconds, so two aware
-- datetimes of different zones are equal when they are the same instant, as in Python.
-- The JSON of `metadata` is a type `J` of its own. Every text and every `J` stands for a value that
-- PostgreSQL can store, so without a U+0000, and without a NaN in JSON.
use storepulse.Prelude.{ℕ, ◌≡◌, Bool, true, false, String, Option, ◌^◌, ◌-◌}

pub record Store : Type 0 where
  pub id : ℕ
  pub name : String
  pub code : String
  pub timezone : String
  pub daily_target_cents : ℕ
  pub responsible_name : String
  pub responsible_email : String
  pub is_active : Bool
  pub last_seen_at : Option ℕ
  pub created_at : ℕ
  pub updated_at : ℕ

pub record Product : Type 0 where
  pub id : ℕ
  pub sku : String
  pub name : String
  pub category : Option String
  pub created_at : ℕ

pub data EventType : Type 0 where
  sale refund : EventType

abbrev pub event_type_eq : EventType → EventType → Bool
event_type_eq sale sale = true
event_type_eq refund refund = true
event_type_eq _ _ = false

-- The columns that `_insert_event` gives.
pub record EventValues (J : Type 0) : Type 0 where
  pub event_id : ℕ
  pub store_id : ℕ
  pub product_id : ℕ
  pub event_type : EventType
  pub quantity : ℕ
  pub amount_cents : ℕ
  pub occurred_at : ℕ
  pub original_event_id : Option ℕ
  pub source_instance : String
  pub metadata_json : Option J
  pub note : Option String

-- A stored row: the columns that were given, and the one that the database fills in.
pub record PosEvent (J : Type 0) : Type 0 where
  pub values : EventValues J
  pub open values use *
  pub received_at : ℕ

-- `SaleEventCreate`, once it is validated: the fields of `PosEventCreateBase`.
pub record SaleEventCreate (J : Type 0) : Type 0 where
  pub event_id : ℕ
  pub store_code : String
  pub product_sku : String
  pub quantity : ℕ
  pub amount_cents : ℕ
  pub occurred_at : ℕ
  pub source_instance : String
  pub metadata : Option J
  pub note : Option String

pub record RefundEventCreate (J : Type 0) : Type 0 where
  pub base : SaleEventCreate J
  pub open base use *
  pub original_event_id : ℕ

pub data EventCreate (J : Type 0) : Type 0 where
  sale_event : SaleEventCreate J → EventCreate J
  refund_event : RefundEventCreate J → EventCreate J

-- Python's `==` on the JSON that a client sent and the JSON that is read back from the column.
-- That a value equals itself is what storing it without loss promises.
pub record JsonEq (J : Type 0) : Type 0 where
  pub json_eq : J → J → Bool
  pub json_eq_refl : (x : J) → json_eq x x ≡ true

module _ {J : Type 0} where
  -- The fields that both kinds of payload have.
  abbrev pub base_of : EventCreate J → SaleEventCreate J
  base_of (sale_event p) = p
  base_of (refund_event p) = p.base

  abbrev pub event_type_of : EventCreate J → EventType
  event_type_of (sale_event p) = sale
  event_type_of (refund_event p) = refund

-- The largest value of a BIGINT column.
abbrev pub max_bigint : ℕ
max_bigint = 2 ^ 63 - 1
