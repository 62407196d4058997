-- ===== src/Backend/Validation/Bounds.antt =====
-- What a validated payload is known to be.
use storepulse.Prelude.{ℕ, ◌≤◌, ◌<◌, ◌≡◌, String, Option, some, arith}
use storepulse.Backend.Models.{SaleEventCreate, EventCreate, sale_event, refund_event, base_of}
use storepulse.Backend.Ingestion.Decision.{IsPositive}
use storepulse.Backend.Validation.{
  Value, Body, Pydantic, chars, to_text, to_positive, field, validate_base, validate_sale,
  validate_refund, validate_event,
}

abbrev pub Within : ℕ → String → Type 0
Within limit s = (1 ≤ chars s) × (chars s ≤ limit)

-- The numbers are positive, and the texts are not empty and as long as the columns at most.
pub record IsBounded {J : Type 0} (e : SaleEventCreate J) : Type 0 where
  pub positive : IsPositive e
  pub store_code : Within 40 e.store_code
  pub product_sku : Within 64 e.product_sku
  pub source_instance : Within 120 e.source_instance

to_positive-pos : {J : Type 0} (v : Option (Value J)) (n : ℕ) → to_positive v ≡ some n → 0 < n
to_positive-pos v n h = ground (arith, h)

to_text-Within :
    {J : Type 0} (p : Pydantic J) (limit : ℕ) (v : Option (Value J)) (s : String)
    → to_text p limit v ≡ some s
    → Within limit s
unfolding chars
to_text-Within p limit v s h = ground (arith, h)

module _ {J : Type 0} (p : Pydantic J) (body : Body J) where
  validate_base-IsBounded : (e : SaleEventCreate J) → validate_base p body ≡ some e → IsBounded e
  unfolding validate_base chars
  validate_base-IsBounded e h = record {
    positive = record {
      quantity_pos = to_positive-pos (field "quantity" body) e.quantity (ground (arith, h));
      amount_pos = to_positive-pos (field "amount_cents" body) e.amount_cents (ground (arith, h));
    };
    store_code = to_text-Within p 40 (field "store_code" body) e.store_code (ground (arith, h));
    product_sku = to_text-Within p 64 (field "product_sku" body) e.product_sku (ground (arith, h));
    source_instance =
        to_text-Within p 120 (field "source_instance" body) e.source_instance (ground (arith, h));
  }

  validate_sale-IsBounded :
      (e : EventCreate J) → validate_sale p body ≡ some e → IsBounded (base_of e)
  unfolding validate_sale
  validate_sale-IsBounded (sale_event e) h = validate_base-IsBounded e (ground (arith, h))
  validate_sale-IsBounded (refund_event e) h = absurd (ground (arith, h))

  validate_refund-IsBounded :
      (e : EventCreate J) → validate_refund p body ≡ some e → IsBounded (base_of e)
  unfolding validate_refund
  validate_refund-IsBounded (sale_event e) h = absurd (ground (arith, h))
  validate_refund-IsBounded (refund_event e) h = validate_base-IsBounded e.base (ground (arith, h))

  -- Whatever body passes the validation, its numbers are positive and its texts have between one
  -- and 40, 64 and 120 characters, after the white space around them is stripped.
  pub validate_event-IsBounded :
      (e : EventCreate J) → validate_event p body ≡ some e → IsBounded (base_of e)
  unfolding validate_event
  validate_event-IsBounded e h =
      ground (arith, h, validate_sale-IsBounded e, validate_refund-IsBounded e)
