-- ===== src/Backend/Validation/Printing.antt =====
-- What the simulator writes for an event is what the service reads.
-- `Codec` is what the two sides use of `str(UUID)`, `datetime.isoformat`, pydantic and the
-- simulator's `_metadata`, on one event; an instant of the two sides is the same number.
use Prim.Native.Char.{code}
use storepulse.Prelude.{
  ℕ, ◌≡◌, refl, ◌∙◌, ap, str_eq, Bool, true, ◌&&◌, String, Option, none, some, [], ◌∷◌, arith, ltb,
  Option-cases, inl, inr,
}
use storepulse.Prelude.Int.{pos}
use storepulse.Simulator.Domain.{EventPayload}
use storepulse.Backend.Models.{SaleEventCreate, EventCreate, sale_event, refund_event}
use storepulse.Backend.Validation.{
  integer, text, object, Body, Pydantic, to_text, chars, field, only_names, validate_base,
  validate_sale, validate_refund, validate_event,
}
use storepulse.Backend.Validation.Bounds.{Within, IsBounded}

-- Printable ASCII without a blank.
unfoldable pub is_plain : String → Bool
is_plain String.[] = true
is_plain (String.◌∷◌ c s) = ltb 32 (code c) && ltb (code c) 127 && is_plain s

-- `str(UUID)`, `isoformat` and `_metadata`.
pub record Printer (J : Type 0) : Type 0 where
  pub show_uuid : ℕ → String
  pub isoformat : ℕ → String
  pub metadata : Bool → J

module _ {J : Type 0} where
  abbrev original_entry : Printer J → Option ℕ → Body J → Body J
  original_entry w none rest = rest
  original_entry w (some i) rest = ("original_event_id", text (w.show_uuid i)) ∷ rest

  -- The dict that `make_sale` and `make_refund` build, as JSON.
  unfoldable pub event_json : Printer J → EventPayload → Body J
  event_json w e =
      ("event_id", text (w.show_uuid e.event_id))
      ∷ ("store_code", text e.store_code)
      ∷ ("product_sku", text e.product_sku)
      ∷ ("event_type", text e.event_type)
      ∷ ("quantity", integer (pos e.quantity))
      ∷ ("amount_cents", integer (pos e.amount_cents))
      ∷ ("occurred_at", text (w.isoformat e.occurred_at))
      ∷ original_entry w e.original_event_id (
          ("source_instance", text e.source_instance)
          ∷ ("metadata", object (w.metadata e.late))
          ∷ [])

  -- Each side reads what the other writes.
  pub record IsCodec (p : Pydantic J) (w : Printer J) : Type 0 where
    pub uuid : (i : ℕ) → p.to_uuid (w.show_uuid i) ≡ some i
    pub instant : (t : ℕ) → p.to_aware (text (w.isoformat t)) ≡ some t
    pub strip_plain : (s : String) → is_plain s ≡ true → p.strip s ≡ s
    pub metadata : (late : Bool) → p.strip_keys (w.metadata late) ≡ w.metadata late

  -- The payload, as the service has it.
  abbrev pub received_base : Printer J → EventPayload → SaleEventCreate J
  received_base w e = record {
    event_id = e.event_id;
    store_code = e.store_code;
    product_sku = e.product_sku;
    quantity = e.quantity;
    amount_cents = e.amount_cents;
    occurred_at = e.occurred_at;
    source_instance = e.source_instance;
    metadata = some (w.metadata e.late);
    note = none;
  }

  abbrev pub received : Printer J → EventPayload → EventCreate J
  received w e = elim e.original_event_id [
    | none ↦ sale_event (received_base w e)
    | some i ↦ refund_event (record { base = received_base w e; original_event_id = i })
  ]

  -- `event_type` says whether the event names a sale, and the texts are plain.
  pub record IsPrintable (w : Printer J) (e : EventPayload) : Type 0 where
    pub kind : e.event_type ≡ elim e.original_event_id [ none ↦ "SALE" | some _ ↦ "REFUND" ]
    pub store_plain : is_plain e.store_code ≡ true
    pub sku_plain : is_plain e.product_sku ≡ true
    pub source_plain : is_plain e.source_instance ≡ true
    pub bounded : IsBounded (received_base w e)

  module _ (p : Pydantic J) (w : Printer J) (c : IsCodec p w) where
    to_text-plain :
        (limit : ℕ) (s : String)
        → is_plain s ≡ true
        → Within limit s
        → to_text p limit (some (text s)) ≡ some s
    unfolding chars is_plain
    to_text-plain limit s plain within = ground (arith, c.strip_plain s plain, within)

    validate_base-event_json :
        (e : EventPayload)
        → IsPrintable w e
        → validate_base p (event_json w e) ≡ some (received_base w e)
    unfolding validate_base event_json field is_plain
    validate_base-event_json e h = ground (
      arith,
      to_text-plain 40 e.store_code h.store_plain h.bounded.store_code,
      to_text-plain 64 e.product_sku h.sku_plain h.bounded.product_sku,
      to_text-plain 120 e.source_instance h.source_plain h.bounded.source_instance,
      c.uuid e.event_id,
      c.instant e.occurred_at,
      c.metadata e.late,
      h.bounded.positive.quantity_pos,
      h.bounded.positive.amount_pos,
    )

    -- The discriminator of a payload of each kind.
    kind_of :
        (kind : String) (e : EventPayload)
        → e.event_type ≡ kind
        → (str_eq e.event_type "SALE" ≡ str_eq kind "SALE")
          × (str_eq e.event_type "REFUND" ≡ str_eq kind "REFUND")
    kind_of kind e h = (ap (λ k. str_eq k "SALE") h, ap (λ k. str_eq k "REFUND") h)

    -- The JSON of a payload validates to that payload, with the metadata as it was sent and no
    -- note: for a payload with plain texts of the lengths the schema allows, positive numbers, and
    -- an `event_type` that is REFUND exactly if it names a sale.
    pub validate_event-event_json :
        (e : EventPayload)
        → IsPrintable w e
        → validate_event p (event_json w e) ≡ some (received w e)
    unfolding validate_event validate_sale validate_refund field only_names event_json
    validate_event-event_json e h = elim (Option-cases e.original_event_id) [
      | inl o ↦
          ground (arith, o, kind_of "SALE" e (h.kind ∙ rw o refl), validate_base-event_json e h)
      | inr (i, o) ↦ ground (
        arith,
        o,
        kind_of "REFUND" e (h.kind ∙ rw o refl),
        c.uuid i,
        validate_base-event_json e h,
      )
    ]
