-- ===== src/Backend/Validation/Tests.antt =====
-- The theorems at concrete bodies.
use storepulse.Prelude.{ℕ, ◌≡◌, refl, false, none, some, [], ◌∷◌, arith}
use storepulse.Prelude.Int.{pos}
use storepulse.Simulator.Domain.{EventPayload, OutboundEvent}
use storepulse.Simulator.Domain.Generator.{make_sale}
use storepulse.Simulator.Fixtures.{default_config, least_rng}
use storepulse.Backend.Models.{base_of}
use storepulse.Backend.Database.{find_event}
use storepulse.Backend.Ingestion.Fixtures.{number_json}
use storepulse.Backend.Validation.{
  integer, chars, field, only_names, validate_base, validate_refund, validate_event, post_event,
}
use storepulse.Backend.Validation.Bounds.{IsBounded, validate_event-IsBounded}
use storepulse.Backend.Validation.Printing.{
  is_plain, event_json, received, IsPrintable, validate_event-event_json,
}
use storepulse.Backend.Validation.Delivery.{Arrived, sale_arrives}
use storepulse.Backend.Validation.Fixtures.{
  strokes, reader, writer, reader-IsCodec, stocked_backend, stocked_db-IsWellFormed,
  default-IsServed, noon, noon-IsSpan,
}

-- A refund as the simulator sends it.
abbrev one_back : EventPayload
one_back = record {
  event_id = 8;
  store_code = "MAD-MADRID";
  product_sku = "COFFEE-001";
  event_type = "REFUND";
  quantity = 1;
  amount_cents = 899;
  occurred_at = 5;
  original_event_id = some 7;
  source_instance = "storepulse-pos:demo:a";
  late = false;
}

one_back-IsPrintable : IsPrintable writer one_back
unfolding is_plain chars
one_back-IsPrintable = record {
  kind = refl;
  store_plain = refl;
  sku_plain = refl;
  source_plain = refl;
  bounded = record {
    positive = record { quantity_pos = omega arith; amount_pos = omega arith };
    store_code = (omega arith, omega arith);
    product_sku = (omega arith, omega arith);
    source_instance = (omega arith, omega arith);
  };
}

validate_event-event_json_example :
    validate_event reader (event_json writer one_back) ≡ some (received writer one_back)
validate_event-event_json_example =
    validate_event-event_json reader writer reader-IsCodec one_back one_back-IsPrintable

validate_event-IsBounded_example : IsBounded (base_of (received writer one_back))
validate_event-IsBounded_example =
    validate_event-IsBounded reader (event_json writer one_back) (received writer one_back)
      validate_event-event_json_example

-- A key that the schema does not have, a quantity of zero, and an empty store code.
unknown_key : validate_event reader (("total", integer (pos 3)) ∷ event_json writer one_back) ≡ none
unfolding validate_event validate_refund only_names field event_json
unknown_key = refl

no_quantity : validate_event reader (event_json writer (record one_back { quantity = 0 })) ≡ none
unfolding validate_event validate_refund validate_base only_names field event_json chars strokes
no_quantity = refl

no_store : validate_event reader (event_json writer (record one_back { store_code = "" })) ≡ none
unfolding validate_event validate_refund validate_base only_names field event_json chars strokes
no_store = refl

sale_arrives_example :
    (event : OutboundEvent) × (s' : ℕ) × (make_sale least_rng default_config noon 9 [] 0
      ≡ some (some event, [], s'))
    × Arrived 60 9 event (
        post_event reader (λ socket. false) [] 60 (event_json writer event.payload) stocked_backend)
unfolding find_event
sale_arrives_example =
    sale_arrives least_rng default_config reader writer reader-IsCodec (λ socket. false) [] 60
      stocked_backend stocked_db-IsWellFormed default-IsServed 9 refl noon [] 0 noon-IsSpan
