-- ===== src/Backend/Ingestion/Tests.antt =====
-- The theorems at concrete requests, and runs of the handlers.
use storepulse.Prelude.{ℕ, ◌≡◌, ◌↔◌, ◌⊎◌, ◌^◌, refl, some, List, [], ◌∷◌, arith, inl}
use storepulse.Backend.Models.{sale_event, refund_event}
use storepulse.Backend.Database.{
  find_event, find_store_code, find_store_id, find_product_id, find_product_sku, insert_row,
  touch_store,
}
use storepulse.Backend.Session.{ok, err, run, event_conflict, database_error}
use storepulse.Backend.Classify.{duplicate}
use storepulse.Backend.Ingestion.{ingest, event_values}
use storepulse.Backend.Ingestion.Stored.{Effect, accepted_result, stored_row}
use storepulse.Backend.Ingestion.Effect.{ingest-Effect}
use storepulse.Backend.Ingestion.WellFormed.{IsWellFormed}
use storepulse.Backend.Ingestion.Decision.{IsAccepted}
use storepulse.Backend.Ingestion.Sales.{Sellable, sale-IsAccepted_iff, sale_overflow}
use storepulse.Backend.Ingestion.Refunds.{Returnable, refund-IsAccepted_iff}
use storepulse.Backend.Ingestion.Replay.{SameEvent, Owners, ingest_replay, duplicate_result}
use storepulse.Backend.Ingestion.History.{Request, serve, serve-IsWellFormed}
use storepulse.Backend.Ingestion.Retry.{Extends, serve-Extends}
use storepulse.Backend.Ingestion.Fixtures.{
  number_json, madrid, coffee, seeded, two_coffees, back, sold, seeded-IsWellFormed,
  sold-IsWellFormed,
}

sale_run :
    run 60 (ingest (sale_event two_coffees)) seeded seeded
    ≡ (ok (accepted_result 60 (sale_event two_coffees)), sold)
unfolding run ingest insert_row find_event find_store_code find_product_sku find_store_id
    find_product_id touch_store
sale_run = refl

retry_run :
    run 70 (ingest (sale_event two_coffees)) sold sold
    ≡ (ok (record { event_id = 100; status = duplicate; received_at = 60 }), sold)
unfolding run ingest insert_row event_values find_event find_store_code find_product_sku
    find_store_id find_product_id touch_store
retry_run = refl

conflict_run :
    run 70 (ingest (sale_event (record two_coffees { quantity = 3 }))) sold sold
    ≡ (err (event_conflict 100), sold)
unfolding run ingest insert_row event_values find_event find_store_code find_product_sku
    find_store_id find_product_id touch_store
conflict_run = refl

abbrev requests : List (Request ℕ)
requests =
    record { at = 60; payload = sale_event two_coffees }
    ∷ record { at = 61; payload = refund_event (back 101 1 799) }
    ∷ record { at = 62; payload = refund_event (back 102 2 799) }
    ∷ []

serve-IsWellFormed_example : IsWellFormed (serve requests seeded)
serve-IsWellFormed_example = serve-IsWellFormed requests seeded seeded-IsWellFormed

serve-Extends_example : Extends seeded (serve requests seeded)
serve-Extends_example = serve-Extends requests seeded

ingest-Effect_example :
    Effect 60
      (sale_event two_coffees)
      seeded
      (run 60 (ingest (sale_event two_coffees)) seeded seeded)
ingest-Effect_example = ingest-Effect 60 seeded (sale_event two_coffees)

sale-IsAccepted_iff_example :
    IsAccepted (run 60 (ingest (sale_event two_coffees)) seeded seeded)
    ↔ Sellable seeded two_coffees
sale-IsAccepted_iff_example =
    sale-IsAccepted_iff 60 seeded seeded-IsWellFormed two_coffees (omega arith)

refund-IsAccepted_iff_example :
    IsAccepted (run 61 (ingest (refund_event (back 101 1 799))) sold sold)
    ↔ Returnable sold (back 101 1 799)
refund-IsAccepted_iff_example =
    refund-IsAccepted_iff 61 sold sold-IsWellFormed (back 101 1 799) (omega arith)

sale_overflow_example :
    run 61 (ingest (sale_event (record two_coffees { quantity = 2 ^ 63 }))) seeded seeded
    ≡ (err database_error, seeded)
unfolding find_event find_store_code find_product_sku
sale_overflow_example =
    sale_overflow 61 seeded (record two_coffees { quantity = 2 ^ 63 }) madrid coffee refl refl refl
      (inl (omega arith))

abbrev sold_owners : Owners sold (stored_row 60 (sale_event two_coffees) madrid coffee)
unfolding event_values find_store_id find_product_id
sold_owners = record {
  store = record madrid { last_seen_at = some 60; updated_at = 60 };
  product = coffee;
  store_found = refl;
  product_found = refl;
}

ingest_replay_example :
    (SameEvent sold_owners.store coffee
        (stored_row 60 (sale_event two_coffees) madrid coffee)
        (sale_event two_coffees)
      × (run 70 (ingest (sale_event two_coffees)) sold sold
          ≡ (ok (duplicate_result (stored_row 60 (sale_event two_coffees) madrid coffee)), sold)))
    ⊎ ((¬ SameEvent sold_owners.store coffee
          (stored_row 60 (sale_event two_coffees) madrid coffee)
          (sale_event two_coffees))
        × (run 70 (ingest (sale_event two_coffees)) sold sold ≡ (err (event_conflict 100), sold)))
unfolding event_values find_event find_store_id find_product_id
ingest_replay_example =
    ingest_replay 70 sold (stored_row 60 (sale_event two_coffees) madrid coffee)
      (sale_event two_coffees) refl sold_owners
