-- ===== src/Backend/Ingestion/Fixtures.antt =====
-- The data of the tests: a seeded database and a sale in it. JSON is a number here.
use storepulse.Prelude.{ℕ, ◌≡◌, true, none, some, [], ◌∷◌, arith, ◌==◌}
use storepulse.Backend.Models.{
  Store, Product, SaleEventCreate, RefundEventCreate, sale_event, JsonEq,
}
use storepulse.Backend.Database.{
  Db, find_event, find_store_code, find_store_id, find_product_id, find_product_sku, insert_row,
  touch_store,
}
use storepulse.Backend.Session.{run}
use storepulse.Backend.Ingestion.{ingest}
use storepulse.Backend.Ingestion.Stored.{stored_row}
use storepulse.Backend.Ingestion.WellFormed.{IsWellFormed, ingest-IsWellFormed}

pub number_eq_refl : (x : ℕ) → (x == x) ≡ true
number_eq_refl x = ground arith

instance abbrev pub number_json : JsonEq ℕ
number_json = record { json_eq = ◌==◌; json_eq_refl = number_eq_refl }

abbrev pub madrid : Store
madrid = record {
  id = 1;
  name = "Madrid Central";
  code = "MAD-MADRID";
  timezone = "Europe/Madrid";
  daily_target_cents = 180_000;
  responsible_name = "Ana Ruiz";
  responsible_email = "madrid.manager@example.test";
  is_active = true;
  last_seen_at = none;
  created_at = 0;
  updated_at = 0;
}

abbrev pub coffee : Product
coffee = record {
  id = 7;
  sku = "COFFEE-001";
  name = "Coffee Beans 500g";
  category = some "Grocery";
  created_at = 0;
}

abbrev pub seeded : Db ℕ
seeded = record { stores = madrid ∷ []; products = coffee ∷ []; events = [] }

abbrev pub two_coffees : SaleEventCreate ℕ
two_coffees = record {
  event_id = 100;
  store_code = "MAD-MADRID";
  product_sku = "COFFEE-001";
  quantity = 2;
  amount_cents = 1598;
  occurred_at = 50;
  source_instance = "simulator-madrid:demo:a";
  metadata = some 3;
  note = none;
}

abbrev pub back : ℕ → ℕ → ℕ → RefundEventCreate ℕ
back i quantity amount = record {
  base = record two_coffees { event_id = i; quantity = quantity; amount_cents = amount };
  original_event_id = 100;
}

abbrev pub sold : Db ℕ
sold = record seeded {
  stores = record madrid { last_seen_at = some 60; updated_at = 60 } ∷ [];
  events = stored_row 60 (sale_event two_coffees) madrid coffee ∷ [];
}

pub seeded-IsWellFormed : IsWellFormed seeded
unfolding find_event find_store_code find_product_sku find_store_id find_product_id
seeded-IsWellFormed = record {
  consistent = record { unique = tt; checked = tt; linked = tt; limited = λ i o found. cc };
  store_by_id = λ c s found. ground arith;
  product_by_id = λ c s found. ground arith;
  has_store = tt;
  has_product = tt;
}

pub sold-IsWellFormed : IsWellFormed sold
unfolding run ingest insert_row find_event find_store_code find_product_sku find_store_id
    find_product_id touch_store
sold-IsWellFormed = ingest-IsWellFormed 60 (sale_event two_coffees) seeded seeded-IsWellFormed
