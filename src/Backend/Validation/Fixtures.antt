-- ===== src/Backend/Validation/Fixtures.antt =====
-- Test data: a printer and a reader that agree, and a backend with the whole catalogue. JSON is a
-- number, and a number is written in strokes.
use storepulse.Prelude.{
  ℕ, zero, suc, ◌≡◌, refl, String, Option, none, some, List, [], ◌∷◌, arith, ap,
}
use storepulse.Simulator.Domain.{ProductSpec, product_catalog}
use storepulse.Simulator.Domain.Making.{IsSpan}
use storepulse.Simulator.Fixtures.{default_config, least_rng}
use storepulse.Backend.Models.{Product}
use storepulse.Backend.Database.{
  Db, find_event, find_store_code, find_store_id, find_product_id, find_product_sku,
}
use storepulse.Backend.Ingestion.WellFormed.{IsWellFormed}
use storepulse.Backend.Ingestion.Fixtures.{number_json, madrid}
use storepulse.Backend.Api.{BackendState}
use storepulse.Backend.Validation.{Value, text, Pydantic, chars}
use storepulse.Backend.Validation.Printing.{is_plain, Printer, IsCodec}
use storepulse.Backend.Validation.Delivery.{IsServed}

unfoldable pub strokes : ℕ → String
strokes zero = ""
strokes (suc n) = String.◌∷◌ "|" (strokes n)

abbrev pub read_instant : Value ℕ → Option ℕ
read_instant (text s) = some (chars s)
read_instant _ = none

abbrev pub reader : Pydantic ℕ
reader = record {
  to_uuid = λ s. some (chars s);
  to_aware = read_instant;
  strip = λ s. s;
  strip_keys = λ j. j;
}

abbrev pub writer : Printer ℕ
writer = record { show_uuid = strokes; isoformat = strokes; metadata = λ late. 7 }

chars-strokes : (n : ℕ) → chars (strokes n) ≡ n
unfolding chars strokes
chars-strokes zero = refl
chars-strokes (suc n) = ap suc (chars-strokes n)

pub reader-IsCodec : IsCodec reader writer
reader-IsCodec = record {
  uuid = λ i. ap some (chars-strokes i);
  instant = λ t. ap some (chars-strokes t);
  strip_plain = λ s h. refl;
  metadata = λ late. refl;
}

abbrev pub number_products : ℕ → List ProductSpec → List Product
number_products n [] = []
number_products n (spec ∷ l) =
    record { id = n; sku = spec.sku; name = spec.sku; category = none; created_at = 0 }
    ∷ number_products (suc n) l

-- A store and the whole catalogue.
abbrev pub stocked_db : Db ℕ
stocked_db = record {
  stores = madrid ∷ [];
  products = number_products 0 product_catalog;
  events = [];
}

pub stocked_db-IsWellFormed : IsWellFormed stocked_db
unfolding find_event find_store_code find_product_sku find_store_id find_product_id
stocked_db-IsWellFormed = record {
  consistent = record { unique = tt; checked = tt; linked = tt; limited = λ i o found. cc };
  store_by_id = λ c s found. ground arith;
  product_by_id = λ c s found. ground arith;
  has_store = tt;
  has_product = tt;
}

pub default-IsServed : IsServed default_config stocked_db
unfolding is_plain chars find_store_code find_product_sku
default-IsServed = record {
  store_plain = refl;
  store_within = (omega arith, omega arith);
  label_plain = refl;
  label_within = (omega arith, omega arith);
  amount_fits = omega arith;
  store_known = refl;
  stocked = (refl, (refl, (refl, (refl, (refl, (refl, (refl, (refl, (refl, (refl, tt))))))))));
}

abbrev pub noon : ℕ
noon = 43_200_000_000

pub noon-IsSpan : IsSpan least_rng default_config noon
noon-IsSpan = record { late = omega arith; quantity = omega arith; room = omega arith }

abbrev pub stocked_backend : BackendState ℕ
stocked_backend = record { db = stocked_db; manager = record { connections = 1 ∷ [] } }
