-- ===== src/Backend/Seed/Tests.antt =====
-- The seed of a database that has one store, and the theorems at it. JSON is a number here.
use Prim.Native.Char.{code}
use storepulse.Prelude.{ℕ, ◌+◌, ◌*◌, ◌≡◌, refl, true, String, none, some, [], ◌∷◌, All}
use storepulse.Backend.Models.{Store}
use storepulse.Backend.Database.{
  Db, find_store_code, find_store_id, find_product_id, find_product_sku, is_some,
}
use storepulse.Simulator.Domain.{product_catalog}
use storepulse.Backend.Seed.{
  stable_id, seed_stores, seed_products, insert_all, insert_store, insert_product, store_row,
  product_row, insert_stores, insert_products, seed,
}
use storepulse.Backend.Seed.Kept.{HasCode, Extends, seed-Complete}

abbrev hash : String → ℕ
hash String.[] = 0
hash (String.◌∷◌ c s) = code c + 257 * hash s

abbrev renamed : Store
renamed = record {
  id = 1;
  name = "Madrid Sol";
  code = "MAD-MADRID";
  timezone = "Europe/Madrid";
  daily_target_cents = 1;
  responsible_name = "Eva";
  responsible_email = "eva@example.test";
  is_active = true;
  last_seen_at = some 4;
  created_at = 0;
  updated_at = 4;
}

abbrev one_store : Db ℕ
one_store = record { stores = renamed ∷ []; products = []; events = [] }

unfoldable seeded : Db ℕ
unfolding seed
seeded = elim (seed hash 9 one_store) [ none ↦ one_store | some db ↦ db ]

seed-one_store : seed hash 9 one_store ≡ some seeded
unfolding seeded seed insert_stores insert_products insert_all insert_store insert_product store_row
    product_row seed_stores seed_products stable_id find_store_code find_store_id find_product_id
    find_product_sku
seed-one_store = refl

seed-Complete_example :
    All (HasCode seeded.stores) seed_stores
    × All (λ spec. is_some (find_product_sku spec.sku seeded.products) ≡ true) product_catalog
    × Extends
        (find_store_code "MAD-MADRID" one_store.stores)
        (find_store_code "MAD-MADRID" seeded.stores)
    × Extends
        (find_product_sku "TEA-001" one_store.products)
        (find_product_sku "TEA-001" seeded.products)
    × (seeded.events ≡ one_store.events)
seed-Complete_example = seed-Complete hash 9 one_store seeded "MAD-MADRID" "TEA-001" seed-one_store
