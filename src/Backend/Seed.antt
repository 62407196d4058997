-- ===== src/Backend/Seed.antt =====
-- backend/app/seed.py: the stores and the products that every installation has.
-- `uuid5` is `uuid.uuid5` under the file's namespace. The statements run in one transaction: what
-- the database refuses ends the program with nothing committed.
mod Keys
pub mod Kept
mod Tests
use Prim.Native.String.{◌++◌ as append}
use storepulse.Prelude.{ℕ, Bool, true, String, Option, none, some, List, [], ◌∷◌, if◌then◌else◌}
use storepulse.Backend.Models.{Store, Product}
use storepulse.Backend.Database.{
  Db, find_store_id, find_store_code, find_product_id, find_product_sku, is_some,
}

pub record SeedStore : Type 0 where
  pub code : String
  pub name : String
  pub timezone : String
  pub daily_target_cents : ℕ
  pub responsible_name : String
  pub responsible_email : String

pub record SeedProduct : Type 0 where
  pub sku : String
  pub name : String
  pub category : String

abbrev store : String → String → String → ℕ → String → String → SeedStore
store code name timezone target responsible_name responsible_email = record {
  code = code;
  name = name;
  timezone = timezone;
  daily_target_cents = target;
  responsible_name = responsible_name;
  responsible_email = responsible_email;
}

abbrev product : String → String → String → SeedProduct
product sku name category = record { sku = sku; name = name; category = category }

-- `STORES`
unfoldable pub seed_stores : List SeedStore
seed_stores =
    store "MAD-MADRID" "Madrid Central" "Europe/Madrid" 180000 "Ana Ruiz"
      "madrid.manager@example.test"
    ∷ store "MAD-LONDON" "London West" "Europe/London" 220000 "James Cole"
        "london.manager@example.test"
    ∷ store "MAD-NYC" "New York Midtown" "America/New_York" 300000 "Taylor Reed"
        "nyc.manager@example.test"
    ∷ store "MAD-TOKYO" "Tokyo Shibuya" "Asia/Tokyo" 260000 "Aiko Mori" "tokyo.manager@example.test"
    ∷ store "MAD-WARSAW" "Warsaw Centrum" "Europe/Warsaw" 160000 "Marta Nowak"
        "warsaw.manager@example.test"
    ∷ []

-- `PRODUCTS`
unfoldable pub seed_products : List SeedProduct
seed_products =
    product "COFFEE-001" "Coffee Beans 500g" "Grocery"
    ∷ product "TEA-001" "Green Tea" "Grocery"
    ∷ product "MUG-001" "Ceramic Mug" "Home"
    ∷ product "BOTTLE-001" "Reusable Bottle" "Home"
    ∷ product "NOTE-001" "Notebook" "Stationery"
    ∷ product "PEN-001" "Gel Pen Set" "Stationery"
    ∷ product "BAG-001" "Canvas Tote" "Accessories"
    ∷ product "CABLE-001" "USB-C Cable" "Electronics"
    ∷ product "POWER-001" "Power Adapter" "Electronics"
    ∷ product "SNACK-001" "Granola Bar" "Grocery"
    ∷ []

unfoldable pub stable_id : (String → ℕ) → String → String → ℕ
stable_id uuid5 kind value = uuid5 (append kind (append ":" value))

-- `INSERT ... ON CONFLICT (code) DO NOTHING`: a row of that code stays as it is, and another row
-- of the same id is a violation of the primary key.
unfoldable pub insert_store : Store → List Store → Option (List Store)
unfolding find_store_code find_store_id
insert_store s l =
    if is_some (find_store_code s.code l)
    then some l
    else if is_some (find_store_id s.id l)
    then none
    else some (s ∷ l)

-- `INSERT ... ON CONFLICT (sku) DO NOTHING`
unfoldable pub insert_product : Product → List Product → Option (List Product)
unfolding find_product_sku find_product_id
insert_product p l =
    if is_some (find_product_sku p.sku l)
    then some l
    else if is_some (find_product_id p.id l)
    then none
    else some (p ∷ l)

-- A loop of inserts, which ends with the first that the database refuses.
unfoldable pub insert_all : {A L : Type 0} → (A → L → Option L) → List A → L → Option L
insert_all insert [] l = some l
insert_all insert (a ∷ rest) l = elim (insert a l) [
  | none ↦ none
  | some l' ↦ insert_all insert rest l'
]

module _ (uuid5 : String → ℕ) (now : ℕ) where
  -- The row that the statement gives; the database fills in the times.
  unfoldable pub store_row : SeedStore → Store
  unfolding stable_id
  store_row s = record {
    id = stable_id uuid5 "store" s.code;
    name = s.name;
    code = s.code;
    timezone = s.timezone;
    daily_target_cents = s.daily_target_cents;
    responsible_name = s.responsible_name;
    responsible_email = s.responsible_email;
    is_active = true;
    last_seen_at = none;
    created_at = now;
    updated_at = now;
  }

  unfoldable pub product_row : SeedProduct → Product
  unfolding stable_id
  product_row p = record {
    id = stable_id uuid5 "product" p.sku;
    sku = p.sku;
    name = p.name;
    category = some p.category;
    created_at = now;
  }

  -- The first loop of `seed`.
  unfoldable pub insert_stores : List SeedStore → List Store → Option (List Store)
  unfolding insert_all insert_store store_row
  insert_stores = insert_all (λ s. insert_store (store_row s))

  -- The second loop of `seed`.
  unfoldable pub insert_products : List SeedProduct → List Product → Option (List Product)
  unfolding insert_all insert_product product_row
  insert_products = insert_all (λ p. insert_product (product_row p))

  abbrev pub with_products :
      {J : Type 0} → Db J → List Store → Option (List Product) → Option (Db J)
  with_products db stores none = none
  with_products db stores (some products) =
      some (record db { stores = stores; products = products })

  abbrev pub with_stores : {J : Type 0} → Db J → Option (List Store) → Option (Db J)
  with_stores db none = none
  with_stores db (some stores) = with_products db stores (insert_products seed_products db.products)

  unfoldable pub seed : {J : Type 0} → Db J → Option (Db J)
  unfolding insert_stores insert_products seed_stores seed_products
  seed db = with_stores db (insert_stores seed_stores db.stores)
