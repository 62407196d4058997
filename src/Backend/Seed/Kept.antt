-- ===== src/Backend/Seed/Kept.antt =====
-- What a seeded database has, and that seeding it again changes nothing.
use storepulse.Prelude.{
  ℕ, ◌≡◌, refl, true, String, Option, none, some, List, inl, inr, arith, Option-cases, All,
}
use storepulse.Backend.Models.{Store, Product}
use storepulse.Backend.Database.{Db, find_store_code, find_product_sku, is_some}
use storepulse.Simulator.Domain.{product_catalog}
use storepulse.Backend.Seed.{
  SeedStore, SeedProduct, seed_stores, seed_products, insert_store, insert_product, store_row,
  product_row, insert_stores, insert_products, seed,
}
use storepulse.Backend.Seed.Keys.{
  insert_store-find, insert_store-Has, insert_store-same, insert_product-find, insert_product-Has,
  insert_product-same, insert_all-invariant, insert_all-All, insert_all-same,
}

abbrev pub HasCode : List Store → SeedStore → Type 0
HasCode l s = is_some (find_store_code s.code l) ≡ true

abbrev pub HasSku : List Product → SeedProduct → Type 0
HasSku l p = is_some (find_product_sku p.sku l) ≡ true

module _ (uuid5 : String → ℕ) (now : ℕ) where
  stores-find :
      (rest : List SeedStore) (l l' : List Store) (c : String) (r : Store)
      → insert_stores uuid5 now rest l ≡ some l'
      → find_store_code c l ≡ some r
      → find_store_code c l' ≡ some r
  unfolding insert_stores
  stores-find rest l l' c r h k =
      insert_all-invariant (λ s. insert_store (store_row uuid5 now s))
        (λ m. find_store_code c m ≡ some r)
        (λ s m m' e. insert_store-find (store_row uuid5 now s) m m' c r e) rest l l' h k

  products-find :
      (rest : List SeedProduct) (l l' : List Product) (c : String) (r : Product)
      → insert_products uuid5 now rest l ≡ some l'
      → find_product_sku c l ≡ some r
      → find_product_sku c l' ≡ some r
  unfolding insert_products
  products-find rest l l' c r h k =
      insert_all-invariant (λ s. insert_product (product_row uuid5 now s))
        (λ m. find_product_sku c m ≡ some r)
        (λ s m m' e. insert_product-find (product_row uuid5 now s) m m' c r e) rest l l' h k

  stores-Has :
      (rest : List SeedStore) (l l' : List Store)
      → insert_stores uuid5 now rest l ≡ some l'
      → All (HasCode l') rest
  unfolding insert_stores store_row
  stores-Has rest l l' h =
      insert_all-All (λ s. insert_store (store_row uuid5 now s)) HasCode
        (λ a b m m' e k. elim (Option-cases (find_store_code b.code m)) [
          | inl n ↦ absurd (ground (arith, n, k))
          | inr (r, f) ↦ rw (insert_store-find (store_row uuid5 now a) m m' b.code r e f) refl
        ])
        (λ a m m' e. insert_store-Has (store_row uuid5 now a) m m' e) rest l l' h

  products-Has :
      (rest : List SeedProduct) (l l' : List Product)
      → insert_products uuid5 now rest l ≡ some l'
      → All (HasSku l') rest
  unfolding insert_products product_row
  products-Has rest l l' h =
      insert_all-All (λ s. insert_product (product_row uuid5 now s)) HasSku
        (λ a b m m' e k. elim (Option-cases (find_product_sku b.sku m)) [
          | inl n ↦ absurd (ground (arith, n, k))
          | inr (r, f) ↦ rw (insert_product-find (product_row uuid5 now a) m m' b.sku r e f) refl
        ])
        (λ a m m' e. insert_product-Has (product_row uuid5 now a) m m' e) rest l l' h

  stores-same :
      (rest : List SeedStore) (l : List Store)
      → All (HasCode l) rest
      → insert_stores uuid5 now rest l ≡ some l
  unfolding insert_stores store_row
  stores-same rest l h =
      insert_all-same (λ s. insert_store (store_row uuid5 now s)) HasCode
        (λ a m k. insert_store-same (store_row uuid5 now a) m k) rest l h

  products-same :
      (rest : List SeedProduct) (l : List Product)
      → All (HasSku l) rest
      → insert_products uuid5 now rest l ≡ some l
  unfolding insert_products product_row
  products-same rest l h =
      insert_all-same (λ s. insert_product (product_row uuid5 now s)) HasSku
        (λ a m k. insert_product-same (product_row uuid5 now a) m k) rest l h

-- What was found before is found after.
abbrev pub Extends : {A : Type 0} → Option A → Option A → Type 0
Extends none o = Unit
Extends (some a) o = o ≡ some a

Extends-of : {A : Type 0} (o o' : Option A) → ((a : A) → o ≡ some a → o' ≡ some a) → Extends o o'
Extends-of none o' h = _
Extends-of (some a) o' h = h a refl

module _ (uuid5 : String → ℕ) (now : ℕ) {J : Type 0} where
  -- The tables that the two loops leave.
  seed-parts :
      (db db' : Db J)
      → seed uuid5 now db ≡ some db'
      → (insert_stores uuid5 now seed_stores db.stores ≡ some db'.stores)
        × (insert_products uuid5 now seed_products db.products ≡ some db'.products)
        × (db'.events ≡ db.events)
  unfolding seed
  seed-parts db db' h = elim (Option-cases (insert_stores uuid5 now seed_stores db.stores)) [
    | inl e ↦ absurd (ground (arith, e, h))
    | inr (l, e) ↦ elim (Option-cases (insert_products uuid5 now seed_products db.products)) [
      | inl k ↦ absurd (ground (arith, e, k, h))
      | inr (m, k) ↦ ground (arith, e, k, h)
    ]
  ]

  -- Where the seed succeeds, every store of `STORES` is found by its code and every product of the
  -- simulators' catalogue by its SKU, so no event of a simulator names an unknown one. Each row
  -- that was found before is found unchanged, and no event is touched.
  pub seed-Complete :
      (db db' : Db J) (code sku : String)
      → seed uuid5 now db ≡ some db'
      → All (HasCode db'.stores) seed_stores
        × All (λ spec. is_some (find_product_sku spec.sku db'.products) ≡ true) product_catalog
        × Extends (find_store_code code db.stores) (find_store_code code db'.stores)
        × Extends (find_product_sku sku db.products) (find_product_sku sku db'.products)
        × (db'.events ≡ db.events)
  unfolding seed_products
  seed-Complete db db' code sku h =
      let parts = seed-parts db db' h in
      (
        stores-Has uuid5 now seed_stores db.stores db'.stores parts.0,
        products-Has uuid5 now seed_products db.products db'.products parts.1,
        Extends-of _ _ (λ r. stores-find uuid5 now seed_stores db.stores db'.stores code r parts.0),
        Extends-of _ _
            (λ r. products-find uuid5 now seed_products db.products db'.products sku r parts.1),
        parts.2,
      )

  -- Seeding again, at any time, succeeds and changes nothing.
  pub seed-seed :
      (later : ℕ) (db db' : Db J) → seed uuid5 now db ≡ some db' → seed uuid5 later db' ≡ some db'
  unfolding seed
  seed-seed later db db' h =
      let parts = seed-parts db db' h in
      rw
        (
          stores-same uuid5 later seed_stores db'.stores
              (stores-Has uuid5 now seed_stores db.stores db'.stores parts.0),
          products-same uuid5 later seed_products db'.products
              (products-Has uuid5 now seed_products db.products db'.products parts.1),
        )
        refl
