-- ===== src/Backend/Seed/Keys.antt =====
-- What one insert of the seed and a loop of them do to the rows.
use mathlib.Core.Path.{subst}
use storepulse.Prelude.{
  ◌≡◌, refl, true, String, Option, some, List, [], ◌∷◌, inl, inr, arith, Option-cases, str_eq_iff,
  All,
}
use storepulse.Backend.Models.{Store, Product}
use storepulse.Backend.Database.{find_store_code, find_product_sku, is_some}
use storepulse.Backend.Seed.{insert_store, insert_product, insert_all}

pub insert_store-find :
    (s : Store) (l l' : List Store) (c : String) (r : Store)
    → insert_store s l ≡ some l'
    → find_store_code c l ≡ some r
    → find_store_code c l' ≡ some r
unfolding insert_store find_store_code
insert_store-find s l l' c r h k = ground (arith, str_eq_iff s.code c)

pub insert_store-Has :
    (s : Store) (l l' : List Store)
    → insert_store s l ≡ some l'
    → is_some (find_store_code s.code l') ≡ true
unfolding insert_store find_store_code
insert_store-Has s l l' h = ground (arith, str_eq_iff s.code s.code)

pub insert_store-same :
    (s : Store) (l : List Store)
    → is_some (find_store_code s.code l) ≡ true
    → insert_store s l ≡ some l
unfolding insert_store
insert_store-same s l h = rw h refl

pub insert_product-find :
    (p : Product) (l l' : List Product) (c : String) (r : Product)
    → insert_product p l ≡ some l'
    → find_product_sku c l ≡ some r
    → find_product_sku c l' ≡ some r
unfolding insert_product find_product_sku
insert_product-find p l l' c r h k = ground (arith, str_eq_iff p.sku c)

pub insert_product-Has :
    (p : Product) (l l' : List Product)
    → insert_product p l ≡ some l'
    → is_some (find_product_sku p.sku l') ≡ true
unfolding insert_product find_product_sku
insert_product-Has p l l' h = ground (arith, str_eq_iff p.sku p.sku)

pub insert_product-same :
    (p : Product) (l : List Product)
    → is_some (find_product_sku p.sku l) ≡ true
    → insert_product p l ≡ some l
unfolding insert_product
insert_product-same p l h = rw h refl

module _ {A L : Type 0} (insert : A → L → Option L) where
  insert_all-step :
      (a : A) (rest : List A) (l l' : L)
      → insert_all insert (a ∷ rest) l ≡ some l'
      → (m : L) × (insert a l ≡ some m) × (insert_all insert rest m ≡ some l')
  unfolding insert_all
  insert_all-step a rest l l' h = elim (Option-cases (insert a l)) [
    | inl e ↦ absurd (ground (arith, e, h))
    | inr (m, e) ↦ (m, e, ground (arith, e, h))
  ]

  -- What each insert preserves.
  pub insert_all-invariant :
      (P : L → Type 0)
      → ((a : A) (l l' : L) → insert a l ≡ some l' → P l → P l')
      → (rest : List A) (l l' : L) → insert_all insert rest l ≡ some l'
      → P l
      → P l'
  unfolding insert_all
  insert_all-invariant P step [] l l' h k = let e : l ≡ l' = cc in subst P (e) k
  insert_all-invariant P step (a ∷ rest) l l' h k =
      let s = insert_all-step a rest l l' h in
      insert_all-invariant P step rest s.0 l' s.2 (step a l s.0 s.1 k)

  -- Each row of the list is there after the loop.
  pub insert_all-All :
      (Has : L → A → Type 0)
      → ((a b : A) (l l' : L) → insert a l ≡ some l' → Has l b → Has l' b)
      → ((a : A) (l l' : L) → insert a l ≡ some l' → Has l' a)
      → (rest : List A) (l l' : L) → insert_all insert rest l ≡ some l'
      → All (Has l') rest
  insert_all-All Has keep has [] l l' h = _
  insert_all-All Has keep has (a ∷ rest) l l' h =
      let s = insert_all-step a rest l l' h in
      (
        insert_all-invariant (λ m. Has m a) (λ b m m' e k. keep b a m m' e k) rest s.0 l' s.2
            (has a l s.0 s.1),
        insert_all-All Has keep has rest s.0 l' s.2,
      )

  -- A loop over rows that are all there changes nothing.
  pub insert_all-same :
      (Has : L → A → Type 0)
      → ((a : A) (l : L) → Has l a → insert a l ≡ some l)
      → (rest : List A) (l : L) → All (Has l) rest
      → insert_all insert rest l ≡ some l
  unfolding insert_all
  insert_all-same Has same [] l h = refl
  insert_all-same Has same (a ∷ rest) l h =
      rw (same a l h.0, insert_all) (insert_all-same Has same rest l h.1)
