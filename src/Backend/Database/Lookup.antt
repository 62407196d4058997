-- ===== src/Backend/Database/Lookup.antt =====
-- Lookups by key, and how a change of the tables shows in them.
use storepulse.Prelude.{
  ℕ, ◌+◌, ◌≡◌, false, refl, String, some, List, [], ◌∷◌, arith, ◌==◌, if◌then◌else◌, str_eq_iff,
  option_eq, All,
}
use mathlib.Core.Option
use storepulse.Backend.Models.{Store, Product, PosEvent}
use storepulse.Backend.Database.{
  find_store_id, find_store_code, find_product_id, find_product_sku, find_event, touch_store,
  is_refund_of, refunded_quantity, refunded_amount,
}

pub find_store_code_code :
    (c : String) (l : List Store) (r : Store) → find_store_code c l ≡ some r → r.code ≡ c
unfolding find_store_code
find_store_code_code c [] r h = cc
find_store_code_code c (s ∷ l) r h = ground (arith, str_eq_iff s.code c, find_store_code_code c l r)

pub find_product_sku_sku :
    (c : String) (l : List Product) (r : Product) → find_product_sku c l ≡ some r → r.sku ≡ c
unfolding find_product_sku
find_product_sku_sku c [] r h = cc
find_product_sku_sku c (s ∷ l) r h = ground (arith, str_eq_iff s.sku c, find_product_sku_sku c l r)

pub find_store_id_id : (i : ℕ) (l : List Store) (r : Store) → find_store_id i l ≡ some r → r.id ≡ i
unfolding find_store_id
find_store_id_id i [] r h = cc
find_store_id_id i (s ∷ l) r h = ground (arith, find_store_id_id i l r)

pub find_product_id_id :
    (i : ℕ) (l : List Product) (r : Product) → find_product_id i l ≡ some r → r.id ≡ i
unfolding find_product_id
find_product_id_id i [] r h = cc
find_product_id_id i (s ∷ l) r h = ground (arith, find_product_id_id i l r)

-- The row that `touch_store` leaves for a store.
unfoldable pub touched : ℕ → ℕ → ℕ → Store → Store
touched i t now s =
    if s.id == i
    then (if option_eq ◌==◌ s.last_seen_at (some t)
        then s
        else record s { last_seen_at = some t; updated_at = now })
    else s

pub touched_keys :
    (i t now : ℕ) (s : Store)
    → ((touched i t now s).id ≡ s.id) × ((touched i t now s).code ≡ s.code)
unfolding touched
touched_keys i t now s = ground arith

pub find_store_id-touch_store :
    (i t now k : ℕ) (l : List Store)
    → find_store_id k (touch_store i t now l) ≡ Option.map (touched i t now) (find_store_id k l)
unfolding find_store_id touch_store touched
find_store_id-touch_store i t now k [] = refl
find_store_id-touch_store i t now k (s ∷ l) = ground (arith, find_store_id-touch_store i t now k l)

pub find_store_code-touch_store :
    (i t now : ℕ) (c : String) (l : List Store)
    → find_store_code c (touch_store i t now l) ≡ Option.map (touched i t now) (find_store_code c l)
unfolding find_store_code touch_store touched
find_store_code-touch_store i t now k [] = refl
find_store_code-touch_store i t now k (s ∷ l) =
    ground (arith, find_store_code-touch_store i t now k l)

module _ {J : Type 0} where
  pub find_event_id :
      (i : ℕ) (l : List (PosEvent J)) (r : PosEvent J) → find_event i l ≡ some r → r.event_id ≡ i
  unfolding find_event
  find_event_id i [] r h = cc
  find_event_id i (e ∷ l) r h = ground (arith, find_event_id i l r)

  pub find_event-cons :
      (i : ℕ) (e : PosEvent J) (l : List (PosEvent J))
      → find_event i (e ∷ l) ≡ (if e.event_id == i then some e else find_event i l)
  unfolding find_event
  find_event-cons i e l = refl

  pub refunded-cons :
      (i : ℕ) (e : PosEvent J) (l : List (PosEvent J))
      → (refunded_quantity i (e ∷ l)
          ≡ (if is_refund_of i e.values then e.quantity else 0) + refunded_quantity i l)
        × (refunded_amount i (e ∷ l)
            ≡ (if is_refund_of i e.values then e.amount_cents else 0) + refunded_amount i l)
  unfolding refunded_quantity refunded_amount
  refunded-cons i e l = (refl, refl)

  -- A key that no row refers to has nothing refunded.
  pub refunded_none :
      (i : ℕ) (l : List (PosEvent J))
      → All (λ e. is_refund_of i e.values ≡ false) l
      → (refunded_quantity i l ≡ 0) × (refunded_amount i l ≡ 0)
  unfolding refunded_quantity refunded_amount
  refunded_none i [] h = (refl, refl)
  refunded_none i (e ∷ l) h = ground (arith, refunded_none i l h.1)
