-- ===== src/Backend/Database.antt =====
-- The three tables and the statements that the service sends: lookups by key, the sums over
-- refunds, and the insert with the constraints of backend/app/models.py and of the two migrations.
pub mod Lookup
use storepulse.Prelude.{
  ℕ, ◌+◌, Bool, true, false, ◌&&◌, not, String, Option, none, some, List, [], ◌∷◌, ltb, leb, ◌==◌,
  if◌then◌else◌, str_eq, option_eq,
}
use storepulse.Backend.Models.{
  Store, Product, EventType, sale, refund, event_type_eq, EventValues, PosEvent, max_bigint,
}

pub record Db (J : Type 0) : Type 0 where
  pub stores : List Store
  pub products : List Product
  pub events : List (PosEvent J)

-- `WHERE stores.id = i`
unfoldable pub find_store_id : ℕ → List Store → Option Store
find_store_id i [] = none
find_store_id i (s ∷ l) = if s.id == i then some s else find_store_id i l

-- `WHERE stores.code = c`
unfoldable pub find_store_code : String → List Store → Option Store
find_store_code c [] = none
find_store_code c (s ∷ l) = if str_eq s.code c then some s else find_store_code c l

unfoldable pub find_product_id : ℕ → List Product → Option Product
find_product_id i [] = none
find_product_id i (p ∷ l) = if p.id == i then some p else find_product_id i l

unfoldable pub find_product_sku : String → List Product → Option Product
find_product_sku k [] = none
find_product_sku k (p ∷ l) = if str_eq p.sku k then some p else find_product_sku k l

abbrev pub is_some {ℓ} : {A : Type ℓ} → Option A → Bool
is_some none = false
is_some (some _) = true

-- `store.last_seen_at = t`, flushed in a transaction that began at `now`: no UPDATE is sent when
-- the value is the same, and an UPDATE sets `updated_at` too (`onupdate`).
unfoldable pub touch_store : ℕ → ℕ → ℕ → List Store → List Store
touch_store i t now [] = []
touch_store i t now (s ∷ l) =
    let rest = touch_store i t now l in
    if s.id == i
    then (if option_eq ◌==◌ s.last_seen_at (some t)
        then s
        else record s { last_seen_at = some t; updated_at = now })
      ∷ rest
    else s ∷ rest

-- The CHECK constraint `ck_pos_events_original_reference`.
abbrev pub reference_check : EventType → Option ℕ → Bool
reference_check sale none = true
reference_check refund (some _) = true
reference_check _ _ = false

-- The CHECK constraint `ck_pos_events_not_self_reference`.
abbrev pub not_self_check : ℕ → Option ℕ → Bool
not_self_check i none = true
not_self_check i (some o) = not (o == i)

-- What an `INSERT ... ON CONFLICT (event_id) DO NOTHING RETURNING received_at` comes to.
pub data Inserted (J : Type 0) : Type 0 where
  violation : Inserted J
  conflict : Inserted J
  stored : PosEvent J → Inserted J

module _ {J : Type 0} where
  -- `WHERE pos_events.event_id = i`
  unfoldable pub find_event : ℕ → List (PosEvent J) → Option (PosEvent J)
  find_event i [] = none
  find_event i (e ∷ l) = if e.event_id == i then some e else find_event i l

  -- `WHERE event_type = 'REFUND' AND original_event_id = i`
  abbrev pub is_refund_of : ℕ → EventValues J → Bool
  is_refund_of i e =
      event_type_eq e.event_type refund && option_eq ◌==◌ e.original_event_id (some i)

  unfoldable pub refunded_quantity : ℕ → List (PosEvent J) → ℕ
  refunded_quantity i [] = 0
  refunded_quantity i (e ∷ l) =
      (if is_refund_of i e.values then e.quantity else 0) + refunded_quantity i l

  unfoldable pub refunded_amount : ℕ → List (PosEvent J) → ℕ
  refunded_amount i [] = 0
  refunded_amount i (e ∷ l) =
      (if is_refund_of i e.values then e.amount_cents else 0) + refunded_amount i l

  -- The CHECK constraints of `pos_events`, and the range of its BIGINT columns.
  unfoldable pub row_check : EventValues J → Bool
  row_check v =
      leb v.quantity max_bigint
      && leb v.amount_cents max_bigint
      && ltb 0 v.quantity
      && ltb 0 v.amount_cents
      && reference_check v.event_type v.original_event_id
      && not_self_check v.event_id v.original_event_id

  -- The foreign keys of `pos_events`.
  abbrev pub original_exists : Option ℕ → List (PosEvent J) → Bool
  original_exists none l = true
  original_exists (some o) l = is_some (find_event o l)

  unfoldable pub foreign_keys_check : EventValues J → Db J → Bool
  unfolding find_store_id find_product_id find_event
  foreign_keys_check v db =
      is_some (find_store_id v.store_id db.stores)
      && is_some (find_product_id v.product_id db.products)
      && original_exists v.original_event_id db.events

  -- The range and CHECK constraints are tested first, then the key, then the foreign keys.
  -- `received_at` is the database's `now()`, when the transaction began. The texts and the JSON are
  -- ones that PostgreSQL stores: it refuses a U+0000, and a NaN in JSON, with an error.
  unfoldable pub insert_row : ℕ → EventValues J → Db J → Inserted J
  unfolding row_check foreign_keys_check
  insert_row now v db =
      if not (row_check v)
      then violation
      else if is_some (find_event v.event_id db.events)
      then conflict
      else if foreign_keys_check v db
      then stored (record { values = v; received_at = now })
      else violation
