-- ===== src/Backend/Ingestion/Consistency.antt =====
-- What is true of the events between requests, and that a stored event keeps it.
use storepulse.Prelude.{
  ℕ, ◌≤◌, ◌≡◌, true, false, none, some, List, [], ◌∷◌, arith, All, Bool-cases, inl, inr,
}
use storepulse.Backend.Models.{
  Store, Product, sale, PosEvent, EventCreate, sale_event, refund_event, base_of,
}
use storepulse.Backend.Database.{
  Db, find_event, is_refund_of, refunded_quantity, refunded_amount, row_check,
}
use storepulse.Backend.Database.Lookup.{
  find_event_id, find_event-cons, refunded-cons, refunded_none,
}
use storepulse.Backend.Ingestion.{event_values}
use storepulse.Backend.Ingestion.Stored.{stored_row, Allowed}

-- No two rows have one key.
abbrev pub UniqueKeys : {J : Type 0} → List (PosEvent J) → Type 0
UniqueKeys [] = Unit
UniqueKeys (e ∷ l) = (find_event e.event_id l ≡ none) × UniqueKeys l

-- A row that names an original names a top-level sale of the same store and product.
abbrev pub IsLinked : {J : Type 0} → List (PosEvent J) → PosEvent J → Type 0
IsLinked {J} l e =
    (i : ℕ)
    → e.original_event_id ≡ some i
    → (o : PosEvent J) × (find_event i l ≡ some o)
      × (o.event_type ≡ sale)
      × (o.original_event_id ≡ none)
      × (o.store_id ≡ e.store_id)
      × (o.product_id ≡ e.product_id)

-- The refunds of a row stay within its quantity and its amount.
pub record WithinLimits {J : Type 0} (l : List (PosEvent J)) (o : PosEvent J) : Type 0 where
  pub quantity_cap : refunded_quantity o.event_id l ≤ o.quantity
  pub amount_cap : refunded_amount o.event_id l ≤ o.amount_cents

pub record IsConsistent {J : Type 0} (l : List (PosEvent J)) : Type 0 where
  pub unique : UniqueKeys l
  pub checked : All (λ e. row_check e.values ≡ true) l
  pub linked : All (IsLinked l) l
  pub limited : (i : ℕ) (o : PosEvent J) → find_event i l ≡ some o → WithinLimits l o

module _ {J : Type 0} where
  pub find_event_weaken :
      (e : PosEvent J) (l : List (PosEvent J)) (i : ℕ) (o : PosEvent J)
      → find_event e.event_id l ≡ none
      → find_event i l ≡ some o
      → find_event i (e ∷ l) ≡ some o
  find_event_weaken e l i o absent found = rw find_event-cons (ground arith)

  pub IsLinked-weaken :
      (e x : PosEvent J) (l : List (PosEvent J))
      → find_event e.event_id l ≡ none
      → IsLinked l x
      → IsLinked (e ∷ l) x
  IsLinked-weaken e x l absent h i p =
      let (o, found, s, t, a, b) = h i p in (o, find_event_weaken e l i o absent found, s, t, a, b)

  pub All-map :
      {P Q : PosEvent J → Type 0}
      → ((x : PosEvent J) → P x → Q x)
      → (l : List (PosEvent J)) → All P l
      → All Q l
  All-map f [] h = tt
  All-map f (x ∷ l) h = (f x h.0, All-map f l h.1)

  -- Nothing refers to a key that no row has.
  refers_not :
      (i : ℕ) (l : List (PosEvent J))
      → find_event i l ≡ none
      → (x : PosEvent J) → IsLinked l x
      → is_refund_of i x.values ≡ false
  refers_not i l absent x h = elim (Bool-cases (is_refund_of i x.values)) [
    | inr no_ref ↦ no_ref
    | inl refers ↦ let (o, found, _, _, _, _) = h i (ground arith) in cc
  ]

  pub refunded_fresh :
      (i : ℕ) (l : List (PosEvent J))
      → find_event i l ≡ none
      → All (IsLinked l) l
      → (refunded_quantity i l ≡ 0) × (refunded_amount i l ≡ 0)
  refunded_fresh i l absent h = refunded_none i l (All-map (refers_not i l absent) l h)

module _ {J : Type 0} (now : ℕ) (store : Store) (product : Product) (db : Db J) where
  row_IsLinked :
      (p : EventCreate J)
      → find_event (base_of p).event_id db.events ≡ none
      → Allowed p store product db
      → IsLinked (stored_row now p store product ∷ db.events) (stored_row now p store product)
  unfolding event_values
  row_IsLinked (sale_event p) absent h i e = cc
  row_IsLinked (refund_event p) absent (o, r) i e = (
    o,
    find_event_weaken (stored_row now (refund_event p) store product) db.events i o absent
        (ground (arith, r.found)),
    r.is_sale,
    r.top_level,
    r.same_store,
    r.same_product,
  )

  -- The new row has no refund, itself included.
  row_WithinLimits :
      (p : EventCreate J)
      → find_event (base_of p).event_id db.events ≡ none
      → All (IsLinked db.events) db.events
      → row_check (event_values p store product) ≡ true
      → WithinLimits (stored_row now p store product ∷ db.events) (stored_row now p store product)
  unfolding event_values row_check
  row_WithinLimits (sale_event p) absent h fits = ground (
    arith,
    refunded_fresh p.event_id db.events absent h,
    refunded-cons p.event_id (stored_row now (sale_event p) store product) db.events,
  )
  row_WithinLimits (refund_event p) absent h fits = ground (
    arith,
    refunded_fresh p.event_id db.events absent h,
    refunded-cons p.event_id (stored_row now (refund_event p) store product) db.events,
  )

  -- An older row keeps its limits: the new row was measured against what was left.
  old_WithinLimits :
      (p : EventCreate J) (o : PosEvent J)
      → Allowed p store product db
      → find_event o.event_id db.events ≡ some o
      → WithinLimits db.events o
      → WithinLimits (stored_row now p store product ∷ db.events) o
  unfolding event_values
  old_WithinLimits (sale_event p) o h found lim =
      ground
        (arith, refunded-cons o.event_id (stored_row now (sale_event p) store product) db.events)
  old_WithinLimits (refund_event p) o (sold, r) found lim = ground (
    arith,
    r.found,
    r.quantity_left,
    r.amount_left,
    refunded-cons o.event_id (stored_row now (refund_event p) store product) db.events,
  )

module _ {J : Type 0} (now : ℕ) (p : EventCreate J) (store : Store) (product : Product) (db : Db J)
    (absent : find_event (base_of p).event_id db.events ≡ none)
    (fits : row_check (event_values p store product) ≡ true)
    (allowed : Allowed p store product db) where
  pub stored-IsConsistent :
      IsConsistent db.events → IsConsistent (stored_row now p store product ∷ db.events)
  unfolding event_values
  stored-IsConsistent h = record {
    unique = (absent, h.unique);
    checked = (fits, h.checked);
    linked = (
      row_IsLinked now store product db p absent allowed,
      All-map (λ x. IsLinked-weaken (stored_row now p store product) x db.events absent) db.events
          h.linked,
    );
    limited = λ i o found. ground (
      arith,
      find_event-cons i (stored_row now p store product) db.events,
      find_event_id i db.events o,
      row_WithinLimits now store product db p absent h.linked fits,
      old_WithinLimits now store product db p o allowed,
      h.limited i o,
    );
  }
