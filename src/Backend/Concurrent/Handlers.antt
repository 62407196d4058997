-- ===== src/Backend/Concurrent/Handlers.antt =====
-- The handlers of event_ingestion.py insert only rows that they may commit, and answer about them.
use storepulse.Prelude.{
  ℕ, ◌+◌, ◌≤◌, ◌≡◌, refl, true, not, ◌||◌, Option, none, some, List, [], ◌∷◌, inl, inr, arith,
  Bool-cases, ltb, ◌==◌,
}
use storepulse.Backend.Models.{
  Store, Product, sale, event_type_eq, PosEvent, SaleEventCreate, RefundEventCreate, EventCreate,
  sale_event, refund_event, JsonEq, base_of,
}
use storepulse.Backend.Database.{find_event, refunded_quantity, refunded_amount, is_some, row_check}
use storepulse.Backend.Database.Lookup.{find_event_id}
use storepulse.Backend.Session.{get_event, ◌>>=◌}
use storepulse.Backend.Classify.{classify_existing_and_rollback, find_store, find_product}
use storepulse.Backend.Ingestion.{
  event_values, insert_payload, finish_insert, ingest_new_sale, ingest_sale_event,
  lock_original_sale, check_limits, validate_refund_reference, ingest_locked_refund,
  ingest_new_refund, ingest_refund_event, ingest,
}
use storepulse.Backend.Concurrent.{member}
use storepulse.Backend.Concurrent.Addable.{Addable}
use storepulse.Backend.Concurrent.Guarantee.{Rely, IsGuarded}
use storepulse.Backend.Concurrent.Reading.{IsReading, Anything, reading_then, classify-IsGuarded}

module _ {J : Type 0} ⦃j : JsonEq J⦄ where
  find_store-IsReading :
      (p : SaleEventCreate J) → IsReading {J = J} Anything (find_store p.store_code)
  unfolding IsReading find_store
  find_store-IsReading p = elim [ none ↦ tt | some s ↦ tt ]

  find_product-IsReading :
      (p : SaleEventCreate J) → IsReading {J = J} Anything (find_product p.product_sku)
  unfolding IsReading find_product
  find_product-IsReading p = elim [ none ↦ tt | some s ↦ tt ]

  -- The insert and what follows, where the row may be committed.
  insert-IsGuarded :
      (l : List (PosEvent J)) (locks : List ℕ) (p : EventCreate J) (s : Store) (q : Product)
      → ((l' : List (PosEvent J)) (t : ℕ)
          → Rely locks l l'
          → find_event (base_of p).event_id l' ≡ none
          → row_check (event_values p s q) ≡ true
          → Addable l' locks (record { values = event_values p s q; received_at = t }))
      → IsGuarded l locks (insert_payload p s q >>= finish_insert p s q)
  unfolding IsGuarded insert_payload finish_insert event_values ◌>>=◌
  insert-IsGuarded l locks p s q h = λ l' r. (
    (λ t absent fits. (h l' t r (unfold event_values in absent) fits, (refl, refl))),
    classify-IsGuarded l' locks p (some s) (some q),
  )

  ingest_new_sale-IsGuarded :
      (l : List (PosEvent J)) (p : SaleEventCreate J) → IsGuarded l [] (ingest_new_sale p)
  unfolding ingest_new_sale
  ingest_new_sale-IsGuarded l p =
      reading_then l [] (find_store p.store_code) _ (find_store-IsReading p) (λ s l1.
        reading_then l1 [] (find_product p.product_sku) _ (find_product-IsReading p) (λ q l2.
          insert-IsGuarded l2 [] (sale_event p) s q (λ l' t r absent fits.
            unfold event_values in
            record {
              fresh = absent;
              fits = fits;
              link = λ i e. cc;
              room = λ i o refers found. absurd (ground arith);
              locked = λ i refers. ground arith;
            })))

  ingest_sale-IsGuarded :
      (l : List (PosEvent J)) (p : SaleEventCreate J) → IsGuarded l [] (ingest_sale_event p)
  unfolding ingest_sale_event IsGuarded
  ingest_sale-IsGuarded l p = λ l' r. go l' (find_event p.event_id l')
    where
      go :
          (l' : List (PosEvent J)) (e : Option (PosEvent J))
          → IsGuarded l' [] (elim e [
            | none ↦ ingest_new_sale p
            | some _ ↦ classify_existing_and_rollback (sale_event p) none none
          ])
      go l' none = ingest_new_sale-IsGuarded l' p
      go l' (some e) = classify-IsGuarded l' [] (sale_event p) none none

  -- Under the lock, a row within what is left of its sale stays so until it is committed.
  refund-Addable :
      (l l' : List (PosEvent J)) (p : RefundEventCreate J) (s : Store) (q : Product)
      (o : PosEvent J) (t : ℕ)
      → Rely (p.original_event_id ∷ []) l l'
      → find_event p.original_event_id l ≡ some o
      → o.event_type ≡ sale
      → o.original_event_id ≡ none
      → o.store_id ≡ s.id
      → o.product_id ≡ q.id
      → refunded_quantity o.event_id l + p.quantity ≤ o.quantity
      → refunded_amount o.event_id l + p.amount_cents ≤ o.amount_cents
      → find_event p.event_id l' ≡ none
      → row_check (event_values (refund_event p) s q) ≡ true
      → Addable l'
          (p.original_event_id ∷ [])
          (record { values = event_values (refund_event p) s q; received_at = t })
  unfolding event_values
  refund-Addable l l' p s q o t r found is_sale top same_store same_product quantity_left
        amount_left absent fits =
      let here = r.keeps p.original_event_id o found in
      let key = find_event_id p.original_event_id l o found in
      let locked : member p.original_event_id (p.original_event_id ∷ []) ≡ true = ground arith in
      record {
        fresh = absent;
        fits = fits;
        link = λ i e. (o, ground arith, is_sale, top, same_store, same_product);
        room = λ i o' refers found'. record {
          quantity_room = ground (arith, r.same_quantity p.original_event_id locked);
          amount_room = ground (arith, r.same_amount p.original_event_id locked);
        };
        locked = λ i refers. ground arith;
      }

  module _ (p : RefundEventCreate J) (s : Store) (q : Product) (o : PosEvent J) where
    limits-IsGuarded :
        (l : List (PosEvent J))
        → find_event p.original_event_id l ≡ some o
        → o.event_type ≡ sale
        → o.original_event_id ≡ none
        → o.store_id ≡ s.id
        → o.product_id ≡ q.id
        → IsGuarded l (p.original_event_id ∷ []) (
            check_limits o p (refunded_quantity o.event_id l, refunded_amount o.event_id l) >>= λ _.
            insert_payload (refund_event p) s q >>= finish_insert (refund_event p) s q)
    unfolding check_limits ◌>>=◌ IsGuarded
    limits-IsGuarded l found is_sale top same_store same_product =
        elim (Bool-cases (ltb o.quantity (refunded_quantity o.event_id l + p.quantity))) [
          | inl over ↦ rw over tt
          | inr within ↦
              elim (Bool-cases
                (ltb o.amount_cents (refunded_amount o.event_id l + p.amount_cents))) [
                  | inl over ↦ rw (within, over) tt
                  | inr amount ↦
                      rw (within, amount)
                        (insert-IsGuarded l (p.original_event_id ∷ []) (refund_event p) s q
                          (λ l' t r absent fits.
                            refund-Addable l l' p s q o t r found is_sale top same_store
                              same_product (ground arith) (ground arith) absent fits))
                ]
        ]

    validated-IsGuarded :
        (l : List (PosEvent J))
        → find_event p.original_event_id l ≡ some o
        → o.event_type ≡ sale
        → o.original_event_id ≡ none
        → IsGuarded l (p.original_event_id ∷ []) (ingest_locked_refund p s q o none)
    unfolding ingest_locked_refund validate_refund_reference IsGuarded ◌>>=◌
    validated-IsGuarded l found is_sale top = elim (Bool-cases (o.store_id == s.id)) [
      | inr other ↦ rw other tt
      | inl same_store ↦ elim (Bool-cases (o.product_id == q.id)) [
        | inr other ↦ rw (same_store, other) tt
        | inl same_product ↦
            rw (same_store, same_product)
              (λ l' r.
                limits-IsGuarded l' (r.keeps p.original_event_id o found) is_sale top (ground arith)
                  (ground arith))
      ]
    ]

    locked-IsGuarded :
        (l : List (PosEvent J))
        → find_event p.original_event_id l ≡ some o
        → o.event_type ≡ sale
        → o.original_event_id ≡ none
        → IsGuarded l
            (p.original_event_id ∷ [])
            (get_event p.event_id (ingest_locked_refund p s q o))
    unfolding IsGuarded
    locked-IsGuarded l found is_sale top =
        λ l' r. go l' (r.keeps p.original_event_id o found) (find_event p.event_id l')
      where
        go :
            (l' : List (PosEvent J))
            → find_event p.original_event_id l' ≡ some o
            → (e : Option (PosEvent J))
            → IsGuarded l' (p.original_event_id ∷ []) (ingest_locked_refund p s q o e)
        go l' found' none = validated-IsGuarded l' found' is_sale top
        go l' found' (some e) =
            unfold ingest_locked_refund in
            classify-IsGuarded l' (p.original_event_id ∷ []) (refund_event p) (some s) (some q)

  lock_original_sale-IsGuarded :
      (l : List (PosEvent J)) (p : RefundEventCreate J) (s : Store) (q : Product)
      → IsGuarded l [] (
          lock_original_sale p.original_event_id >>= λ o.
          get_event p.event_id (ingest_locked_refund p s q o))
  unfolding lock_original_sale IsGuarded ◌>>=◌
  lock_original_sale-IsGuarded l p s q = λ l' r. (
    (λ e. tt),
    (λ o found.
        elim (Bool-cases (not (event_type_eq o.event_type sale) || is_some o.original_event_id)) [
          | inl bad ↦ rw bad tt
          | inr good ↦ rw good (locked-IsGuarded p s q o l' found (ground arith) (ground arith))
        ]),
  )

  ingest_new_refund-IsGuarded :
      (l : List (PosEvent J)) (p : RefundEventCreate J) → IsGuarded l [] (ingest_new_refund p)
  unfolding ingest_new_refund
  ingest_new_refund-IsGuarded l p =
      reading_then l [] (find_store p.store_code) _ (find_store-IsReading p.base) (λ s l1.
        reading_then l1 [] (find_product p.product_sku) _ (find_product-IsReading p.base)
          (λ q l2. lock_original_sale-IsGuarded l2 p s q))

  -- Every handler, from any committed events and with no lock.
  pub ingest-IsGuarded : (l : List (PosEvent J)) (p : EventCreate J) → IsGuarded l [] (ingest p)
  unfolding ingest
  ingest-IsGuarded l (sale_event p) = ingest_sale-IsGuarded l p
  ingest-IsGuarded l (refund_event p) =
      unfold ingest_refund_event IsGuarded in λ l' r. go l' (find_event p.event_id l')
    where
      go :
          (l' : List (PosEvent J)) (e : Option (PosEvent J))
          → IsGuarded l' [] (elim e [
            | none ↦ ingest_new_refund p
            | some _ ↦ classify_existing_and_rollback (refund_event p) none none
          ])
      go l' none = ingest_new_refund-IsGuarded l' p
      go l' (some e) = classify-IsGuarded l' [] (refund_event p) none none
