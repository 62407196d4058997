-- ===== src/Backend/Concurrent/Reading.antt =====
-- Handlers that only read, as the classification of a taken `event_id` does.
use storepulse.Prelude.{
  ℕ, ◌≡◌, refl, sym, Bool, true, false, if◌then◌else◌, Option, none, some, List, inl, inr, arith,
  Option-cases,
}
use storepulse.Backend.Models.{Store, Product, PosEvent, EventCreate, JsonEq, base_of}
use storepulse.Backend.Database.{find_event}
use storepulse.Backend.Database.Lookup.{find_event_id}
use storepulse.Backend.Session.{
  Session, IngestError, runtime_error, return, raise, get_event, get_store, get_product,
  select_store, select_product, finally_rollback, ◌>>=◌,
}
use storepulse.Backend.Classify.{
  EventIngestionResult, or_raise, classify_existing_event, classify_existing_and_rollback,
  resolve_store, resolve_product,
}
use storepulse.Backend.Concurrent.Guarantee.{Keeps, Answers, IsOver, IsGuarded}

-- Reads only, and returns what satisfies `Q`, whatever the answers.
unfoldable pub IsReading : {J A : Type 0} → (A → Type 0) → Session J A → Type 0
IsReading Q (return a) = Q a
IsReading Q (raise e) = Unit
IsReading {J} Q (get_event i k) = (r : Option (PosEvent J)) → IsReading Q (k r)
IsReading Q (get_store i k) = (r : Option Store) → IsReading Q (k r)
IsReading Q (get_product i k) = (r : Option Product) → IsReading Q (k r)
IsReading Q (select_store c k) = (r : Option Store) → IsReading Q (k r)
IsReading Q (select_product c k) = (r : Option Product) → IsReading Q (k r)
IsReading Q _ = ⊥

abbrev pub Anything : {A : Type 0} → A → Type 0
Anything a = Unit

module _ {J A B : Type 0} (Q : A → Type 0) (R : B → Type 0) where
  IsReading->>= :
      (m : Session J A) (f : A → Session J B)
      → IsReading Q m
      → ((a : A) → Q a → IsReading R (f a))
      → IsReading R (m >>= f)
  unfolding IsReading ◌>>=◌
  IsReading->>= (return a) f h g = g a h
  IsReading->>= (raise e) f h g = tt
  IsReading->>= (get_event i k) f h g = λ r. IsReading->>= (k r) f (h r) g
  IsReading->>= (get_store i k) f h g = λ r. IsReading->>= (k r) f (h r) g
  IsReading->>= (get_product i k) f h g = λ r. IsReading->>= (k r) f (h r) g
  IsReading->>= (select_store c k) f h g = λ r. IsReading->>= (k r) f (h r) g
  IsReading->>= (select_product c k) f h g = λ r. IsReading->>= (k r) f (h r) g
  IsReading->>= _ f h g = absurd h

module _ {J A : Type 0} where
  -- A handler that reads first.
  pub reading_then :
      (l : List (PosEvent J)) (locks : List ℕ) (m : Session J A)
      (f : A → Session J EventIngestionResult)
      → IsReading Anything m
      → ((a : A) (l' : List (PosEvent J)) → IsGuarded l' locks (f a))
      → IsGuarded l locks (m >>= f)
  unfolding IsReading IsGuarded ◌>>=◌
  reading_then l locks (return a) f h g = g a l
  reading_then l locks (raise e) f h g = tt
  reading_then l locks (get_event i k) f h g = λ l' r. reading_then l' locks (k _) f (h _) g
  reading_then l locks (get_store i k) f h g = λ l' x r. reading_then l' locks (k x) f (h x) g
  reading_then l locks (get_product i k) f h g = λ l' x r. reading_then l' locks (k x) f (h x) g
  reading_then l locks (select_store c k) f h g = λ l' x r. reading_then l' locks (k x) f (h x) g
  reading_then l locks (select_product c k) f h g = λ l' x r. reading_then l' locks (k x) f (h x) g
  reading_then l locks _ f h g = absurd h

module _ {J : Type 0} (Q : EventIngestionResult → Type 0) (locks : List ℕ) where
  finally_rollback-IsGuarded :
      (l : List (PosEvent J)) (m : Session J EventIngestionResult)
      → ((l' : List (PosEvent J)) (a : EventIngestionResult) → Keeps l l' → Q a → Answers l' a)
      → IsReading Q m
      → IsGuarded l locks (finally_rollback m)
  unfolding IsReading IsGuarded finally_rollback IsOver
  finally_rollback-IsGuarded l (return a) g h = g l a (λ i e x. x) h
  finally_rollback-IsGuarded l (raise e) g h = tt
  finally_rollback-IsGuarded l (get_event i k) g h = λ l' r.
      finally_rollback-IsGuarded l' (k _)
        (λ m a keeps q. g m a (λ n e x. keeps n e (r.keeps n e x)) q) (h _)
  finally_rollback-IsGuarded l (get_store i k) g h = λ l' x r.
      finally_rollback-IsGuarded l' (k x)
        (λ m a keeps q. g m a (λ n e y. keeps n e (r.keeps n e y)) q) (h x)
  finally_rollback-IsGuarded l (get_product i k) g h = λ l' x r.
      finally_rollback-IsGuarded l' (k x)
        (λ m a keeps q. g m a (λ n e y. keeps n e (r.keeps n e y)) q) (h x)
  finally_rollback-IsGuarded l (select_store c k) g h = λ l' x r.
      finally_rollback-IsGuarded l' (k x)
        (λ m a keeps q. g m a (λ n e y. keeps n e (r.keeps n e y)) q) (h x)
  finally_rollback-IsGuarded l (select_product c k) g h = λ l' x r.
      finally_rollback-IsGuarded l' (k x)
        (λ m a keeps q. g m a (λ n e y. keeps n e (r.keeps n e y)) q) (h x)
  finally_rollback-IsGuarded l _ g h = absurd h

return_or_raise-IsReading :
    (J : Type 0) {A : Type 0} (Q : A → Type 0) (b : Bool) (a : A) (e : IngestError)
    → Q a
    → IsReading {J = J} Q (if b then return a else raise e)
unfolding IsReading
return_or_raise-IsReading J Q true a e q = q
return_or_raise-IsReading J Q false a e q = tt

-- The answer is about this row.
abbrev AboutRow : {J : Type 0} → PosEvent J → EventIngestionResult → Type 0
AboutRow e a = (a.event_id ≡ e.event_id) × (a.received_at ≡ e.received_at)

module _ {J : Type 0} where
  AboutRow-Answers :
      (l : List (PosEvent J)) (e : PosEvent J) (a : EventIngestionResult)
      → find_event e.event_id l ≡ some e
      → AboutRow e a
      → Answers l a
  AboutRow-Answers l e a found h = record {
    row = e;
    stored_row = rw h.0 found;
    same_time = sym h.1;
  }

  -- The classification: it looks the row up and answers about it.
  existing_then :
      (l : List (PosEvent J)) (locks : List ℕ) (i : ℕ) (x : IngestError)
      (f : PosEvent J → Session J EventIngestionResult)
      → ((e : PosEvent J) → IsReading (AboutRow e) (f e))
      → IsGuarded l locks (finally_rollback (get_event i (or_raise x) >>= f))
  unfolding IsGuarded finally_rollback ◌>>=◌ IsOver
  existing_then l locks i x f h = λ l' r. elim (Option-cases (find_event i l')) [
    | inl none_found ↦ rw none_found tt
    | inr (e, found) ↦ rw found (
        finally_rollback-IsGuarded (AboutRow e) locks l' (f e)
          (λ m a keeps q.
            AboutRow-Answers m e a (keeps e.event_id e (ground (arith, find_event_id i l' e))) q)
          (h e))
  ]

module _ {J : Type 0} ⦃j : JsonEq J⦄ where
  resolve_store-IsReading :
      (e : PosEvent J) (p : EventCreate J) (s : Option Store)
      → IsReading Anything (resolve_store e p s)
  unfolding IsReading resolve_store
  resolve_store-IsReading e p (some s) = tt
  resolve_store-IsReading e p none = elim [ none ↦ tt | some s ↦ tt ]

  resolve_product-IsReading :
      (e : PosEvent J) (p : EventCreate J) (q : Option Product)
      → IsReading Anything (resolve_product e p q)
  unfolding IsReading resolve_product
  resolve_product-IsReading e p (some q) = tt
  resolve_product-IsReading e p none = elim [ none ↦ tt | some q ↦ tt ]

  pub classify-IsGuarded :
      (l : List (PosEvent J)) (locks : List ℕ) (p : EventCreate J) (s : Option Store)
      (q : Option Product)
      → IsGuarded l locks (classify_existing_and_rollback p s q)
  unfolding classify_existing_and_rollback classify_existing_event
  classify-IsGuarded l locks p s q =
      existing_then l locks (base_of p).event_id
        (runtime_error "event conflict was reported but the existing row is not visible") _
        (λ e.
          IsReading->>= Anything (AboutRow e) (resolve_store e p s) _
            (resolve_store-IsReading e p s)
            (λ a _.
              IsReading->>= Anything (AboutRow e) (resolve_product e p q) _
                (resolve_product-IsReading e p q)
                (λ b _. return_or_raise-IsReading J (AboutRow e) _ _ _ (refl, refl))))
