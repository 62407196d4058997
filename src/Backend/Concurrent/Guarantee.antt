-- ===== src/Backend/Concurrent/Guarantee.antt =====
-- What a handler does, whatever other transactions commit between its statements: every row that
-- it inserts is one that it may commit, and nothing but the commit follows an insert.
use storepulse.Prelude.{ℕ, ◌≡◌, ◌∙◌, true, Option, none, some, List, ◌∷◌}
use storepulse.Backend.Models.{Store, Product, PosEvent}
use storepulse.Backend.Database.{find_event, refunded_quantity, refunded_amount, row_check}
use storepulse.Backend.Session.{
  Session, return, raise, get_event, get_store, get_product, select_store, select_product,
  lock_event, sum_refunds, insert_event, set_last_seen, commit, rollback,
}
use storepulse.Backend.Classify.{EventIngestionResult}
use storepulse.Backend.Ingestion.Consistency.{IsConsistent}
use storepulse.Backend.Concurrent.{member}
use storepulse.Backend.Concurrent.Addable.{Addable}

-- No row goes or changes.
abbrev pub Keeps : {J : Type 0} → List (PosEvent J) → List (PosEvent J) → Type 0
Keeps {J} l l' = (i : ℕ) (e : PosEvent J) → find_event i l ≡ some e → find_event i l' ≡ some e

-- What others may do to the events while a transaction holds its locks: they add rows, and no
-- refund of a locked row.
pub record Rely {J : Type 0} (locks : List ℕ) (l l' : List (PosEvent J)) : Type 0 where
  pub keeps : Keeps l l'
  pub same_quantity :
      (i : ℕ) → member i locks ≡ true → refunded_quantity i l' ≡ refunded_quantity i l
  pub same_amount : (i : ℕ) → member i locks ≡ true → refunded_amount i l' ≡ refunded_amount i l
  pub consistent : IsConsistent l'

module _ {J : Type 0} where
  pub Rely-trans :
      (locks : List ℕ) (l m n : List (PosEvent J))
      → Rely locks l m
      → Rely locks m n
      → Rely locks l n
  Rely-trans locks l m n a b = record {
    keeps = λ i e h. b.keeps i e (a.keeps i e h);
    same_quantity = λ i h. b.same_quantity i h ∙ a.same_quantity i h;
    same_amount = λ i h. b.same_amount i h ∙ a.same_amount i h;
    consistent = b.consistent;
  }

-- The answer is about a committed row, and gives its `received_at`.
pub record Answers {J : Type 0} (l : List (PosEvent J)) (a : EventIngestionResult) : Type 0 where
  pub row : PosEvent J
  pub stored_row : find_event a.event_id l ≡ some row
  pub same_time : row.received_at ≡ a.received_at

module _ {J : Type 0} where
  pub Answers-later :
      (l m : List (PosEvent J)) (a : EventIngestionResult) → Keeps l m → Answers l a → Answers m a
  Answers-later l m a keeps h = record {
    row = h.row;
    stored_row = keeps a.event_id h.row h.stored_row;
    same_time = h.same_time;
  }

  -- After the commit or the rollback.
  unfoldable pub IsOver : List (PosEvent J) → Session J EventIngestionResult → Type 0
  IsOver l (return a) = Answers l a
  IsOver l (raise e) = Unit
  IsOver l _ = ⊥

  -- After an insert that stored the row `e`: the commit, and an answer about the row.
  unfoldable pub IsCommitting : PosEvent J → Session J EventIngestionResult → Type 0
  IsCommitting e (raise x) = Unit
  IsCommitting e (set_last_seen i t k) = IsCommitting e k
  IsCommitting e (commit (return a)) = (a.event_id ≡ e.event_id) × (a.received_at ≡ e.received_at)
  IsCommitting e _ = ⊥

  -- Before an insert, from the committed events `l` and with these locks.
  unfoldable pub IsGuarded : List (PosEvent J) → List ℕ → Session J EventIngestionResult → Type 0
  unfolding IsOver IsCommitting
  IsGuarded l locks (return a) = Answers l a
  IsGuarded l locks (raise e) = Unit
  IsGuarded l locks (get_event i k) =
      (l' : List (PosEvent J)) → Rely locks l l' → IsGuarded l' locks (k (find_event i l'))
  IsGuarded l locks (get_store i k) =
      (l' : List (PosEvent J)) (s : Option Store) → Rely locks l l' → IsGuarded l' locks (k s)
  IsGuarded l locks (get_product i k) =
      (l' : List (PosEvent J)) (q : Option Product) → Rely locks l l' → IsGuarded l' locks (k q)
  IsGuarded l locks (select_store c k) =
      (l' : List (PosEvent J)) (s : Option Store) → Rely locks l l' → IsGuarded l' locks (k s)
  IsGuarded l locks (select_product c k) =
      (l' : List (PosEvent J)) (q : Option Product) → Rely locks l l' → IsGuarded l' locks (k q)
  IsGuarded l locks (lock_event i k) =
      (l' : List (PosEvent J))
      → Rely locks l l'
      → (find_event i l' ≡ none → IsGuarded l' locks (k none))
        × ((e : PosEvent J) → find_event i l' ≡ some e → IsGuarded l' (i ∷ locks) (k (some e)))
  IsGuarded l locks (sum_refunds i k) =
      (l' : List (PosEvent J))
      → Rely locks l l'
      → IsGuarded l' locks (k (refunded_quantity i l', refunded_amount i l'))
  IsGuarded l locks (insert_event v k) =
      (l' : List (PosEvent J))
      → Rely locks l l'
      → ((t : ℕ)
          → find_event v.event_id l' ≡ none
          → row_check v ≡ true
          → Addable l' locks (record { values = v; received_at = t })
            × IsCommitting (record { values = v; received_at = t }) (k (some t)))
        × IsGuarded l' locks (k none)
  IsGuarded l locks (set_last_seen i t k) = ⊥
  IsGuarded l locks (commit k) = IsOver l k
  IsGuarded l locks (rollback k) = IsOver l k

  IsOver-later :
      (l m : List (PosEvent J)) (p : Session J EventIngestionResult)
      → Keeps l m
      → IsOver l p
      → IsOver m p
  unfolding IsOver
  IsOver-later l m (return a) keeps h = Answers-later l m a keeps h
  IsOver-later l m (raise e) keeps h = tt
  IsOver-later l m _ keeps h = absurd h

  pub IsGuarded-later :
      (l m : List (PosEvent J)) (locks : List ℕ) (p : Session J EventIngestionResult)
      → Rely locks l m
      → IsGuarded l locks p
      → IsGuarded m locks p
  unfolding IsGuarded
  IsGuarded-later l m locks (return a) r h = Answers-later l m a r.keeps h
  IsGuarded-later l m locks (raise e) r h = tt
  IsGuarded-later l m locks (get_event i k) r h = λ n s. h n (Rely-trans locks l m n r s)
  IsGuarded-later l m locks (get_store i k) r h = λ n x s. h n x (Rely-trans locks l m n r s)
  IsGuarded-later l m locks (get_product i k) r h = λ n x s. h n x (Rely-trans locks l m n r s)
  IsGuarded-later l m locks (select_store c k) r h = λ n x s. h n x (Rely-trans locks l m n r s)
  IsGuarded-later l m locks (select_product c k) r h = λ n x s. h n x (Rely-trans locks l m n r s)
  IsGuarded-later l m locks (lock_event i k) r h = λ n s. h n (Rely-trans locks l m n r s)
  IsGuarded-later l m locks (sum_refunds i k) r h = λ n s. h n (Rely-trans locks l m n r s)
  IsGuarded-later l m locks (insert_event v k) r h = λ n s. h n (Rely-trans locks l m n r s)
  IsGuarded-later l m locks (set_last_seen i t k) r h = h
  IsGuarded-later l m locks (commit k) r h = IsOver-later l m k r.keeps h
  IsGuarded-later l m locks (rollback k) r h = IsOver-later l m k r.keeps h

  pub IsGuarded-of_over :
      (l : List (PosEvent J)) (locks : List ℕ) (p : Session J EventIngestionResult)
      → IsOver l p
      → IsGuarded l locks p
  unfolding IsGuarded
  IsGuarded-of_over l locks (return a) h = h
  IsGuarded-of_over l locks (raise e) h = tt
  IsGuarded-of_over l locks _ h = absurd h
