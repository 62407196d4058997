-- ===== src/Backend/Concurrent/Invariant.antt =====
-- What holds in every state that interleaved requests reach.
use storepulse.Prelude.{ℕ, ◌≡◌, ◌≢◌, refl, Bool, true, false, Option, none, some, List, ◌∷◌, arith}
use storepulse.Backend.Models.{PosEvent, EventValues}
use storepulse.Backend.Database.{Db, find_event, is_refund_of, insert_row, stored, row_check}
use storepulse.Backend.Database.Lookup.{refunded-cons}
use storepulse.Backend.Session.{Session, ok, err}
use storepulse.Backend.Classify.{EventIngestionResult}
use storepulse.Backend.Ingestion.Consistency.{IsConsistent, find_event_weaken}
use storepulse.Backend.Concurrent.{Task, idle, running, ended, member, flush, System, Holds, Claims}
use storepulse.Backend.Concurrent.Addable.{Addable, Addable-weaken}
use storepulse.Backend.Concurrent.Guarantee.{
  Rely, Answers, Answers-later, IsCommitting, IsGuarded, IsGuarded-later,
}

-- A transaction with its insert behind it may commit it; one without will insert only such rows.
abbrev pub IsSafeRun :
    {J : Type 0}
    → List (PosEvent J)
    → List ℕ
    → Option (PosEvent J)
    → Session J EventIngestionResult
    → Type 0
IsSafeRun l locks none prog = IsGuarded l locks prog
IsSafeRun l locks (some e) prog = Addable l locks e × IsCommitting e prog

abbrev pub IsSafeTask : {J : Type 0} → List (PosEvent J) → Task J → Type 0
IsSafeTask l (running r) = IsSafeRun l r.locks r.pending r.prog
IsSafeTask l (ended (ok a)) = Answers l a
IsSafeTask l _ = Unit

pub record IsSafe {J : Type 0} (s : System J) : Type 0 where
  pub consistent : IsConsistent s.db.events
  pub tasks : (i : ℕ) → IsSafeTask s.db.events (s.task i)
  pub locks_apart : (i j k : ℕ) → i ≢ j → Holds (s.task i) k → Holds (s.task j) k → ⊥
  pub claims_apart : (i j k : ℕ) → i ≢ j → Claims (s.task i) k → Claims (s.task j) k → ⊥

module _ {J : Type 0} (l : List (PosEvent J)) (con : IsConsistent l) where
  pub Rely-refl : (locks : List ℕ) → Rely locks l l
  Rely-refl locks = record {
    keeps = λ i e h. h;
    same_quantity = λ i h. refl;
    same_amount = λ i h. refl;
    consistent = con;
  }

  Rely-add :
      (locks : List ℕ) (e : PosEvent J)
      → find_event e.event_id l ≡ none
      → IsConsistent (e ∷ l)
      → ((k : ℕ) → member k locks ≡ true → is_refund_of k e.values ≡ false)
      → Rely locks l (e ∷ l)
  Rely-add locks e fresh con' apart = record {
    keeps = λ i x h. find_event_weaken e l i x fresh h;
    same_quantity = λ i h. ground (arith, apart i, refunded-cons i e l);
    same_amount = λ i h. ground (arith, apart i, refunded-cons i e l);
    consistent = con';
  }

  -- A row that another transaction commits leaves a task safe.
  add-IsSafeRun :
      (locks : List ℕ) (pending : Option (PosEvent J)) (prog : Session J EventIngestionResult)
      (e : PosEvent J)
      → find_event e.event_id l ≡ none
      → IsConsistent (e ∷ l)
      → ((k : ℕ) → member k locks ≡ true → is_refund_of k e.values ≡ false)
      → ((x : PosEvent J) → pending ≡ some x → e.event_id ≢ x.event_id)
      → IsSafeRun l locks pending prog
      → IsSafeRun (e ∷ l) locks pending prog
  add-IsSafeRun locks none prog e fresh con' apart keys h =
      IsGuarded-later l (e ∷ l) locks prog (Rely-add locks e fresh con' apart) h
  add-IsSafeRun locks (some x) prog e fresh con' apart keys h =
      (Addable-weaken l locks e x fresh (keys x refl) apart h.0, h.1)

  pub add-IsSafeTask :
      (t : Task J) (e : PosEvent J)
      → find_event e.event_id l ≡ none
      → IsConsistent (e ∷ l)
      → ((k : ℕ) → Holds t k → is_refund_of k e.values ≡ false)
      → ((k : ℕ) → Claims t k → e.event_id ≢ k)
      → IsSafeTask l t
      → IsSafeTask (e ∷ l) t
  add-IsSafeTask idle e fresh con' apart keys h = tt
  add-IsSafeTask (ended (err x)) e fresh con' apart keys h = tt
  add-IsSafeTask (ended (ok a)) e fresh con' apart keys h =
      Answers-later l (e ∷ l) a (λ i x found. find_event_weaken e l i x fresh found) h
  add-IsSafeTask (running r) e fresh con' apart keys h =
      add-IsSafeRun r.locks r.pending r.prog e fresh con' apart
        (λ x p. keys x.event_id (x, p, refl)) h

pub flush-events :
    {J : Type 0} (b : Bool) (now : ℕ) (t : Option (ℕ × ℕ)) (db : Db J)
    → (flush b now t db).events ≡ db.events
flush-events true now (some (i, t)) db = refl
flush-events true now none db = refl
flush-events false now t db = refl

pub insert_row-stored :
    {J : Type 0} (now : ℕ) (v : EventValues J) (db : Db J) (e : PosEvent J)
    → insert_row now v db ≡ stored e
    → (record { values = v; received_at = now } ≡ e)
      × (find_event v.event_id db.events ≡ none)
      × (row_check v ≡ true)
unfolding insert_row
insert_row-stored now v db e h = (ground arith, ground arith, ground arith)
