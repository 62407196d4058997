-- ===== src/Backend/Concurrent/Statements.antt =====
-- Each statement of a transaction keeps what the invariant says of it.
use storepulse.Prelude.{ℕ, ◌≡◌, sym, Bool, String, Option, none, some, List, [], ◌∷◌, arith}
use storepulse.Backend.Models.{Store, Product, PosEvent, EventValues}
use storepulse.Backend.Database.{
  Db, find_event, refunded_quantity, refunded_amount, insert_row, stored,
}
use storepulse.Backend.Session.{
  Session, return, get_event, get_store, get_product, select_store, select_product, lock_event,
  sum_refunds, insert_event, set_last_seen, commit, rollback,
}
use storepulse.Backend.Classify.{EventIngestionResult}
use storepulse.Backend.Ingestion.Consistency.{IsConsistent}
use storepulse.Backend.Concurrent.{seen, flush}
use storepulse.Backend.Concurrent.Guarantee.{
  Answers, IsOver, IsCommitting, IsGuarded, IsGuarded-of_over,
}
use storepulse.Backend.Concurrent.Invariant.{IsSafeRun, Rely-refl, flush-events, insert_row-stored}

module _ {J : Type 0} (db : Db J) (con : IsConsistent db.events) (locks : List ℕ) where
  pub gets_event-IsSafeRun :
      (p : Option (PosEvent J)) (i : ℕ) (k : Option (PosEvent J) → Session J EventIngestionResult)
      → IsSafeRun db.events locks p (get_event i k)
      → IsSafeRun db.events locks p (k (find_event i (seen p db).events))
  unfolding IsGuarded
  gets_event-IsSafeRun none i k h = h db.events (Rely-refl db.events con locks)
  gets_event-IsSafeRun (some e) i k h = absurd h.1

  pub gets_store-IsSafeRun :
      (p : Option (PosEvent J)) (i : ℕ) (k : Option Store → Session J EventIngestionResult)
      (x : Option Store)
      → IsSafeRun db.events locks p (get_store i k)
      → IsSafeRun db.events locks p (k x)
  unfolding IsGuarded
  gets_store-IsSafeRun none i k x h = h db.events x (Rely-refl db.events con locks)
  gets_store-IsSafeRun (some e) i k x h = absurd h.1

  pub gets_product-IsSafeRun :
      (p : Option (PosEvent J)) (i : ℕ) (k : Option Product → Session J EventIngestionResult)
      (x : Option Product)
      → IsSafeRun db.events locks p (get_product i k)
      → IsSafeRun db.events locks p (k x)
  unfolding IsGuarded
  gets_product-IsSafeRun none i k x h = h db.events x (Rely-refl db.events con locks)
  gets_product-IsSafeRun (some e) i k x h = absurd h.1

  pub selects_store-IsSafeRun :
      (p : Option (PosEvent J)) (c : String) (k : Option Store → Session J EventIngestionResult)
      (x : Option Store)
      → IsSafeRun db.events locks p (select_store c k)
      → IsSafeRun db.events locks p (k x)
  unfolding IsGuarded
  selects_store-IsSafeRun none c k x h = h db.events x (Rely-refl db.events con locks)
  selects_store-IsSafeRun (some e) c k x h = absurd h.1

  pub selects_product-IsSafeRun :
      (p : Option (PosEvent J)) (c : String) (k : Option Product → Session J EventIngestionResult)
      (x : Option Product)
      → IsSafeRun db.events locks p (select_product c k)
      → IsSafeRun db.events locks p (k x)
  unfolding IsGuarded
  selects_product-IsSafeRun none c k x h = h db.events x (Rely-refl db.events con locks)
  selects_product-IsSafeRun (some e) c k x h = absurd h.1

  pub locks_none-IsSafeRun :
      (p : Option (PosEvent J)) (i : ℕ) (k : Option (PosEvent J) → Session J EventIngestionResult)
      → find_event i (seen p db).events ≡ none
      → IsSafeRun db.events locks p (lock_event i k)
      → IsSafeRun db.events locks p (k none)
  unfolding IsGuarded
  locks_none-IsSafeRun none i k e h = (h db.events (Rely-refl db.events con locks)).0 e
  locks_none-IsSafeRun (some x) i k e h = absurd h.1

  pub locks_row-IsSafeRun :
      (p : Option (PosEvent J)) (i : ℕ) (k : Option (PosEvent J) → Session J EventIngestionResult)
      (x : PosEvent J)
      → find_event i (seen p db).events ≡ some x
      → IsSafeRun db.events locks p (lock_event i k)
      → IsSafeRun db.events (i ∷ locks) p (k (some x))
  unfolding IsGuarded
  locks_row-IsSafeRun none i k x e h = (h db.events (Rely-refl db.events con locks)).1 x e
  locks_row-IsSafeRun (some y) i k x e h = absurd h.1

  pub sums-IsSafeRun :
      (p : Option (PosEvent J)) (i : ℕ) (k : ℕ × ℕ → Session J EventIngestionResult)
      → IsSafeRun db.events locks p (sum_refunds i k)
      → IsSafeRun db.events locks p
          (k (refunded_quantity i (seen p db).events, refunded_amount i (seen p db).events))
  unfolding IsGuarded
  sums-IsSafeRun none i k h = h db.events (Rely-refl db.events con locks)
  sums-IsSafeRun (some e) i k h = absurd h.1

  pub conflicts-IsSafeRun :
      (p : Option (PosEvent J)) (v : EventValues J) (k : Option ℕ → Session J EventIngestionResult)
      → IsSafeRun db.events locks p (insert_event v k)
      → IsSafeRun db.events locks p (k none)
  unfolding IsGuarded
  conflicts-IsSafeRun none v k h = (h db.events (Rely-refl db.events con locks)).1
  conflicts-IsSafeRun (some e) v k h = absurd h.1

  pub inserts-IsSafeRun :
      (p : Option (PosEvent J)) (v : EventValues J) (k : Option ℕ → Session J EventIngestionResult)
      (now : ℕ) (e : PosEvent J)
      → insert_row now v db ≡ stored e
      → IsSafeRun db.events locks p (insert_event v k)
      → IsSafeRun db.events locks (some e) (k (some e.received_at))
  unfolding IsGuarded
  inserts-IsSafeRun (some x) v k now e made h = absurd h.1
  inserts-IsSafeRun none v k now e made h =
      let (same, absent, fits) = insert_row-stored now v db e made in
      rw (sym same) ((h db.events (Rely-refl db.events con locks)).0 now absent fits)

  pub sets_last_seen-IsSafeRun :
      (p : Option (PosEvent J)) (i t : ℕ) (k : Session J EventIngestionResult)
      → IsSafeRun db.events locks p (set_last_seen i t k)
      → IsSafeRun db.events locks p k
  unfolding IsGuarded IsCommitting
  sets_last_seen-IsSafeRun none i t k h = absurd h
  sets_last_seen-IsSafeRun (some e) i t k h = h

  pub answer-IsSafeTask :
      (p : Option (PosEvent J)) (a : EventIngestionResult)
      → IsSafeRun db.events locks p (return a)
      → Answers db.events a
  unfolding IsGuarded IsCommitting
  answer-IsSafeTask none a h = h
  answer-IsSafeTask (some e) a h = absurd h.1

  pub commits-IsGuarded :
      (p : Option (PosEvent J)) (k : Session J EventIngestionResult) (sent : Bool) (now : ℕ)
      (t : Option (ℕ × ℕ))
      → IsSafeRun db.events locks p (commit k)
      → IsGuarded (flush sent now t (seen p db)).events [] k
  unfolding IsGuarded
  commits-IsGuarded none k sent now t h =
      rw (flush-events sent now t db) (IsGuarded-of_over db.events [] k h)
  commits-IsGuarded (some e) (return a) sent now t h =
      rw (flush-events sent now t (seen (some e) db)) (record {
        row = e;
        stored_row = unfold IsCommitting find_event in ground (arith, h);
        same_time = unfold IsCommitting in sym h.1.1;
      })
  commits-IsGuarded (some e) _ sent now t h = unfold IsCommitting in absurd h.1

  pub IsOver-of_rollback :
      (p : Option (PosEvent J)) (k : Session J EventIngestionResult)
      → IsSafeRun db.events locks p (rollback k)
      → IsOver db.events k
  unfolding IsGuarded IsCommitting
  IsOver-of_rollback none k h = h
  IsOver-of_rollback (some e) k h = absurd h.1
