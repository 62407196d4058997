-- ===== src/Backend/Concurrent/Reachable.antt =====
-- What holds of the committed database in every state that interleaved requests reach.
use storepulse.Prelude.{ℕ, ◌≡◌, ◌≢◌, ◌⊎◌, true, some, List, ◌∷◌, inl, inr, arith, Bool-cases, ◌==◌}
use storepulse.Backend.Models.{PosEvent, JsonEq}
use storepulse.Backend.Database.{Db, is_refund_of}
use storepulse.Backend.Session.{ok}
use storepulse.Backend.Classify.{EventIngestionResult}
use storepulse.Backend.Ingestion.Consistency.{IsConsistent}
use storepulse.Backend.Concurrent.{
  Running, Task, running, ended, member, Move, System, update, Holds, Claims, Free, Unclaimed, Step,
  arrives, moves, beats, Reach, begin, later,
}
use storepulse.Backend.Concurrent.Addable.{Addable, Addable-IsConsistent}
use storepulse.Backend.Concurrent.Guarantee.{Answers}
use storepulse.Backend.Concurrent.Handlers.{ingest-IsGuarded}
use storepulse.Backend.Concurrent.Invariant.{IsSafeRun, IsSafeTask}
use storepulse.Backend.Concurrent.Invariant.{IsSafe, IsSafeRun, IsSafeTask, add-IsSafeTask}
use storepulse.Backend.Concurrent.Moves.{Move-events, Move-IsSafeTask, Move-Holds, Move-Claims}

module _ {J : Type 0} (f : ℕ → Task J) (i : ℕ) (t : Task J) where
  update_each :
      (P : Task J → Type 0) → P t → ((j : ℕ) → j ≢ i → P (f j)) → (j : ℕ) → P (update f i t j)
  update_each P own others j = elim (Bool-cases (j == i)) [
    | inl same ↦ rw same own
    | inr other ↦ rw other (others j (ground arith))
  ]

  -- What no two tasks have is still so, if no other task has what the new one has.
  update_apart :
      (Q : Task J → ℕ → Type 0)
      → ((a b k : ℕ) → a ≢ b → Q (f a) k → Q (f b) k → ⊥)
      → ((b k : ℕ) → b ≢ i → Q t k → Q (f b) k → ⊥)
      → (a b k : ℕ) → a ≢ b
      → Q (update f i t a) k
      → Q (update f i t b) k
      → ⊥
  update_apart Q old new a b k apart = elim (Bool-cases (a == i)) [
    | inl p ↦ elim (Bool-cases (b == i)) [
      | inl q ↦ absurd (ground arith)
      | inr q ↦ rw (p, q) (new b k (ground arith))
    ]
    | inr p ↦ elim (Bool-cases (b == i)) [
      | inl q ↦ rw (p, q) (λ x y. new a k (ground arith) y x)
      | inr q ↦ rw (p, q) (old a b k apart)
    ]
  ]

module _ {J : Type 0} (s : System J) (i : ℕ) (r : Running J) (h : IsSafe s)
    (mine : s.task i ≡ running r) where
  own_locks : (k : ℕ) → member k r.locks ≡ true → Holds (s.task i) k
  own_locks k m = rw mine m

  own-Claims : (k : ℕ) → Claims (running r) k → Claims (s.task i) k
  own-Claims k c = rw mine c

  own-IsSafeRun : IsSafeRun s.db.events r.locks r.pending r.prog
  own-IsSafeRun = let x = h.tasks i in rw mine at x

  -- What a task has locked or inserted after its statement, no other has.
  moved_locks :
      (db' : Db J) (t : Task J)
      → Move s.db (Free s i) (Unclaimed s i) r db' t
      → (j k : ℕ) → j ≢ i
      → Holds t k
      → Holds (s.task j) k
      → ⊥
  moved_locks db' t m j k apart x y = elim (Move-Holds k m x) [
    | inl old ↦ h.locks_apart j i k apart y (own_locks k old)
    | inr free ↦ free j apart y
  ]

  moved-Claims :
      (db' : Db J) (t : Task J)
      → Move s.db (Free s i) (Unclaimed s i) r db' t
      → (j k : ℕ) → j ≢ i
      → Claims t k
      → Claims (s.task j) k
      → ⊥
  moved-Claims db' t m j k apart x y = elim (Move-Claims k m x) [
    | inl old ↦ h.claims_apart j i k apart y (own-Claims k old)
    | inr free ↦ free j apart y
  ]

  pending-Addable : (e : PosEvent J) → r.pending ≡ some e → Addable s.db.events r.locks e
  pending-Addable e p = let x = own-IsSafeRun in let y = rw p at x in y.0

  -- The committed events after the statement, and the other tasks on them.
  moved_events :
      (l : List (PosEvent J))
      → ((l ≡ s.db.events) ⊎ ((e : PosEvent J) × (r.pending ≡ some e) × (l ≡ e ∷ s.db.events)))
      → IsConsistent l × ((j : ℕ) → j ≢ i → IsSafeTask l (s.task j))
  moved_events l (inl same) = rw same (h.consistent, (λ j other. h.tasks j))
  moved_events l (inr (e, p, same)) =
      let a = pending-Addable e p in
      let con = Addable-IsConsistent s.db.events r.locks e h.consistent a in
      rw same (
        con,
        (λ j other.
            add-IsSafeTask s.db.events h.consistent (s.task j) e a.fresh con
              (λ k held. elim (Bool-cases (is_refund_of k e.values)) [
                | inl refers ↦
                    absurd (h.locks_apart j i k other held (own_locks k (a.locked k refers)))
                | inr no_refund ↦ no_refund
              ])
              (λ k claimed key. h.claims_apart j i k other claimed (own-Claims k (e, p, key)))
              (h.tasks j)),
      )

module _ {J : Type 0} ⦃json : JsonEq J⦄ where
  Step-IsSafe : {s t : System J} → Step s t → IsSafe s → IsSafe t
  Step-IsSafe {s} (arrives i now p rest) h = record {
    consistent = h.consistent;
    tasks =
        update_each s.task i _ (IsSafeTask s.db.events) (ingest-IsGuarded s.db.events p)
          (λ j other. h.tasks j);
    locks_apart = update_apart s.task i _ Holds h.locks_apart (λ b k other x y. ground arith);
    claims_apart = update_apart s.task i _ Claims h.claims_apart (λ b k other x y. ground arith);
  }
  Step-IsSafe {s} (moves i r db' t mine m) h =
      let (con, others) = moved_events s i r h mine db'.events (Move-events m) in
      record {
        consistent = con;
        tasks =
            update_each s.task i t (IsSafeTask db'.events)
              (Move-IsSafeTask m h.consistent (own-IsSafeRun s i r h mine)) others;
        locks_apart =
            update_apart s.task i t Holds h.locks_apart (moved_locks s i r h mine db' t m);
        claims_apart =
            update_apart s.task i t Claims h.claims_apart (moved-Claims s i r h mine db' t m);
      }
  Step-IsSafe (beats i t now) h = record {
    consistent = h.consistent;
    tasks = h.tasks;
    locks_apart = h.locks_apart;
    claims_apart = h.claims_apart;
  }

  Reach-IsSafe :
      {start : Db J} {s : System J} → IsConsistent start.events → Reach start s → IsSafe s
  Reach-IsSafe con begin = record {
    consistent = con;
    tasks = λ i. tt;
    locks_apart = λ i j k other x y. x;
    claims_apart = λ i j k other x y. x;
  }
  Reach-IsSafe con (later r step) = Step-IsSafe step (Reach-IsSafe con r)

  -- However requests interleave, statement by statement, and whatever transactions fail: from a
  -- consistent table of events the committed table is consistent in every state that is reached.
  -- No event_id is stored twice, every row satisfies its constraints, every refund names a top-level
  -- sale of its store and product, and the refunds of every event stay within its quantity and its
  -- amount.
  pub interleaved-IsConsistent :
      {start : Db J} {s : System J}
      → IsConsistent start.events
      → Reach start s
      → IsConsistent s.db.events
  interleaved-IsConsistent con r = (Reach-IsSafe con r).consistent

  -- However requests interleave and transactions fail, from a consistent table: once a request has
  -- been answered with success, the event of the answer is a committed row, and the answer's
  -- received_at is that row's.
  pub ended-Answers :
      {start : Db J} {s : System J} (i : ℕ) (a : EventIngestionResult)
      → IsConsistent start.events
      → Reach start s
      → s.task i ≡ ended (ok a)
      → Answers s.db.events a
  ended-Answers i a con r done = let h = (Reach-IsSafe con r).tasks i in rw done at h
