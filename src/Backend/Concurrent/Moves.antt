-- ===== src/Backend/Concurrent/Moves.antt =====
-- Every move of a task keeps the invariant of its own task, and takes only what was free.
use storepulse.Prelude.{
  ℕ, ◌≡◌, ◌⊎◌, refl, sym, true, Option, none, some, [], ◌∷◌, inl, inr, arith, Bool-cases, ◌==◌,
}
use mathlib.Core.Path.{subst}
use storepulse.Backend.Models.{PosEvent}
use storepulse.Backend.Database.{Db}
use storepulse.Backend.Ingestion.Consistency.{IsConsistent}
use storepulse.Backend.Concurrent.{
  Running, Task, running, member, seen, flush, Move, does_return, does_raise, fails, gets_event,
  gets_store, gets_product, selects_store, selects_product, locks_none, locks_row, sums,
  insert_fails, insert_conflicts, inserts, sets_last_seen, commits, rolls_back, Holds, Claims,
}
use storepulse.Backend.Concurrent.Guarantee.{IsGuarded-of_over}
use storepulse.Backend.Concurrent.Invariant.{IsSafeRun, IsSafeTask, flush-events, insert_row-stored}
use storepulse.Backend.Concurrent.Statements.{
  gets_event-IsSafeRun, gets_store-IsSafeRun, gets_product-IsSafeRun, selects_store-IsSafeRun,
  selects_product-IsSafeRun, locks_none-IsSafeRun, locks_row-IsSafeRun, sums-IsSafeRun,
  conflicts-IsSafeRun, inserts-IsSafeRun, sets_last_seen-IsSafeRun, answer-IsSafeTask,
  commits-IsGuarded, IsOver-of_rollback,
}

-- What a statement does to the committed events: nothing, or it adds the transaction's row.
pub Move-events :
    {J : Type 0} {db db' : Db J} {F U : ℕ → Type 0} {r : Running J} {t : Task J}
    → Move db F U r db' t
    → (db'.events ≡ db.events)
      ⊎ ((e : PosEvent J) × (r.pending ≡ some e) × (db'.events ≡ e ∷ db.events))
Move-events {J} {db} (commits r k sent e) = go r.pending refl
  where
    go :
        (p : Option (PosEvent J))
        → r.pending ≡ p
        → ((flush sent r.began r.touch (seen p db)).events ≡ db.events)
          ⊎ ((e : PosEvent J) × (r.pending ≡ some e)
              × ((flush sent r.began r.touch (seen p db)).events ≡ e ∷ db.events))
    go none q = inl (flush-events sent r.began r.touch db)
    go (some x) q = inr (x, q, flush-events sent r.began r.touch (seen (some x) db))
Move-events (does_return r a e) = inl refl
Move-events (does_raise r x e) = inl refl
Move-events (fails r) = inl refl
Move-events (gets_event r i k e) = inl refl
Move-events (gets_store r i k e) = inl refl
Move-events (gets_product r i k e) = inl refl
Move-events (selects_store r c k e) = inl refl
Move-events (selects_product r c k e) = inl refl
Move-events (locks_none r i k e f) = inl refl
Move-events (locks_row r i k x e f g) = inl refl
Move-events (sums r i k e) = inl refl
Move-events (insert_fails r v k e f) = inl refl
Move-events (insert_conflicts r v k e f) = inl refl
Move-events (inserts r v k x e f g h) = inl refl
Move-events (sets_last_seen r i t k e) = inl refl
Move-events (rolls_back r k e) = inl refl

pub Move-IsSafeTask :
    {J : Type 0} {db db' : Db J} {F U : ℕ → Type 0} {r : Running J} {t : Task J}
    → Move db F U r db' t
    → IsConsistent db.events
    → IsSafeRun db.events r.locks r.pending r.prog
    → IsSafeTask db'.events t
Move-IsSafeTask {J} {db} (does_return r a e) con h =
    answer-IsSafeTask db con r.locks r.pending a (rw (sym e) h)
Move-IsSafeTask {J} {db} (does_raise r x e) con h = tt
Move-IsSafeTask {J} {db} (fails r) con h = tt
Move-IsSafeTask {J} {db} (gets_event r i k e) con h =
    gets_event-IsSafeRun db con r.locks r.pending i k (rw (sym e) h)
Move-IsSafeTask {J} {db} (gets_store r i k e) con h =
    gets_store-IsSafeRun db con r.locks r.pending i k _ (rw (sym e) h)
Move-IsSafeTask {J} {db} (gets_product r i k e) con h =
    gets_product-IsSafeRun db con r.locks r.pending i k _ (rw (sym e) h)
Move-IsSafeTask {J} {db} (selects_store r c k e) con h =
    selects_store-IsSafeRun db con r.locks r.pending c k _ (rw (sym e) h)
Move-IsSafeTask {J} {db} (selects_product r c k e) con h =
    selects_product-IsSafeRun db con r.locks r.pending c k _ (rw (sym e) h)
Move-IsSafeTask {J} {db} (locks_none r i k e f) con h =
    locks_none-IsSafeRun db con r.locks r.pending i k f (rw (sym e) h)
Move-IsSafeTask {J} {db} (locks_row r i k x e f g) con h =
    locks_row-IsSafeRun db con r.locks r.pending i k x f (rw (sym e) h)
Move-IsSafeTask {J} {db} (sums r i k e) con h =
    sums-IsSafeRun db con r.locks r.pending i k (rw (sym e) h)
Move-IsSafeTask {J} {db} (insert_fails r v k e f) con h = tt
Move-IsSafeTask {J} {db} (insert_conflicts r v k e f) con h =
    conflicts-IsSafeRun db con r.locks r.pending v k (rw (sym e) h)
Move-IsSafeTask {J} {db} (inserts r v k x e f g u) con h =
    inserts-IsSafeRun db con r.locks r.pending v k r.began x g (rw (sym e) h)
Move-IsSafeTask {J} {db} (sets_last_seen r i t k e) con h =
    sets_last_seen-IsSafeRun db con r.locks r.pending i t k (rw (sym e) h)
Move-IsSafeTask {J} {db} (commits r k sent e) con h =
    commits-IsGuarded db con r.locks r.pending k sent r.began r.touch (rw (sym e) h)
Move-IsSafeTask {J} {db} (rolls_back r k e) con h =
    IsGuarded-of_over _ [] k (IsOver-of_rollback db con r.locks r.pending k (rw (sym e) h))

-- A lock or a key that a statement takes was free.
pub Move-Holds :
    {J : Type 0} {db db' : Db J} {F U : ℕ → Type 0} {r : Running J} {t : Task J} (k : ℕ)
    → Move db F U r db' t
    → Holds t k
    → (member k r.locks ≡ true) ⊎ F k
Move-Holds k (does_return r a e) h = absurd h
Move-Holds k (does_raise r x e) h = absurd h
Move-Holds k (fails r) h = absurd h
Move-Holds k (gets_event r i f e) h = inl h
Move-Holds k (gets_store r i f e) h = inl h
Move-Holds k (gets_product r i f e) h = inl h
Move-Holds k (selects_store r c f e) h = inl h
Move-Holds k (selects_product r c f e) h = inl h
Move-Holds k (locks_none r i f e g) h = inl h
Move-Holds {J} {db} {F = F} {U = U} k (locks_row r i f x e g free) h = elim (Bool-cases (k == i)) [
  | inl same ↦ let here : i ≡ k = ground arith in inr (subst F here free)
  | inr other ↦ inl (ground arith)
]
Move-Holds k (sums r i f e) h = inl h
Move-Holds k (insert_fails r v f e g) h = absurd h
Move-Holds k (insert_conflicts r v f e g) h = inl h
Move-Holds k (inserts r v f x e g p u) h = inl h
Move-Holds k (sets_last_seen r i t f e) h = inl h
Move-Holds k (commits r f sent e) h = absurd (ground arith)
Move-Holds k (rolls_back r f e) h = absurd (ground arith)

pub Move-Claims :
    {J : Type 0} {db db' : Db J} {F U : ℕ → Type 0} {r : Running J} {t : Task J} (k : ℕ)
    → Move db F U r db' t
    → Claims t k
    → Claims (running r) k ⊎ U k
Move-Claims k (does_return r a e) h = absurd h
Move-Claims k (does_raise r x e) h = absurd h
Move-Claims k (fails r) h = absurd h
Move-Claims k (gets_event r i f e) h = inl h
Move-Claims k (gets_store r i f e) h = inl h
Move-Claims k (gets_product r i f e) h = inl h
Move-Claims k (selects_store r c f e) h = inl h
Move-Claims k (selects_product r c f e) h = inl h
Move-Claims k (locks_none r i f e g) h = inl h
Move-Claims k (locks_row r i f x e g free) h = inl h
Move-Claims k (sums r i f e) h = inl h
Move-Claims k (insert_fails r v f e g) h = absurd h
Move-Claims k (insert_conflicts r v f e g) h = inl h
Move-Claims {J} {db} {F = F} {U = U} k (inserts r v f x e g p u) (y, q, own) =
    let (same, _, _) = insert_row-stored r.began v db x p in
    let key : v.event_id ≡ k = ground arith in inr (subst U key u)
Move-Claims k (sets_last_seen r i t f e) h = inl h
Move-Claims k (commits r f sent e) (y, q, own) = absurd (ground arith)
Move-Claims k (rolls_back r f e) (y, q, own) = absurd (ground arith)
