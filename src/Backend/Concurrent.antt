-- ===== src/Backend/Concurrent.antt =====
-- Requests of backend/app/event_ingestion.py that interleave, statement by statement, each in a
-- READ COMMITTED transaction of its own (backend/app/db.py keeps PostgreSQL's default).
-- A statement sees what is committed and the row that its own transaction inserted. A lock of
-- `FOR UPDATE` and an inserted key are held until the transaction ends, and another transaction
-- waits for them, which is a step that it cannot take. Any transaction may fail at any time, as
-- by a deadlock or a lost connection.
pub mod Addable
pub mod Guarantee
pub mod Reading
pub mod Handlers
pub mod Invariant
pub mod Statements
pub mod Moves
pub mod Reachable
mod Tests
use storepulse.Prelude.{
  ℕ, ◌≡◌, ◌≢◌, Bool, true, false, ◌||◌, String, Option, none, some, List, [], ◌∷◌, ◌==◌,
  if◌then◌else◌,
}
use storepulse.Backend.Models.{Store, Product, EventValues, PosEvent, EventCreate, JsonEq}
use storepulse.Backend.Database.{
  Db, find_store_id, find_store_code, find_product_id, find_product_sku, find_event,
  refunded_quantity, refunded_amount, Inserted, violation, conflict, stored, insert_row,
  touch_store,
}
use storepulse.Backend.Session.{
  Session, IngestError, database_error, return, raise, get_event, get_store, get_product,
  select_store, select_product, lock_event, sum_refunds, insert_event, set_last_seen, commit,
  rollback, Outcome, ok, err, add_event,
}
use storepulse.Backend.Classify.{EventIngestionResult}
use storepulse.Backend.Ingestion.{ingest}

-- A transaction under way: what is left of the handler, when it began, the rows that it has locked,
-- the row that it inserted, and the `last_seen_at` that waits for the flush.
pub record Running (J : Type 0) : Type 0 where
  pub prog : Session J EventIngestionResult
  pub began : ℕ
  pub locks : List ℕ
  pub pending : Option (PosEvent J)
  pub touch : Option (ℕ × ℕ)

pub data Task (J : Type 0) : Type 0 where
  idle : Task J
  running : Running J → Task J
  ended : Outcome EventIngestionResult → Task J

abbrev pub member : ℕ → List ℕ → Bool
member k [] = false
member k (x ∷ l) = k == x || member k l

module _ {J : Type 0} where
  -- What a statement of the transaction sees.
  abbrev pub seen : Option (PosEvent J) → Db J → Db J
  seen none db = db
  seen (some e) db = add_event e db

  -- The flushed `UPDATE` of a store, which is left out when the session saw the same value.
  abbrev pub flush : Bool → ℕ → Option (ℕ × ℕ) → Db J → Db J
  flush true now (some (i, t)) db = record db { stores = touch_store i t now db.stores }
  flush _ now _ db = db

  -- A transaction after its end.
  abbrev pub clear : Session J EventIngestionResult → Running J → Running J
  clear rest r = record r { prog = rest; locks = []; pending = none; touch = none }

  abbrev pub at : Session J EventIngestionResult → Running J → Task J
  at rest r = running (record r { prog = rest })

  -- One statement of a task, on the committed database. `Free` says of a row that no other
  -- transaction has locked it, and of a key that no other transaction has inserted it.
  pub data Move (db : Db J) (Free Unclaimed : ℕ → Type 0) : Running J → Db J → Task J → Type 0 where
    does_return :
        (r : Running J) (a : EventIngestionResult)
        → r.prog ≡ return a
        → Move db Free Unclaimed r db (ended (ok a))
    does_raise :
        (r : Running J) (e : IngestError)
        → r.prog ≡ raise e
        → Move db Free Unclaimed r db (ended (err e))
    fails : (r : Running J) → Move db Free Unclaimed r db (ended (err database_error))
    gets_event :
        (r : Running J) (i : ℕ) (k : Option (PosEvent J) → Session J EventIngestionResult)
        → r.prog ≡ get_event i k
        → Move db Free Unclaimed r db (at (k (find_event i (seen r.pending db).events)) r)
    gets_store :
        (r : Running J) (i : ℕ) (k : Option Store → Session J EventIngestionResult)
        → r.prog ≡ get_store i k
        → Move db Free Unclaimed r db (at (k (find_store_id i db.stores)) r)
    gets_product :
        (r : Running J) (i : ℕ) (k : Option Product → Session J EventIngestionResult)
        → r.prog ≡ get_product i k
        → Move db Free Unclaimed r db (at (k (find_product_id i db.products)) r)
    selects_store :
        (r : Running J) (c : String) (k : Option Store → Session J EventIngestionResult)
        → r.prog ≡ select_store c k
        → Move db Free Unclaimed r db (at (k (find_store_code c db.stores)) r)
    selects_product :
        (r : Running J) (c : String) (k : Option Product → Session J EventIngestionResult)
        → r.prog ≡ select_product c k
        → Move db Free Unclaimed r db (at (k (find_product_sku c db.products)) r)
    locks_none :
        (r : Running J) (i : ℕ) (k : Option (PosEvent J) → Session J EventIngestionResult)
        → r.prog ≡ lock_event i k
        → find_event i (seen r.pending db).events ≡ none
        → Move db Free Unclaimed r db (at (k none) r)
    locks_row :
        (r : Running J) (i : ℕ) (k : Option (PosEvent J) → Session J EventIngestionResult)
        (e : PosEvent J)
        → r.prog ≡ lock_event i k
        → find_event i (seen r.pending db).events ≡ some e
        → Free i
        → Move db Free Unclaimed r db
            (running (record r { prog = k (some e); locks = i ∷ r.locks }))
    sums :
        (r : Running J) (i : ℕ) (k : ℕ × ℕ → Session J EventIngestionResult)
        → r.prog ≡ sum_refunds i k
        → Move db Free Unclaimed r db (
            at
              (k (
                refunded_quantity i (seen r.pending db).events,
                refunded_amount i (seen r.pending db).events,
              ))
              r)
    insert_fails :
        (r : Running J) (v : EventValues J) (k : Option ℕ → Session J EventIngestionResult)
        → r.prog ≡ insert_event v k
        → insert_row r.began v (seen r.pending db) ≡ violation
        → Move db Free Unclaimed r db (ended (err database_error))
    insert_conflicts :
        (r : Running J) (v : EventValues J) (k : Option ℕ → Session J EventIngestionResult)
        → r.prog ≡ insert_event v k
        → insert_row r.began v (seen r.pending db) ≡ conflict
        → Move db Free Unclaimed r db (at (k none) r)
    inserts :
        (r : Running J) (v : EventValues J) (k : Option ℕ → Session J EventIngestionResult)
        (e : PosEvent J)
        → r.prog ≡ insert_event v k
        → r.pending ≡ none
        → insert_row r.began v db ≡ stored e
        → Unclaimed v.event_id
        → Move db Free Unclaimed r db
            (running (record r { prog = k (some e.received_at); pending = some e }))
    sets_last_seen :
        (r : Running J) (i t : ℕ) (k : Session J EventIngestionResult)
        → r.prog ≡ set_last_seen i t k
        → Move db Free Unclaimed r db (running (record r { prog = k; touch = some (i, t) }))
    commits :
        (r : Running J) (k : Session J EventIngestionResult) (sent : Bool)
        → r.prog ≡ commit k
        → Move db Free Unclaimed r
            (flush sent r.began r.touch (seen r.pending db))
            (running (clear k r))
    rolls_back :
        (r : Running J) (k : Session J EventIngestionResult)
        → r.prog ≡ rollback k
        → Move db Free Unclaimed r db (running (clear k r))

pub record System (J : Type 0) : Type 0 where
  pub db : Db J
  pub task : ℕ → Task J

abbrev pub update : {A : Type 0} → (ℕ → A) → ℕ → A → ℕ → A
update f i a j = if j == i then a else f j

module _ {J : Type 0} where
  -- Not under way.
  abbrev pub IsResting : Task J → Type 0
  IsResting (running r) = ⊥
  IsResting _ = Unit

  abbrev pub Holds : Task J → ℕ → Type 0
  Holds (running r) k = member k r.locks ≡ true
  Holds _ k = ⊥

  abbrev pub Claims : Task J → ℕ → Type 0
  Claims (running r) k = (e : PosEvent J) × (r.pending ≡ some e) × (e.event_id ≡ k)
  Claims _ k = ⊥

  -- No task but `i` has locked row `k`, or inserted key `k`.
  abbrev pub Free : System J → ℕ → ℕ → Type 0
  Free s i k = (j : ℕ) → j ≢ i → Holds (s.task j) k → ⊥

  abbrev pub Unclaimed : System J → ℕ → ℕ → Type 0
  Unclaimed s i k = (j : ℕ) → j ≢ i → Claims (s.task j) k → ⊥

  -- A request comes in, a task moves, or a heartbeat is committed.
  pub data Step ⦃json : JsonEq J⦄ (s : System J) : System J → Type 0 where
    arrives :
        (i now : ℕ) (p : EventCreate J)
        → IsResting (s.task i)
        → Step s (record s {
          task = update s.task i (
              running (record {
                prog = ingest p;
                began = now;
                locks = [];
                pending = none;
                touch = none;
              }));
        })
    moves :
        (i : ℕ) (r : Running J) (db' : Db J) (t : Task J)
        → s.task i ≡ running r
        → Move s.db (Free s i) (Unclaimed s i) r db' t
        → Step s (record { db = db'; task = update s.task i t })
    beats :
        (i t now : ℕ)
        → Step s (record s { db = record s.db { stores = touch_store i t now s.db.stores } })

  pub data Reach ⦃json : JsonEq J⦄ (start : Db J) : System J → Type 0 where
    begin : Reach start (record { db = start; task = λ _. idle })
    later : {s t : System J} → Reach start s → Step s t → Reach start t
