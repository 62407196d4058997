-- ===== src/Backend/Session.antt =====
-- What a request asks of its database session, statement by statement. A handler is a tree of
-- statements with a branch for each answer, so the same handler can be run alone (`run` below)
-- or interleaved with others.
-- `session.get` and `SELECT ... WHERE event_id` are one statement: an event row never changes,
-- so the session's identity map cannot return a stale one.
use storepulse.Prelude.{ℕ, String, Option, none, some, ◌∷◌}
use storepulse.Backend.Models.{Store, Product, EventValues, PosEvent}
use storepulse.Backend.Database.{
  Db, find_store_id, find_store_code, find_product_id, find_product_sku, find_event,
  refunded_quantity, refunded_amount, violation, conflict, stored, insert_row, touch_store,
}

-- The exceptions of event_ingestion.py with their argument; a `RuntimeError`; and what the driver
-- raises for a row that the database refuses.
pub data IngestError : Type 0 where
  unknown_store unknown_product : String → IngestError
  event_conflict original_sale_not_found invalid_original_sale : ℕ → IngestError
  refund_reference_mismatch refund_limit_exceeded runtime_error : String → IngestError
  database_error : IngestError

pub data Session (J : Type 0) (A : Type 0) : Type 0 where
  return : A → Session J A
  raise : IngestError → Session J A
  get_event : ℕ → (Option (PosEvent J) → Session J A) → Session J A
  get_store : ℕ → (Option Store → Session J A) → Session J A
  get_product : ℕ → (Option Product → Session J A) → Session J A
  select_store : String → (Option Store → Session J A) → Session J A
  select_product : String → (Option Product → Session J A) → Session J A
  lock_event : ℕ → (Option (PosEvent J) → Session J A) → Session J A
  sum_refunds : ℕ → (ℕ × ℕ → Session J A) → Session J A
  insert_event : EventValues J → (Option ℕ → Session J A) → Session J A
  set_last_seen : ℕ → ℕ → Session J A → Session J A
  commit : Session J A → Session J A
  rollback : Session J A → Session J A

module _ {J A B : Type 0} where
  infixl 5 ◌>>=◌ ◌>>◌
  unfoldable pub ◌>>=◌ : Session J A → (A → Session J B) → Session J B
  return a >>= f = f a
  raise e >>= f = raise e
  get_event i k >>= f = get_event i (λ r. k r >>= f)
  get_store i k >>= f = get_store i (λ r. k r >>= f)
  get_product i k >>= f = get_product i (λ r. k r >>= f)
  select_store c k >>= f = select_store c (λ r. k r >>= f)
  select_product c k >>= f = select_product c (λ r. k r >>= f)
  lock_event i k >>= f = lock_event i (λ r. k r >>= f)
  sum_refunds i k >>= f = sum_refunds i (λ r. k r >>= f)
  insert_event v k >>= f = insert_event v (λ r. k r >>= f)
  set_last_seen i t k >>= f = set_last_seen i t (k >>= f)
  commit k >>= f = commit (k >>= f)
  rollback k >>= f = rollback (k >>= f)

  abbrev pub ◌>>◌ : Session J A → Session J B → Session J B
  m >> n = m >>= λ _. n

module _ {J A : Type 0} where
  -- `try: return m finally: await session.rollback()`
  unfoldable pub finally_rollback : Session J A → Session J A
  finally_rollback (return a) = rollback (return a)
  finally_rollback (raise e) = rollback (raise e)
  finally_rollback (get_event i k) = get_event i (λ r. finally_rollback (k r))
  finally_rollback (get_store i k) = get_store i (λ r. finally_rollback (k r))
  finally_rollback (get_product i k) = get_product i (λ r. finally_rollback (k r))
  finally_rollback (select_store c k) = select_store c (λ r. finally_rollback (k r))
  finally_rollback (select_product c k) = select_product c (λ r. finally_rollback (k r))
  finally_rollback (lock_event i k) = lock_event i (λ r. finally_rollback (k r))
  finally_rollback (sum_refunds i k) = sum_refunds i (λ r. finally_rollback (k r))
  finally_rollback (insert_event v k) = insert_event v (λ r. finally_rollback (k r))
  finally_rollback (set_last_seen i t k) = set_last_seen i t (finally_rollback k)
  finally_rollback (commit k) = commit (finally_rollback k)
  finally_rollback (rollback k) = rollback (finally_rollback k)

pub data Outcome (A : Type 0) : Type 0 where
  ok : A → Outcome A
  err : IngestError → Outcome A

-- A row is added at the front: a table has no order, and every lookup is by a unique key.
abbrev pub add_event : {J : Type 0} → PosEvent J → Db J → Db J
add_event e db = record db { events = e ∷ db.events }

-- The handler alone on the database, in a transaction that began at `now`: the outcome, and what
-- is committed. `c` is what was committed so far and `w` what the transaction sees. A handler that
-- ends or raises closes its session, which drops what it did not commit.
unfoldable pub run : {J A : Type 0} → ℕ → Session J A → Db J → Db J → Outcome A × Db J
run now (return a) c w = (ok a, c)
run now (raise e) c w = (err e, c)
run now (get_event i k) c w = run now (k (find_event i w.events)) c w
run now (get_store i k) c w = run now (k (find_store_id i w.stores)) c w
run now (get_product i k) c w = run now (k (find_product_id i w.products)) c w
run now (select_store code k) c w = run now (k (find_store_code code w.stores)) c w
run now (select_product sku k) c w = run now (k (find_product_sku sku w.products)) c w
run now (lock_event i k) c w = run now (k (find_event i w.events)) c w
run now (sum_refunds i k) c w =
    run now (k (refunded_quantity i w.events, refunded_amount i w.events)) c w
run now (insert_event v k) c w = elim (insert_row now v w) [
  | violation ↦ (err database_error, c)
  | conflict ↦ run now (k none) c w
  | stored e ↦ run now (k (some e.received_at)) c (add_event e w)
]
run now (set_last_seen i t k) c w = run now k c (record w { stores = touch_store i t now w.stores })
run now (commit k) c w = run now k w w
run now (rollback k) c w = run now k c c
