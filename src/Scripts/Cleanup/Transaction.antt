-- ===== src/Scripts/Cleanup/Transaction.antt =====
-- What the cleanup transaction of verify_simulator_smoke.py does to the tables of the backend.
-- `in_run` is whether a `source_instance` is LIKE the pattern of the run.
pub mod Rows
mod Tests
use storepulse.Prelude.{
  ℕ, Bool, true, false, ◌&&◌, ◌||◌, not, String, Option, none, some, List, [], ◌∷◌, ◌==◌,
  if◌then◌else◌,
}
use storepulse.Backend.Models.{Store, EventType, sale, refund, event_type_eq, PosEvent}
use storepulse.Backend.Database.{Db, find_event}

-- A row of the snapshot; the code is not used again.
pub record StoreState : Type 0 where
  pub id : ℕ
  pub last_seen_at : Option ℕ
  pub updated_at : ℕ

unfoldable pub find_state : ℕ → List StoreState → Option StoreState
find_state i [] = none
find_state i (x ∷ l) = if x.id == i then some x else find_state i l

abbrev pub restore_store : Store → Option StoreState → Store
restore_store s none = s
restore_store s (some x) = record s { last_seen_at = x.last_seen_at; updated_at = x.updated_at }

-- `UPDATE stores ... FROM snapshot`
unfoldable pub restore_stores : List StoreState → List Store → List Store
unfolding find_state
restore_stores snapshot [] = []
restore_stores snapshot (s ∷ l) =
    restore_store s (find_state s.id snapshot) ∷ restore_stores snapshot l

module _ {J : Type 0} where
  unfoldable pub drop_rows : (PosEvent J → Bool) → List (PosEvent J) → List (PosEvent J)
  drop_rows doomed [] = []
  drop_rows doomed (e ∷ l) = let rest = drop_rows doomed l in if doomed e then rest else e ∷ rest

  abbrev pub holds_of : (PosEvent J → Bool) → Option (PosEvent J) → Bool
  holds_of test none = false
  holds_of test (some e) = test e

  -- The row that a reference names meets the test.
  unfoldable pub names : (PosEvent J → Bool) → List (PosEvent J) → Option ℕ → Bool
  unfolding find_event
  names test table none = false
  names test table (some i) = holds_of test (find_event i table)

  unfoldable pub any_names : (PosEvent J → Bool) → List (PosEvent J) → List (PosEvent J) → Bool
  unfolding names
  any_names test table [] = false
  any_names test table (e ∷ l) = names test table e.original_event_id || any_names test table l

  -- `DELETE`, under the foreign key with ON DELETE RESTRICT: none is a violation.
  unfoldable pub delete_rows : (PosEvent J → Bool) → List (PosEvent J) → Option (List (PosEvent J))
  unfolding any_names drop_rows
  delete_rows doomed table =
      if any_names doomed table table then none else some (drop_rows doomed table)

  abbrev pub run_rows : (String → Bool) → PosEvent J → Bool
  run_rows in_run e = in_run e.source_instance

  -- The condition of `build_delete_sql`.
  abbrev pub run_rows_of : (String → Bool) → EventType → PosEvent J → Bool
  run_rows_of in_run t e = in_run e.source_instance && event_type_eq e.event_type t

  abbrev pub with_events : List StoreState → Db J → Option (List (PosEvent J)) → Option (Db J)
  with_events snapshot db none = none
  with_events snapshot db (some events) =
      some (record db { events = events; stores = restore_stores snapshot db.stores })

  abbrev pub delete_sales :
      (String → Bool) → Option (List (PosEvent J)) → Option (List (PosEvent J))
  delete_sales in_run none = none
  delete_sales in_run (some table) = delete_rows (run_rows_of in_run sale) table

  -- `build_cleanup_transaction_sql`: refunds, then sales, then the stores; none rolls all back.
  unfoldable pub cleanup_transaction : (String → Bool) → List StoreState → Db J → Option (Db J)
  unfolding delete_rows restore_stores
  cleanup_transaction in_run snapshot db =
      with_events snapshot db
        (delete_sales in_run (delete_rows (run_rows_of in_run refund) db.events))

  -- Some row from outside the run names a row of the run.
  unfoldable pub any_stray : (String → Bool) → List (PosEvent J) → List (PosEvent J) → Bool
  unfolding names
  any_stray in_run table [] = false
  any_stray in_run table (e ∷ l) =
      (not (in_run e.source_instance) && names (run_rows in_run) table e.original_event_id)
      || any_stray in_run table l
