-- ===== src/Scripts/Cleanup.antt =====
-- scripts/verify_simulator_smoke.py: what is restored after a run, and how that is checked.
-- JSON values are a type `J` of their own.
mod Triples
pub mod Laws
mod Checks
pub mod Restored
pub mod Errors
pub mod Transaction
use Prim.Native.String.{◌++◌ as append}
use text.Mathlib.Text.{starts_with}
use storepulse.Prelude.{
  Bool, true, false, ◌&&◌, ◌||◌, not, String, Option, none, some, List, [], ◌∷◌, ◌++◌,
  if◌then◌else◌,
}
use storepulse.Scripts.Process.{
  verification_error, message, Result, ok, raised, Script, and_then, ◌>>=◌, ◌>>◌, pure, raise,
  attempt, act, Platform, is_zero, join, psql, count_rows,
}
use storepulse.Scripts.Sql.{
  build_snapshot_sql, build_snapshot_mismatch_sql, build_cleanup_transaction_sql,
  build_remaining_sql,
}
use storepulse.Scripts.Services.{
  simulator_services, is_empty, running_service_ids, stop_simulators, stop_backend, start_backend,
}

-- What the script uses of the module `json`, and of the dictionaries that it reads.
pub record Json (J : Type 0) : Type 0 where
  pub loads : String → Option J
  pub as_list : J → Option (List J)
  pub has_keys : List String → J → Bool
  pub repr_json : J → String
  pub dumps : List J → String

abbrev pub all_have : {J : Type 0} → Json J → List J → Option J
all_have json [] = none
all_have json (item ∷ l) =
    if json.has_keys ("id" ∷ "code" ∷ "last_seen_at" ∷ "updated_at" ∷ []) item
    then all_have json l
    else some item

abbrev pub error_text : {A : Type 0} → String → Result A → List String
error_text label (ok a) = []
error_text label (raised e) = append label (message e) ∷ []

-- `any(message.startswith("backend restart failed:") for message in errors)`
unfoldable pub restart_failed : List String → Bool
restart_failed [] = false
restart_failed (x ∷ l) = starts_with x "backend restart failed:" || restart_failed l

module _ {W J : Type 0} (p : Platform W) (json : Json J) where
  unfoldable pub check_snapshot : String → Option (List J) → Script W (List J)
  check_snapshot raw (some (item ∷ l)) = elim (all_have json (item ∷ l)) [
    | none ↦ pure (item ∷ l)
    | some bad ↦
        raise (verification_error (append "Malformed store snapshot entry: " (json.repr_json bad)))
  ]
  check_snapshot raw _ =
      raise (verification_error "Store connectivity snapshot is empty or malformed.")

  unfoldable pub snapshot_store_state : String → String → Script W (List J)
  unfolding psql check_snapshot and_then
  snapshot_store_state db_user db_name = do
    raw ← psql p build_snapshot_sql db_user db_name true
    elim (json.loads raw) [
      | none ↦
          raise (
            verification_error
              (append "Could not parse store connectivity snapshot: " (p.repr raw)))
      | some value ↦ check_snapshot raw (json.as_list value)
    ]

module _ {W : Type 0} (p : Platform W) where
  unfoldable pub verify_no_run_rows : String → String → String → Script W (Unit {0})
  unfolding count_rows and_then
  verify_no_run_rows run_tag db_user db_name = do
    remaining ← count_rows p (build_remaining_sql run_tag) db_user db_name
    if is_zero remaining
        then pure _
        else raise (
            verification_error (
              append "Simulator verification cleanup left " (
                append (p.show_int remaining)
                  (append " event rows for run tag " (append run_tag ".")))))

  -- The count of rows that differ from the snapshot.
  unfoldable pub verify_snapshot : String → String → String → String → String → Script W (Unit {0})
  unfolding count_rows and_then
  verify_snapshot before after snapshot_json db_user db_name = do
    mismatches ← count_rows p (build_snapshot_mismatch_sql snapshot_json) db_user db_name
    if is_zero mismatches
        then pure _
        else raise (verification_error (append before (append (p.show_int mismatches) after)))

  unfoldable pub cleanup_verification_data : String → String → String → String → Script W (Unit {0})
  unfolding psql verify_no_run_rows verify_snapshot and_then
  cleanup_verification_data run_tag snapshot_json db_user db_name = do
    psql p (build_cleanup_transaction_sql run_tag snapshot_json) db_user db_name false
    verify_no_run_rows run_tag db_user db_name
    verify_snapshot "Store connectivity restore verification found " " mismatched rows."
        snapshot_json db_user db_name

  -- The checks after the restart.
  unfoldable pub post_restart_checks : String → String → String → String → Script W (Unit {0})
  unfolding running_service_ids verify_no_run_rows verify_snapshot and_then
  post_restart_checks run_tag snapshot_json db_user db_name = do
    running ← running_service_ids p simulator_services (some "demo")
    if is_empty running
        then (do
          act (p.sleep 500)
          verify_no_run_rows run_tag db_user db_name
          verify_snapshot "Store connectivity restore verification found "
              " mismatched rows after backend restart." snapshot_json db_user db_name
          act (p.print_out "Post-restart run isolation: PASS")
          act (p.print_out "Store connectivity restore: PASS"))
        else raise
            (verification_error "Simulator containers resumed unexpectedly after backend restart.")

  -- The first `try`, once the backend has stopped.
  unfoldable pub clean_behind_barrier : String → String → String → String → Script W (Unit {0})
  unfolding cleanup_verification_data and_then
  clean_behind_barrier run_tag snapshot_json db_user db_name = do
    act (p.print_out "Backend write barrier: PASS")
    cleanup_verification_data run_tag snapshot_json db_user db_name
    act (p.print_out "Simulator verification data cleanup: PASS")

  unfoldable pub restart : Script W (Unit {0})
  unfolding start_backend and_then
  restart = do start_backend p; act (p.print_out "Backend restart readiness: PASS")

  abbrev pub raise_all : List String → Script W (Unit {0})
  raise_all [] = pure _
  raise_all (x ∷ l) = raise (verification_error (join "\n" (x ∷ l)))

  -- What comes after the restart, with the errors so far.
  unfoldable pub finish_restarted :
      String → String → String → String → List String → Script W (Unit {0})
  unfolding post_restart_checks restart_failed and_then
  finish_restarted run_tag snapshot_json db_user db_name errors =
      if restart_failed errors then raise_all errors else (do
        checked ← attempt (post_restart_checks run_tag snapshot_json db_user db_name)
        raise_all (errors ++ error_text "post-restart verification failed: " checked))

  -- The backend is started again whatever the cleanup came to.
  unfoldable pub finalize_stopped : String → String → String → String → Script W (Unit {0})
  unfolding clean_behind_barrier restart finish_restarted and_then
  finalize_stopped run_tag snapshot_json db_user db_name = do
    cleaned ← attempt (clean_behind_barrier run_tag snapshot_json db_user db_name)
    restarted ← attempt restart
    finish_restarted run_tag snapshot_json db_user db_name (
        error_text "verification data cleanup failed: " cleaned
        ++ error_text "backend restart failed: " restarted)

  -- What the attempt to stop the backend comes to.
  unfoldable pub behind_barrier :
      String → String → String → String → Result (Unit {0}) → Script W (Unit {0})
  unfolding finalize_stopped
  behind_barrier run_tag snapshot_json db_user db_name (raised e) =
      raise_all (append "verification data cleanup failed: " (message e) ∷ [])
  behind_barrier run_tag snapshot_json db_user db_name (ok _) =
      finalize_stopped run_tag snapshot_json db_user db_name

  -- What the attempt to stop the simulators comes to.
  unfoldable pub without_traffic :
      String → String → String → String → Result (Unit {0}) → Script W (Unit {0})
  unfolding stop_backend behind_barrier and_then
  without_traffic run_tag snapshot_json db_user db_name (raised e) =
      raise_all (append "simulator stop failed: " (message e) ∷ [])
  without_traffic run_tag snapshot_json db_user db_name (ok _) = do
    barrier ← attempt (stop_backend p)
    behind_barrier run_tag snapshot_json db_user db_name barrier

  unfoldable pub finalize_verification_run : String → String → String → String → Script W (Unit {0})
  unfolding stop_simulators without_traffic and_then
  finalize_verification_run run_tag snapshot_json db_user db_name = do
    stopped ← attempt (stop_simulators p)
    without_traffic run_tag snapshot_json db_user db_name stopped
