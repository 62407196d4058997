-- ===== src/Scripts/Cleanup/Laws.antt =====
-- What the script relies on of docker, of PostgreSQL and of the containers.
use storepulse.Prelude.{ℕ, ◌≡◌, true, String, none, some, List, [], ◌∷◌}
use storepulse.Prelude.Int.{pos}
use storepulse.Scripts.Process.{CommandResult, completed, Platform, is_zero, psql_args}
use storepulse.Scripts.Sql.{build_remaining_sql, build_snapshot_mismatch_sql}
use storepulse.Scripts.Services.{simulator_services, ps_args, probe_args, container_ids}

-- What a run is to leave behind.
pub data Fact : Type 0 where
  simulators_stopped backend_ready no_run_rows stores_restored : Fact

abbrev pub docker_compose : List String → List String
docker_compose args = "docker" ∷ "compose" ∷ args

abbrev pub ps_command : List String
ps_command = docker_compose (ps_args simulator_services (some "demo"))

abbrev pub probe_command : List String
probe_command = docker_compose probe_args

abbrev pub count_command : {W : Type 0} → Platform W → String → String → String → List String
count_command p sql db_user db_name = docker_compose (psql_args p sql db_user db_name true)

-- What each command tells when it succeeds, and that the commands which only look leave each fact
-- as it is: `Holds` says when a fact holds in a world, and nobody else acts in between.
pub record Deployment {W : Type 0} (p : Platform W) (Holds : Fact → W → Type 0)
    (run_tag snapshot_json db_user db_name : String) : Type 0 where
  pub ps_tells :
      (r : CommandResult) (w : W)
      → (p.exec ps_command none w).0 ≡ completed r
      → is_zero r.returncode ≡ true
      → container_ids p (p.split_lines r.stdout) ≡ []
      → Holds simulators_stopped (p.exec ps_command none w).1
  pub probe_tells :
      (r : CommandResult) (w : W)
      → (p.exec probe_command none w).0 ≡ completed r
      → is_zero r.returncode ≡ true
      → Holds backend_ready (p.exec probe_command none w).1
  pub remaining_tells :
      (r : CommandResult) (w : W)
      → (p.exec (count_command p (build_remaining_sql run_tag) db_user db_name) none w).0
        ≡ completed r
      → is_zero r.returncode ≡ true
      → p.to_int (p.strip r.stdout) ≡ some (pos 0)
      → Holds no_run_rows
          (p.exec (count_command p (build_remaining_sql run_tag) db_user db_name) none w).1
  pub mismatch_tells :
      (r : CommandResult) (w : W)
      → (p.exec
          (count_command p (build_snapshot_mismatch_sql snapshot_json) db_user db_name)
          none
          w).0
        ≡ completed r
      → is_zero r.returncode ≡ true
      → p.to_int (p.strip r.stdout) ≡ some (pos 0)
      → Holds stores_restored
          (p.exec
            (count_command p (build_snapshot_mismatch_sql snapshot_json) db_user db_name)
            none
            w).1
  pub ps_keeps : (f : Fact) (w : W) → Holds f w → Holds f (p.exec ps_command none w).1
  pub remaining_keeps :
      (f : Fact) (w : W)
      → Holds f w
      → Holds f (p.exec (count_command p (build_remaining_sql run_tag) db_user db_name) none w).1
  pub mismatch_keeps :
      (f : Fact) (w : W)
      → Holds f w
      → Holds f
          (p.exec
            (count_command p (build_snapshot_mismatch_sql snapshot_json) db_user db_name)
            none
            w).1
  pub sleep_keeps : (f : Fact) (d : ℕ) (w : W) → Holds f w → Holds f (p.sleep d w)
  pub print_keeps : (f : Fact) (s : String) (w : W) → Holds f w → Holds f (p.print_out s w)
