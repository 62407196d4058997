-- ===== src/Scripts/Tests.antt =====
-- Runs of the script on the machine, and the theorems at concrete inputs.
use storepulse.Prelude.{if◌then◌else◌, ◌&&◌, ◌≡◌, refl, true, false, some}
use storepulse.Scripts.Process.{ok, and_then}
use storepulse.Scripts.Process.Outcome.{After}
use storepulse.Scripts.Process.Timing.{EndsFrom}
use storepulse.Scripts.Sql.{sql_literal, build_cleanup_transaction_sql}
use storepulse.Scripts.Sql.Literals.{read_literal, read_literal-sql_literal}
use storepulse.Scripts.Services.{stop_simulators, stop_backend, start_backend}
use storepulse.Scripts.Services.Waiting.{start_backend-Ends}
use storepulse.Scripts.Watch.{Evidence, extract_duplicate_event_id, satisfies_contract}
use storepulse.Scripts.Watch.Contract.{Satisfied}
use storepulse.Scripts.Cleanup.Laws.{Fact}
use storepulse.Scripts.Cleanup.{
  clean_behind_barrier, restart, post_restart_checks, finalize_verification_run,
}
use storepulse.Scripts.Cleanup.Errors.{succeeded, finalize-phases}
use storepulse.Scripts.Smoke.{watch, observe, observe_and_finalize}
use storepulse.Scripts.Smoke.Verdict.{observe_and_finalize-Verified}
use storepulse.Scripts.Smoke.Ending.{watch-Ends}
use storepulse.Scripts.Machine.{Machine, run_tag, snapshot_json, platform, Holds, answer}
use storepulse.Scripts.Machine.Laws.{clock_laws, deployment}
use Prim.Native.String.{◌++◌ as append}

abbrev busy : Machine
busy = record {
  simulators = true;
  backend = true;
  rows = true;
  changed = true;
  broken = false;
  clock = 7000;
}

abbrev idle : Machine
idle = record {
  simulators = false;
  backend = true;
  rows = false;
  changed = false;
  broken = false;
  clock = 0;
}

abbrev broken : Machine
broken = record {
  simulators = true;
  backend = true;
  rows = true;
  changed = true;
  broken = true;
  clock = 0;
}

read_literal-sql_literal_example :
    read_literal (append (sql_literal "simulator-%:a'b:%") ";") ≡ some ("simulator-%:a'b:%", ";")
read_literal-sql_literal_example = read_literal-sql_literal "simulator-%:a'b:%" ";" refl

start_backend-Ends_example :
    EndsFrom clock_laws.clock (clock_laws.clock busy) (start_backend platform busy)
start_backend-Ends_example = start_backend-Ends platform clock_laws busy

watch-Ends_example :
    EndsFrom clock_laws.clock (clock_laws.clock idle) (watch platform 35 run_tag "u" "n" idle)
watch-Ends_example = watch-Ends platform clock_laws 35 run_tag "u" "n" idle

observe_and_finalize-Verified_example :
    After
      (λ _ w.
        ((e : Evidence) × ((observe platform 35 run_tag "u" "n" idle).0 ≡ ok e) × Satisfied e)
        × ((f : Fact) → Holds f w))
      (observe_and_finalize platform 35 run_tag snapshot_json "u" "n" idle)
observe_and_finalize-Verified_example =
    observe_and_finalize-Verified platform Holds run_tag snapshot_json "u" "n" deployment 35 idle

-- On the machine the whole run goes through.
smoke_passes :
    observe_and_finalize platform 35 run_tag snapshot_json "u" "n" idle
    ≡ (ok _, record idle { clock = 1500 })
unfolding observe_and_finalize stop_backend stop_simulators and_then answer
    build_cleanup_transaction_sql extract_duplicate_event_id satisfies_contract
smoke_passes = refl

-- The backend does not start again.
finalize-phases_example :
    let stopped = stop_simulators platform broken in
    let barrier = stop_backend platform stopped.1 in
    let cleaned = clean_behind_barrier platform run_tag snapshot_json "u" "n" barrier.1 in
    let restarted = restart platform cleaned.1 in
    let checked = post_restart_checks platform run_tag snapshot_json "u" "n" restarted.1 in
    let ran = finalize_verification_run platform run_tag snapshot_json "u" "n" broken in
    (succeeded ran.0 ≡ (
      succeeded stopped.0
      && succeeded barrier.0
      && succeeded cleaned.0
      && succeeded restarted.0
      && succeeded checked.0))
    × (ran.1 ≡ (
        if succeeded stopped.0
        then if succeeded barrier.0
          then if succeeded restarted.0 then checked.1 else restarted.1
          else barrier.1
        else stopped.1))
finalize-phases_example = finalize-phases platform run_tag snapshot_json "u" "n" broken
