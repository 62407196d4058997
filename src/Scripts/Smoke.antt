-- ===== src/Scripts/Smoke.antt =====
-- scripts/verify_simulator_smoke.py: the whole run and its exit code.
pub mod Verdict
pub mod Ending
use Prim.Native.String.{◌++◌ as append}
use storepulse.Prelude.{
  ℕ, suc, ◌+◌, ◌*◌, Bool, true, false, String, Option, none, some, List, [], ◌∷◌, if◌then◌else◌,
}
use storepulse.Prelude.Int.{ℤ, pos}
use storepulse.Scripts.Process.{
  Exception, verification_error, message, Result, ok, raised, Script, and_then, ◌>>=◌, ◌>>◌, pure,
  raise, attempt, gets, act, Platform, join, compose, read_container_env,
}
use storepulse.Scripts.Services.{simulator_services, show_diagnostics}
use storepulse.Scripts.Watch.{
  TrafficMetrics, Evidence, Watched, evidence, no_evidence, make_smoke_env, watch_loop,
}
use storepulse.Scripts.Cleanup.{Json, snapshot_store_state, finalize_verification_run}

module _ {W : Type 0} (p : Platform W) where
  abbrev pub print_all : List String → W → W
  print_all [] w = w
  print_all (x ∷ l) w = print_all l (p.print_out x w)

  abbrev pub print_all_err : List String → W → W
  print_all_err [] w = w
  print_all_err (x ∷ l) w = print_all_err l (p.print_err x w)

  unfoldable pub report_evidence : String → Watched → Script W Evidence
  report_evidence run_tag (evidence e) = do
    act (
        print_all (
          "Simulator traffic observed from exactly 5 stores."
          ∷ append "Persisted SALE rows: " (p.show_int e.metrics.sales)
          ∷ append "Persisted REFUND rows: " (p.show_int e.metrics.refunds)
          ∷ append "Persisted late rows: " (p.show_int e.metrics.late)
          ∷ "Exact duplicate replay observed: yes"
          ∷ append "Duplicate replay durable row count: " (p.show_int e.duplicate_rows)
          ∷ append "Verification run tag: " run_tag
          ∷ []))
    pure e
  report_evidence run_tag (no_evidence m d) = raise (
      verification_error (
        join "" (
          "Simulator smoke timed out: stores="
          ∷ p.show_int m.stores
          ∷ " sales="
          ∷ p.show_int m.sales
          ∷ " refunds="
          ∷ p.show_int m.refunds
          ∷ " late="
          ∷ p.show_int m.late
          ∷ " duplicate="
          ∷ elim d [ none ↦ "False" | some _ ↦ "True" ]
          ∷ "."
          ∷ [])))

  -- The loop from its deadline on. Each round sleeps a second, so one round for each second and
  -- one more are enough.
  unfoldable pub watch : ℕ → String → String → String → Script W Watched
  unfolding watch_loop and_then
  watch timeout_seconds run_tag db_user db_name = do
    start ← gets p.monotonic
    watch_loop p (suc timeout_seconds) (start + timeout_seconds * 1000) run_tag db_user db_name
        (no_evidence (record { stores = pos 0; sales = pos 0; refunds = pos 0; late = pos 0 }) none)

  -- The body of the `try`.
  unfoldable pub observe : ℕ → String → String → String → Script W Evidence
  unfolding watch report_evidence and_then
  observe timeout_seconds run_tag db_user db_name = do
    compose p
        ("--profile" ∷ "demo" ∷ "up" ∷ "-d" ∷ "--build" ∷ "--force-recreate" ∷ "--no-deps"
          ∷ simulator_services)
        (some (make_smoke_env p run_tag)) true
    watched ← watch timeout_seconds run_tag db_user db_name
    report_evidence run_tag watched

  -- What is raised in the end: the run's own error before that of the cleanup.
  unfoldable pub report : Result Evidence → Result (Unit {0}) → Script W (Unit {0})
  report (ok e) (ok _) = pure _
  report (ok e) (raised x) = raise (verification_error (message x))
  report (raised x) (ok _) = raise (verification_error (message x))
  report (raised x) (raised y) = do
    act (print_all_err ("Cleanup diagnostics:" ∷ append "- " (message y) ∷ []))
    raise (verification_error (message x))

  abbrev pub diagnose : Result Evidence → Script W (Unit {0})
  diagnose (ok e) = pure _
  diagnose (raised x) = show_diagnostics p

  -- What the diagnostics raise comes before all else.
  unfoldable pub conclude :
      Result (Unit {0}) → Result Evidence → Result (Unit {0}) → Script W (Unit {0})
  unfolding report
  conclude (ok _) observed finalized = report observed finalized
  conclude (raised x) observed finalized = raise x

  -- The `try` with its handlers, once the snapshot is taken: the `finally` runs also where the
  -- diagnostics raise, and what they raise then goes on.
  unfoldable pub observe_and_finalize : ℕ → String → String → String → String → Script W (Unit {0})
  unfolding observe conclude finalize_verification_run and_then
  observe_and_finalize timeout_seconds run_tag snapshot_json db_user db_name = do
    observed ← attempt (observe timeout_seconds run_tag db_user db_name)
    diagnosed ← attempt (diagnose observed)
    finalized ← attempt (finalize_verification_run p run_tag snapshot_json db_user db_name)
    conclude diagnosed observed finalized

module _ {W J : Type 0} (p : Platform W) (json : Json J) where
  unfoldable pub run_smoke : ℕ → Script W (Unit {0})
  unfolding read_container_env snapshot_store_state observe_and_finalize and_then
  run_smoke timeout_seconds = do
    hex ← gets p.random_hex
    db_user ← read_container_env p "POSTGRES_USER"
    db_name ← read_container_env p "POSTGRES_DB"
    snapshot ← snapshot_store_state p json db_user db_name
    observe_and_finalize p timeout_seconds (append "verify-" hex) (json.dumps snapshot) db_user
        db_name

  -- After the arguments are parsed: the exit code.
  unfoldable pub main : ℕ → Script W ℕ
  unfolding run_smoke and_then
  main timeout = do
    result ← attempt (run_smoke timeout)
    elim result [
      | ok _ ↦ pure 0
      | raised e ↦ elim e [
        | verification_error text ↦ do
          act (p.print_err (append "Simulator verification failed:\n" text))
          pure 1
        | other ↦ raise other
      ]
    ]
