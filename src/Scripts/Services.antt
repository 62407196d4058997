-- ===== src/Scripts/Services.antt =====
-- scripts/verify_simulator_smoke.py: the containers, which it lists, stops and starts by
-- `docker compose`.
pub mod Waiting
use Prim.Native.String.{◌++◌ as append}
use storepulse.Prelude.{
  ℕ, zero, suc, ◌+◌, ◌*◌, Bool, true, false, ◌&&◌, String, Option, none, some, List, [], ◌∷◌, ◌++◌,
  ltb, if◌then◌else◌,
}
use storepulse.Prelude.Int.{pos}
use storepulse.Scripts.Process.{
  verification_error, unfinished, Script, and_then, ◌>>=◌, ◌>>◌, pure, raise, gets, act,
  CommandResult, Platform, is_zero, nonempty, join, detail, compose,
}

abbrev pub simulator_services : List String
simulator_services =
    "simulator-madrid" ∷ "simulator-london" ∷ "simulator-new-york" ∷ "simulator-tokyo"
    ∷ "simulator-warsaw" ∷ []

abbrev pub backend_service : String
backend_service = "backend"

abbrev pub profile_args : Option String → List String
profile_args none = []
profile_args (some profile) = "--profile" ∷ profile ∷ []

abbrev pub ps_args : List String → Option String → List String
ps_args services profile = profile_args profile ++ ("ps" ∷ "--status" ∷ "running" ∷ "-q" ∷ services)

abbrev pub probe_text : String
probe_text =
    "import urllib.request; urllib.request.urlopen('http://localhost:8000/api/v1/health/ready', timeout=2).read()"

abbrev pub probe_args : List String
probe_args = "exec" ∷ "-T" ∷ backend_service ∷ "python" ∷ "-c" ∷ probe_text ∷ []

abbrev pub is_empty : List String → Bool
is_empty [] = true
is_empty (x ∷ l) = false

pub data Waited : Type 0 where
  ready : Waited
  timed_out : Option CommandResult → Waited

module _ {W : Type 0} (p : Platform W) where
  -- The lines that are not blank, stripped.
  unfoldable pub container_ids : List String → List String
  container_ids [] = []
  container_ids (line ∷ l) =
      let rest = container_ids l in if nonempty (p.strip line) then p.strip line ∷ rest else rest

  unfoldable pub running_service_ids : List String → Option String → Script W (List String)
  unfolding container_ids and_then
  running_service_ids services profile = do
    result ← compose p (ps_args services profile) none true
    pure (container_ids (p.split_lines result.stdout))

  abbrev pub running_detail : String → List String → List String
  running_detail label [] = []
  running_detail label (x ∷ l) = append label (join ", " (x ∷ l)) ∷ []

  unfoldable pub stop_failure :
      String → CommandResult → List String → CommandResult → List String → String
  unfolding join detail
  stop_failure label stopped after_stop killed after_kill = join "\n" (
      append "Could not establish stopped state for " (append label ".")
      ∷ (detail p "stop stdout" stopped.stdout
          ++ (detail p "stop stderr" stopped.stderr
              ++ (running_detail "running after stop: " after_stop
                  ++ (detail p "kill stdout" killed.stdout
                      ++ (detail p "kill stderr" killed.stderr
                          ++ running_detail "running after kill: " after_kill))))))

  unfoldable pub kill_services :
      List String → String → Option String → CommandResult → List String → Script W (Unit {0})
  unfolding running_service_ids stop_failure and_then
  kill_services services label profile stopped after_stop = do
    killed ← compose p (profile_args profile ++ ("kill" ∷ services)) none false
    after_kill ← running_service_ids services profile
    if is_zero killed.returncode && is_empty after_kill
        then pure _
        else raise (verification_error (stop_failure label stopped after_stop killed after_kill))

  unfoldable pub stop_services : List String → String → Option String → Script W (Unit {0})
  unfolding running_service_ids kill_services and_then
  stop_services services label profile = do
    stopped ← compose p (profile_args profile ++ ("stop" ∷ services)) none false
    after_stop ← running_service_ids services profile
    if is_zero stopped.returncode && is_empty after_stop
        then pure _
        else kill_services services label profile stopped after_stop

  unfoldable pub stop_simulators : Script W (Unit {0})
  unfolding stop_services
  stop_simulators = stop_services simulator_services "simulator producers" (some "demo")

  unfoldable pub stop_backend : Script W (Unit {0})
  unfolding stop_services
  stop_backend = stop_services (backend_service ∷ []) "backend write barrier" none

  -- The loop of `wait_for_backend_ready`, on fuel.
  unfoldable pub wait_loop : ℕ → ℕ → Option CommandResult → Script W Waited
  unfolding compose and_then
  wait_loop zero deadline last = raise unfinished
  wait_loop (suc fuel) deadline last = do
    now ← gets p.monotonic
    if ltb now deadline
        then (do
          result ← compose p probe_args none false
          if is_zero result.returncode
              then pure ready
              else (do act (p.sleep 500); wait_loop fuel deadline (some result)))
        else pure (timed_out last)

  abbrev pub last_detail : Option CommandResult → List String
  last_detail none = []
  last_detail (some r) = detail p "last probe stderr" r.stderr

  unfoldable pub finish_wait : ℕ → Waited → Script W (Unit {0})
  unfolding compose join detail and_then
  finish_wait timeout_seconds ready = pure _
  finish_wait timeout_seconds (timed_out last) = do
    logs ← compose p ("logs" ∷ "--no-color" ∷ "--tail=100" ∷ backend_service ∷ []) none false
    raise (
        verification_error (
          join "\n" (
            append "Backend did not become ready within "
              (append (p.show_int (pos timeout_seconds)) " seconds.")
            ∷ (last_detail last
                ++ (detail p "backend logs" logs.stdout
                    ++ detail p "backend log stderr" logs.stderr)))))

  -- Each round sleeps half a second, so two rounds for each second and one more are enough.
  unfoldable pub wait_for_backend_ready : ℕ → Script W (Unit {0})
  unfolding wait_loop finish_wait and_then
  wait_for_backend_ready timeout_seconds = do
    start ← gets p.monotonic
    waited ← wait_loop (suc (timeout_seconds * 2)) (start + timeout_seconds * 1000) none
    finish_wait timeout_seconds waited

  unfoldable pub start_backend : Script W (Unit {0})
  unfolding compose wait_for_backend_ready and_then
  start_backend = do
    compose p ("up" ∷ "-d" ∷ "--no-deps" ∷ backend_service ∷ []) none true
    wait_for_backend_ready 30

  unfoldable pub simulator_logs : Script W String
  unfolding compose and_then
  simulator_logs = do
    result ←
        compose p
          ("--profile" ∷ "demo" ∷ "logs" ∷ "--no-color" ∷ "--tail=1000" ∷ simulator_services) none
          true
    pure result.stdout

  -- `if text.strip(): print(text.rstrip(), file=sys.stderr)`
  unfoldable pub echo : String → Script W (Unit {0})
  echo text = if nonempty (p.strip text) then act (p.print_err (p.rstrip text)) else pure _

  unfoldable pub show_output : List String → Script W (Unit {0})
  unfolding compose echo and_then
  show_output command = do
    result ← compose p command none false
    echo result.stdout
    echo result.stderr

  unfoldable pub show_diagnostics : Script W (Unit {0})
  unfolding show_output and_then
  show_diagnostics = do
    show_output ("--profile" ∷ "demo" ∷ "ps" ∷ [])
    show_output ("--profile" ∷ "demo" ∷ "logs" ∷ "--no-color" ∷ "--tail=100" ∷ simulator_services)
