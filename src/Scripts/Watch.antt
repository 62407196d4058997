-- ===== src/Scripts/Watch.antt =====
-- scripts/verify_simulator_smoke.py: how it watches the traffic of the simulators.
pub mod Rounds
pub mod Contract
use Prim.Native.Char.{code}
use Prim.Native.String
use Prim.Native.String.{◌++◌ as append}
use text.Mathlib.Text.{starts_with}
use storepulse.Prelude.{
  ℕ, zero, suc, ◌+◌, ◌*◌, Bool, true, false, ◌&&◌, ◌||◌, not, String, Option, none, some, List, [],
  ◌∷◌, ◌++◌, ltb, leb, ◌==◌, if◌then◌else◌, str_eq,
}
use storepulse.Prelude.Int.{ℤ, pos, negsuc, leb_ℤ}
use storepulse.Scripts.Process.{
  Exception, verification_error, value_error, os_error, unfinished, message, Result, ok, raised,
  Script, and_then, ◌>>=◌, ◌>>◌, pure, raise, or_raise, attempt, gets, act, Env, Platform, is_zero,
  nonempty, join, compose, psql, count_rows, read_container_env,
}
use storepulse.Scripts.Sql.{
  build_snapshot_sql, build_snapshot_mismatch_sql, build_metrics_sql, build_duplicate_count_sql,
  build_cleanup_transaction_sql, build_remaining_sql,
}
use storepulse.Scripts.Services.{
  simulator_services, is_empty, running_service_ids, stop_simulators, stop_backend, start_backend,
  simulator_logs, show_diagnostics,
}

pub record TrafficMetrics : Type 0 where
  pub stores : ℤ
  pub sales : ℤ
  pub refunds : ℤ
  pub late : ℤ

abbrev pub equals : ℤ → ℕ → Bool
equals (pos a) n = a == n
equals (negsuc a) n = false

unfoldable pub satisfies_contract : TrafficMetrics → Bool
satisfies_contract m =
    equals m.stores 5
    && (leb_ℤ (pos 5) m.sales && (leb_ℤ (pos 1) m.refunds && leb_ℤ (pos 1) m.late))

abbrev pub onto_first : String → List String → List String
onto_first text [] = text ∷ []
onto_first text (x ∷ l) = append text x ∷ l

-- `raw.split("|")`
unfoldable pub split_bars : String → List String
split_bars String.[] = "" ∷ []
split_bars (String.◌∷◌ c s) =
    let rest = split_bars s in
    if code c == b'|' then "" ∷ rest else onto_first (String.◌∷◌ c String.[]) rest

abbrev pub four_metrics : Option ℤ → Option ℤ → Option ℤ → Option ℤ → Option TrafficMetrics
four_metrics (some a) (some b) (some c) (some d) =
    some (record { stores = a; sales = b; refunds = c; late = d })
four_metrics _ _ _ _ = none

abbrev pub update_env : String → String → Env → Env
update_env k v [] = (k, v) ∷ []
update_env k v ((k', v') ∷ l) = if str_eq k k' then (k, v) ∷ l else (k', v') ∷ update_env k v l

abbrev pub update_all : Env → Env → Env
update_all [] env = env
update_all ((k, v) ∷ l) env = update_all l (update_env k v env)

-- What the loop of `run_smoke` ended with: the metrics, the replayed event and its rows.
pub record Evidence : Type 0 where
  pub metrics : TrafficMetrics
  pub event_id : String
  pub duplicate_rows : ℤ

pub data Watched : Type 0 where
  evidence : Evidence → Watched
  no_evidence : TrafficMetrics → Option String → Watched

-- What the count of the rows comes to.
abbrev pub judge : TrafficMetrics → String → ℤ → Watched
judge metrics event_id duplicate_rows =
    if equals duplicate_rows 1
    then evidence
        (record { metrics = metrics; event_id = event_id; duplicate_rows = duplicate_rows })
    else no_evidence metrics (some event_id)

module _ {W : Type 0} where
  abbrev pub go_on : (Watched → Script W Watched) → Watched → Script W Watched
  go_on rest (evidence e) = pure (evidence e)
  go_on rest (no_evidence m d) = rest (no_evidence m d)

module _ {W : Type 0} (p : Platform W) where
  unfoldable pub parse_parts : String → List String → Script W TrafficMetrics
  parse_parts raw (a ∷ b ∷ c ∷ d ∷ []) =
      or_raise (verification_error (append "Simulator metrics are not integers: " (p.repr raw)))
        (four_metrics (p.to_int a) (p.to_int b) (p.to_int c) (p.to_int d))
  parse_parts raw _ =
      raise (verification_error (append "Unexpected simulator metrics result: " (p.repr raw)))

  unfoldable pub parse_metrics : String → Script W TrafficMetrics
  unfolding parse_parts split_bars
  parse_metrics raw = parse_parts raw (split_bars (p.strip raw))

  unfoldable pub extract_duplicate_event_id : String → Option String
  extract_duplicate_event_id log_text = elim (p.search_duplicate log_text) [
    | none ↦ none
    | some event_id ↦ if p.is_uuid event_id then some event_id else none
  ]

  unfoldable pub make_smoke_env : String → Env
  make_smoke_env run_tag =
      update_all
        (("SIMULATOR_MADRID_EVENTS_PER_SECOND", "2")
          ∷ ("SIMULATOR_LONDON_EVENTS_PER_SECOND", "2")
          ∷ ("SIMULATOR_NYC_EVENTS_PER_SECOND", "2")
          ∷ ("SIMULATOR_TOKYO_EVENTS_PER_SECOND", "2")
          ∷ ("SIMULATOR_WARSAW_EVENTS_PER_SECOND", "2")
          ∷ ("SIMULATOR_REFUND_RATE", "1.00")
          ∷ ("SIMULATOR_DUPLICATE_RATE", "1.00")
          ∷ ("SIMULATOR_LATE_EVENT_RATE", "1.00")
          ∷ ("SIMULATOR_STATS_INTERVAL_SECONDS", "5")
          ∷ ("SIMULATOR_RUN_TAG", run_tag)
          ∷ [])
        p.environ

  -- Where the traffic is as wanted and a replay is in the logs, its rows are counted.
  unfoldable pub confirm :
      String → String → String → TrafficMetrics → Option String → Script W Watched
  unfolding count_rows and_then
  confirm run_tag db_user db_name metrics none = pure (no_evidence metrics none)
  confirm run_tag db_user db_name metrics (some event_id) =
      if satisfies_contract metrics
      then (do
        duplicate_rows ← count_rows p (build_duplicate_count_sql run_tag event_id) db_user db_name
        pure (judge metrics event_id duplicate_rows))
      else pure (no_evidence metrics (some event_id))

  -- One round of the loop, after its pause: whether it found the evidence.
  unfoldable pub watch_round : String → String → String → Script W Watched
  unfolding psql parse_metrics simulator_logs confirm and_then
  watch_round run_tag db_user db_name = do
    raw ← psql p (build_metrics_sql run_tag) db_user db_name true
    metrics ← parse_metrics raw
    logs ← simulator_logs p
    confirm run_tag db_user db_name metrics (extract_duplicate_event_id logs)

  -- The loop, on fuel; `seen` is what the last round left in `metrics` and `duplicate_event_id`.
  unfoldable pub watch_loop : ℕ → ℕ → String → String → String → Watched → Script W Watched
  unfolding watch_round and_then
  watch_loop zero deadline run_tag db_user db_name seen = raise unfinished
  watch_loop (suc fuel) deadline run_tag db_user db_name seen = do
    now ← gets p.monotonic
    if ltb now deadline
        then (do
          act (p.sleep 1000)
          round ← watch_round run_tag db_user db_name
          go_on (watch_loop fuel deadline run_tag db_user db_name) round)
        else pure seen
