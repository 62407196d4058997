-- ===== src/Simulator/Config.antt =====
-- simulator/simulator/config.py: the settings, their validation and how they are read.
pub mod Validation
mod Tests
use storepulse.Prelude.{
  ℕ, Bool, true, false, ◌&&◌, not, String, Option, none, some, List, [], ◌∷◌, ◌^◌, if◌then◌else◌,
  str_eq,
}
use Prim.Native.String.{◌++◌}
use storepulse.Prelude.Int.{ℤ, pos, ltb_ℤ}
use storepulse.Simulator.Float.{Float, float_zero, float_one, ratio, lt_float, le_float}

pub record SimulatorConfig : Type 0 where
  pub backend_url : String
  pub store_code : String
  pub instance_label : String
  pub run_tag : String
  pub heartbeat_interval : Float
  pub events_per_second : Float
  pub refund_rate : Float
  pub duplicate_rate : Float
  pub late_event_rate : Float
  pub max_late_seconds : ℤ
  pub max_quantity : ℤ
  pub request_timeout_seconds : Float
  pub retry_initial_seconds : Float
  pub retry_max_seconds : Float
  pub retry_jitter_ratio : Float
  pub max_retry_attempts : ℤ
  pub queue_size : ℤ
  pub worker_count : ℤ
  pub stats_interval_seconds : Float
  pub random_seed : ℤ

-- A computation that may raise a `ValueError`.
pub data Checked (A : Type 0) : Type 0 where
  passed : A → Checked A
  value_error : String → Checked A

infixl 5 ◌>>=◌ ◌>>◌
abbrev pub ◌>>=◌ : {A B : Type 0} → Checked A → (A → Checked B) → Checked B
passed a >>= f = f a
value_error e >>= f = value_error e

abbrev pub ◌>>◌ : {A B : Type 0} → Checked A → Checked B → Checked B
m >> n = m >>= λ _. n

-- A row of statements `if test: raise ValueError(message)`.
unfoldable pub check_all : List (Bool × String) → Checked (Unit {0})
check_all [] = passed tt
check_all ((test, message) ∷ rest) = if test then value_error message else check_all rest

abbrev pub is_rate : Float → Bool
is_rate v = le_float float_zero v && le_float v float_one

-- The tests of `validate` with their messages, in order; the loop over the rates is written out.
abbrev pub validations : SimulatorConfig → List (Bool × String)
validations c =
    (str_eq c.backend_url "", "BACKEND_URL must not be empty")
    ∷ (str_eq c.store_code "", "STORE_CODE must not be empty")
    ∷ (str_eq c.instance_label "", "INSTANCE_LABEL must not be empty")
    ∷ (str_eq c.run_tag "", "RUN_TAG must not be empty")
    ∷ (le_float c.heartbeat_interval float_zero, "HEARTBEAT_INTERVAL must be positive")
    ∷ (le_float c.events_per_second float_zero, "EVENTS_PER_SECOND must be positive")
    ∷ (not (is_rate c.refund_rate), "REFUND_RATE must be between 0 and 1")
    ∷ (not (is_rate c.duplicate_rate), "DUPLICATE_RATE must be between 0 and 1")
    ∷ (not (is_rate c.late_event_rate), "LATE_EVENT_RATE must be between 0 and 1")
    ∷ (ltb_ℤ c.max_late_seconds (pos 1), "MAX_LATE_SECONDS must be at least 1")
    ∷ (ltb_ℤ c.max_quantity (pos 1), "MAX_QUANTITY must be at least 1")
    ∷ (le_float c.request_timeout_seconds float_zero, "REQUEST_TIMEOUT_SECONDS must be positive")
    ∷ (lt_float c.retry_initial_seconds float_zero, "RETRY_INITIAL_SECONDS must be non-negative")
    ∷ (
      lt_float c.retry_max_seconds c.retry_initial_seconds,
      "RETRY_MAX_SECONDS must be >= RETRY_INITIAL_SECONDS",
    )
    ∷ (not (is_rate c.retry_jitter_ratio), "RETRY_JITTER_RATIO must be between 0 and 1")
    ∷ (ltb_ℤ c.max_retry_attempts (pos 0), "MAX_RETRY_ATTEMPTS must be non-negative")
    ∷ (ltb_ℤ c.queue_size (pos 1), "QUEUE_SIZE must be at least 1")
    ∷ (ltb_ℤ c.worker_count (pos 1), "WORKER_COUNT must be at least 1")
    ∷ (le_float c.stats_interval_seconds float_zero, "STATS_INTERVAL_SECONDS must be positive")
    ∷ []

unfoldable pub validate : SimulatorConfig → Checked (Unit {0})
unfolding check_all
validate c = check_all (validations c)

-- The parts of Python that reading the environment uses: `float`, `int` and the strippings.
pub record Builtins : Type 0 where
  pub to_float : String → Option Float
  pub to_int : String → Option ℤ
  pub strip : String → String
  pub strip_slashes : String → String

abbrev pub Env : Type 0
Env = String → Option String

-- `_parse_float` and `_parse_int`: a value that is missing or empty is the default.
unfoldable pub parse_value :
    {A : Type 0} → (String → Option A) → String → Env → A → String → Checked A
parse_value convert message env default name = elim (env name) [
  | none ↦ passed default
  | some raw ↦
      if str_eq raw ""
      then passed default
      else elim (convert raw) [ none ↦ value_error message | some value ↦ passed value ]
]

-- `env.get(name, default)`
abbrev get_or : Env → String → String → String
get_or env name default = elim (env name) [ none ↦ default | some value ↦ value ]

module _ (b : Builtins) where
  unfoldable pub parse_float : Env → String → Float → Checked Float
  unfolding parse_value
  parse_float env name default =
      parse_value b.to_float (name ++ " must be a number") env default name

  unfoldable pub parse_int : Env → String → ℤ → Checked ℤ
  unfolding parse_value
  parse_int env name default = parse_value b.to_int (name ++ " must be an integer") env default name

  unfoldable pub from_env : Env → Checked SimulatorConfig
  from_env env = do
    heartbeat_interval ← parse_float env "HEARTBEAT_INTERVAL" (ratio 5 1)
    events_per_second ← parse_float env "EVENTS_PER_SECOND" (ratio 1 1)
    refund_rate ← parse_float env "REFUND_RATE" (ratio 3602879701896397 (2 ^ 54))
    duplicate_rate ← parse_float env "DUPLICATE_RATE" (ratio 5764607523034235 (2 ^ 56))
    late_event_rate ← parse_float env "LATE_EVENT_RATE" (ratio 3602879701896397 (2 ^ 55))
    max_late_seconds ← parse_int env "MAX_LATE_SECONDS" (pos 7200)
    max_quantity ← parse_int env "MAX_QUANTITY" (pos 3)
    request_timeout_seconds ← parse_float env "REQUEST_TIMEOUT_SECONDS" (ratio 5 1)
    retry_initial_seconds ← parse_float env "RETRY_INITIAL_SECONDS" (ratio 1 4)
    retry_max_seconds ← parse_float env "RETRY_MAX_SECONDS" (ratio 5 1)
    retry_jitter_ratio ← parse_float env "RETRY_JITTER_RATIO" (ratio 3602879701896397 (2 ^ 54))
    max_retry_attempts ← parse_int env "MAX_RETRY_ATTEMPTS" (pos 0)
    queue_size ← parse_int env "QUEUE_SIZE" (pos 1000)
    worker_count ← parse_int env "WORKER_COUNT" (pos 2)
    stats_interval_seconds ← parse_float env "STATS_INTERVAL_SECONDS" (ratio 30 1)
    random_seed ← parse_int env "RANDOM_SEED" (pos 1)
    let config : SimulatorConfig = record {
      backend_url = b.strip_slashes (get_or env "BACKEND_URL" "http://localhost:8000");
      store_code = b.strip (get_or env "STORE_CODE" "MAD-MADRID");
      instance_label = b.strip (get_or env "INSTANCE_LABEL" "storepulse-pos");
      run_tag = b.strip (get_or env "RUN_TAG" "demo");
      heartbeat_interval = heartbeat_interval;
      events_per_second = events_per_second;
      refund_rate = refund_rate;
      duplicate_rate = duplicate_rate;
      late_event_rate = late_event_rate;
      max_late_seconds = max_late_seconds;
      max_quantity = max_quantity;
      request_timeout_seconds = request_timeout_seconds;
      retry_initial_seconds = retry_initial_seconds;
      retry_max_seconds = retry_max_seconds;
      retry_jitter_ratio = retry_jitter_ratio;
      max_retry_attempts = max_retry_attempts;
      queue_size = queue_size;
      worker_count = worker_count;
      stats_interval_seconds = stats_interval_seconds;
      random_seed = random_seed;
    }
    validate config
    passed config
