-- ===== src/Simulator/Fixtures.antt =====
-- Test data of the simulator: the default settings and a generator that draws the least values.
use storepulse.Prelude.{ℕ, ◌+◌, ◌^◌, none, arith}
use storepulse.Prelude.Int.{pos}
use storepulse.Simulator.Float.{float_zero, ratio}
use storepulse.Simulator.Config.{SimulatorConfig, Builtins, Env}
use storepulse.Simulator.Rng.{Rng, Rounding}

abbrev pub default_config : SimulatorConfig
default_config = record {
  backend_url = "http://localhost:8000";
  store_code = "MAD-MADRID";
  instance_label = "storepulse-pos";
  run_tag = "demo";
  heartbeat_interval = ratio 5 1;
  events_per_second = ratio 1 1;
  refund_rate = ratio 3602879701896397 (2 ^ 54);
  duplicate_rate = ratio 5764607523034235 (2 ^ 56);
  late_event_rate = ratio 3602879701896397 (2 ^ 55);
  max_late_seconds = pos 7200;
  max_quantity = pos 3;
  request_timeout_seconds = ratio 5 1;
  retry_initial_seconds = ratio 1 4;
  retry_max_seconds = ratio 5 1;
  retry_jitter_ratio = ratio 3602879701896397 (2 ^ 54);
  max_retry_attempts = pos 0;
  queue_size = pos 1000;
  worker_count = pos 2;
  stats_interval_seconds = ratio 30 1;
  random_seed = pos 1;
}

-- Nothing converts and nothing is stripped: enough for an empty environment.
abbrev pub plain_builtins : Builtins
plain_builtins = record {
  to_float = λ s. none;
  to_int = λ s. none;
  strip = λ s. s;
  strip_slashes = λ s. s;
}

abbrev pub empty_env : Env
empty_env name = none

-- The state counts the draws.
abbrev pub least_rng : Rng ℕ
least_rng = record {
  random = λ s. (float_zero, s + 1);
  randint = λ a b s. (a, s + 1);
  choice = λ n s. (0, s + 1);
  uniform = λ low high s. (low, s + 1);
  randint_range = λ a b s h. (omega arith, h);
  choice_range = λ n s h. h;
}

-- No product, sum or difference changes its first number.
abbrev pub first_rounding : Rounding
first_rounding = record { mul = λ a b. a; add = λ a b. a; sub = λ a b. a }
