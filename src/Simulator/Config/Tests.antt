-- ===== src/Simulator/Config/Tests.antt =====
-- The default settings are validated; a setting out of bounds is refused with its message.
use storepulse.Prelude.{◌↔◌, ◌≡◌, refl}
use storepulse.Prelude.Int.{pos}
use storepulse.Simulator.Float.{nan, le_float, lt_float}
use storepulse.Simulator.Config.{
  SimulatorConfig, validate, passed, value_error, from_env, parse_float, parse_int,
}
use storepulse.Simulator.Config.Validation.{
  IsValidated, validate_iff, from_env-IsValidated, nan_passes,
}
use storepulse.Simulator.Fixtures.{default_config, plain_builtins, empty_env}

abbrev nan_config : SimulatorConfig
nan_config = record default_config {
  heartbeat_interval = nan;
  events_per_second = nan;
  request_timeout_seconds = nan;
  stats_interval_seconds = nan;
}

validate_defaults : validate default_config ≡ passed tt
unfolding validate le_float lt_float
validate_defaults = refl

validate_no_worker :
    validate (record default_config { worker_count = pos 0 })
    ≡ value_error "WORKER_COUNT must be at least 1"
unfolding validate le_float lt_float
validate_no_worker = refl

defaults_from_env : from_env plain_builtins empty_env ≡ passed default_config
unfolding from_env parse_float parse_int validate le_float lt_float
defaults_from_env = refl

validate_iff_example : (validate default_config ≡ passed tt) ↔ IsValidated default_config
validate_iff_example = validate_iff default_config

from_env-IsValidated_example : IsValidated default_config
from_env-IsValidated_example =
    from_env-IsValidated plain_builtins empty_env default_config defaults_from_env

nan_passes_example : validate nan_config ≡ passed tt
nan_passes_example = nan_passes default_config validate_defaults
