-- ===== src/Simulator/Config/Validation.antt =====
-- What a validated configuration satisfies, and what slips through.
use storepulse.Prelude.{
  ◌^◌, ◌↔◌, ◌≡◌, ◌≢◌, Bool, false, not, String, List, [], ◌∷◌, All, arith, str_eq_iff,
}
use storepulse.Prelude.Int.{pos, ◌≤ℤ◌}
use storepulse.Simulator.Float.{Float, finite, minus_infinity, nan, float_zero, lt_float, le_float}
use storepulse.Simulator.Config.{
  SimulatorConfig, validate, passed, is_rate, Builtins, Env, from_env, check_all, validations,
}

-- A float from 0 to 1.
abbrev pub IsRate : Float → Type 0
IsRate (finite z) = (pos 0 ≤ℤ z) × (z ≤ℤ pos (2 ^ 1074))
IsRate _ = ⊥

-- A positive float, an infinite one included, or NaN: what `v <= 0` does not catch.
abbrev pub IsPositiveOrNan : Float → Type 0
IsPositiveOrNan (finite z) = pos 1 ≤ℤ z
IsPositiveOrNan minus_infinity = ⊥
IsPositiveOrNan _ = Unit

IsRate-test : (v : Float) → (not (is_rate v) ≡ false) ↔ IsRate v
unfolding le_float
IsRate-test (finite z) = ground arith
IsRate-test _ = ground arith

positive_test : (v : Float) → (le_float v float_zero ≡ false) ↔ IsPositiveOrNan v
unfolding le_float
positive_test (finite z) = ground arith
positive_test _ = ground arith

pub record IsValidated (c : SimulatorConfig) : Type 0 where
  pub has_url : c.backend_url ≢ ""
  pub has_store : c.store_code ≢ ""
  pub has_label : c.instance_label ≢ ""
  pub has_tag : c.run_tag ≢ ""
  pub heartbeat : IsPositiveOrNan c.heartbeat_interval
  pub intensity : IsPositiveOrNan c.events_per_second
  pub refunds : IsRate c.refund_rate
  pub duplicates : IsRate c.duplicate_rate
  pub lateness : IsRate c.late_event_rate
  pub late_seconds : pos 1 ≤ℤ c.max_late_seconds
  pub quantity : pos 1 ≤ℤ c.max_quantity
  pub timeout : IsPositiveOrNan c.request_timeout_seconds
  pub retry_from_zero : lt_float c.retry_initial_seconds float_zero ≡ false
  pub retry_ordered : lt_float c.retry_max_seconds c.retry_initial_seconds ≡ false
  pub jitter : IsRate c.retry_jitter_ratio
  pub attempts : pos 0 ≤ℤ c.max_retry_attempts
  pub queue : pos 1 ≤ℤ c.queue_size
  pub workers : pos 1 ≤ℤ c.worker_count
  pub stats : IsPositiveOrNan c.stats_interval_seconds

check_all-passed : (l : List (Bool × String)) → (check_all l ≡ passed tt) ↔ All (λ g. g.0 ≡ false) l
unfolding check_all
check_all-passed [] = ground arith
check_all-passed ((test, message) ∷ l) = ground (arith, check_all-passed l)

-- Every test of `validate` fails exactly if every bound holds.
validations-IsValidated :
    (c : SimulatorConfig) → All (λ g. g.0 ≡ false) (validations c) → IsValidated c
validations-IsValidated c h = ground (
  arith,
  IsRate-test c.refund_rate,
  IsRate-test c.duplicate_rate,
  IsRate-test c.late_event_rate,
  IsRate-test c.retry_jitter_ratio,
  positive_test c.heartbeat_interval,
  positive_test c.events_per_second,
  positive_test c.request_timeout_seconds,
  positive_test c.stats_interval_seconds,
  str_eq_iff c.backend_url "",
  str_eq_iff c.store_code "",
  str_eq_iff c.instance_label "",
  str_eq_iff c.run_tag "",
)

IsValidated-validations :
    (c : SimulatorConfig) → IsValidated c → All (λ g. g.0 ≡ false) (validations c)
IsValidated-validations c v = ground (
  arith,
  IsRate-test c.refund_rate,
  IsRate-test c.duplicate_rate,
  IsRate-test c.late_event_rate,
  IsRate-test c.retry_jitter_ratio,
  positive_test c.heartbeat_interval,
  positive_test c.events_per_second,
  positive_test c.request_timeout_seconds,
  positive_test c.stats_interval_seconds,
  str_eq_iff c.backend_url "",
  str_eq_iff c.store_code "",
  str_eq_iff c.instance_label "",
  str_eq_iff c.run_tag "",
)

-- `validate` accepts exactly the configurations in which the four texts are not empty, the four
-- rates are from 0 to 1, the integers reach their least values, the intervals are positive or NaN,
-- and the retry delays are not below 0 and not in the wrong order.
pub validate_iff : (c : SimulatorConfig) → (validate c ≡ passed tt) ↔ IsValidated c
unfolding validate
validate_iff c = (
  (λ h. validations-IsValidated c ((check_all-passed (validations c)).0 h)),
  (λ v. (check_all-passed (validations c)).1 (IsValidated-validations c v)),
)

-- What `from_env` returns has passed `validate`.
pub from_env-IsValidated :
    (b : Builtins) (env : Env) (c : SimulatorConfig) → from_env b env ≡ passed c → IsValidated c
unfolding from_env
from_env-IsValidated b env c h = (validate_iff c).0 (ground arith)

-- NaN is no positive number, and passes: a valid configuration stays valid with NaN for each of
-- its four intervals and intensities.
pub nan_passes :
    (c : SimulatorConfig)
    → validate c ≡ passed tt
    → validate (record c {
      heartbeat_interval = nan;
      events_per_second = nan;
      request_timeout_seconds = nan;
      stats_interval_seconds = nan;
    })
      ≡ passed tt
nan_passes c h = (validate_iff _).1 (ground (arith, (validate_iff c).0 h))
