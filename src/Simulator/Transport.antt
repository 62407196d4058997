-- ===== src/Simulator/Transport.antt =====
-- simulator/simulator/transport.py: one event posted until it is settled.
-- The server's answers are a function from the attempt's number, counted from 1, so a run covers
-- every server. The loop has no bound when `max_retry_attempts` is 0; it takes fuel here, and
-- `unsettled` is a loop that is still running after that many attempts.
pub mod Retry
mod Tests
use storepulse.Prelude.{
  ℕ, zero, suc, ◌+◌, ◌-◌, ◌^◌, ◌*◌, Bool, true, false, ◌&&◌, ◌||◌, not, String, Option, none, some,
  List, [], ◌∷◌, if◌then◌else◌, str_eq, ◌==◌, leb, ltb,
}
use storepulse.Prelude.Int.{ℤ, pos, negsuc, pos_part, leb_ℤ}
use storepulse.Simulator.Float.{
  Float, finite, infinity, minus_infinity, nan, float_zero, lt_float, is_zero_float, min_float,
  max_float, scale_pos, float_limit,
}
use storepulse.Simulator.Config.{SimulatorConfig}
use storepulse.Simulator.Rng.{Rng, Rounding}

-- `RETRYABLE_STATUS_CODES`
unfoldable pub is_retryable : ℕ → Bool
is_retryable c = c == 408 || c == 425 || c == 429 || c == 500 || c == 502 || c == 503 || c == 504

-- `SUCCESS_STATUS_CODES`
unfoldable pub is_success : ℕ → Bool
is_success c = c == 200 || c == 201

-- `response.json()["status"]`: not to be had (one of the three caught exceptions), a text, another
-- value that a set can be asked for, or a list or dict, which it cannot.
pub data BodyStatus : Type 0 where
  unreadable : BodyStatus
  text : String → BodyStatus
  hashable : BodyStatus
  unhashable : BodyStatus

-- What one `client.post` comes to.
pub data PostAnswer : Type 0 where
  transport_error : PostAnswer
  response : ℕ → BodyStatus → PostAnswer

pub data ReceiptStatus : Type 0 where
  accepted duplicate : ReceiptStatus

pub record DeliveryReceipt : Type 0 where
  pub status : ReceiptStatus
  pub http_status : ℕ
  pub attempts : ℕ

-- How a call of `post_event_with_retry` ends; the last two are exceptions that it does not mean
-- to raise.
pub data Posted : Type 0 where
  receipt : DeliveryReceipt → Posted
  permanent_error : ℕ → Posted
  retry_exhausted : ℕ → Posted
  type_error : Posted
  overflow_error : Posted
  unsettled : Posted

-- `2 ** k` becomes a float before the product: from 2 ^ 1024 on it cannot.
unfoldable pub times_power : Float → ℕ → Option Float
unfolding scale_pos
times_power x k =
    if leb 1024 k
    then none
    else some (elim x [
      | finite (pos z) ↦ scale_pos z k
      | finite (negsuc z) ↦
          if ltb ((z + 1) * 2 ^ k) float_limit
          then finite (negsuc ((z + 1) * 2 ^ k - 1))
          else minus_infinity
      | infinity ↦ infinity
      | minus_infinity ↦ minus_infinity
      | nan ↦ nan
    ])

-- Whether the loop goes on after an answer, and else how it ends.
pub data Step : Type 0 where
  retry : Step
  ended : Posted → Step

unfoldable pub read_status : ℕ → ℕ → BodyStatus → Step
read_status attempt code unreadable = retry
read_status attempt code hashable = retry
read_status attempt code unhashable = ended type_error
read_status attempt code (text s) =
    if str_eq s "accepted"
    then ended (receipt (record { status = accepted; http_status = code; attempts = attempt }))
    else if str_eq s "duplicate"
    then ended (receipt (record { status = duplicate; http_status = code; attempts = attempt }))
    else retry

unfoldable pub classify_answer : ℕ → PostAnswer → Step
unfolding is_success is_retryable read_status
classify_answer attempt transport_error = retry
classify_answer attempt (response code body) =
    if is_success code
    then read_status attempt code body
    else if is_retryable code
    then retry
    else ended (permanent_error code)

-- `config.max_retry_attempts and attempt >= config.max_retry_attempts`
unfoldable pub is_exhausted : SimulatorConfig → ℕ → Bool
is_exhausted config attempt =
    not (leb_ℤ config.max_retry_attempts (pos 0) && leb_ℤ (pos 0) config.max_retry_attempts)
    && leb_ℤ config.max_retry_attempts (pos attempt)

module _ {S : Type 0} (rng : Rng S) (fl : Rounding) where
  -- The delay, and the state of the generator; `none` is an `OverflowError`.
  unfoldable pub retry_delay : SimulatorConfig → ℕ → S → Option (Float × S)
  unfolding times_power min_float max_float is_zero_float
  retry_delay config attempt s = elim (times_power config.retry_initial_seconds (attempt - 1)) [
    | none ↦ none
    | some product ↦
        let base : Float = min_float product config.retry_max_seconds in
        if is_zero_float base || is_zero_float config.retry_jitter_ratio
        then some (base, s)
        else let jitter : Float = fl.mul base config.retry_jitter_ratio in
          let (drawn, s') = rng.uniform (fl.sub base jitter) (fl.add base jitter) s in
          some (max_float float_zero drawn, s')
  ]

  -- The loop once `made` attempts have been made.
  unfoldable pub post_loop : SimulatorConfig → (ℕ → PostAnswer) → ℕ → ℕ → S → Posted × S
  post_loop config answers zero made s = (unsettled, s)
  post_loop config answers (suc fuel) made s =
      let attempt : ℕ = suc made in
      elim (classify_answer attempt (answers attempt)) [
        | ended p ↦ (p, s)
        | retry ↦ elim (is_exhausted config attempt) [
          | true ↦ (retry_exhausted attempt, s)
          | false ↦ elim (retry_delay config attempt s) [
            | none ↦ (overflow_error, s)
            | some (delay, s') ↦ post_loop config answers fuel attempt s'
          ]
        ]
      ]

  unfoldable pub post_event_with_retry : SimulatorConfig → (ℕ → PostAnswer) → ℕ → S → Posted × S
  unfolding post_loop
  post_event_with_retry config answers fuel s = post_loop config answers fuel 0 s
