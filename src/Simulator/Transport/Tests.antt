-- ===== src/Simulator/Transport/Tests.antt =====
-- Calls against a server that is down at first, for good, or up.
use storepulse.Prelude.{ℕ, ◌≡◌, ◌≢◌, inl, refl, arith, if◌then◌else◌, ltb}
use storepulse.Prelude.Int.{pos}
use storepulse.Simulator.Config.{SimulatorConfig}
use storepulse.Simulator.Transport.{
  PostAnswer, transport_error, response, text, receipt, accepted, overflow_error, unsettled,
  classify_answer, post_event_with_retry,
}
use storepulse.Simulator.Transport.Retry.{SettledAfter, backoff_overflows, post_settles}
use storepulse.Simulator.Fixtures.{default_config, least_rng, first_rounding}

-- Two failures, then a 201.
abbrev soon_up : ℕ → PostAnswer
soon_up attempt = if ltb attempt 3 then response 503 (text "") else response 201 (text "accepted")

abbrev down : ℕ → PostAnswer
down attempt = transport_error

abbrev three_attempts : SimulatorConfig
three_attempts = record default_config { max_retry_attempts = pos 3 }

soon_up-SettledAfter :
    SettledAfter soon_up 2 (receipt (record { status = accepted; http_status = 201; attempts = 3 }))
unfolding classify_answer
soon_up-SettledAfter = record { settled = refl; retried = λ k h. ground arith }

backoff_overflows_example :
    (post_event_with_retry least_rng first_rounding default_config down 2000 0).0 ≡ overflow_error
unfolding classify_answer
backoff_overflows_example =
    backoff_overflows least_rng first_rounding default_config down 2000 0 (inl refl) (λ j h. refl)
      (omega arith)

post_settles_example :
    (post_event_with_retry least_rng first_rounding default_config soon_up 1025 0).0 ≢ unsettled
post_settles_example =
    post_settles least_rng first_rounding default_config soon_up 1025 0 (omega arith)
