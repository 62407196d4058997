-- ===== src/Simulator/Transport/Retry.antt =====
-- When the retry loop ends, and how.
use storepulse.Prelude.{
  ℕ, zero, suc, ◌+◌, ◌-◌, ◌≤◌, ◌<◌, ◌≡◌, ◌≢◌, ◌⊎◌, inl, inr, false, none, some, arith, Option-cases,
  ◌∙◌,
}
use mathlib.Core.Path.{ap₂}
use storepulse.Prelude.Int.{pos}
use storepulse.Simulator.Float.{Float}
use storepulse.Simulator.Config.{SimulatorConfig}
use storepulse.Simulator.Rng.{Rng, Rounding}
use storepulse.Simulator.Transport.{
  PostAnswer, Posted, retry_exhausted, overflow_error, unsettled, retry, ended, classify_answer,
  retry_delay, is_exhausted, post_loop, post_event_with_retry,
}

-- The first attempt that is not retried is the one after `n` others, and ends the call as `p`.
pub record SettledAfter (answers : ℕ → PostAnswer) (n : ℕ) (p : Posted) : Type 0 where
  pub settled : classify_answer (suc n) (answers (suc n)) ≡ ended p
  pub retried : (k : ℕ) → k < n → classify_answer (suc k) (answers (suc k)) ≡ retry

module _ {S : Type 0} (rng : Rng S) (fl : Rounding) (config : SimulatorConfig)
    (answers : ℕ → PostAnswer) where
  delay_is_some :
      (k : ℕ) (s : S) → k < 1024 → (r : Float × S) × (retry_delay rng fl config (suc k) s ≡ some r)
  delay_is_some k s h = elim (Option-cases (retry_delay rng fl config (suc k) s)) [
    | inl e ↦ absurd (unfold retry_delay in ground arith)
    | inr found ↦ found
  ]

  delay_overflows : (k : ℕ) (s : S) → 1024 ≤ k → retry_delay rng fl config (suc k) s ≡ none
  unfolding retry_delay
  delay_overflows k s h = ground arith

  loop_step :
      (fuel k : ℕ) (s s' : S) (d : Float)
      → classify_answer (suc k) (answers (suc k)) ≡ retry
      → is_exhausted config (suc k) ≡ false
      → retry_delay rng fl config (suc k) s ≡ some (d, s')
      → post_loop rng fl config answers (suc fuel) k s
        ≡ post_loop rng fl config answers fuel (suc k) s'
  unfolding post_loop
  loop_step fuel k s s' d again room delay = ground arith

  loop_retries :
      (fuel k : ℕ) (s : S)
      → classify_answer (suc k) (answers (suc k)) ≡ retry
      → is_exhausted config (suc k) ≡ false
      → k < 1024
      → (s' : S) × (post_loop rng fl config answers (suc fuel) k s
          ≡ post_loop rng fl config answers fuel (suc k) s')
  loop_retries fuel k s again room below =
      let ((d, s'), delay) = delay_is_some k s below in
      (s', loop_step fuel k s s' d again room delay)

  -- `d` attempts that are retried, one after the other.
  loop_skips :
      (d total fuel k to : ℕ) (s : S)
      → total ≡ d + fuel
      → to ≡ k + d
      → to ≤ 1024
      → ((j : ℕ) → j < to → classify_answer (suc j) (answers (suc j)) ≡ retry)
      → ((j : ℕ) → j < to → is_exhausted config (suc j) ≡ false)
      → (s' : S) × (post_loop rng fl config answers total k s
          ≡ post_loop rng fl config answers fuel to s')
  loop_skips zero total fuel k to s e f below again room =
      (s, ap₂ (λ (a b : ℕ). post_loop rng fl config answers a b s) (omega arith) (omega arith))
  loop_skips (suc d) zero fuel k to s e f below again room = absurd (omega arith)
  loop_skips (suc d) (suc total) fuel k to s e f below again room =
      let (s1, p) =
        loop_retries total k s (again k (omega arith)) (room k (omega arith)) (omega arith) in
      let (s2, q) =
        loop_skips d total fuel (suc k) to s1 (omega arith) (omega arith) below again room in
      (s2, p ∙ q)

  -- The first attempt that is not retried settles the call, if the limit on attempts allows it
  -- and no more than 1024 attempts came before.
  pub first_answer_settles :
      (n fuel : ℕ) (p : Posted) (s : S)
      → SettledAfter answers n p
      → ((j : ℕ) → j < n → is_exhausted config (suc j) ≡ false)
      → n ≤ 1024
      → n < fuel
      → (post_event_with_retry rng fl config answers fuel s).0 ≡ p
  unfolding post_event_with_retry
  first_answer_settles n fuel p s h room below enough =
      let (s', e) =
        loop_skips n fuel (suc (fuel - n - 1)) 0 n s (omega arith) (omega arith) below h.retried
          room in
      rw e (unfold post_loop in ground (arith, h.settled))

  -- With a positive limit that is not past 1025, a call whose attempts up to it are all retried
  -- ends exhausted after exactly that many.
  pub limit_exhausts :
      (m fuel : ℕ) (s : S)
      → config.max_retry_attempts ≡ pos (suc m)
      → ((j : ℕ) → j ≤ m → classify_answer (suc j) (answers (suc j)) ≡ retry)
      → m ≤ 1024
      → m < fuel
      → (post_event_with_retry rng fl config answers fuel s).0 ≡ retry_exhausted (suc m)
  unfolding post_event_with_retry is_exhausted
  limit_exhausts m fuel s limit again below enough =
      let (s', e) =
        loop_skips m fuel (suc (fuel - m - 1)) 0 m s (omega arith) (omega arith) below
          (λ j h. again j (omega arith)) (λ j h. ground (arith, limit)) in
      rw e (unfold post_loop in ground (arith, limit, again m))

  -- With no limit on attempts, or one past 1025, a call whose first 1025 attempts are all retried
  -- ends in an `OverflowError` out of the delay: it neither goes on nor reports exhaustion.
  pub backoff_overflows :
      (fuel : ℕ) (s : S)
      → (config.max_retry_attempts ≡ pos 0)
        ⊎ ((m : ℕ) × (config.max_retry_attempts ≡ pos m) × (1025 < m))
      → ((j : ℕ) → j ≤ 1024 → classify_answer (suc j) (answers (suc j)) ≡ retry)
      → 1024 < fuel
      → (post_event_with_retry rng fl config answers fuel s).0 ≡ overflow_error
  unfolding post_event_with_retry is_exhausted
  backoff_overflows fuel s limit again enough =
      let (s', e) =
        loop_skips 1024 fuel (suc (fuel - 1025)) 0 1024 s (omega arith) (omega arith) (omega arith)
          (λ j h. again j (omega arith)) (λ j h. ground (arith, limit)) in
      rw e (unfold post_loop in ground (arith, limit, again 1024, delay_overflows 1024 s'))

answer-ne-unsettled : (attempt : ℕ) (a : PostAnswer) → classify_answer attempt a ≢ ended unsettled
unfolding classify_answer
answer-ne-unsettled attempt a = ground arith

module _ {S : Type 0} (rng : Rng S) (fl : Rounding) (config : SimulatorConfig)
    (answers : ℕ → PostAnswer) where
  loop-ne-unsettled :
      (fuel k : ℕ) (s : S)
      → 1025 ≤ fuel + k
      → 0 < fuel
      → (post_loop rng fl config answers fuel k s).0 ≢ unsettled
  unfolding post_loop
  loop-ne-unsettled zero k s enough h = absurd (omega arith)
  loop-ne-unsettled (suc zero) k s enough h = ground (
    arith,
    answer-ne-unsettled (suc k) (answers (suc k)),
    delay_overflows rng fl config answers k s,
  )
  loop-ne-unsettled (suc (suc fuel)) k s enough h =
      elim (Option-cases (retry_delay rng fl config (suc k) s)) [
        | inl e ↦ ground (arith, answer-ne-unsettled (suc k) (answers (suc k)))
        | inr ((d, s'), e) ↦ ground (
          arith,
          answer-ne-unsettled (suc k) (answers (suc k)),
          loop-ne-unsettled (suc fuel) (suc k) s',
        )
      ]

  -- Whatever the server answers, and also with no limit on attempts, a call is settled within
  -- 1025 attempts.
  pub post_settles :
      (fuel : ℕ) (s : S)
      → 1025 ≤ fuel
      → (post_event_with_retry rng fl config answers fuel s).0 ≢ unsettled
  unfolding post_event_with_retry
  post_settles fuel s enough = loop-ne-unsettled fuel 0 s (omega arith) (omega arith)
