-- ===== src/Scripts/Services/Waiting.antt =====
-- `wait_for_backend_ready` comes to an end.
use storepulse.Prelude.{
  ℕ, zero, suc, ◌+◌, ◌*◌, ◌≤◌, true, false, Option, none, some, inl, inr, arith, ltb, ltb→lt,
  Bool-cases, ◌∷◌, [], if◌then◌else◌,
}
use storepulse.Scripts.Process.{
  and_then, CommandResult, Platform, is_zero, compose, pure, act, ◌>>◌,
}
use storepulse.Scripts.Process.Timing.{
  Clock, EndsFrom, EndsFrom-mono, EndsFrom-and_then, EndsFrom-compose,
}
use storepulse.Scripts.Services.{
  backend_service, probe_args, Waited, ready, timed_out, wait_loop, finish_wait,
  wait_for_backend_ready, start_backend,
}

module _ {W : Type 0} (p : Platform W) (c : Clock p) where
  wait_loop-Ends :
      (fuel deadline : ℕ) (last : Option CommandResult) (w : W)
      → deadline ≤ c.clock w + fuel * 500
      → EndsFrom c.clock (c.clock w) (wait_loop p (suc fuel) deadline last w)
  unfolding wait_loop and_then
  wait_loop-Ends zero deadline last w enough =
      let now = (p.monotonic w).0 in
      elim (Bool-cases (ltb now deadline)) [
        | inl e ↦ absurd (omega (arith, ltb→lt now deadline e, c.not_before w))
        | inr e ↦ rw e (omega (arith, c.not_before w, c.not_after w))
      ]
  wait_loop-Ends (suc fuel) deadline last w enough =
      let now = (p.monotonic w).0 in
      let w1 = (p.monotonic w).1 in
      let later : c.clock w ≤ c.clock w1 = omega (arith, c.not_before w, c.not_after w) in
      elim (Bool-cases (ltb now deadline)) [
        | inl e ↦ rw e (
            EndsFrom-and_then c.clock (c.clock w) (compose p probe_args none false w1)
              (λ result.
                if is_zero result.returncode
                then pure ready
                else act (p.sleep 500) >> wait_loop p (suc fuel) deadline (some result))
              (EndsFrom-compose p c (c.clock w) probe_args none false w1 later)
              (λ result w2 h. elim (Bool-cases (is_zero result.returncode)) [
                | inl z ↦ rw z h
                | inr z ↦ rw z (
                    EndsFrom-mono c.clock (c.clock w) (c.clock (p.sleep 500 w2))
                      (wait_loop p (suc fuel) deadline (some result) (p.sleep 500 w2))
                      (omega (arith, c.sleep_lasts 500 w2))
                      (wait_loop-Ends fuel deadline (some result) (p.sleep 500 w2)
                        (omega (arith, c.sleep_lasts 500 w2))))
              ]))
        | inr e ↦ rw e later
      ]

  finish_wait-Ends :
      (t timeout_seconds : ℕ) (waited : Waited) (w : W)
      → t ≤ c.clock w
      → EndsFrom c.clock t (finish_wait p timeout_seconds waited w)
  unfolding finish_wait
  finish_wait-Ends t timeout_seconds ready w h = h
  finish_wait-Ends t timeout_seconds (timed_out last) w h =
      EndsFrom-and_then c.clock t
        (compose p ("logs" ∷ "--no-color" ∷ "--tail=100" ∷ backend_service ∷ []) none false w) _
        (EndsFrom-compose p c t _ none false w h) (λ logs w' h'. _)

  wait_for_backend_ready-Ends :
      (t timeout_seconds : ℕ) (w : W)
      → t ≤ c.clock w
      → EndsFrom c.clock t (wait_for_backend_ready p timeout_seconds w)
  unfolding wait_for_backend_ready
  wait_for_backend_ready-Ends t timeout_seconds w h =
      let w1 = (p.monotonic w).1 in
      let later : t ≤ c.clock w1 = omega (arith, c.not_before w, c.not_after w) in
      EndsFrom-and_then c.clock t
        (wait_loop p (suc (timeout_seconds * 2)) ((p.monotonic w).0 + timeout_seconds * 1000) none
          w1)
        (λ waited. finish_wait p timeout_seconds waited)
        (EndsFrom-mono c.clock t (c.clock w1)
          (wait_loop p (suc (timeout_seconds * 2)) ((p.monotonic w).0 + timeout_seconds * 1000) none
            w1)
          later
          (wait_loop-Ends (timeout_seconds * 2) ((p.monotonic w).0 + timeout_seconds * 1000) none w1
            (omega (arith, c.not_after w))))
        (λ waited w2 h2. finish_wait-Ends t timeout_seconds waited w2 h2)

  -- Whatever the probes answer, and however long each takes, `start_backend` ends: with a ready
  -- backend or with an exception, never for want of rounds.
  pub start_backend-Ends : (w : W) → EndsFrom c.clock (c.clock w) (start_backend p w)
  unfolding start_backend
  start_backend-Ends w =
      EndsFrom-and_then c.clock (c.clock w)
        (compose p ("up" ∷ "-d" ∷ "--no-deps" ∷ backend_service ∷ []) none true w)
        (λ _. wait_for_backend_ready p 30)
        (EndsFrom-compose p c (c.clock w) _ none true w (omega arith))
        (λ r w' h. wait_for_backend_ready-Ends (c.clock w) 30 w' h)
