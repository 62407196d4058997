-- ===== src/Scripts/Smoke/Ending.antt =====
-- The watch comes to an end within its timeout.
use storepulse.Prelude.{ℕ, ◌+◌, ◌*◌, String, arith}
use storepulse.Scripts.Process.{Platform}
use storepulse.Scripts.Process.Timing.{Clock, EndsFrom, EndsFrom-mono}
use storepulse.Scripts.Watch.Rounds.{watch_loop-Ends}
use storepulse.Scripts.Smoke.{watch}

module _ {W : Type 0} (p : Platform W) (c : Clock p) where
  -- Whatever the commands print, the watch over the traffic ends, by evidence, at its deadline or
  -- by an exception: one round more than the timeout has seconds is enough.
  pub watch-Ends :
      (timeout_seconds : ℕ) (run_tag db_user db_name : String) (w : W)
      → EndsFrom c.clock (c.clock w) (watch p timeout_seconds run_tag db_user db_name w)
  unfolding watch
  watch-Ends t run_tag db_user db_name w =
      let w1 = (p.monotonic w).1 in
      EndsFrom-mono c.clock (c.clock w) (c.clock w1) (watch p t run_tag db_user db_name w)
        (omega (arith, c.not_before w, c.not_after w))
        (watch_loop-Ends p c t (c.clock w1) ((p.monotonic w).0 + t * 1000) run_tag db_user db_name _
          w1 (omega arith) (omega (arith, c.not_after w)))
