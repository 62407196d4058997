-- ===== src/Scripts/Process/Timing.antt =====
-- The clock goes on, and a script that uses up no loop's fuel.
use storepulse.Prelude.{
  ℕ, ◌+◌, ◌≤◌, ◌&&◌, not, Bool, String, Option, none, some, List, ◌∷◌, inl, inr, arith, Bool-cases,
}
use storepulse.Scripts.Process.{
  Result, ok, raised, Exception, verification_error, value_error, os_error, unfinished, and_then,
  or_raise, Env, Executed, completed, failed, Platform, is_zero, check_result, run_command, compose,
}

-- What the script relies on of the monotonic clock: a reading lies between the time before and the
-- time after it, a command and a reading take no negative time, and a pause lasts as long as asked.
pub record Clock {W : Type 0} (p : Platform W) : Type 0 where
  pub clock : W → ℕ
  pub not_before : (w : W) → clock w ≤ (p.monotonic w).0
  pub not_after : (w : W) → (p.monotonic w).0 ≤ clock (p.monotonic w).1
  pub exec_forward : (c : List String) (e : Option Env) (w : W) → clock w ≤ clock (p.exec c e w).1
  pub sleep_lasts : (d : ℕ) (w : W) → clock w + d ≤ clock (p.sleep d w)

-- The script ends at `t` or later, and not for want of fuel.
abbrev pub EndsFrom : {W A : Type 0} → (W → ℕ) → ℕ → Result A × W → Type 0
EndsFrom clock t (ok a, w) = t ≤ clock w
EndsFrom clock t (raised unfinished, w) = ⊥
EndsFrom clock t (raised (verification_error s), w) = Unit
EndsFrom clock t (raised (value_error s), w) = Unit
EndsFrom clock t (raised (os_error s), w) = Unit

module _ {W A : Type 0} (clock : W → ℕ) where
  pub EndsFrom-mono : (s t : ℕ) (r : Result A × W) → s ≤ t → EndsFrom clock t r → EndsFrom clock s r
  EndsFrom-mono s t (ok a, w) h k = omega arith
  EndsFrom-mono s t (raised unfinished, w) h k = k
  EndsFrom-mono s t (raised (verification_error _), w) h k = _
  EndsFrom-mono s t (raised (value_error _), w) h k = _
  EndsFrom-mono s t (raised (os_error _), w) h k = _

  pub EndsFrom-or_raise :
      (t : ℕ) (e : Exception) (o : Option A) (w : W)
      → EndsFrom {A = A} clock t (raised e, w)
      → t ≤ clock w
      → EndsFrom clock t (or_raise e o w)
  EndsFrom-or_raise t e none w h k = h
  EndsFrom-or_raise t e (some a) w h k = k

module _ {W A B : Type 0} (clock : W → ℕ) where
  pub EndsFrom-and_then :
      (t : ℕ) (r : Result A × W) (f : A → W → Result B × W)
      → EndsFrom clock t r
      → ((a : A) (w : W) → t ≤ clock w → EndsFrom clock t (f a w))
      → EndsFrom clock t (and_then r f)
  unfolding and_then
  EndsFrom-and_then t (ok a, w) f h k = k a w h
  EndsFrom-and_then t (raised unfinished, w) f h k = h
  EndsFrom-and_then t (raised (verification_error _), w) f h k = _
  EndsFrom-and_then t (raised (value_error _), w) f h k = _
  EndsFrom-and_then t (raised (os_error _), w) f h k = _

module _ {W : Type 0} (p : Platform W) where
  EndsFrom-check_result :
      (clock : W → ℕ) (t : ℕ) (command : List String) (check : Bool) (x : Executed) (w : W)
      → t ≤ clock w
      → EndsFrom clock t (check_result p command check x w)
  unfolding check_result
  EndsFrom-check_result clock t command check (failed text) w h = _
  EndsFrom-check_result clock t command check (completed r) w h =
      elim (Bool-cases (check && not (is_zero r.returncode))) [ inl e ↦ rw e _ | inr e ↦ rw e h ]

  pub EndsFrom-compose :
      (c : Clock p) (t : ℕ) (args : List String) (env : Option Env) (check : Bool) (w : W)
      → t ≤ c.clock w
      → EndsFrom c.clock t (compose p args env check w)
  unfolding compose run_command and_then
  EndsFrom-compose c t args env check w h =
      let command = "docker" ∷ "compose" ∷ args in
      EndsFrom-check_result c.clock t command check (p.exec command env w).0
        (p.exec command env w).1 (omega (arith, c.exec_forward command env w))
