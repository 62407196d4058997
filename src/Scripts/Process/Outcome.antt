-- ===== src/Scripts/Process/Outcome.antt =====
-- Conditions on how a script ends, and how they pass along its statements.
use storepulse.Prelude.{◌≡◌, refl, true, false, String, Option, List, ◌∷◌, inl, inr, Bool-cases}
use storepulse.Scripts.Process.{
  Result, ok, raised, and_then, Env, CommandResult, Executed, completed, failed, Platform, is_zero,
  check_result, run_command, compose,
}

module _ {W A : Type 0} where
  -- Where the script raised nothing, `Q` holds of its value and of the world it leaves.
  abbrev pub After : (A → W → Type 0) → Result A × W → Type 0
  After Q (ok a, w) = Q a w
  After Q (raised e, w) = Unit

  pub After-mono :
      (P Q : A → W → Type 0) (r : Result A × W)
      → ((a : A) (w : W) → P a w → Q a w)
      → After P r
      → After Q r
  After-mono P Q (ok a, w) f h = f a w h
  After-mono P Q (raised e, w) f h = _

module _ {W A B : Type 0} where
  pub After-and_then :
      (Q : B → W → Type 0) (r : Result A × W) (f : A → W → Result B × W)
      → After (λ a w. After Q (f a w)) r
      → After Q (and_then r f)
  unfolding and_then
  After-and_then Q (ok a, w) f h = h
  After-and_then Q (raised e, w) f h = _

module _ {W : Type 0} (p : Platform W) where
  After-check_result :
      (Q : CommandResult → W → Type 0) (command : List String) (x : Executed) (w : W)
      → ((r : CommandResult) → x ≡ completed r → is_zero r.returncode ≡ true → Q r w)
      → After Q (check_result p command true x w)
  unfolding check_result
  After-check_result Q command (failed text) w h = _
  After-check_result Q command (completed r) w h = elim (Bool-cases (is_zero r.returncode)) [
    | inl e ↦ rw e (h r refl e)
    | inr e ↦ rw e _
  ]

  -- A command that is checked: its exit code was 0.
  pub After-compose :
      (Q : CommandResult → W → Type 0) (args : List String) (env : Option Env) (w : W)
      → ((r : CommandResult)
          → (p.exec ("docker" ∷ "compose" ∷ args) env w).0 ≡ completed r
          → is_zero r.returncode ≡ true
          → Q r (p.exec ("docker" ∷ "compose" ∷ args) env w).1)
      → After Q (compose p args env true w)
  unfolding compose run_command and_then
  After-compose Q args env w h =
      let command = "docker" ∷ "compose" ∷ args in
      After-check_result Q command (p.exec command env w).0 (p.exec command env w).1 h

  After-check_result_any :
      (Q : CommandResult → W → Type 0) (command : List String) (x : Executed) (w : W)
      → ((r : CommandResult) → x ≡ completed r → Q r w)
      → After Q (check_result p command false x w)
  unfolding check_result
  After-check_result_any Q command (failed text) w h = _
  After-check_result_any Q command (completed r) w h = h r refl

  -- A command that is not checked.
  pub After-compose_any :
      (Q : CommandResult → W → Type 0) (args : List String) (env : Option Env) (w : W)
      → ((r : CommandResult)
          → (p.exec ("docker" ∷ "compose" ∷ args) env w).0 ≡ completed r
          → Q r (p.exec ("docker" ∷ "compose" ∷ args) env w).1)
      → After Q (compose p args env false w)
  unfolding compose run_command and_then
  After-compose_any Q args env w h =
      let command = "docker" ∷ "compose" ∷ args in
      After-check_result_any Q command (p.exec command env w).0 (p.exec command env w).1 h

module _ {W A : Type 0} where
  -- A condition that every value meets.
  pub anything : (P : A → Type 0) → ((a : A) → P a) → (r : Result A × W) → After (λ a _. P a) r
  anything P h (ok a, w) = h a
  anything P h (raised e, w) = _

  pub After-always :
      (Q : A → W → Type 0) → ((a : A) (w : W) → Q a w) → (r : Result A × W) → After Q r
  After-always Q h (ok a, w) = h a w
  After-always Q h (raised e, w) = _

module _ {W A B : Type 0} where
  pub After-then :
      (Q : B → W → Type 0) (r : Result A × W) (f : A → W → Result B × W)
      → ((a : A) (w : W) → After Q (f a w))
      → After Q (and_then r f)
  After-then Q r f h = After-and_then Q r f (After-always (λ a w. After Q (f a w)) h r)
