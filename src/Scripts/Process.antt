-- ===== src/Scripts/Process.antt =====
-- scripts/verify_simulator_smoke.py: how the script runs commands.
-- The script asks the operating system for a command, the clock, a pause or a line of output; each
-- may change the world `W`, which is a parameter. An exception ends a script and keeps the world.
-- Times are whole milliseconds of the monotonic clock.
pub mod Outcome
pub mod Timing
use Prim.Native.String.{◌++◌ as append}
use storepulse.Prelude.{
  ℕ, Bool, true, false, ◌&&◌, not, String, Option, none, some, List, [], ◌∷◌, ◌++◌, ◌==◌,
  if◌then◌else◌, str_eq,
}
use storepulse.Prelude.Int.{ℤ, pos, negsuc}

-- `unfinished` is no exception of the script: it stands for a loop that used up its fuel.
pub data Exception : Type 0 where
  verification_error value_error os_error : String → Exception
  unfinished : Exception

-- `str(exc)`
abbrev pub message : Exception → String
message (verification_error s) = s
message (value_error s) = s
message (os_error s) = s
message unfinished = ""

pub data Result (A : Type 0) : Type 0 where
  ok : A → Result A
  raised : Exception → Result A

abbrev pub Script : Type 0 → Type 0 → Type 0
Script W A = W → Result A × W

module _ {W A B : Type 0} where
  unfoldable pub and_then : Result A × W → (A → W → Result B × W) → Result B × W
  and_then (ok a, w) f = f a w
  and_then (raised e, w) f = (raised e, w)

  infixl 5 ◌>>=◌ ◌>>◌
  abbrev pub ◌>>=◌ : Script W A → (A → Script W B) → Script W B
  (m >>= f) w = and_then (m w) f

  abbrev pub ◌>>◌ : Script W A → Script W B → Script W B
  (m >> n) w = and_then (m w) (λ _. n)

module _ {W A : Type 0} where
  abbrev pub pure : A → Script W A
  pure a w = (ok a, w)

  abbrev pub raise : Exception → Script W A
  raise e w = (raised e, w)

  -- `none` is where the source raises.
  abbrev pub or_raise : Exception → Option A → Script W A
  or_raise e none = raise e
  or_raise e (some a) = pure a

  -- `try: m except Exception as exc: ...`: what follows looks at the result.
  abbrev pub attempt : Script W A → Script W (Result A)
  attempt m w = (ok (m w).0, (m w).1)

  -- A query of the world that does not fail.
  abbrev pub gets : (W → A × W) → Script W A
  gets f w = (ok (f w).0, (f w).1)

module _ {W : Type 0} where
  abbrev pub act : (W → W) → Script W (Unit {0})
  act f w = (ok _, f w)

pub record CommandResult : Type 0 where
  pub stdout : String
  pub stderr : String
  pub returncode : ℤ

-- `subprocess.run` gives the completed process, or the command cannot be started.
pub data Executed : Type 0 where
  completed : CommandResult → Executed
  failed : String → Executed

abbrev pub Env : Type 0
Env = List (String × String)

-- What the script uses of Python and of the operating system. `to_int` is `int(text)`, with none
-- for a ValueError; `random_hex` is `uuid4().hex[:12]`; `search_duplicate` is the group of the
-- first match of `DUPLICATE_RE`; `is_uuid` is whether `UUID(text)` succeeds.
pub record Platform (W : Type 0) : Type 0 where
  pub exec : List String → Option Env → W → Executed × W
  pub monotonic : W → ℕ × W
  pub sleep : ℕ → W → W
  pub print_out : String → W → W
  pub print_err : String → W → W
  pub random_hex : W → String × W
  pub environ : Env
  pub strip : String → String
  pub rstrip : String → String
  pub split_lines : String → List String
  pub to_int : String → Option ℤ
  pub show_int : ℤ → String
  pub repr : String → String
  pub search_duplicate : String → Option String
  pub is_uuid : String → Bool

abbrev pub is_zero : ℤ → Bool
is_zero (pos n) = n == 0
is_zero (negsuc n) = false

abbrev pub nonempty : String → Bool
nonempty s = not (str_eq s "")

-- `separator.join(parts)`
unfoldable pub join : String → List String → String
join separator [] = ""
join separator (x ∷ []) = x
join separator (x ∷ y ∷ l) = append x (append separator (join separator (y ∷ l)))

module _ {W : Type 0} (p : Platform W) where
  -- `if text.strip(): details.append(f"{label}:\n{text.rstrip()}")`
  unfoldable pub detail : String → String → List String
  detail label text =
      if nonempty (p.strip text) then append label (append ":\n" (p.rstrip text)) ∷ [] else []

  unfoldable pub failure_text : List String → CommandResult → String
  unfolding join detail
  failure_text command r = join "\n" (
      append "Command failed with exit code "
        (append (p.show_int r.returncode) (append ": " (join " " command)))
      ∷ (detail "stdout" r.stdout ++ detail "stderr" r.stderr))

  unfoldable pub check_result : List String → Bool → Executed → Script W CommandResult
  unfolding failure_text
  check_result command check (failed text) = raise (os_error text)
  check_result command check (completed r) =
      if check && not (is_zero r.returncode)
      then raise (verification_error (failure_text command r))
      else pure r

  unfoldable pub run_command : List String → Option Env → Bool → Script W CommandResult
  unfolding check_result and_then
  run_command command env check = do
    executed ← gets (p.exec command env)
    check_result command check executed

  unfoldable pub compose : List String → Option Env → Bool → Script W CommandResult
  unfolding run_command
  compose args env check = run_command ("docker" ∷ "compose" ∷ args) env check

  unfoldable pub read_container_env : String → Script W String
  unfolding compose and_then
  read_container_env name = do
    result ← compose ("exec" ∷ "-T" ∷ "postgres" ∷ "printenv" ∷ name ∷ []) none true
    if nonempty (p.strip result.stdout)
        then pure (p.strip result.stdout)
        else raise (
            verification_error (append "PostgreSQL container variable " (append name " is empty.")))

  abbrev pub psql_args : String → String → String → Bool → List String
  psql_args sql db_user db_name scalar =
      ("exec" ∷ "-T" ∷ "postgres" ∷ "psql" ∷ "-X" ∷ "-v" ∷ "ON_ERROR_STOP=1" ∷ "-U" ∷ db_user ∷ "-d"
        ∷ db_name ∷ [])
      ++ ((if scalar then "-A" ∷ "-t" ∷ [] else []) ++ ("-c" ∷ sql ∷ []))

  unfoldable pub psql : String → String → String → Bool → Script W String
  unfolding compose and_then
  psql sql db_user db_name scalar = do
    result ← compose (psql_args sql db_user db_name scalar) none true
    pure (p.strip result.stdout)

  -- `int(psql(..., scalar=True))`
  unfoldable pub count_rows : String → String → String → Script W ℤ
  unfolding psql and_then
  count_rows sql db_user db_name = do
    text ← psql sql db_user db_name true
    or_raise (value_error (append "invalid literal for int() with base 10: " (p.repr text)))
        (p.to_int text)
