-- ===== src/Scripts/Machine.antt =====
-- A small machine on which the tests run the script: containers that obey, and a database that
-- answers the script's queries.
pub mod Laws
use mathlib.Core.Path.{subst}
use storepulse.Prelude.{
  ℕ, ◌+◌, ◌≡◌, refl, ap, sym, ◌∙◌, Bool, true, false, String, Option, none, some, List, [], ◌∷◌,
  arith, inl, inr, Bool-cases, if◌then◌else◌, str_eq,
}
use storepulse.Prelude.Int.{ℤ, pos}
use storepulse.Scripts.Process.{
  CommandResult, Executed, completed, failed, Platform, join, is_zero, Env,
}
use storepulse.Scripts.Process.Timing.{Clock}
use storepulse.Scripts.Sql.{
  build_remaining_sql, build_snapshot_mismatch_sql, build_metrics_sql, build_duplicate_count_sql,
  build_cleanup_transaction_sql, sql_literal, double_quotes, source_pattern, build_delete_sql,
  build_restore_sql,
}
use storepulse.Scripts.Services.{container_ids}
use storepulse.Scripts.Cleanup.Laws.{
  Fact, simulators_stopped, backend_ready, no_run_rows, stores_restored, Deployment, ps_command,
  probe_command, count_command,
}

pub record Machine : Type 0 where
  pub simulators : Bool
  pub backend : Bool
  pub rows : Bool
  pub changed : Bool
  pub broken : Bool
  pub clock : ℕ

abbrev pub run_tag : String
run_tag = "verify-a"

abbrev pub snapshot_json : String
snapshot_json = "[]"

abbrev pub said : String → Executed
said text = completed (record { stdout = text; stderr = ""; returncode = pos 0 })

abbrev pub refused : Executed
refused = completed (record { stdout = ""; stderr = "no"; returncode = pos 1 })

abbrev pub flag : Bool → String
flag b = if b then "1" else "0"

unfoldable pub answer_sql : String → Machine → Executed × Machine
unfolding build_remaining_sql build_snapshot_mismatch_sql build_metrics_sql
    build_duplicate_count_sql
answer_sql sql w =
    if str_eq sql (build_remaining_sql run_tag)
    then (said (flag w.rows), w)
    else if str_eq sql (build_snapshot_mismatch_sql snapshot_json)
    then (said (flag w.changed), w)
    else if str_eq sql (build_metrics_sql run_tag)
    then (said "5|5|1|1", w)
    else if str_eq sql (build_duplicate_count_sql run_tag "e")
    then (said "1", w)
    else (said "", record w { rows = false; changed = false })

abbrev pub last : List String → String
last [] = ""
last (x ∷ []) = x
last (x ∷ y ∷ l) = last (y ∷ l)

unfoldable pub answer_demo : String → Machine → Executed × Machine
answer_demo verb w =
    if str_eq verb "ps"
    then (said (if w.simulators then "id" else ""), w)
    else if str_eq verb "up"
    then (said "", record w { simulators = true; rows = true; changed = true })
    else if str_eq verb "logs"
    then (said "", w)
    else (said "", record w { simulators = false })

unfoldable pub answer_backend : String → Machine → Executed × Machine
answer_backend verb w =
    if str_eq verb "ps"
    then (said (if w.backend then "id" else ""), w)
    else if str_eq verb "up"
    then (
      if w.broken then failed "gone" else said "",
      record w { backend = if w.broken then w.backend else true },
    )
    else if str_eq verb "logs"
    then (said "", w)
    else (said "", record w { backend = false })

unfoldable pub answer : List String → Machine → Executed × Machine
unfolding answer_sql answer_demo answer_backend
answer (d ∷ c ∷ a ∷ b ∷ service ∷ l) w =
    if str_eq a "exec"
    then (if str_eq service "backend"
        then ((if w.backend then said "" else refused), w)
        else answer_sql (last l) w)
    else if str_eq a "--profile"
    then answer_demo service w
    else answer_backend a w
answer (d ∷ c ∷ a ∷ l) w = answer_backend a w
answer _ w = (failed "", w)

abbrev pub read_int : String → Option ℤ
read_int text =
    if str_eq text "0"
    then some (pos 0)
    else if str_eq text "1"
    then some (pos 1)
    else if str_eq text "5"
    then some (pos 5)
    else none

abbrev pub platform : Platform Machine
platform = record {
  exec = λ c e. answer c;
  monotonic = λ w. (w.clock, w);
  sleep = λ d w. record w { clock = w.clock + d };
  print_out = λ s w. w;
  print_err = λ s w. w;
  random_hex = λ w. ("a", w);
  environ = [];
  strip = λ s. s;
  rstrip = λ s. s;
  split_lines = λ s. s ∷ [];
  to_int = read_int;
  show_int = λ n. "n";
  repr = λ s. s;
  search_duplicate = λ s. some "e";
  is_uuid = λ s. true;
}

abbrev pub Holds : Fact → Machine → Type 0
Holds simulators_stopped w = w.simulators ≡ false
Holds backend_ready w = w.backend ≡ true
Holds no_run_rows w = w.rows ≡ false
Holds stores_restored w = w.changed ≡ false
