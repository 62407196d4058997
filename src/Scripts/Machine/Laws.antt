-- ===== src/Scripts/Machine/Laws.antt =====
-- The machine of the tests does what the script relies on.
use mathlib.Core.Path.{subst}
use storepulse.Prelude.{
  ℕ, ◌≡◌, refl, ap, sym, ◌∙◌, Bool, true, false, String, none, some, List, [], ◌∷◌, arith,
  if◌then◌else◌,
}
use storepulse.Prelude.Int.{ℤ, pos}
use storepulse.Scripts.Process.{Executed, completed, failed, is_zero}
use storepulse.Scripts.Process.Timing.{Clock}
use storepulse.Scripts.Sql.{
  build_remaining_sql, build_snapshot_mismatch_sql, sql_literal, double_quotes, source_pattern,
}
use storepulse.Scripts.Services.{container_ids}
use storepulse.Scripts.Cleanup.Laws.{
  Fact, simulators_stopped, backend_ready, no_run_rows, stores_restored, Deployment, ps_command,
  probe_command, count_command,
}
use storepulse.Scripts.Machine.{
  Machine, run_tag, snapshot_json, said, refused, flag, answer_sql, last, answer_demo,
  answer_backend, answer, read_int, platform, Holds,
}

exec-ps :
    (w : Machine) → platform.exec ps_command none w ≡ (said (if w.simulators then "id" else ""), w)
unfolding answer answer_demo
exec-ps w = refl

exec-probe :
    (w : Machine)
    → platform.exec probe_command none w ≡ ((if w.backend then said "" else refused), w)
unfolding answer
exec-probe w = refl

exec-remaining :
    (w : Machine)
    → platform.exec (count_command platform (build_remaining_sql run_tag) "u" "n") none w
      ≡ (said (flag w.rows), w)
unfolding answer answer_sql build_remaining_sql sql_literal double_quotes source_pattern
exec-remaining w = refl

exec-mismatch :
    (w : Machine)
    → platform.exec
        (count_command platform (build_snapshot_mismatch_sql snapshot_json) "u" "n")
        none
        w
      ≡ (said (flag w.changed), w)
unfolding answer answer_sql build_remaining_sql build_snapshot_mismatch_sql sql_literal
    double_quotes source_pattern
exec-mismatch w = refl

abbrev stdout_of : Executed → String
stdout_of (completed r) = r.stdout
stdout_of (failed text) = text

abbrev code_of : Executed → ℤ
code_of (completed r) = r.returncode
code_of (failed text) = pos 1

ps-tells :
    (b : Bool) (s : String)
    → (if b then "id" else "") ≡ s
    → container_ids platform (s ∷ []) ≡ []
    → b ≡ false
unfolding container_ids
ps-tells true s e h =
    let h' : container_ids platform ("id" ∷ []) ≡ [] =
      subst (λ t. container_ids platform (t ∷ []) ≡ []) (sym e) h in
    absurd (ground (arith, h'))
ps-tells false s e h = refl

flag-tells : (b : Bool) (s : String) → flag b ≡ s → read_int s ≡ some (pos 0) → b ≡ false
flag-tells true s e h =
    let h' : read_int "1" ≡ some (pos 0) = subst (λ t. read_int t ≡ some (pos 0)) (sym e) h in
    absurd (ground (arith, h'))
flag-tells false s e h = refl

probe-tells :
    (b : Bool) (n : ℤ) → code_of (if b then said "" else refused) ≡ n → is_zero n ≡ true → b ≡ true
probe-tells true n e h = refl
probe-tells false n e h =
    let h' : is_zero (pos 1) ≡ true = subst (λ t. is_zero t ≡ true) (sym e) h in
    absurd (ground (arith, h'))

answer_sql-clock : (sql : String) (w : Machine) → (answer_sql sql w).1.clock ≡ w.clock
unfolding answer_sql
answer_sql-clock sql w = ground arith

answer_demo-clock : (verb : String) (w : Machine) → (answer_demo verb w).1.clock ≡ w.clock
unfolding answer_demo
answer_demo-clock verb w = ground arith

answer_backend-clock : (verb : String) (w : Machine) → (answer_backend verb w).1.clock ≡ w.clock
unfolding answer_backend
answer_backend-clock verb w = ground arith

answer-clock : (c : List String) (w : Machine) → (answer c w).1.clock ≡ w.clock
unfolding answer
answer-clock (d ∷ c ∷ a ∷ b ∷ service ∷ l) w =
    ground
      (arith, answer_sql-clock (last l) w, answer_demo-clock service w, answer_backend-clock a w)
answer-clock (d ∷ c ∷ a ∷ b ∷ []) w = answer_backend-clock a w
answer-clock (d ∷ c ∷ a ∷ []) w = answer_backend-clock a w
answer-clock (d ∷ c ∷ []) w = refl
answer-clock (d ∷ []) w = refl
answer-clock [] w = refl

pub clock_laws : Clock platform
clock_laws = record {
  clock = λ w. w.clock;
  not_before = λ w. omega arith;
  not_after = λ w. omega arith;
  exec_forward = λ c e w. omega (arith, answer-clock c w);
  sleep_lasts = λ d w. omega arith;
}

-- The first part of what a command comes to, as its equation and its answer tell it.
answered :
    {A : Type 0} (g : Executed → A) (x : Executed × Machine) (y z : Executed) (w : Machine)
    → x ≡ (y, w)
    → x.0 ≡ z
    → g y ≡ g z
answered g x y z w e h = sym (ap (λ (v : Executed × Machine). g v.0) e) ∙ ap g h

sleep-keeps : (f : Fact) (d : ℕ) (w : Machine) → Holds f w → Holds f (platform.sleep d w)
sleep-keeps simulators_stopped d w h = h
sleep-keeps backend_ready d w h = h
sleep-keeps no_run_rows d w h = h
sleep-keeps stores_restored d w h = h

pub deployment : Deployment platform Holds run_tag snapshot_json "u" "n"
deployment = record {
  ps_tells = λ r w e z h.
      rw (exec-ps w)
        (ps-tells w.simulators r.stdout (answered stdout_of _ _ (completed r) w (exec-ps w) e) h);
  probe_tells = λ r w e z. rw (exec-probe w) (
      probe-tells w.backend r.returncode (answered code_of _ _ (completed r) w (exec-probe w) e) z);
  remaining_tells = λ r w e z h.
      rw (exec-remaining w) (
        flag-tells w.rows r.stdout (answered stdout_of _ _ (completed r) w (exec-remaining w) e) h);
  mismatch_tells = λ r w e z h. rw (exec-mismatch w) (
      flag-tells w.changed r.stdout (answered stdout_of _ _ (completed r) w (exec-mismatch w) e) h);
  ps_keeps = λ f w h. rw (exec-ps w) h;
  remaining_keeps = λ f w h. rw (exec-remaining w) h;
  mismatch_keeps = λ f w h. rw (exec-mismatch w) h;
  sleep_keeps = sleep-keeps;
  print_keeps = λ f s w h. h;
}
