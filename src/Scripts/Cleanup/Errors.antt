-- ===== src/Scripts/Cleanup/Errors.antt =====
-- When `finalize_verification_run` raises, and in which world it leaves.
use Prim.Native.String.{◌++◌ as append}
use text.Mathlib.Text.{starts_with}
use text.Mathlib.TextEquality.{starts_with_iff}
use text.Mathlib.TextLemmas.{append_assoc}
use text.Mathlib.TextPositions.{slice-append_left}
use storepulse.Prelude.{
  ◌≡◌, ◌⊎◌, inl, inr, refl, sym, Bool, true, false, ◌&&◌, String, ◌++◌, if◌then◌else◌,
}
use storepulse.Scripts.Process.{Exception, message, Result, ok, raised, Platform, and_then}
use storepulse.Scripts.Services.{stop_simulators, stop_backend}
use storepulse.Scripts.Cleanup.{
  clean_behind_barrier, restart, restart_failed, error_text, raise_all, finish_restarted,
  finalize_stopped, behind_barrier, without_traffic, post_restart_checks, finalize_verification_run,
}

abbrev pub succeeded : {A : Type 0} → Result A → Bool
succeeded (ok _) = true
succeeded (raised _) = false

cases : (r : Result (Unit {0})) → (r ≡ ok _) ⊎ ((e : Exception) × (r ≡ raised e))
cases (ok _) = inl refl
cases (raised e) = inr (e, refl)

starts :
    (s : String)
    → starts_with (append "backend restart failed: " s) "backend restart failed:" ≡ true
starts s =
    (starts_with_iff (append "backend restart failed: " s) "backend restart failed:").1
      (append " " s, sym (append_assoc "backend restart failed:" " " s))

starts_not :
    (s : String)
    → starts_with (append "verification data cleanup failed: " s) "backend restart failed:" ≡ false
starts_not s =
    rw
      (
        append_assoc "verification data clean" "up failed: " s,
        slice-append_left "verification data clean" (append "up failed: " s),
      )
      refl

-- Only the label of a failed restart counts as one.
restart_failed_iff :
    (cleaned restarted : Result (Unit {0}))
    → restart_failed (
        error_text "verification data cleanup failed: " cleaned
        ++ error_text "backend restart failed: " restarted)
      ≡ (if succeeded restarted then false else true)
unfolding restart_failed
restart_failed_iff (ok _) (ok _) = refl
restart_failed_iff (ok _) (raised e) = rw (starts (message e)) refl
restart_failed_iff (raised x) (ok _) = rw (starts_not (message x)) refl
restart_failed_iff (raised x) (raised e) = rw (starts (message e), starts_not (message x)) refl

module _ {W : Type 0} (p : Platform W) (run_tag snapshot_json db_user db_name : String) where
  abbrev checks : W → Result (Unit {0}) × W
  checks w = post_restart_checks p run_tag snapshot_json db_user db_name w

  verdict :
      (checked : Result (Unit {0})) (w : W)
      → (succeeded (raise_all p (error_text "post-restart verification failed: " checked) w).0
          ≡ succeeded checked)
        × ((raise_all p (error_text "post-restart verification failed: " checked) w).1 ≡ w)
  verdict (ok _) w = (refl, refl)
  verdict (raised e) w = (refl, refl)

  finished :
      (cleaned restarted : Result (Unit {0})) (w : W)
      → let f =
          finish_restarted p run_tag snapshot_json db_user db_name
            (error_text "verification data cleanup failed: " cleaned
              ++ error_text "backend restart failed: " restarted)
            w in
        (succeeded f.0 ≡ (succeeded cleaned && succeeded restarted && succeeded (checks w).0))
        × (f.1 ≡ (if succeeded restarted then (checks w).1 else w))
  unfolding finish_restarted and_then
  finished (ok _) (ok _) w = unfold restart_failed in verdict (checks w).0 (checks w).1
  finished (raised x) (ok _) w = rw (restart_failed_iff (raised x) (ok _)) (refl, refl)
  finished (ok _) (raised e) w = rw (restart_failed_iff (ok _) (raised e)) (refl, refl)
  finished (raised x) (raised e) w = rw (restart_failed_iff (raised x) (raised e)) (refl, refl)

  abbrev cleaned_by : W → Result (Unit {0}) × W
  cleaned_by w = clean_behind_barrier p run_tag snapshot_json db_user db_name w

  abbrev ran : W → Result (Unit {0}) × W
  ran w = finalize_verification_run p run_tag snapshot_json db_user db_name w

  -- `finalize_verification_run` raises nothing exactly if its five phases raise nothing: the stop of
  -- the simulators, that of the backend, the cleanup, the restart and the checks after it, each in
  -- the world that the one before leaves. Where both stops succeed, the backend is started again
  -- whatever the cleanup came to, and the world that is left is that of the checks, or of the
  -- restart if it raised. Where a stop raises, the world is left as that stop left it.
  pub finalize-phases :
      (w : W)
      → let stopped = stop_simulators p w in
        let barrier = stop_backend p stopped.1 in
        let cleaned = cleaned_by barrier.1 in
        let restarted = restart p cleaned.1 in
        let checked = checks restarted.1 in
        (succeeded (ran w).0 ≡ (
          succeeded stopped.0
          && succeeded barrier.0
          && succeeded cleaned.0
          && succeeded restarted.0
          && succeeded checked.0))
        × ((ran w).1 ≡ (
            if succeeded stopped.0
            then if succeeded barrier.0
              then if succeeded restarted.0 then checked.1 else restarted.1
              else barrier.1
            else stopped.1))
  unfolding finalize_verification_run without_traffic behind_barrier finalize_stopped
  finalize-phases w = elim (cases (stop_simulators p w).0) [
    | inr (e, a) ↦ rw a (refl, refl)
    | inl a ↦ elim (cases (stop_backend p (stop_simulators p w).1).0) [
      | inr (e, b) ↦ rw (a, b) (refl, refl)
      | inl b ↦ rw (a, b) (finished _ _ _)
    ]
  ]
