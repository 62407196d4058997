-- ===== src/Scripts/Cleanup/Restored.antt =====
-- What a cleanup that raises nothing leaves behind.
use storepulse.Prelude.{◌≡◌, refl, String, some, List, [], ◌∷◌, ◌++◌, inl, inr, arith, Bool-cases}
use storepulse.Scripts.Process.{Result, ok, raised, Platform}
use storepulse.Scripts.Process.Outcome.{After, After-mono, After-and_then}
use storepulse.Scripts.Services.{
  simulator_services, is_empty, running_service_ids, stop_simulators, stop_backend,
}
use storepulse.Scripts.Cleanup.{
  verify_no_run_rows, verify_snapshot, clean_behind_barrier, restart, restart_failed, raise_all,
  error_text, post_restart_checks, finish_restarted, finalize_stopped, behind_barrier,
  without_traffic, finalize_verification_run,
}
use storepulse.Scripts.Cleanup.Laws.{
  Fact, simulators_stopped, backend_ready, no_run_rows, stores_restored, Deployment,
}
use storepulse.Scripts.Cleanup.Checks.{
  running-After, no_run_rows-After, snapshot-After, restart-After,
}

module _ {W : Type 0} (p : Platform W) (Holds : Fact → W → Type 0)
    (run_tag snapshot_json db_user db_name : String)
    (d : Deployment p Holds run_tag snapshot_json db_user db_name) where
  abbrev Restored : W → Type 0
  Restored w = (f : Fact) → Holds f w

  together :
      (w : W)
      → Holds simulators_stopped w
      → Holds backend_ready w
      → Holds no_run_rows w
      → Holds stores_restored w
      → Restored w
  together w a b c e simulators_stopped = a
  together w a b c e backend_ready = b
  together w a b c e no_run_rows = c
  together w a b c e stores_restored = e

  post_restart-After :
      (w : W)
      → Holds backend_ready w
      → After (λ _ w'. Restored w') (post_restart_checks p run_tag snapshot_json db_user db_name w)
  unfolding post_restart_checks
  post_restart-After w h =
      After-and_then _ (running_service_ids p simulator_services (some "demo") w) _ (
        After-mono _ _ (running_service_ids p simulator_services (some "demo") w)
          (λ ids w1 k. elim (Bool-cases (is_empty ids)) [
            | inl e ↦ rw e (
                let w2 = p.sleep 500 w1 in
                After-and_then _ (verify_no_run_rows p run_tag db_user db_name w2) _ (
                  After-mono _ _ (verify_no_run_rows p run_tag db_user db_name w2)
                    (λ _ w3 n.
                      After-and_then _ (verify_snapshot p _ _ snapshot_json db_user db_name w3) _ (
                        After-mono _ _ (verify_snapshot p _ _ snapshot_json db_user db_name w3)
                          (λ _ w4 s f. d.print_keeps f _ _ (
                            d.print_keeps f _ w4 (
                              together w4 (s.1 _ (n.1 _ (d.sleep_keeps _ 500 w1 (k.0 e))))
                                (s.1 _ (n.1 _ (d.sleep_keeps _ 500 w1 (k.1 _ h)))) (s.1 _ n.0) s.0
                                f)))
                          (snapshot-After p Holds run_tag snapshot_json db_user db_name d _ _ w3)))
                    (no_run_rows-After p Holds run_tag snapshot_json db_user db_name d w2)))
            | inr e ↦ rw e _
          ])
          (running-After p Holds run_tag snapshot_json db_user db_name d w))

  raise_all-After :
      (P : W → Type 0) (label : String) (r : Result (Unit {0}) × W)
      → After (λ _ w. P w) r
      → After (λ _ w. P w) (raise_all p (error_text label r.0) r.1)
  raise_all-After P label (ok a, w) h = h
  raise_all-After P label (raised e, w) h = _

  finish_restarted-After :
      (errors : List String) (w : W)
      → (errors ≡ [] → Holds backend_ready w)
      → After
          (λ _ w'. Restored w')
          (finish_restarted p run_tag snapshot_json db_user db_name errors w)
  unfolding finish_restarted restart_failed
  finish_restarted-After [] w h =
      raise_all-After Restored _ (post_restart_checks p run_tag snapshot_json db_user db_name w)
        (post_restart-After w (h refl))
  finish_restarted-After (x ∷ l) w h = elim (Bool-cases (restart_failed (x ∷ l))) [
    | inl e ↦ rw e _
    | inr e ↦ rw e _
  ]

  no_errors :
      (cleaned : Result (Unit {0})) (r : Result (Unit {0}) × W) (P : W → Type 0)
      → After (λ _ w. P w) r
      → error_text "verification data cleanup failed: " cleaned
          ++ error_text "backend restart failed: " r.0
        ≡ []
      → P r.1
  no_errors (ok a) (ok b, w) P h e = h
  no_errors (ok a) (raised x, w) P h e = absurd (ground arith)
  no_errors (raised y) r P h e = absurd (ground arith)

  finalize_stopped-After :
      (w : W)
      → After (λ _ w'. Restored w') (finalize_stopped p run_tag snapshot_json db_user db_name w)
  unfolding finalize_stopped
  finalize_stopped-After w =
      let cleaned = clean_behind_barrier p run_tag snapshot_json db_user db_name w in
      finish_restarted-After _ (restart p cleaned.1).1 (
        no_errors cleaned.0 (restart p cleaned.1) (Holds backend_ready)
          (restart-After p Holds run_tag snapshot_json db_user db_name d cleaned.1))

  behind_barrier-After :
      (stopped : Result (Unit {0})) (w : W)
      → After
          (λ _ w'. Restored w')
          (behind_barrier p run_tag snapshot_json db_user db_name stopped w)
  unfolding behind_barrier
  behind_barrier-After (ok _) w = finalize_stopped-After w
  behind_barrier-After (raised e) w = _

  without_traffic-After :
      (stopped : Result (Unit {0})) (w : W)
      → After
          (λ _ w'. Restored w')
          (without_traffic p run_tag snapshot_json db_user db_name stopped w)
  unfolding without_traffic
  without_traffic-After (ok _) w = behind_barrier-After (stop_backend p w).0 (stop_backend p w).1
  without_traffic-After (raised e) w = _

  -- Where `finalize_verification_run` raises nothing, in the world that it leaves no simulator
  -- runs, the backend is ready, no row of the run is left and the stores are as in the snapshot.
  pub finalize-Restored :
      (w : W)
      → After
          (λ _ w'. (f : Fact) → Holds f w')
          (finalize_verification_run p run_tag snapshot_json db_user db_name w)
  unfolding finalize_verification_run
  finalize-Restored w = without_traffic-After (stop_simulators p w).0 (stop_simulators p w).1
