-- ===== src/Scripts/Smoke/Verdict.antt =====
-- What a run that raises nothing has seen, and what it leaves behind.
use storepulse.Prelude.{ℕ, suc, ◌≡◌, refl, true, String}
use storepulse.Scripts.Process.{Result, ok, raised, and_then, Platform, compose}
use storepulse.Scripts.Process.Outcome.{After, After-mono, After-and_then, After-then}
use storepulse.Scripts.Watch.{Evidence, Watched, evidence, no_evidence}
use storepulse.Scripts.Watch.Contract.{Satisfied, Sound, watch_loop-Sound}
use storepulse.Scripts.Cleanup.{finalize_verification_run}
use storepulse.Scripts.Cleanup.Laws.{Fact, Deployment}
use storepulse.Scripts.Cleanup.Restored.{finalize-Restored}
use storepulse.Scripts.Smoke.{
  report_evidence, watch, observe, report, diagnose, conclude, observe_and_finalize,
}

module _ {W : Type 0} (p : Platform W) where
  report_evidence-Satisfied :
      (run_tag : String) (watched : Watched) (w : W)
      → Sound watched
      → After (λ e _. Satisfied e) (report_evidence p run_tag watched w)
  unfolding report_evidence and_then
  report_evidence-Satisfied run_tag (evidence e) w h = h
  report_evidence-Satisfied run_tag (no_evidence m d) w h = _

  watch-Sound :
      (t : ℕ) (run_tag db_user db_name : String) (w : W)
      → After (λ watched _. Sound watched) (watch p t run_tag db_user db_name w)
  unfolding watch
  watch-Sound t run_tag db_user db_name w =
      watch_loop-Sound p (suc t) _ run_tag db_user db_name _ (p.monotonic w).1 _

  observe-Satisfied :
      (t : ℕ) (run_tag db_user db_name : String) (w : W)
      → After (λ e _. Satisfied e) (observe p t run_tag db_user db_name w)
  unfolding observe
  observe-Satisfied t run_tag db_user db_name w =
      After-then (λ e _. Satisfied e) (compose p _ _ true w) _
        (λ _ w1.
          After-and_then (λ e _. Satisfied e) (watch p t run_tag db_user db_name w1) _
            (After-mono (λ watched _. Sound watched) _ (watch p t run_tag db_user db_name w1)
              (report_evidence-Satisfied run_tag) (watch-Sound t run_tag db_user db_name w1)))

  -- `o` is how the observation ended, and it saw what the contract asks for.
  abbrev Seen : Result Evidence → Type 0
  Seen o = (e : Evidence) × (o ≡ ok e) × Satisfied e

  conclude-After :
      (P : W → Type 0) (diagnosed : Result (Unit {0})) (o : Result Evidence × W)
      (f : Result (Unit {0}) × W)
      → After (λ e _. Satisfied e) o
      → After (λ _ w. P w) f
      → After (λ _ w. Seen o.0 × P w) (conclude p diagnosed o.0 f.0 f.1)
  unfolding conclude report and_then
  conclude-After P (ok _) (ok e, v) (ok _, w) h k = ((e, refl, h), k)
  conclude-After P (ok _) (ok e, v) (raised y, w) h k = _
  conclude-After P (ok _) (raised x, v) (ok _, w) h k = _
  conclude-After P (ok _) (raised x, v) (raised y, w) h k = _
  conclude-After P (raised x) o f h k = _

  -- Where the run raises nothing, the observation ended with evidence: traffic from exactly five
  -- stores with at least five sales, one refund and one late event, and one row for the replayed
  -- event. And no simulator runs, the backend is ready, no row of the run is left and the stores
  -- are as in the snapshot, in the world that the run leaves.
  pub observe_and_finalize-Verified :
      (Holds : Fact → W → Type 0) (run_tag snapshot_json db_user db_name : String)
      (d : Deployment p Holds run_tag snapshot_json db_user db_name) (t : ℕ) (w : W)
      → After
          (λ _ w'.
            ((e : Evidence) × ((observe p t run_tag db_user db_name w).0 ≡ ok e) × Satisfied e)
            × ((f : Fact) → Holds f w'))
          (observe_and_finalize p t run_tag snapshot_json db_user db_name w)
  unfolding observe_and_finalize
  observe_and_finalize-Verified Holds run_tag snapshot_json db_user db_name d t w =
      let o = observe p t run_tag db_user db_name w in
      let g = diagnose p o.0 o.1 in
      conclude-After (λ w'. (f : Fact) → Holds f w') g.0 o
        (finalize_verification_run p run_tag snapshot_json db_user db_name g.1)
        (observe-Satisfied t run_tag db_user db_name w)
        (finalize-Restored p Holds run_tag snapshot_json db_user db_name d g.1)
