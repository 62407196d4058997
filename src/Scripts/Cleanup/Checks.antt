-- ===== src/Scripts/Cleanup/Checks.antt =====
-- What the steps of a cleanup establish where they raise nothing.
use storepulse.Prelude.{
  ℕ, zero, suc, ◌+◌, ◌*◌, ◌≡◌, sym, ◌&&◌, Bool, true, false, String, Option, none, some, List, ◌∷◌,
  inl, inr, arith, ltb, Bool-cases, if◌then◌else◌,
}
use storepulse.Scripts.Process.{
  Exception, CommandResult, Platform, is_zero, raise, count_rows, compose, act, ◌>>◌, pure,
}
use storepulse.Scripts.Process.Outcome.{
  After, After-mono, After-and_then, After-then, After-compose, After-compose_any,
}
use storepulse.Scripts.Sql.{build_remaining_sql, build_snapshot_mismatch_sql}
use storepulse.Scripts.Services.{
  simulator_services, is_empty, ps_args, probe_args, container_ids, running_service_ids,
  kill_services, stop_services, stop_simulators, Waited, ready, timed_out, wait_loop, finish_wait,
  wait_for_backend_ready, start_backend,
}
use storepulse.Scripts.Cleanup.{verify_no_run_rows, verify_snapshot, restart}
use storepulse.Scripts.Cleanup.Laws.{
  Fact, simulators_stopped, backend_ready, no_run_rows, stores_restored, Deployment,
}
use storepulse.Scripts.Cleanup.Triples.{After-count_rows, After-zero, empty-[]}

module _ {W : Type 0} (p : Platform W) (Holds : Fact → W → Type 0)
    (run_tag snapshot_json db_user db_name : String)
    (d : Deployment p Holds run_tag snapshot_json db_user db_name) where
  -- From `w` to `w'` no fact was lost.
  abbrev pub Keeps : W → W → Type 0
  Keeps w w' = (f : Fact) → Holds f w → Holds f w'

  pub running-After :
      (w : W)
      → After
          (λ ids w'. (is_empty ids ≡ true → Holds simulators_stopped w') × Keeps w w')
          (running_service_ids p simulator_services (some "demo") w)
  unfolding running_service_ids
  running-After w =
      After-and_then _ (compose p (ps_args simulator_services (some "demo")) none true w) _ (
        After-compose p _ (ps_args simulator_services (some "demo")) none w (λ r e z. (
          (λ h. d.ps_tells r w e z (empty-[] (container_ids p (p.split_lines r.stdout)) h)),
          (λ f h. d.ps_keeps f w h),
        )))

  pub no_run_rows-After :
      (w : W)
      → After
          (λ _ w'. Holds no_run_rows w' × Keeps w w')
          (verify_no_run_rows p run_tag db_user db_name w)
  unfolding verify_no_run_rows
  no_run_rows-After w =
      After-and_then _ (count_rows p (build_remaining_sql run_tag) db_user db_name w) _ (
        After-count_rows p _ (build_remaining_sql run_tag) db_user db_name w (λ r n e z k.
          After-zero p _ n _ _
            (λ h. (d.remaining_tells r w e z (rw (sym h) k), (λ f h'. d.remaining_keeps f w h')))))

  pub snapshot-After :
      (before after : String) (w : W)
      → After
          (λ _ w'. Holds stores_restored w' × Keeps w w')
          (verify_snapshot p before after snapshot_json db_user db_name w)
  unfolding verify_snapshot
  snapshot-After before after w =
      After-and_then _ (count_rows p (build_snapshot_mismatch_sql snapshot_json) db_user db_name w)
        _
        (After-count_rows p _ (build_snapshot_mismatch_sql snapshot_json) db_user db_name w
          (λ r n e z k.
            After-zero p _ n _ _
              (λ h. (d.mismatch_tells r w e z (rw (sym h) k), (λ f h'. d.mismatch_keeps f w h')))))

  stopped-After :
      (b : Bool) (ids : List String) (e : Exception) (w : W)
      → (is_empty ids ≡ true → Holds simulators_stopped w)
      → After
          (λ _ w'. Holds simulators_stopped w')
          ((if b && is_empty ids then pure {A = Unit {0}} _ else raise e) w)
  stopped-After b ids e w h = elim (Bool-cases (b && is_empty ids)) [
    | inl k ↦ rw k (h (ground (arith, k)))
    | inr k ↦ rw k _
  ]

  kill_services-After :
      (label : String) (stopped : CommandResult) (after_stop : List String) (w : W)
      → After
          (λ _ w'. Holds simulators_stopped w')
          (kill_services p simulator_services label (some "demo") stopped after_stop w)
  unfolding kill_services
  kill_services-After label stopped after_stop w =
      After-then _ (compose p _ none false w) _ (λ killed w1.
        After-and_then _ (running_service_ids p simulator_services (some "demo") w1) _ (
          After-mono _ _ (running_service_ids p simulator_services (some "demo") w1)
            (λ ids w2 h. stopped-After (is_zero killed.returncode) ids _ w2 h.0)
            (running-After w1)))

  pub stop_simulators-Stopped :
      (w : W) → After (λ _ w'. Holds simulators_stopped w') (stop_simulators p w)
  unfolding stop_simulators stop_services
  stop_simulators-Stopped w = After-then _ (compose p _ none false w) _ (λ stopped w1.
      After-and_then _ (running_service_ids p simulator_services (some "demo") w1) _ (
        After-mono _ _ (running_service_ids p simulator_services (some "demo") w1)
          (λ ids w2 h. elim (Bool-cases (is_zero stopped.returncode && is_empty ids)) [
            | inl k ↦ rw k (h.0 (ground (arith, k)))
            | inr k ↦ rw k (kill_services-After "simulator producers" stopped ids w2)
          ])
          (running-After w1)))

  abbrev WasReady : Waited → W → Type 0
  WasReady ready w = Holds backend_ready w
  WasReady (timed_out last) w = Unit

  wait_loop-After :
      (fuel deadline : ℕ) (last : Option CommandResult) (w : W)
      → After WasReady (wait_loop p fuel deadline last w)
  unfolding wait_loop
  wait_loop-After zero deadline last w = _
  wait_loop-After (suc fuel) deadline last w =
      let w1 = (p.monotonic w).1 in
      elim (Bool-cases (ltb (p.monotonic w).0 deadline)) [
        | inl e ↦ rw e (
            After-and_then WasReady (compose p probe_args none false w1)
              (λ result.
                if is_zero result.returncode
                then pure ready
                else act (p.sleep 500) >> wait_loop p fuel deadline (some result))
              (After-compose_any p _ probe_args none w1 (λ r k.
                let w2 = (p.exec ("docker" ∷ "compose" ∷ probe_args) none w1).1 in
                elim (Bool-cases (is_zero r.returncode)) [
                  | inl z ↦ rw z (d.probe_tells r w1 k z)
                  | inr z ↦ rw z (wait_loop-After fuel deadline (some r) (p.sleep 500 w2))
                ])))
        | inr e ↦ rw e _
      ]

  finish_wait-After :
      (t : ℕ) (waited : Waited) (w : W)
      → WasReady waited w
      → After (λ _ w'. Holds backend_ready w') (finish_wait p t waited w)
  unfolding finish_wait
  finish_wait-After t ready w h = h
  finish_wait-After t (timed_out last) w h =
      After-then _ (compose p _ none false w) _ (λ logs w'. _)

  wait_for_backend_ready-After :
      (t : ℕ) (w : W) → After (λ _ w'. Holds backend_ready w') (wait_for_backend_ready p t w)
  unfolding wait_for_backend_ready
  wait_for_backend_ready-After t w =
      let deadline = (p.monotonic w).0 + t * 1000 in
      let w1 = (p.monotonic w).1 in
      After-and_then (λ _ w'. Holds backend_ready w') (wait_loop p (suc (t * 2)) deadline none w1)
        (finish_wait p t)
        (After-mono WasReady _ (wait_loop p (suc (t * 2)) deadline none w1) (finish_wait-After t)
          (wait_loop-After (suc (t * 2)) deadline none w1))

  pub restart-After : (w : W) → After (λ _ w'. Holds backend_ready w') (restart p w)
  unfolding restart start_backend
  restart-After w = After-and_then _ (start_backend p w) _ (
      After-mono (λ _ w'. Holds backend_ready w') _ (start_backend p w)
        (λ _ w'. d.print_keeps backend_ready _ w')
        (After-then _ (compose p _ none true w) _ (λ _ w1. wait_for_backend_ready-After 30 w1)))
