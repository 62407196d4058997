-- ===== src/Simulator/Runtime/Tasks/Invariant.antt =====
-- Every happening keeps the accounts.
use mathlib.Core.Option.{some-injective}
use storepulse.Prelude.{
  ℕ, zero, suc, ◌≡◌, refl, sym, ap, ◌∙◌, Bool, true, false, Option, none, some, List, [], ◌∷◌, inl,
  inr, arith, length, ltb, Bool-cases, Option-cases,
}
use storepulse.Prelude.Int.{pos_part}
use storepulse.Simulator.Float.{Float}
use storepulse.Simulator.Config.{SimulatorConfig}
use storepulse.Simulator.Rng.{Rng}
use storepulse.Simulator.Transport.{Posted}
use storepulse.Simulator.Domain.{OutboundEvent, Sales, get_elem?, make_duplicate}
use storepulse.Simulator.Runtime.{SimulatorStats, Shared, settle_event, settle_replay}
use storepulse.Simulator.Runtime.Tasks.{
  Producer, pausing, putting, Worker, getting, delivering, replaying, Tasks, Heartbeat, beat,
  http_error, other_error, Happening, paused, room, got, event_answered, replay_answered,
  heartbeat_answered, stats_due, put_waiting, after_replaying, replay_back, event_back, pause_over,
  replays, stop, put, take_event, go_on_putting, settle_replaying, after_settling,
  settle_delivering, settle_heartbeat, put_made, make_event, happen, run_tasks, repeat, start_tasks,
}
use storepulse.Simulator.Runtime.Tasks.Accounts.{
  total, length-set_elem, total-set_elem, busy, unsettled, held_back, Sound, put-Sound,
  hand_out-Sound, task_done-Sound, settle_event-counts, settle_replay-counts,
  count_generated-counts,
}

module _ {S : Type 0} where
  stop-Sound :
      (maxsize staff : ℕ) (t : Tasks S) → Sound maxsize staff t → Sound maxsize staff (stop t)
  stop-Sound maxsize staff t s = record {
    bounded = s.bounded;
    staffed = s.staffed;
    counted = s.counted;
    accounted = s.accounted;
  }

  put_waiting-Sound :
      (maxsize staff : ℕ) (p : Producer) (t t' : Tasks S)
      → t.producer ≡ p
      → put_waiting maxsize p t ≡ some t'
      → Sound maxsize staff t
      → Sound maxsize staff t'
  put_waiting-Sound maxsize staff pausing t t' e h s = absurd (ground (arith, h))
  put_waiting-Sound maxsize staff (putting event) t t' e h s =
      let b : held_back t.producer ≡ 1 = rw e refl in
      let done =
        put-Sound maxsize staff event t s.bounded s.staffed s.counted
          (omega (arith, s.accounted, b)) in
      elim (Bool-cases (ltb (length t.queue) maxsize)) [
        | inl r ↦ let same : put maxsize event t ≡ t' = ground (arith, h, r) in rw (sym same) done
        | inr r ↦ absurd (ground (arith, h, r))
      ]

  after_replaying-Sound :
      (maxsize staff i : ℕ) (event : OutboundEvent) (answer : Posted) (t : Tasks S)
      (o : Option SimulatorStats)
      → get_elem? t.workers i ≡ some (replaying event)
      → settle_replay answer t.shared.stats ≡ o
      → Sound maxsize staff t
      → Sound maxsize staff (after_replaying i o t)
  after_replaying-Sound maxsize staff i event answer t none g e s = stop-Sound maxsize staff t s
  after_replaying-Sound maxsize staff i event answer t (some stats) g e s =
      let k = settle_replay-counts answer t.shared.stats stats e in
      (task_done-Sound maxsize staff i (replaying event)
        (record t { shared = record t.shared { stats = stats } }) g refl s.bounded s.staffed
        s.counted (omega (arith, s.accounted, k.0, k.1))).1

  replay_back-Sound :
      (maxsize staff i : ℕ) (answer : Posted) (o : Option Worker) (t t' : Tasks S)
      → get_elem? t.workers i ≡ o
      → replay_back i answer o t ≡ some t'
      → Sound maxsize staff t
      → Sound maxsize staff t'
  replay_back-Sound maxsize staff i answer (some (replaying event)) t t' g h s =
      rw (sym (some-injective _ _ h)) (
        after_replaying-Sound maxsize staff i event answer t (settle_replay answer t.shared.stats) g
          refl s)
  replay_back-Sound maxsize staff i answer none t t' g h s = absurd (ground (arith, h))
  replay_back-Sound maxsize staff i answer (some getting) t t' g h s = absurd (ground (arith, h))
  replay_back-Sound maxsize staff i answer (some (delivering _)) t t' g h s =
      absurd (ground (arith, h))

  after_settling-Sound :
      (maxsize staff i : ℕ) (event : OutboundEvent) (answer : Posted) (again : Bool) (t : Tasks S)
      (o : Option Shared)
      → get_elem? t.workers i ≡ some (delivering event)
      → settle_event event answer t.shared ≡ o
      → Sound maxsize staff t
      → Sound maxsize staff (after_settling i event again o t)
  after_settling-Sound maxsize staff i event answer again t none g e s =
      stop-Sound maxsize staff t s
  after_settling-Sound maxsize staff i event answer true t (some shared) g e s =
      let k = settle_event-counts event answer t.shared shared e in
      let b =
        total-set_elem busy t.workers i (delivering event) (replaying (make_duplicate event)) g in
      let u =
        total-set_elem unsettled t.workers i (delivering event) (replaying (make_duplicate event))
          g in
      record {
        bounded = s.bounded;
        staffed = length-set_elem t.workers i _ ∙ s.staffed;
        counted = omega (arith, s.counted, b);
        accounted = omega (arith, s.accounted, u, k.0, k.1, k.2);
      }
  after_settling-Sound maxsize staff i event answer false t (some shared) g e s =
      let k = settle_event-counts event answer t.shared shared e in
      (task_done-Sound maxsize staff i (delivering event) (record t { shared = shared }) g refl
        s.bounded s.staffed s.counted (omega (arith, s.accounted, k.0, k.1, k.2))).1

  event_back-Sound :
      (maxsize staff : ℕ) (config : SimulatorConfig) (i : ℕ) (answer : Posted) (drawn : Float)
      (o : Option Worker) (t t' : Tasks S)
      → get_elem? t.workers i ≡ o
      → event_back config i answer drawn o t ≡ some t'
      → Sound maxsize staff t
      → Sound maxsize staff t'
  event_back-Sound maxsize staff config i answer drawn (some (delivering event)) t t' g h s =
      rw (sym (some-injective _ _ h)) (
        after_settling-Sound maxsize staff i event answer (replays config event answer drawn) t
          (settle_event event answer t.shared) g refl s)
  event_back-Sound maxsize staff config i answer drawn none t t' g h s = absurd (ground (arith, h))
  event_back-Sound maxsize staff config i answer drawn (some getting) t t' g h s =
      absurd (ground (arith, h))
  event_back-Sound maxsize staff config i answer drawn (some (replaying _)) t t' g h s =
      absurd (ground (arith, h))

module _ {S : Type 0} (rng : Rng S) (expovariate : Float → S → Float × S)
    (config : SimulatorConfig) where
  put_made-Sound :
      (made : Option (Option OutboundEvent × Sales × S)) (t : Tasks S)
      → t.producer ≡ pausing
      → Sound (pos_part config.queue_size) (pos_part config.worker_count) t
      → Sound
          (pos_part config.queue_size)
          (pos_part config.worker_count)
          (put_made rng expovariate config made t)
  put_made-Sound none t e s = stop-Sound _ _ t s
  put_made-Sound (some (none, sales, x)) t e s = stop-Sound _ _ t s
  put_made-Sound (some (some event, sales, x)) t e s =
      let k = count_generated-counts event t.shared.stats in
      let b : held_back t.producer ≡ 0 = rw e refl in
      put-Sound (pos_part config.queue_size) (pos_part config.worker_count) event _ s.bounded
        s.staffed s.counted (omega (arith, s.accounted, b, k.0, k.1, k.2))

  pause_over-Sound :
      (now id : ℕ) (p : Producer) (t t' : Tasks S)
      → t.producer ≡ p
      → pause_over rng expovariate config now id p t ≡ some t'
      → Sound (pos_part config.queue_size) (pos_part config.worker_count) t
      → Sound (pos_part config.queue_size) (pos_part config.worker_count) t'
  pause_over-Sound now id (putting event) t t' e h s = absurd (ground (arith, h))
  pause_over-Sound now id pausing t t' e h s =
      rw (sym (some-injective _ _ h)) (put_made-Sound _ t e s)

  settle_heartbeat-Sound :
      (x : Heartbeat) (maxsize staff : ℕ) (t : Tasks S)
      → Sound maxsize staff t
      → Sound maxsize staff (settle_heartbeat x t)
  settle_heartbeat-Sound beat maxsize staff t s = s
  settle_heartbeat-Sound http_error maxsize staff t s = s
  settle_heartbeat-Sound other_error maxsize staff t s = stop-Sound maxsize staff t s

  pub happen-Sound :
      (h : Happening) (t t' : Tasks S)
      → happen rng expovariate config h t ≡ some t'
      → Sound (pos_part config.queue_size) (pos_part config.worker_count) t
      → Sound (pos_part config.queue_size) (pos_part config.worker_count) t'
  unfolding happen make_event go_on_putting take_event settle_delivering settle_replaying
  happen-Sound (paused now id) t t' e s = pause_over-Sound now id t.producer t t' refl e s
  happen-Sound room t t' e s = put_waiting-Sound _ _ t.producer t t' refl e s
  happen-Sound (got i) t t' e s =
      hand_out-Sound _ _ i t t' (get_elem? t.workers i) t.queue refl refl e s
  happen-Sound (event_answered i answer drawn) t t' e s =
      event_back-Sound _ _ config i answer drawn (get_elem? t.workers i) t t' refl e s
  happen-Sound (replay_answered i answer) t t' e s =
      replay_back-Sound _ _ i answer (get_elem? t.workers i) t t' refl e s
  happen-Sound (heartbeat_answered x) t t' e s =
      rw (sym (some-injective _ _ e)) (settle_heartbeat-Sound x _ _ t s)
  happen-Sound stats_due t t' e s = rw (sym (some-injective _ _ e)) s

  pub run_tasks-step :
      (h : Happening) (l : List Happening) (t t' : Tasks S)
      → run_tasks rng expovariate config (h ∷ l) t ≡ some t'
      → (m : Tasks S) × (t.stopped ≡ false)
        × (happen rng expovariate config h t ≡ some m)
        × (run_tasks rng expovariate config l m ≡ some t')
  unfolding run_tasks
  run_tasks-step h l t t' e = elim (Bool-cases t.stopped) [
    | inl s ↦ absurd (ground (arith, s, e))
    | inr s ↦ elim (Option-cases (happen rng expovariate config h t)) [
      | inl n ↦ absurd (ground (arith, s, n, e))
      | inr (m, n) ↦ (m, s, n, ground (arith, s, n, e))
    ]
  ]

  pub run_tasks-Sound :
      (l : List Happening) (t t' : Tasks S)
      → run_tasks rng expovariate config l t ≡ some t'
      → Sound (pos_part config.queue_size) (pos_part config.worker_count) t
      → Sound (pos_part config.queue_size) (pos_part config.worker_count) t'
  unfolding run_tasks
  run_tasks-Sound [] t t' e s = rw (sym (some-injective _ _ e)) s
  run_tasks-Sound (h ∷ l) t t' e s =
      let (m, _, n, r) = run_tasks-step h l t t' e in
      run_tasks-Sound l m t' r (happen-Sound h t m n s)

  length-repeat : {A : Type 0} (n : ℕ) (a : A) → length (repeat n a) ≡ n
  length-repeat zero a = refl
  length-repeat (suc n) a = ap suc (length-repeat n a)

  total-repeat : (f : Worker → ℕ) (n : ℕ) → f getting ≡ 0 → total f (repeat n getting) ≡ 0
  unfolding total
  total-repeat f zero h = refl
  total-repeat f (suc n) h = omega (arith, h, total-repeat f n h)

  start-Sound :
      (seeded : S)
      → Sound
          (pos_part config.queue_size)
          (pos_part config.worker_count)
          (start_tasks config seeded)
  unfolding start_tasks
  start-Sound seeded =
      let n = pos_part config.worker_count in
      record {
        bounded = omega arith;
        staffed = length-repeat n getting;
        counted = omega (arith, total-repeat busy n refl);
        accounted = omega (arith, total-repeat unsettled n refl);
      }

  -- Whatever the tasks do, from their start on: the queue never holds more than `queue_size`
  -- events; its count of unfinished tasks is the events in it and those that the workers have in
  -- hand; and every event that was made waits in the queue, waits for room in it, is being
  -- delivered, or is counted as accepted, duplicate or failed, where the deliberate duplicates that
  -- were delivered are counted apart.
  pub run-Sound :
      (seeded : S) (l : List Happening) (t : Tasks S)
      → run_tasks rng expovariate config l (start_tasks config seeded) ≡ some t
      → Sound (pos_part config.queue_size) (pos_part config.worker_count) t
  run-Sound seeded l t e = run_tasks-Sound l (start_tasks config seeded) t e (start-Sound seeded)
