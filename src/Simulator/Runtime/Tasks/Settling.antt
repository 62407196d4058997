-- ===== src/Simulator/Runtime/Tasks/Settling.antt =====
-- From every state the tasks can settle all events, and do so in boundedly many steps.
use mathlib.Core.Option.{some-injective}
use storepulse.Prelude.{
  ℕ, ◌+◌, ◌≤◌, ◌≡◌, ◌≢◌, ◌⊎◌, refl, sym, ap, ◌∙◌, true, false, some, List, [], ◌∷◌, inl, inr, arith,
  length, ltb, All,
}
use storepulse.Prelude.Int.{pos_part}
use storepulse.Simulator.Float.{Float}
use storepulse.Simulator.Config.{SimulatorConfig}
use storepulse.Simulator.Rng.{Rng}
use storepulse.Simulator.Transport.{Posted}
use storepulse.Simulator.Domain.{OutboundEvent, get_elem?}
use storepulse.Simulator.Runtime.Tasks.{
  Producer, pausing, putting, Worker, getting, delivering, replaying, Tasks, Happening, paused,
  room, got, event_answered, replay_answered, heartbeat_answered, stats_due, hand_out, put_waiting,
  replay_back, event_back, put, take_event, go_on_putting, settle_replaying, settle_delivering,
  happen, run_tasks, start_tasks,
}
use storepulse.Simulator.Runtime.Tasks.Accounts.{total, busy, Sound}
use storepulse.Simulator.Runtime.Tasks.Invariant.{happen-Sound, run_tasks-step}
use storepulse.Simulator.Runtime.Tasks.Draining.{
  effort, work, IsHandled, IsWork, Advances, put_waiting-Advances, hand_out-Advances,
  replay_back-Advances, event_back-Advances, find_worker, all_getting,
}
use storepulse.Simulator.Runtime.Tasks.Invariant.{happen-Sound, run_tasks-step, run-Sound}

-- Nothing waits, and no worker has an event in hand.
abbrev pub Settled : {S : Type 0} → Tasks S → Type 0
Settled t =
    (t.queue ≡ []) × (t.producer ≡ pausing) × (t.unfinished ≡ 0) × (total busy t.workers ≡ 0)

first_worker : (l : List Worker) → 1 ≤ length l → total effort l ≡ 0 → get_elem? l 0 ≡ some getting
unfolding total
first_worker [] h k = absurd (omega (arith, h))
first_worker (getting ∷ l) h k = refl
first_worker (delivering e ∷ l) h k = absurd (omega (arith, k))
first_worker (replaying e ∷ l) h k = absurd (omega (arith, k))

module _ {S : Type 0} (rng : Rng S) (expovariate : Float → S → Float × S)
    (config : SimulatorConfig) where
  -- Some task can bring an event on without a stop.
  abbrev pub CanAdvance : Tasks S → Type 0
  CanAdvance t =
      (h : Happening) × (m : Tasks S) × IsWork h
      × (happen rng expovariate config h t ≡ some m)
      × (m.stopped ≡ false)

  happen-Advances :
      (maxsize staff : ℕ) (h : Happening) (t t' : Tasks S)
      → IsWork h
      → Sound maxsize staff t
      → happen rng expovariate config h t ≡ some t'
      → Advances t t'
  unfolding happen go_on_putting take_event settle_delivering settle_replaying
  happen-Advances maxsize staff room t t' y s e = put_waiting-Advances _ t.producer t t' refl e
  happen-Advances maxsize staff (got i) t t' y s e =
      hand_out-Advances i t t' (get_elem? t.workers i) t.queue refl refl e
  happen-Advances maxsize staff (event_answered i answer drawn) t t' y s e =
      event_back-Advances config i answer drawn (get_elem? t.workers i) t t' y s.counted refl e
  happen-Advances maxsize staff (replay_answered i answer) t t' y s e =
      replay_back-Advances i answer (get_elem? t.workers i) t t' y s.counted refl e
  happen-Advances maxsize staff (paused now id) t t' y s e = elim y [ ]
  happen-Advances maxsize staff (heartbeat_answered x) t t' y s e = elim y [ ]
  happen-Advances maxsize staff stats_due t t' y s e = elim y [ ]

  -- A happening that is possible does not stop the tasks.
  advance :
      (maxsize staff : ℕ) (h : Happening) (t m : Tasks S)
      → IsWork h
      → Sound maxsize staff t
      → t.stopped ≡ false
      → happen rng expovariate config h t ≡ some m
      → CanAdvance t
  advance maxsize staff h t m y s f e =
      (h, m, y, e, (happen-Advances maxsize staff h t m y s e).0 ∙ f)

  busy_advances :
      (maxsize staff i : ℕ) (w : Worker) (answer : Posted) (drawn : Float) (t : Tasks S)
      → IsHandled answer
      → Sound maxsize staff t
      → t.stopped ≡ false
      → get_elem? t.workers i ≡ some w
      → effort w ≢ 0
      → CanAdvance t
  unfolding happen settle_delivering settle_replaying
  busy_advances maxsize staff i getting answer drawn t y s f g n = absurd (n refl)
  busy_advances maxsize staff i (delivering event) answer drawn t y s f g n =
      advance maxsize staff (event_answered i answer drawn) t _ y s f
        (ap (λ o. event_back config i answer drawn o t) g)
  busy_advances maxsize staff i (replaying event) answer drawn t y s f g n =
      advance maxsize staff (replay_answered i answer) t _ y s f
        (ap (λ o. replay_back i answer o t) g)

  idle_advances :
      (maxsize staff : ℕ) (q : List OutboundEvent) (x : Producer) (t : Tasks S)
      → Sound maxsize staff t
      → t.stopped ≡ false
      → total effort t.workers ≡ 0
      → 1 ≤ staff
      → 1 ≤ pos_part config.queue_size
      → t.queue ≡ q
      → t.producer ≡ x
      → Settled t ⊎ CanAdvance t
  unfolding happen take_event go_on_putting
  idle_advances maxsize staff (event ∷ rest) x t s f z n k q e =
      let g = first_worker t.workers (omega (arith, s.staffed, n)) z in
      inr (
        advance maxsize staff (got 0) t _ _ s f
          (ap (λ o. hand_out 0 o t.queue t) g ∙ ap (λ l. hand_out 0 (some getting) l t) q))
  idle_advances maxsize staff [] (putting event) t s f z n k q e =
      let r : ltb (length t.queue) (pos_part config.queue_size) ≡ true = rw q (ground (arith, k)) in
      let go : put_waiting (pos_part config.queue_size) (putting event) t
          ≡ some (put (pos_part config.queue_size) event t) =
        rw r refl in
      inr (
        advance maxsize staff room t _ _ s f
          (ap (λ x. put_waiting (pos_part config.queue_size) x t) e ∙ go))
  idle_advances maxsize staff [] pausing t s f z n k q e =
      let none_in_hand = all_getting t.workers z in
      let len : length t.queue ≡ 0 = rw q refl in
      inl (q, e, omega (arith, s.counted, none_in_hand, len), none_in_hand)

  progress :
      (maxsize staff : ℕ) (answer : Posted) (drawn : Float) (t : Tasks S)
      → IsHandled answer
      → Sound maxsize staff t
      → t.stopped ≡ false
      → 1 ≤ staff
      → 1 ≤ pos_part config.queue_size
      → Settled t ⊎ CanAdvance t
  progress maxsize staff answer drawn t y s f n k = elim (find_worker t.workers) [
    | inl z ↦ idle_advances maxsize staff t.queue t.producer t s f z n k refl refl
    | inr (i, w, g, e) ↦ inr (busy_advances maxsize staff i w answer drawn t y s f g e)
  ]

  -- A run of working happenings is no longer than the work that it does.
  run-work :
      (l : List Happening) (t t' : Tasks S)
      → All IsWork l
      → Sound (pos_part config.queue_size) (pos_part config.worker_count) t
      → t.stopped ≡ false
      → run_tasks rng expovariate config l t ≡ some t'
      → (length l + work t' ≤ work t)
        × (t'.stopped ≡ false)
        × Sound (pos_part config.queue_size) (pos_part config.worker_count) t'
  unfolding run_tasks
  run-work [] t t' y s f e = rw (sym (some-injective _ _ e)) (omega arith, f, s)
  run-work (h ∷ l) t t' y s f e =
      let (m, _, n, r) = run_tasks-step rng expovariate config h l t t' e in
      let less = happen-Advances _ _ h t m y.0 s n in
      let sound = happen-Sound rng expovariate config h t m n s in
      let rest = run-work l m t' y.1 sound (less.0 ∙ f) r in
      (omega (arith, less.1, rest.0), rest.1, rest.2)

  -- Take at least one worker, room for one event in the queue, and any state that the tasks reach
  -- without a stop, and let them only bring events on, where each call ends with a receipt or with an error that the worker handles. Such a run has at most
  -- `work` steps, a number that is 0 only where nothing is left to do. And where it cannot go on,
  -- whatever a further call would end with, every event is settled: the queue is empty, nothing
  -- waits for room, no worker has an event in hand, and the queue's count of unfinished tasks is 0.
  pub run_settles :
      (seeded : S) (past l : List Happening) (t t' : Tasks S) (answer : Posted) (drawn : Float)
      → 1 ≤ pos_part config.worker_count
      → 1 ≤ pos_part config.queue_size
      → run_tasks rng expovariate config past (start_tasks config seeded) ≡ some t
      → t.stopped ≡ false
      → All IsWork l
      → run_tasks rng expovariate config l t ≡ some t'
      → IsHandled answer
      → (length l + work t' ≤ work t) × (Settled t' ⊎ CanAdvance t')
  run_settles seeded past l t t' answer drawn n k e f y r a =
      let sound = run-Sound rng expovariate config seeded past t e in
      let (less, f', sound') = run-work l t t' y sound f r in
      (less, progress _ _ answer drawn t' a sound' f' n k)
