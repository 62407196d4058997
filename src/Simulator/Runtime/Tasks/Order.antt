-- ===== src/Simulator/Runtime/Tasks/Order.antt =====
-- The workers take the events in the order in which they were made, and each once.
use mathlib.Core.Option.{some-injective}
use mathlib.Core.List.{append-nil, append_assoc}
use storepulse.Prelude.{
  ℕ, ◌≡◌, refl, sym, ◌∙◌, ap, Bool, true, false, Option, none, some, List, [], ◌∷◌, ◌++◌, inl, inr,
  arith, length, ltb, Bool-cases,
}
use storepulse.Prelude.Int.{pos_part}
use storepulse.Simulator.Float.{Float}
use storepulse.Simulator.Config.{SimulatorConfig}
use storepulse.Simulator.Rng.{Rng}
use storepulse.Simulator.Transport.{Posted}
use storepulse.Simulator.Domain.{OutboundEvent, Sales, get_elem?}
use storepulse.Simulator.Domain.Generator.{make_business_event}
use storepulse.Simulator.Runtime.{SimulatorStats, Shared, settle_event, settle_replay}
use storepulse.Simulator.Runtime.Tasks.{
  Producer, pausing, putting, Worker, getting, delivering, replaying, Tasks, Heartbeat, beat,
  http_error, other_error, Happening, paused, room, got, event_answered, replay_answered,
  heartbeat_answered, stats_due, hand_out, put_waiting, after_replaying, replay_back, event_back,
  pause_over, replays, task_done, put, take_event, go_on_putting, settle_replaying, after_settling,
  settle_delivering, settle_heartbeat, put_made, make_event, happen, run_tasks, start_tasks,
}
use storepulse.Simulator.Runtime.Tasks.Invariant.{run_tasks-step}

abbrev pub held_event : Producer → List OutboundEvent
held_event pausing = []
held_event (putting e) = e ∷ []

-- The events that no worker has taken yet, in order.
abbrev pub line : {S : Type 0} → Tasks S → List OutboundEvent
line t = t.queue ++ held_event t.producer

abbrev pub event_made :
    {S : Type 0} → Option (Option OutboundEvent × Sales × S) → List OutboundEvent
event_made (some (some event, sales, s)) = event ∷ []
event_made _ = []

abbrev pub first_of : Option Worker → List OutboundEvent → List OutboundEvent
first_of (some getting) (event ∷ rest) = event ∷ []
first_of _ _ = []

-- The event that a happening takes out of the queue.
unfoldable pub taken : {S : Type 0} → Happening → Tasks S → List OutboundEvent
taken (got i) t = first_of (get_elem? t.workers i) t.queue
taken _ t = []

module _ {S : Type 0} where
  put-line :
      (maxsize : ℕ) (event : OutboundEvent) (t : Tasks S)
      → line (put maxsize event t) ≡ t.queue ++ (event ∷ [])
  unfolding put
  put-line maxsize event t = elim (Bool-cases (ltb (length t.queue) maxsize)) [
    | inl e ↦ rw (e, append-nil) refl
    | inr e ↦ rw e refl
  ]

  put_waiting-line :
      (maxsize : ℕ) (p : Producer) (t t' : Tasks S)
      → t.producer ≡ p
      → put_waiting maxsize p t ≡ some t'
      → line t ≡ line t'
  unfolding put
  put_waiting-line maxsize pausing t t' e h = absurd (ground (arith, h))
  put_waiting-line maxsize (putting event) t t' e h =
      elim (Bool-cases (ltb (length t.queue) maxsize)) [
        | inl r ↦
            let same : put maxsize event t ≡ t' = ground (arith, h, r) in
            rw (sym same, e) (sym (put-line maxsize event t))
        | inr r ↦ absurd (ground (arith, h, r))
      ]

  hand_out-line :
      (i : ℕ) (t t' : Tasks S) (o : Option Worker) (q : List OutboundEvent)
      → t.queue ≡ q
      → hand_out i o q t ≡ some t'
      → line t ≡ first_of o q ++ line t'
  hand_out-line i t t' (some getting) (event ∷ rest) e h = rw (sym (some-injective _ _ h), e) refl
  hand_out-line i t t' (some getting) [] e h = absurd (ground (arith, h))
  hand_out-line i t t' none q e h = absurd (ground (arith, h))
  hand_out-line i t t' (some (delivering _)) q e h = absurd (ground (arith, h))
  hand_out-line i t t' (some (replaying _)) q e h = absurd (ground (arith, h))

  task_done-line : (i : ℕ) (t : Tasks S) → line (task_done i t) ≡ line t
  unfolding task_done
  task_done-line i t = ground arith

  after_replaying-line :
      (i : ℕ) (o : Option SimulatorStats) (t : Tasks S) → line (after_replaying i o t) ≡ line t
  after_replaying-line i none t = refl
  after_replaying-line i (some stats) t = task_done-line i _

  replay_back-line :
      (i : ℕ) (answer : Posted) (o : Option Worker) (t t' : Tasks S)
      → replay_back i answer o t ≡ some t'
      → line t ≡ line t'
  replay_back-line i answer (some (replaying event)) t t' h =
      rw (sym (some-injective _ _ h))
        (sym (after_replaying-line i (settle_replay answer t.shared.stats) t))
  replay_back-line i answer none t t' h = absurd (ground (arith, h))
  replay_back-line i answer (some getting) t t' h = absurd (ground (arith, h))
  replay_back-line i answer (some (delivering _)) t t' h = absurd (ground (arith, h))

  after_settling-line :
      (i : ℕ) (event : OutboundEvent) (again : Bool) (o : Option Shared) (t : Tasks S)
      → line (after_settling i event again o t) ≡ line t
  after_settling-line i event again none t = refl
  after_settling-line i event true (some shared) t = refl
  after_settling-line i event false (some shared) t = task_done-line i _

  event_back-line :
      (config : SimulatorConfig) (i : ℕ) (answer : Posted) (drawn : Float) (o : Option Worker)
      (t t' : Tasks S)
      → event_back config i answer drawn o t ≡ some t'
      → line t ≡ line t'
  event_back-line config i answer drawn (some (delivering event)) t t' h =
      rw (sym (some-injective _ _ h)) (
        sym (
          after_settling-line i event (replays config event answer drawn)
            (settle_event event answer t.shared) t))
  event_back-line config i answer drawn none t t' h = absurd (ground (arith, h))
  event_back-line config i answer drawn (some getting) t t' h = absurd (ground (arith, h))
  event_back-line config i answer drawn (some (replaying _)) t t' h = absurd (ground (arith, h))

  settle_heartbeat-line : (x : Heartbeat) (t : Tasks S) → line (settle_heartbeat x t) ≡ line t
  settle_heartbeat-line beat t = refl
  settle_heartbeat-line http_error t = refl
  settle_heartbeat-line other_error t = refl

module _ {S : Type 0} (rng : Rng S) (expovariate : Float → S → Float × S)
    (config : SimulatorConfig) where
  -- The event that a happening makes.
  abbrev pub made_by : ℕ → ℕ → Producer → Tasks S → List OutboundEvent
  made_by now id (putting event) t = []
  made_by now id pausing t = event_made (
      make_business_event rng config now id t.shared.sales
        (expovariate config.events_per_second t.state).1)

  unfoldable pub made : Happening → Tasks S → List OutboundEvent
  made (paused now id) t = made_by now id t.producer t
  made _ t = []

  -- The events that a run makes and takes, in order.
  unfoldable pub made_in : List Happening → Tasks S → List OutboundEvent
  unfolding made happen
  made_in [] t = []
  made_in (h ∷ l) t =
      made h t ++ elim (happen rng expovariate config h t) [ none ↦ [] | some m ↦ made_in l m ]

  unfoldable pub taken_in : List Happening → Tasks S → List OutboundEvent
  unfolding taken happen
  taken_in [] t = []
  taken_in (h ∷ l) t =
      taken h t ++ elim (happen rng expovariate config h t) [ none ↦ [] | some m ↦ taken_in l m ]

  put_made-line :
      (x : Option (Option OutboundEvent × Sales × S)) (t : Tasks S)
      → t.producer ≡ pausing
      → line t ++ event_made x ≡ line (put_made rng expovariate config x t)
  put_made-line none t e = append-nil (line t)
  put_made-line (some (none, sales, s)) t e = append-nil (line t)
  put_made-line (some (some event, sales, s)) t e =
      rw (e, append-nil t.queue) (sym (put-line (pos_part config.queue_size) event _))

  pause_over-line :
      (now id : ℕ) (p : Producer) (t t' : Tasks S)
      → t.producer ≡ p
      → pause_over rng expovariate config now id p t ≡ some t'
      → line t ++ made_by now id p t ≡ line t'
  pause_over-line now id (putting event) t t' e h = absurd (ground (arith, h))
  pause_over-line now id pausing t t' e h = put_made-line _ t e ∙ ap line (some-injective _ _ h)

  happen-line :
      (h : Happening) (t t' : Tasks S)
      → happen rng expovariate config h t ≡ some t'
      → line t ++ made h t ≡ taken h t ++ line t'
  unfolding happen make_event go_on_putting take_event settle_delivering settle_replaying made taken
  happen-line (paused now id) t t' e = pause_over-line now id t.producer t t' refl e
  happen-line room t t' e = append-nil (line t) ∙ put_waiting-line _ t.producer t t' refl e
  happen-line (got i) t t' e =
      append-nil (line t) ∙ hand_out-line i t t' (get_elem? t.workers i) t.queue refl e
  happen-line (event_answered i answer drawn) t t' e =
      append-nil (line t) ∙ event_back-line config i answer drawn (get_elem? t.workers i) t t' e
  happen-line (replay_answered i answer) t t' e =
      append-nil (line t) ∙ replay_back-line i answer (get_elem? t.workers i) t t' e
  happen-line (heartbeat_answered x) t t' e =
      append-nil (line t) ∙ (sym (settle_heartbeat-line x t) ∙ ap line (some-injective _ _ e))
  happen-line stats_due t t' e = append-nil (line t) ∙ ap line (some-injective _ _ e)

  run_tasks-line :
      (l : List Happening) (t t' : Tasks S)
      → run_tasks rng expovariate config l t ≡ some t'
      → line t ++ made_in l t ≡ taken_in l t ++ line t'
  unfolding run_tasks made_in taken_in
  run_tasks-line [] t t' e = append-nil (line t) ∙ ap line (some-injective _ _ e)
  run_tasks-line (h ∷ l) t t' e =
      let (m, _, n, r) = run_tasks-step rng expovariate config h l t t' e in
      rw n (
        sym (append_assoc (line t) (made h t) (made_in l m))
        ∙ (ap (λ x. x ++ made_in l m) (happen-line h t m n)
            ∙ (append_assoc (taken h t) (line m) (made_in l m)
                ∙ (ap (λ x. taken h t ++ x) (run_tasks-line l m t' r)
                    ∙ sym (append_assoc (taken h t) (taken_in l m) (line t'))))))

  -- Whatever the tasks do, from their start on: the events that were made are, in order, those that
  -- the workers took, those in the queue, and the one that waits for room.
  pub run-fifo :
      (seeded : S) (l : List Happening) (t : Tasks S)
      → run_tasks rng expovariate config l (start_tasks config seeded) ≡ some t
      → made_in l (start_tasks config seeded)
        ≡ taken_in l (start_tasks config seeded) ++ (t.queue ++ held_event t.producer)
  unfolding start_tasks
  run-fifo seeded l t e = run_tasks-line l (start_tasks config seeded) t e
