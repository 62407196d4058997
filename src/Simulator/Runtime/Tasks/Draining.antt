-- ===== src/Simulator/Runtime/Tasks/Draining.antt =====
-- The workers bring every event to its end.
use mathlib.Core.Option.{some-injective}
use storepulse.Prelude.{
  ℕ, suc, ◌+◌, ◌*◌, ◌≤◌, ◌≡◌, ◌≢◌, ◌⊎◌, refl, sym, Bool, true, false, Option, none, some, List, [],
  ◌∷◌, ◌++◌, inl, inr, arith, length, length-append, ltb, ◌==◌, Bool-cases,
}
use storepulse.Simulator.Float.{Float}
use storepulse.Simulator.Config.{SimulatorConfig}
use storepulse.Simulator.Transport.{
  Posted, receipt, permanent_error, retry_exhausted, type_error, overflow_error, unsettled,
}
use storepulse.Simulator.Domain.{OutboundEvent, get_elem?, make_duplicate}
use storepulse.Simulator.Runtime.{SimulatorStats, Shared, settle_event, settle_replay}
use storepulse.Simulator.Runtime.Tasks.{
  Producer, pausing, putting, Worker, getting, delivering, replaying, Tasks, Happening, room, got,
  event_answered, replay_answered, hand_out, put_waiting, replay_back, event_back, replays,
  task_done, put, after_settling,
}
use storepulse.Simulator.Runtime.Tasks.Accounts.{total, total-set_elem, total-busy, busy, held_back}

-- What an event still needs before its round is over.
abbrev pub effort : Worker → ℕ
effort getting = 0
effort (delivering e) = 2
effort (replaying e) = 1

abbrev pub work : {S : Type 0} → Tasks S → ℕ
work t = 4 * held_back t.producer + 3 * length t.queue + total effort t.workers

-- An outcome of a call that the worker handles: all but an exception that it does not catch.
abbrev pub IsHandled : Posted → Type 0
IsHandled (receipt r) = Unit
IsHandled (permanent_error _) = Unit
IsHandled (retry_exhausted _) = Unit
IsHandled _ = ⊥

-- A happening that brings an event on.
abbrev pub IsWork : Happening → Type 0
IsWork room = Unit
IsWork (got i) = Unit
IsWork (event_answered i answer drawn) = IsHandled answer
IsWork (replay_answered i answer) = IsHandled answer
IsWork _ = ⊥

pub settle_event-IsHandled :
    (event : OutboundEvent) (answer : Posted) (s : Shared)
    → IsHandled answer
    → (s' : Shared) × (settle_event event answer s ≡ some s')
unfolding settle_event
settle_event-IsHandled event (receipt r) s h = (_, refl)
settle_event-IsHandled event (permanent_error _) s h = (_, refl)
settle_event-IsHandled event (retry_exhausted _) s h = (_, refl)
settle_event-IsHandled event type_error s h = elim h [ ]
settle_event-IsHandled event overflow_error s h = elim h [ ]
settle_event-IsHandled event unsettled s h = elim h [ ]

pub settle_replay-IsHandled :
    (answer : Posted) (s : SimulatorStats)
    → IsHandled answer
    → (s' : SimulatorStats) × (settle_replay answer s ≡ some s')
unfolding settle_replay
settle_replay-IsHandled (receipt r) s h = (_, refl)
settle_replay-IsHandled (permanent_error _) s h = (_, refl)
settle_replay-IsHandled (retry_exhausted _) s h = (_, refl)
settle_replay-IsHandled type_error s h = elim h [ ]
settle_replay-IsHandled overflow_error s h = elim h [ ]
settle_replay-IsHandled unsettled s h = elim h [ ]

module _ {S : Type 0} where
  -- The tasks go on, and less is left to do.
  abbrev pub Advances : Tasks S → Tasks S → Type 0
  Advances t t' = (t'.stopped ≡ t.stopped) × (suc (work t') ≤ work t)

  pub put_waiting-Advances :
      (maxsize : ℕ) (p : Producer) (t t' : Tasks S)
      → t.producer ≡ p
      → put_waiting maxsize p t ≡ some t'
      → Advances t t'
  unfolding put
  put_waiting-Advances maxsize pausing t t' e h = absurd (ground (arith, h))
  put_waiting-Advances maxsize (putting event) t t' e h =
      let b : held_back t.producer ≡ 1 = rw e refl in
      elim (Bool-cases (ltb (length t.queue) maxsize)) [
        | inl r ↦
            let longer : length (t.queue ++ (event ∷ [])) ≡ length t.queue + 1 =
              length-append t.queue (event ∷ []) in
            let same : record t {
              queue = t.queue ++ (event ∷ []);
              unfinished = t.unfinished + 1;
              producer = pausing;
            }
                ≡ t' =
              ground (arith, h, r) in
            rw (sym same) (refl, omega (arith, longer, b))
        | inr r ↦ absurd (ground (arith, h, r))
      ]

  pub hand_out-Advances :
      (i : ℕ) (t t' : Tasks S) (o : Option Worker) (q : List OutboundEvent)
      → get_elem? t.workers i ≡ o
      → t.queue ≡ q
      → hand_out i o q t ≡ some t'
      → Advances t t'
  hand_out-Advances i t t' (some getting) (event ∷ rest) g q h =
      let b = total-set_elem effort t.workers i getting (delivering event) g in
      let n : length t.queue ≡ suc (length rest) = rw q refl in
      rw (sym (some-injective _ _ h)) (refl, omega (arith, n, b))
  hand_out-Advances i t t' (some getting) [] g q h = absurd (ground (arith, h))
  hand_out-Advances i t t' none q g e h = absurd (ground (arith, h))
  hand_out-Advances i t t' (some (delivering _)) q g e h = absurd (ground (arith, h))
  hand_out-Advances i t t' (some (replaying _)) q g e h = absurd (ground (arith, h))

  -- A round ends, and no ValueError with it.
  task_done-Advances :
      (i : ℕ) (w : Worker) (t : Tasks S)
      → get_elem? t.workers i ≡ some w
      → busy w ≡ 1
      → t.unfinished ≡ length t.queue + total busy t.workers
      → ((task_done i t).stopped ≡ t.stopped) × (work (task_done i t) + effort w ≡ work t)
  unfolding task_done
  task_done-Advances i w t g k c =
      let positive = total-busy t.workers i w g in
      let e : (t.unfinished == 0) ≡ false = ground (arith, positive, c, k) in
      rw e (refl, omega (arith, total-set_elem effort t.workers i w getting g))

  pub replay_back-Advances :
      (i : ℕ) (answer : Posted) (o : Option Worker) (t t' : Tasks S)
      → IsHandled answer
      → t.unfinished ≡ length t.queue + total busy t.workers
      → get_elem? t.workers i ≡ o
      → replay_back i answer o t ≡ some t'
      → Advances t t'
  replay_back-Advances i answer (some (replaying event)) t t' y c g h =
      let (stats, e) = settle_replay-IsHandled answer t.shared.stats y in
      let d =
        task_done-Advances i (replaying event)
          (record t { shared = record t.shared { stats = stats } }) g refl c in
      let same : task_done i (record t { shared = record t.shared { stats = stats } }) ≡ t' =
        ground (arith, h, e) in
      rw (sym same) (d.0, omega (arith, d.1))
  replay_back-Advances i answer none t t' y c g h = absurd (ground (arith, h))
  replay_back-Advances i answer (some getting) t t' y c g h = absurd (ground (arith, h))
  replay_back-Advances i answer (some (delivering _)) t t' y c g h = absurd (ground (arith, h))

  pub after_settling-Advances :
      (i : ℕ) (event : OutboundEvent) (again : Bool) (shared : Shared) (t : Tasks S)
      → t.unfinished ≡ length t.queue + total busy t.workers
      → get_elem? t.workers i ≡ some (delivering event)
      → Advances t (after_settling i event again (some shared) t)
  after_settling-Advances i event true shared t c g = (
    refl,
    omega (
      arith,
      total-set_elem effort t.workers i (delivering event) (replaying (make_duplicate event)) g,
    ),
  )
  after_settling-Advances i event false shared t c g =
      let d = task_done-Advances i (delivering event) (record t { shared = shared }) g refl c in
      (d.0, omega (arith, d.1))

  pub event_back-Advances :
      (config : SimulatorConfig) (i : ℕ) (answer : Posted) (drawn : Float) (o : Option Worker)
      (t t' : Tasks S)
      → IsHandled answer
      → t.unfinished ≡ length t.queue + total busy t.workers
      → get_elem? t.workers i ≡ o
      → event_back config i answer drawn o t ≡ some t'
      → Advances t t'
  event_back-Advances config i answer drawn (some (delivering event)) t t' y c g h =
      let (shared, e) = settle_event-IsHandled event answer t.shared y in
      let again = replays config event answer drawn in
      let same : after_settling i event again (settle_event event answer t.shared) t ≡ t' =
        some-injective _ _ h in
      rw (sym same, e) (after_settling-Advances i event again shared t c g)
  event_back-Advances config i answer drawn none t t' y c g h = absurd (ground (arith, h))
  event_back-Advances config i answer drawn (some getting) t t' y c g h = absurd (ground (arith, h))
  event_back-Advances config i answer drawn (some (replaying _)) t t' y c g h =
      absurd (ground (arith, h))

-- A worker that is not in `queue.get`, where one has something to do.
pub find_worker :
    (l : List Worker)
    → (total effort l ≡ 0) ⊎ ((i : ℕ) × (w : Worker) × (get_elem? l i ≡ some w) × (effort w ≢ 0))
unfolding total
find_worker [] = inl refl
find_worker (getting ∷ l) = elim (find_worker l) [
  | inl e ↦ inl (omega (arith, e))
  | inr (i, w, g, n) ↦ inr (suc i, w, g, n)
]
find_worker (delivering e ∷ l) = inr (0, delivering e, refl, ground arith)
find_worker (replaying e ∷ l) = inr (0, replaying e, refl, ground arith)

pub all_getting : (l : List Worker) → total effort l ≡ 0 → total busy l ≡ 0
unfolding total
all_getting [] h = refl
all_getting (getting ∷ l) h = omega (arith, all_getting l (omega (arith, h)))
all_getting (delivering e ∷ l) h = absurd (omega (arith, h))
all_getting (replaying e ∷ l) h = absurd (omega (arith, h))
