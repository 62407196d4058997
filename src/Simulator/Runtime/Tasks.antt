-- ===== src/Simulator/Runtime/Tasks.antt =====
-- simulator/simulator/runtime.py: the tasks of one simulator and the bounded queue between them.
-- Tasks interleave at awaits only. A happening is what an await of one of them comes back with; a
-- task then goes on to its next await. The awaited call of transport.py gives a `Posted`.
pub mod Accounts
pub mod Invariant
pub mod Order
pub mod Draining
pub mod Settling
mod Tests
use Prim.Native.String.{◌++◌ as append}
use storepulse.Prelude.{
  ℕ, zero, suc, ◌+◌, ◌-◌, Bool, true, false, ◌&&◌, String, Option, none, some, List, [], ◌∷◌, ◌++◌,
  if◌then◌else◌, ltb, ◌==◌, length,
}
use storepulse.Prelude.Int.{pos_part}
use storepulse.Simulator.Float.{Float}
use storepulse.Simulator.Config.{SimulatorConfig}
use storepulse.Simulator.Rng.{Rng}
use storepulse.Simulator.Transport.{Posted, receipt}
use storepulse.Simulator.Domain.{OutboundEvent, Sales, get_elem?, make_duplicate}
use storepulse.Simulator.Domain.Generator.{make_business_event}
use storepulse.Simulator.Runtime.{
  SimulatorStats, no_stats, Shared, count_generated, settle_event, sends_replay, settle_replay,
}

-- `_traffic_loop` waits for its pause to end, or in `queue.put` for room.
pub data Producer : Type 0 where
  pausing : Producer
  putting : OutboundEvent → Producer

-- `_delivery_worker` waits in `queue.get`, for the call for its event, or for that of a duplicate.
pub data Worker : Type 0 where
  getting : Worker
  delivering : OutboundEvent → Worker
  replaying : OutboundEvent → Worker

-- `unfinished` is the queue's count of tasks that are not done. Once a task has raised, the task
-- group cancels the others: `stopped`. What their `finally` clauses do then is left out.
pub record Tasks (S : Type 0) : Type 0 where
  pub queue : List OutboundEvent
  pub unfinished : ℕ
  pub producer : Producer
  pub workers : List Worker
  pub shared : Shared
  pub state : S
  pub stopped : Bool

-- How the post of a heartbeat ends: with a success, an `httpx.HTTPError`, or another exception.
pub data Heartbeat : Type 0 where
  beat http_error other_error : Heartbeat

pub data Happening : Type 0 where
  paused : ℕ → ℕ → Happening
  room : Happening
  got : ℕ → Happening
  event_answered : ℕ → Posted → Float → Happening
  replay_answered : ℕ → Posted → Happening
  heartbeat_answered : Heartbeat → Happening
  stats_due : Happening

abbrev pub set_elem : {A : Type 0} → List A → ℕ → A → List A
set_elem [] i a = []
set_elem (x ∷ l) zero a = a ∷ l
set_elem (x ∷ l) (suc i) a = x ∷ set_elem l i a

abbrev pub is_receipt : Posted → Bool
is_receipt (receipt r) = true
is_receipt _ = false

-- Whether the worker sends a deliberate duplicate after this answer.
abbrev pub replays : SimulatorConfig → OutboundEvent → Posted → Float → Bool
replays config event answer drawn = is_receipt answer && sends_replay config event drawn

module _ {S : Type 0} where
  abbrev pub stop : Tasks S → Tasks S
  stop t = record t { stopped = true }

  -- `queue.task_done()`, which raises a ValueError at 0; then the worker goes on as `w`.
  unfoldable pub task_done : ℕ → Tasks S → Tasks S
  task_done i t =
      if t.unfinished == 0
      then stop t
      else record t { unfinished = t.unfinished - 1; workers = set_elem t.workers i getting }

  -- `await queue.put(event)` on a queue of this size.
  unfoldable pub put : ℕ → OutboundEvent → Tasks S → Tasks S
  put maxsize event t =
      if ltb (length t.queue) maxsize
      then record t {
        queue = t.queue ++ (event ∷ []);
        unfinished = t.unfinished + 1;
        producer = pausing;
      }
      else record t { producer = putting event }

  -- `queue.get` of worker `i` comes back.
  abbrev pub hand_out : ℕ → Option Worker → List OutboundEvent → Tasks S → Option (Tasks S)
  hand_out i (some getting) (event ∷ rest) t =
      some (record t { queue = rest; workers = set_elem t.workers i (delivering event) })
  hand_out i _ _ t = none

  unfoldable pub take_event : ℕ → Tasks S → Option (Tasks S)
  take_event i t = hand_out i (get_elem? t.workers i) t.queue t

  -- `put` goes on when there is room.
  abbrev pub put_waiting : ℕ → Producer → Tasks S → Option (Tasks S)
  put_waiting maxsize pausing t = none
  put_waiting maxsize (putting event) t =
      if ltb (length t.queue) maxsize then some (put maxsize event t) else none

  unfoldable pub go_on_putting : ℕ → Tasks S → Option (Tasks S)
  unfolding put
  go_on_putting maxsize t = put_waiting maxsize t.producer t

  -- The rest of a round of `_delivery_worker`, once its replay is settled.
  abbrev pub after_replaying : ℕ → Option SimulatorStats → Tasks S → Tasks S
  after_replaying i none t = stop t
  after_replaying i (some stats) t =
      task_done i (record t { shared = record t.shared { stats = stats } })

  -- A replay's call has come back to worker `i`.
  abbrev pub replay_back : ℕ → Posted → Option Worker → Tasks S → Option (Tasks S)
  replay_back i answer (some (replaying event)) t =
      some (after_replaying i (settle_replay answer t.shared.stats) t)
  replay_back i answer _ t = none

  unfoldable pub settle_replaying : ℕ → Posted → Tasks S → Option (Tasks S)
  unfolding settle_replay task_done
  settle_replaying i answer t = replay_back i answer (get_elem? t.workers i) t

  -- The rest of a round once its event is settled, with or without a replay.
  abbrev pub after_settling : ℕ → OutboundEvent → Bool → Option Shared → Tasks S → Tasks S
  after_settling i event replay none t = stop t
  after_settling i event true (some shared) t = record t {
    shared = shared;
    workers = set_elem t.workers i (replaying (make_duplicate event));
  }
  after_settling i event false (some shared) t = task_done i (record t { shared = shared })

  -- The call for its event has come back to worker `i`.
  abbrev pub event_back :
      SimulatorConfig → ℕ → Posted → Float → Option Worker → Tasks S → Option (Tasks S)
  event_back config i answer drawn (some (delivering event)) t = some (
      after_settling i event (replays config event answer drawn)
        (settle_event event answer t.shared) t)
  event_back config i answer drawn _ t = none

  unfoldable pub settle_delivering :
      SimulatorConfig → ℕ → Posted → Float → Tasks S → Option (Tasks S)
  unfolding settle_event sends_replay task_done make_duplicate
  settle_delivering config i answer drawn t =
      event_back config i answer drawn (get_elem? t.workers i) t

-- `_heartbeat_loop` after its post: only an `httpx.HTTPError` is caught.
abbrev pub settle_heartbeat : {S : Type 0} → Heartbeat → Tasks S → Tasks S
settle_heartbeat other_error t = stop t
settle_heartbeat _ t = t

-- `expovariate` is the method of `random.Random`; its draw is the length of the pause.
module _ {S : Type 0} (rng : Rng S) (expovariate : Float → S → Float × S)
    (config : SimulatorConfig) where
  -- What `_traffic_loop` does with the event that was made.
  abbrev pub put_made : Option (Option OutboundEvent × Sales × S) → Tasks S → Tasks S
  put_made none t = stop t
  put_made (some (none, sales, s)) t = stop t
  put_made (some (some event, sales, s)) t = put (pos_part config.queue_size) event (record t {
    shared = record { sales = sales; stats = count_generated event t.shared.stats };
    state = s;
  })

  -- `_traffic_loop` from one pause on.
  abbrev pub pause_over : ℕ → ℕ → Producer → Tasks S → Option (Tasks S)
  pause_over now id (putting event) t = none
  pause_over now id pausing t =
      let (pause, s) = expovariate config.events_per_second t.state in
      some (put_made (make_business_event rng config now id t.shared.sales s) t)

  unfoldable pub make_event : ℕ → ℕ → Tasks S → Option (Tasks S)
  unfolding put count_generated make_business_event
  make_event now id t = pause_over now id t.producer t

  -- `none` for what cannot happen in this state.
  unfoldable pub happen : Happening → Tasks S → Option (Tasks S)
  unfolding make_event go_on_putting take_event settle_delivering settle_replaying
  happen (paused now id) t = make_event now id t
  happen room t = go_on_putting (pos_part config.queue_size) t
  happen (got i) t = take_event i t
  happen (event_answered i answer drawn) t = settle_delivering config i answer drawn t
  happen (replay_answered i answer) t = settle_replaying i answer t
  happen (heartbeat_answered h) t = some (settle_heartbeat h t)
  happen stats_due t = some t

  -- Happenings one after another, none of which comes after a stop.
  unfoldable pub run_tasks : List Happening → Tasks S → Option (Tasks S)
  unfolding happen
  run_tasks [] t = some t
  run_tasks (h ∷ l) t =
      if t.stopped then none else elim (happen h t) [ none ↦ none | some t' ↦ run_tasks l t' ]

abbrev pub repeat : {A : Type 0} → ℕ → A → List A
repeat zero a = []
repeat (suc n) a = a ∷ repeat n a

-- `run`: the configuration under the effective label, and the tasks at their first awaits.
unfoldable pub effective_config : SimulatorConfig → String → SimulatorConfig
effective_config config hostname = record config {
  instance_label =
      append config.instance_label (append ":" (append config.run_tag (append ":" hostname)));
}

unfoldable pub start_tasks : {S : Type 0} → SimulatorConfig → S → Tasks S
start_tasks config seeded = record {
  queue = [];
  unfinished = 0;
  producer = pausing;
  workers = repeat (pos_part config.worker_count) getting;
  shared = record { sales = []; stats = no_stats };
  state = seeded;
  stopped = false;
}
