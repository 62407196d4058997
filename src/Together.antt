-- ===== src/Together.antt =====
-- One simulator (simulator/simulator/runtime.py) and the backend (backend/app/main.py) together:
-- events are made, wait, and are posted in any order, while others use the backend too.
-- An attempt that reaches the backend is one step: its transaction, and what the worker does with
-- the reply, which arrives or is lost. The pause between two attempts is left out.
pub mod Invariant
pub mod Making
pub mod Storing
pub mod Flight
pub mod Posting
pub mod Settling
pub mod Others
pub mod Attempts
pub mod Accepting
pub mod Whole
pub mod Reserving
pub mod Steps
pub mod Answers
pub mod Kept
pub mod Shadow
mod Tests
use storepulse.Prelude.{
  ℕ, ◌≡◌, ◌≢◌, Bool, true, false, String, Option, some, none, List, [], ◌∷◌, ◌++◌, All,
  if◌then◌else◌,
}
use storepulse.Simulator.Config.{SimulatorConfig}
use storepulse.Simulator.Rng.{Rng}
use storepulse.Simulator.Domain.{Sales, OutboundEvent, make_duplicate}
use storepulse.Simulator.Domain.Generator.{make_business_event}
use storepulse.Simulator.Domain.Making.{IsSpan}
use storepulse.Simulator.Transport.{
  PostAnswer, transport_error, response, text, unreadable, Posted, receipt, retry_exhausted, retry,
  ended, classify_answer, is_exhausted,
}
use storepulse.Simulator.Runtime.{
  SimulatorStats, no_stats, Shared, count_generated, settle_event, settle_replay,
}
use storepulse.Backend.Models.{EventCreate, JsonEq, base_of}
use storepulse.Backend.Database.{Db, find_event}
use storepulse.Backend.Classify.{EventIngestionResult, IngestStatus, accepted, duplicate}
use storepulse.Backend.Realtime.{SetChange}
use storepulse.Backend.Api.{
  Reply, replied, http_error, server_error, BackendState, Handled, create_event,
}
use storepulse.Backend.Validation.{Pydantic, post_event}
use storepulse.Backend.Validation.Printing.{Printer, event_json}

-- What the simulator keeps, and the backend. `in_flight` are the events of which no attempt has
-- reached the backend, in the queue or with a worker; `unanswered` those of which one has, and the
-- worker has no final answer; `delivered` those for which it has a receipt.
pub record System (J : Type 0) : Type 0 where
  pub shared : Shared
  pub in_flight : List OutboundEvent
  pub unanswered : List OutboundEvent
  pub delivered : List OutboundEvent
  pub backend : BackendState J

-- The field `status` of the answer's body.
abbrev pub status_text : IngestStatus → String
status_text accepted = "accepted"
status_text duplicate = "duplicate"

-- What `client.post` has of a reply that arrives. The body of an error has no key `status`.
unfoldable pub answer_of : Reply EventIngestionResult → PostAnswer
answer_of (replied code result) = response code (text (status_text result.status))
answer_of (http_error code detail) = response code unreadable
answer_of server_error = response 500 unreadable

-- The reply may be lost on its way.
unfoldable pub heard : Bool → Reply EventIngestionResult → PostAnswer
unfolding answer_of
heard true reply = answer_of reply
heard false reply = transport_error

-- How the call ends after the answer to its attempt of this number; `none` is one more attempt.
unfoldable pub concluded : SimulatorConfig → ℕ → PostAnswer → Option Posted
unfolding classify_answer is_exhausted
concluded config attempt answer = elim (classify_answer attempt answer) [
  | ended p ↦ some p
  | retry ↦ if is_exhausted config attempt then some (retry_exhausted attempt) else none
]

unfoldable pub remember : Posted → OutboundEvent → List OutboundEvent → List OutboundEvent
remember (receipt _) event l = event ∷ l
remember _ event l = l

module _ {J : Type 0} where
  -- The worker once its call for an event has ended; `none` is an exception that ends the tasks.
  unfoldable pub settle : OutboundEvent → Posted → System J → Option (System J)
  unfolding settle_event remember
  settle event p t = elim (settle_event event p t.shared) [
    | none ↦ none
    | some after ↦ some (record t { shared = after; delivered = remember p event t.delivered })
  ]

  -- The worker after an attempt that reached the backend, with the event out of its list.
  unfoldable pub attempted :
      SimulatorConfig → ℕ → PostAnswer → OutboundEvent → System J → Option (System J)
  unfolding settle concluded
  attempted config attempt answer event t = elim (concluded config attempt answer) [
    | none ↦ some (record t { unanswered = event ∷ t.unanswered })
    | some p ↦ settle event p t
  ]

-- `uuid4` draws an id that nobody has.
abbrev pub IsFresh : {J : Type 0} → ℕ → Db J → List OutboundEvent → Type 0
IsFresh id db in_flight =
    (find_event id db.events ≡ none)
    × All (λ (e : OutboundEvent). e.payload.event_id ≢ id) in_flight

module _ {J S : Type 0} ⦃j : JsonEq J⦄ (rng : Rng S) (config : SimulatorConfig) (p : Pydantic J)
    (w : Printer J) where
  -- The backend's side of one attempt.
  abbrev pub post_of :
      (ℕ → Bool)
      → List SetChange
      → ℕ
      → OutboundEvent
      → BackendState J
      → Handled J EventIngestionResult
  post_of fails meanwhile clock event b =
      post_event p fails meanwhile clock (event_json w event.payload) b

  -- The number of an attempt is left open, so any number of attempts can have come before it.
  pub data Step : System J → System J → Type 0 where
    made :
        (t : System J) (now id : ℕ) (s s' : S) (event : OutboundEvent) (after : Sales)
        → make_business_event rng config now id t.shared.sales s ≡ some (some event, after, s')
        → IsSpan rng config now
        → IsFresh id t.backend.db t.in_flight
        → Step t (record t {
          shared = record { sales = after; stats = count_generated event t.shared.stats };
          in_flight = event ∷ t.in_flight;
        })
    -- The first attempt that reaches the backend, whose reply arrives or is lost.
    first :
        (t u : System J) (xs ys : List OutboundEvent) (event : OutboundEvent) (fails : ℕ → Bool)
        (meanwhile : List SetChange) (clock attempt : ℕ) (arrives : Bool)
        → t.in_flight ≡ xs ++ event ∷ ys
        → attempted config attempt
            (heard arrives (post_of fails meanwhile clock event t.backend).reply)
            event
            (record t {
              in_flight = xs ++ ys;
              backend = (post_of fails meanwhile clock event t.backend).state;
            })
          ≡ some u
        → Step t u
    -- A later one.
    again :
        (t u : System J) (xs ys : List OutboundEvent) (event : OutboundEvent) (fails : ℕ → Bool)
        (meanwhile : List SetChange) (clock attempt : ℕ) (arrives : Bool)
        → t.unanswered ≡ xs ++ event ∷ ys
        → attempted config attempt
            (heard arrives (post_of fails meanwhile clock event t.backend).reply)
            event
            (record t {
              unanswered = xs ++ ys;
              backend = (post_of fails meanwhile clock event t.backend).state;
            })
          ≡ some u
        → Step t u
    -- An attempt that does not reach the backend, and ends the call.
    cut_off :
        (t u : System J) (xs ys : List OutboundEvent) (event : OutboundEvent) (attempt : ℕ)
        (q : Posted)
        → t.in_flight ≡ xs ++ event ∷ ys
        → concluded config attempt transport_error ≡ some q
        → settle event q (record t { in_flight = xs ++ ys }) ≡ some u
        → Step t u
    cut_off_again :
        (t u : System J) (xs ys : List OutboundEvent) (event : OutboundEvent) (attempt : ℕ)
        (q : Posted)
        → t.unanswered ≡ xs ++ event ∷ ys
        → concluded config attempt transport_error ≡ some q
        → settle event q (record t { unanswered = xs ++ ys }) ≡ some u
        → Step t u
    -- An attempt of a deliberate duplicate, with the same payload, that reaches the backend.
    duplicated :
        (t : System J) (xs ys : List OutboundEvent) (event : OutboundEvent) (fails : ℕ → Bool)
        (meanwhile : List SetChange) (clock : ℕ)
        → t.delivered ≡ xs ++ event ∷ ys
        → Step t (record t {
          backend = (post_of fails meanwhile clock (make_duplicate event) t.backend).state;
        })
    -- The end of a call for one: it changes the counters only.
    counted :
        (t : System J) (q : Posted) (stats : SimulatorStats)
        → settle_replay q t.shared.stats ≡ some stats
        → Step t (record t { shared = record t.shared { stats = stats } })
    -- A request of somebody else, for another store and with another id.
    others :
        (t : System J) (payload : EventCreate J) (fails : ℕ → Bool) (meanwhile : List SetChange)
        (clock : ℕ)
        → (base_of payload).store_code ≢ config.store_code
        → All (λ (e : OutboundEvent). e.payload.event_id ≢ (base_of payload).event_id) t.in_flight
        → Step t
            (record t { backend = (create_event fails meanwhile clock payload t.backend).state })

  -- The states that follow on a backend with an empty ledger.
  pub data Reach (b : BackendState J) : System J → Type 0 where
    start : Reach b (record {
      shared = record { sales = []; stats = no_stats };
      in_flight = [];
      unanswered = [];
      delivered = [];
      backend = b;
    })
    later : {t u : System J} → Reach b t → Step t u → Reach b u
