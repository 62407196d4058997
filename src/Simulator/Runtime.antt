-- ===== src/Simulator/Runtime.antt =====
-- simulator/simulator/runtime.py: the counters, and what the producer and the workers do between
-- two awaits. Tasks interleave at awaits only, so a run is a list of such pieces.
pub mod Stats
pub mod Tasks
mod Tests
use storepulse.Prelude.{
  ℕ, suc, ◌+◌, ◌-◌, Bool, true, false, ◌&&◌, Option, none, some, List, [], ◌∷◌,
}
use storepulse.Simulator.Float.{Float, lt_float}
use storepulse.Simulator.Config.{SimulatorConfig}
use storepulse.Simulator.Transport.{
  DeliveryReceipt, accepted, duplicate, Posted, receipt, permanent_error, retry_exhausted,
  type_error, overflow_error, unsettled,
}
use storepulse.Simulator.Domain.{
  EventKind, OutboundEvent, refund, Sales, commit_delivery, rollback_delivery,
}

pub record SimulatorStats : Type 0 where
  pub generated_sales : ℕ
  pub generated_refunds : ℕ
  pub delivered_accepted : ℕ
  pub delivered_duplicate : ℕ
  pub deliberate_duplicates : ℕ
  pub duplicate_replay_failures : ℕ
  pub retry_attempts : ℕ
  pub permanent_failures : ℕ

abbrev pub no_stats : SimulatorStats
no_stats = record {
  generated_sales = 0;
  generated_refunds = 0;
  delivered_accepted = 0;
  delivered_duplicate = 0;
  deliberate_duplicates = 0;
  duplicate_replay_failures = 0;
  retry_attempts = 0;
  permanent_failures = 0;
}

-- What the tasks share.
pub record Shared : Type 0 where
  pub sales : Sales
  pub stats : SimulatorStats

-- `_traffic_loop` once an event is made.
unfoldable pub count_generated : OutboundEvent → SimulatorStats → SimulatorStats
count_generated event stats = elim event.kind [
  | refund ↦ record stats { generated_refunds = stats.generated_refunds + 1 }
  | _ ↦ record stats { generated_sales = stats.generated_sales + 1 }
]

-- The retries and the status of a receipt.
unfoldable pub count_receipt : DeliveryReceipt → SimulatorStats → SimulatorStats
count_receipt r stats = elim r.status [
  | accepted ↦ record stats {
    retry_attempts = stats.retry_attempts + (r.attempts - 1);
    delivered_accepted = stats.delivered_accepted + 1;
  }
  | duplicate ↦ record stats {
    retry_attempts = stats.retry_attempts + (r.attempts - 1);
    delivered_duplicate = stats.delivered_duplicate + 1;
  }
]

-- `_delivery_worker` when the call for the event comes back; `none` is an exception that it does
-- not catch, which ends all tasks.
unfoldable pub settle_event : OutboundEvent → Posted → Shared → Option Shared
unfolding count_receipt commit_delivery rollback_delivery
settle_event event (receipt r) s =
    some (record { sales = commit_delivery event s.sales; stats = count_receipt r s.stats })
settle_event event (permanent_error _) s = some (record {
  sales = rollback_delivery event s.sales;
  stats = record s.stats { permanent_failures = s.stats.permanent_failures + 1 };
})
settle_event event (retry_exhausted _) s = some (record {
  sales = rollback_delivery event s.sales;
  stats = record s.stats { permanent_failures = s.stats.permanent_failures + 1 };
})
settle_event event _ s = none

-- Whether a duplicate is sent on purpose, by the worker's draw.
unfoldable pub sends_replay : SimulatorConfig → OutboundEvent → Float → Bool
unfolding lt_float
sends_replay config event drawn =
    event.allow_deliberate_duplicate && lt_float drawn config.duplicate_rate

-- `_delivery_worker` when the call for the deliberate duplicate comes back.
unfoldable pub settle_replay : Posted → SimulatorStats → Option SimulatorStats
unfolding count_receipt
settle_replay (receipt r) stats =
    some
      (count_receipt r (record stats { deliberate_duplicates = stats.deliberate_duplicates + 1 }))
settle_replay (permanent_error _) stats =
    some (record stats { duplicate_replay_failures = stats.duplicate_replay_failures + 1 })
settle_replay (retry_exhausted _) stats =
    some (record stats { duplicate_replay_failures = stats.duplicate_replay_failures + 1 })
settle_replay _ stats = none

pub data Piece : Type 0 where
  produced : OutboundEvent → Sales → Piece
  event_settled : OutboundEvent → Posted → Piece
  replay_settled : Posted → Piece

-- Making an event also changes the ledger: `produced` says to what.
unfoldable pub run_piece : Piece → Shared → Option Shared
unfolding count_generated settle_event settle_replay
run_piece (produced event after) s =
    some (record { sales = after; stats = count_generated event s.stats })
run_piece (event_settled event p) s = settle_event event p s
run_piece (replay_settled p) s = elim (settle_replay p s.stats) [
  | none ↦ none
  | some stats ↦ some (record s { stats = stats })
]

unfoldable pub run_pieces : List Piece → Shared → Option Shared
unfolding run_piece
run_pieces [] s = some s
run_pieces (p ∷ l) s = elim (run_piece p s) [ none ↦ none | some s' ↦ run_pieces l s' ]
