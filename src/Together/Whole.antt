-- ===== src/Together/Whole.antt =====
-- What holds of the simulator and the backend together, and what an attempt does to it.
use mathlib.Core.Path.{subst}
use storepulse.Prelude.{ℕ, ◌≡◌, Bool, some, List, ◌∷◌, All, inl, inr}
use storepulse.Prelude.Int.{pos}
use storepulse.Simulator.Config.{SimulatorConfig}
use storepulse.Simulator.Rng.{Rng}
use storepulse.Simulator.Domain.{Sales, OutboundEvent, commit_delivery}
use storepulse.Simulator.Domain.Ledger.{IsLedger}
use storepulse.Simulator.Runtime.{SimulatorStats}
use storepulse.Backend.Models.{JsonEq}
use storepulse.Backend.Classify.{EventIngestionResult}
use storepulse.Backend.Database.{Db}
use storepulse.Backend.Ingestion.Retry.{Extends}
use storepulse.Backend.Api.{Reply, BackendState}
use storepulse.Backend.Validation.Printing.{Printer}
use storepulse.Together.{System, heard, attempted}
use storepulse.Together.Invariant.{Sound, Sound-at}
use storepulse.Together.Making.{All-map}
use storepulse.Together.Kept.{Recorded, Recorded-grown}
use storepulse.Together.Shadow.{
  Covers, Pending, commit-Covers, commit-Covers_before, commit-IsLedger, Pending-Covers,
}
use storepulse.Together.Attempts.{IsSuccess, attempted-cases}

module _ {J S : Type 0} ⦃j : JsonEq J⦄ (rng : Rng S) (config : SimulatorConfig)
    (w : Printer J) where
  abbrev pub AllRecorded : Db J → List OutboundEvent → Type 0
  AllRecorded db l = All (λ (e : OutboundEvent). Recorded w db e.payload) l

  pub AllRecorded-grown :
      (db db' : Db J) (l : List OutboundEvent)
      → Extends db db'
      → AllRecorded db l
      → AllRecorded db' l
  AllRecorded-grown db db' l more h =
      All-map (λ (e : OutboundEvent). Recorded-grown w db db' e.payload more) l h

  -- `shadow` is the ledger as it would be if every reply arrived.
  pub record Whole (t : System J) : Type 0 where
    pub shadow : Sales
    pub sound :
        Sound rng config (record { sales = shadow; in_flight = t.in_flight; backend = t.backend })
    pub ledger : IsLedger t.shared.sales
    pub covers : Covers shadow t.shared.sales
    pub pending : All (Pending t.shared.sales shadow) t.unanswered
    pub unanswered : AllRecorded t.backend.db t.unanswered
    pub delivered : AllRecorded t.backend.db t.delivered

  -- The backend may do what changes no row.
  pub same-Sound :
      (sales : Sales) (fl : List OutboundEvent) (b b' : BackendState J)
      → b'.db ≡ b.db
      → Sound rng config (record { sales = sales; in_flight = fl; backend = b })
      → Sound rng config (record { sales = sales; in_flight = fl; backend = b' })
  same-Sound sales fl b b' same h = Sound-at rng config sales fl b' b.db same (record {
    well = h.well;
    served = h.served;
    ledger = h.ledger;
    backed = h.backed;
    cargo = h.cargo;
    absent = h.absent;
    distinct = h.distinct;
  })

  module _ (event : OutboundEvent) (t : System J) (h : Whole t)
      (entered : Pending t.shared.sales h.shadow event)
      (stored : Recorded w t.backend.db event.payload) where
    lost-Whole : Whole (record t { unanswered = event ∷ t.unanswered })
    lost-Whole = record {
      shadow = h.shadow;
      sound = h.sound;
      ledger = h.ledger;
      covers = h.covers;
      pending = (entered, h.pending);
      unanswered = (stored, h.unanswered);
      delivered = h.delivered;
    }

    committed-Whole :
        (stats : SimulatorStats)
        → Whole (record t {
          shared = record { sales = commit_delivery event t.shared.sales; stats = stats };
          delivered = event ∷ t.delivered;
        })
    committed-Whole stats = record {
      shadow = h.shadow;
      sound = h.sound;
      ledger = commit-IsLedger event t.shared.sales entered.0 h.ledger;
      covers = commit-Covers h.shadow t.shared.sales event entered h.covers;
      pending =
          All-map
            (λ x.
              Pending-Covers h.shadow h.shadow t.shared.sales (commit_delivery event t.shared.sales)
                x (λ i e k. k) (commit-Covers_before event t.shared.sales entered.0))
            t.unanswered h.pending;
      unanswered = h.unanswered;
      delivered = (stored, h.delivered);
    }

    -- An attempt that the backend answers with success, whether the answer arrives or not.
    pub attempted-Whole :
        (endless : config.max_retry_attempts ≡ pos 0) (attempt : ℕ) (arrives : Bool)
        (reply : Reply EventIngestionResult) (u : System J)
        → IsSuccess config reply
        → attempted config attempt (heard arrives reply) event t ≡ some u
        → Whole u
    attempted-Whole endless attempt arrives reply u success e =
        elim (attempted-cases config endless attempt arrives reply event t u success e) [
          | inl same ↦ subst Whole same lost-Whole
          | inr (stats, same) ↦ subst Whole same (committed-Whole stats)
        ]
