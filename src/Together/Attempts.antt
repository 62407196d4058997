-- ===== src/Together/Attempts.antt =====
-- What an attempt leaves that reached the backend, where the attempts have no limit.
use storepulse.Prelude.{ℕ, ◌≡◌, ◌⊎◌, refl, Bool, true, false, none, some, ◌∷◌, arith, inl, inr}
use storepulse.Prelude.Int.{pos}
use storepulse.Simulator.Config.{SimulatorConfig}
use storepulse.Simulator.Domain.{OutboundEvent, commit_delivery}
use storepulse.Simulator.Transport.{
  transport_error, receipt, DeliveryReceipt, is_exhausted, classify_answer, is_success, read_status,
}
use storepulse.Simulator.Runtime.{SimulatorStats, count_receipt, settle_event}
use storepulse.Backend.Classify.{EventIngestionResult, accepted, duplicate}
use storepulse.Backend.Api.{Reply, replied}
use storepulse.Together.{System, answer_of, heard, concluded, remember, settle, attempted}

-- The worker has a receipt if the reply arrives.
abbrev pub IsSuccess : SimulatorConfig → Reply EventIngestionResult → Type 0
IsSuccess config reply =
    (attempt : ℕ)
    → (r : DeliveryReceipt) × (concluded config attempt (answer_of reply) ≡ some (receipt r))

pub accepted-IsSuccess :
    (config : SimulatorConfig) (id clock : ℕ)
    → IsSuccess config
        (replied 201 (record { event_id = id; status = accepted; received_at = clock }))
unfolding concluded answer_of classify_answer is_success read_status
accepted-IsSuccess config id clock attempt = (_, refl)

pub duplicate-IsSuccess :
    (config : SimulatorConfig) (id clock : ℕ)
    → IsSuccess config
        (replied 200 (record { event_id = id; status = duplicate; received_at = clock }))
unfolding concluded answer_of classify_answer is_success read_status
duplicate-IsSuccess config id clock attempt = (_, refl)

module _ (config : SimulatorConfig) (endless : config.max_retry_attempts ≡ pos 0) where
  never_exhausted : (attempt : ℕ) → is_exhausted config attempt ≡ false
  unfolding is_exhausted
  never_exhausted attempt = rw endless refl

  pub tries_again : (attempt : ℕ) → concluded config attempt transport_error ≡ none
  unfolding concluded classify_answer
  tries_again attempt = rw (never_exhausted attempt) refl

  -- The event is unanswered, or its delivery is committed.
  pub attempted-cases :
      {J : Type 0} (attempt : ℕ) (arrives : Bool) (reply : Reply EventIngestionResult)
      (event : OutboundEvent) (t u : System J)
      → IsSuccess config reply
      → attempted config attempt (heard arrives reply) event t ≡ some u
      → (record t { unanswered = event ∷ t.unanswered } ≡ u)
        ⊎ ((stats : SimulatorStats) × (record t {
          shared = record { sales = commit_delivery event t.shared.sales; stats = stats };
          delivered = event ∷ t.delivered;
        }
              ≡ u))
  unfolding attempted heard settle settle_event remember
  attempted-cases attempt true reply event t u success h =
      let (r, e) = success attempt in inr (count_receipt r t.shared.stats, ground (arith, e, h))
  attempted-cases attempt false reply event t u success h =
      inl (ground (arith, tries_again attempt, h))
