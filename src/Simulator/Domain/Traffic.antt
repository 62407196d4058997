-- ===== src/Simulator/Domain/Traffic.antt =====
-- The ledger with the refunds that the generator has made: in flight, delivered or rolled back in
-- any order, as the producer and the workers of simulator/simulator/runtime.py call it.
use storepulse.Prelude.{
  ℕ, ◌+◌, ◌≡◌, none, some, List, [], ◌∷◌, ◌++◌, ◌==◌, if◌then◌else◌, option_eq,
}
use storepulse.Simulator.Config.{SimulatorConfig}
use storepulse.Simulator.Rng.{Rng}
use storepulse.Simulator.Domain.{
  Sales, OutboundEvent, find_sale, commit_delivery, rollback_delivery,
}
use storepulse.Simulator.Domain.Generator.{make_refund, make_sale}

-- What remains of a sale in a ledger; 0 without one.
unfoldable pub remaining : ℕ → Sales → ℕ
unfolding find_sale
remaining i l = elim (find_sale i l) [ none ↦ 0 | some e ↦ e.remaining_quantity ]

-- The quantity that one event reserves of one sale, and that the events of a list do.
abbrev pub share : ℕ → OutboundEvent → ℕ
share i e = if option_eq ◌==◌ e.refund_original_event_id (some i) then e.reserved_quantity else 0

unfoldable pub held : ℕ → List OutboundEvent → ℕ
held i [] = 0
held i (e ∷ l) = share i e + held i l

-- The ledger, the refunds that wait for an answer, those that were accepted, and the ledger that
-- there would be without refunds.
pub record Traffic : Type 0 where
  pub sales : Sales
  pub in_flight : List OutboundEvent
  pub delivered : List OutboundEvent
  pub sold : Sales

-- What the generator and the workers do to the ledger, in any order.
pub data Step {S : Type 0} (rng : Rng S) (config : SimulatorConfig)
    : Traffic → Traffic → Type 0 where
  refund_made :
      (t : Traffic) (now id : ℕ) (s s' : S) (event : OutboundEvent) (after : Sales)
      → make_refund rng config now id t.sales s ≡ some (some event, after, s')
      → Step rng config t (record t { sales = after; in_flight = event ∷ t.in_flight })
  sale_delivered :
      (t : Traffic) (now id : ℕ) (s s' : S) (event : OutboundEvent) (before after : Sales)
      → make_sale rng config now id before s ≡ some (some event, after, s')
      → Step rng config t
          (record t { sales = commit_delivery event t.sales; sold = commit_delivery event t.sold })
  refund_delivered :
      (t : Traffic) (xs ys : List OutboundEvent) (event : OutboundEvent)
      → t.in_flight ≡ xs ++ event ∷ ys
      → Step rng config t (record t {
        sales = commit_delivery event t.sales;
        in_flight = xs ++ ys;
        delivered = event ∷ t.delivered;
      })
  rolled_back :
      (t : Traffic) (xs ys : List OutboundEvent) (event : OutboundEvent)
      → t.in_flight ≡ xs ++ event ∷ ys
      → Step rng config t
          (record t { sales = rollback_delivery event t.sales; in_flight = xs ++ ys })

abbrev pub no_traffic : Traffic
no_traffic = record { sales = []; in_flight = []; delivered = []; sold = [] }

pub data Reach {S : Type 0} (rng : Rng S) (config : SimulatorConfig) : Traffic → Type 0 where
  start : Reach rng config no_traffic
  later : {t u : Traffic} → Reach rng config t → Step rng config t u → Reach rng config u
