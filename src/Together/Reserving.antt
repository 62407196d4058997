-- ===== src/Together/Reserving.antt =====
-- An event that is made keeps what holds of the simulator and the backend together.
use mathlib.Core.Path.{subst}
use storepulse.Prelude.{ℕ, ◌≡◌, refl, sym, some, ◌∷◌, All, arith, inl, inr}
use storepulse.Simulator.Config.{SimulatorConfig}
use storepulse.Simulator.Rng.{Rng}
use storepulse.Simulator.Domain.{SaleLedgerEntry, Sales, OutboundEvent, update_sale, take_out}
use storepulse.Simulator.Domain.Generator.{make_business_event}
use storepulse.Simulator.Domain.Refunding.{Reserves}
use storepulse.Simulator.Domain.InFlight.{find-IsPriced}
use storepulse.Simulator.Domain.Reservation.{reserve-IsLedger}
use storepulse.Simulator.Domain.Making.{IsSpan, IsSale, business_event_made}
use storepulse.Simulator.Runtime.{SimulatorStats}
use storepulse.Backend.Models.{JsonEq}
use storepulse.Backend.Validation.Printing.{Printer}
use storepulse.Together.{System, IsFresh}
use storepulse.Together.Making.{All-map, sale-Sound, refund-Sound}
use storepulse.Together.Shadow.{Pending, reserve-Covers, reserve-Pending}
use storepulse.Together.Whole.{Whole}

module _ {J S : Type 0} ⦃j : JsonEq J⦄ (rng : Rng S) (config : SimulatorConfig) (w : Printer J)
    (t : System J) (h : Whole rng config w t) where
  -- The reservation that was made of the ledger, made of the shadow.
  shadow-Reserves :
      (id : ℕ) (event : OutboundEvent) (o : SaleLedgerEntry) (after : Sales)
      → Reserves config id t.shared.sales event o after
      → Reserves config id h.shadow event o (
          update_sale o.event_id
            (take_out event.payload.quantity event.payload.amount_cents)
            h.shadow)
  shadow-Reserves id event o after r =
      let known = h.covers o.event_id o r.in_ledger in
      record {
        made = r.made;
        in_ledger = known;
        is_refund = r.is_refund;
        names_original = r.names_original;
        releases = r.releases;
        same_product = r.same_product;
        at_least_one = r.at_least_one;
        within_quantity = r.within_quantity;
        within_amount = r.within_amount;
        full_price = r.full_price;
        reserved_quantity_sent = r.reserved_quantity_sent;
        reserved_amount_sent = r.reserved_amount_sent;
        not_before_sale = r.not_before_sale;
        taken_out = refl;
        still_ledger = rw (r.full_price) (
            reserve-IsLedger o event.payload.quantity h.shadow h.sound.ledger
              (record {
                found = known;
                has_price = find-IsPriced o.event_id o h.shadow h.sound.ledger.priced known;
                has_quantity = omega (arith, r.at_least_one, r.within_quantity);
              })
              r.within_quantity);
      }

  sale_made-Whole :
      (id : ℕ) (event : OutboundEvent) (stats : SimulatorStats)
      → IsSale rng config id event
      → IsFresh id t.backend.db t.in_flight
      → Whole rng config w (record t {
        shared = record { sales = t.shared.sales; stats = stats };
        in_flight = event ∷ t.in_flight;
      })
  sale_made-Whole id event stats sold fresh = record {
    shadow = h.shadow;
    sound =
        sale-Sound rng config
          (record { sales = h.shadow; in_flight = t.in_flight; backend = t.backend }) id event sold
          fresh h.sound;
    ledger = h.ledger;
    covers = h.covers;
    pending = h.pending;
    unanswered = h.unanswered;
    delivered = h.delivered;
  }

  refund_made-Whole :
      (id : ℕ) (event : OutboundEvent) (stats : SimulatorStats) (o : SaleLedgerEntry)
      (after : Sales)
      → Reserves config id t.shared.sales event o after
      → IsFresh id t.backend.db t.in_flight
      → Whole rng config w (record t {
        shared = record { sales = after; stats = stats };
        in_flight = event ∷ t.in_flight;
      })
  refund_made-Whole id event stats o after r fresh =
      let q : ℕ = event.payload.quantity in
      let a : ℕ = event.payload.amount_cents in
      record {
        shadow = update_sale o.event_id (take_out q a) h.shadow;
        sound =
            refund-Sound rng config
              (record { sales = h.shadow; in_flight = t.in_flight; backend = t.backend }) id event o
              (update_sale o.event_id (take_out q a) h.shadow) (shadow-Reserves id event o after r)
              fresh h.sound;
        ledger = r.still_ledger;
        covers =
            rw (r.taken_out) (reserve-Covers h.shadow t.shared.sales o q a r.in_ledger h.covers);
        pending =
            subst
              (λ s. All (Pending s (update_sale o.event_id (take_out q a) h.shadow)) t.unanswered)
              (sym r.taken_out)
              (All-map (reserve-Pending h.shadow t.shared.sales o q a r.in_ledger h.covers)
                t.unanswered h.pending);
        unanswered = h.unanswered;
        delivered = h.delivered;
      }

  pub made-Whole :
      (now id : ℕ) (s s' : S) (event : OutboundEvent) (after : Sales) (stats : SimulatorStats)
      → make_business_event rng config now id t.shared.sales s ≡ some (some event, after, s')
      → IsSpan rng config now
      → IsFresh id t.backend.db t.in_flight
      → Whole rng config w (record t {
        shared = record { sales = after; stats = stats };
        in_flight = event ∷ t.in_flight;
      })
  made-Whole now id s s' event after stats e span fresh =
      let (event', after', s'', e', kind) =
        business_event_made rng config now id t.shared.sales s span h.ledger in
      let same : (event' ≡ event) × (after' ≡ after) = ground (arith, e, e') in
      rw (sym same.0, sym same.1)
        (elim kind [
          | inl (sold, kept) ↦ rw kept (sale_made-Whole id event' stats sold fresh)
          | inr (o, r) ↦ refund_made-Whole id event' stats o after' r fresh
        ])
