-- ===== src/Simulator/Domain/Tests.antt =====
-- A ledger with two sales, and the events that the least draws make from it.
use storepulse.Prelude.{ℕ, ◌+◌, ◌-◌, ◌≡◌, ◌⊎◌, refl, some, [], ◌∷◌, All, arith, true}
use storepulse.Simulator.Float.{lt_float}
use storepulse.Simulator.Domain.{
  SaleLedgerEntry, Sales, OutboundEvent, find_sale, update_sale, set_default, commit_delivery,
  refundable_sales,
}
use storepulse.Simulator.Domain.Generator.{
  make_refund, make_business_event, make_sale, refund_event, sale_event, refund_of, choose_refund,
  event_time,
}
use storepulse.Simulator.Domain.Ledger.{IsLedger, IsPriced}
use storepulse.Simulator.Domain.Refunding.{Reserves, make_refund-Reserves}
use storepulse.Simulator.Domain.Making.{IsSpan, IsSale, business_event_made}
use storepulse.Simulator.Domain.Traffic.{
  Traffic, remaining, held, Reach, start, later, sale_delivered, refund_made, no_traffic,
}
use storepulse.Simulator.Domain.Conservation.{Reach_conserves}
use storepulse.Simulator.Fixtures.{default_config, least_rng}

abbrev coffee : SaleLedgerEntry
coffee = record {
  event_id = 7;
  product_sku = "COFFEE-001";
  unit_price_cents = 899;
  occurred_at = 5_000_000;
  remaining_quantity = 2;
  remaining_amount_cents = 1798;
}

abbrev spent : SaleLedgerEntry
spent = record coffee { event_id = 6; remaining_quantity = 0; remaining_amount_cents = 0 }

abbrev two_sales : Sales
two_sales = spent ∷ coffee ∷ []

abbrev noon : ℕ
noon = 43_200_000_000

two_sales-IsLedger : IsLedger two_sales
unfolding find_sale
two_sales-IsLedger = record {
  priced = (refl, (refl, tt));
  keyed = ((λ j e. ground arith), ((λ j e. refl), tt));
}

noon-IsSpan : IsSpan least_rng default_config noon
noon-IsSpan = record { late = omega arith; quantity = omega arith; room = omega arith }

abbrev coffee_refund : OutboundEvent
coffee_refund = refund_event default_config coffee 8 1 (noon - 1_000_000) true

abbrev coffee_after : Sales
coffee_after = spent ∷ record coffee { remaining_quantity = 1; remaining_amount_cents = 899 } ∷ []

refund_run :
    make_refund least_rng default_config noon 8 two_sales 0
    ≡ some (some coffee_refund, coffee_after, 4)
unfolding make_refund choose_refund refund_of event_time lt_float refundable_sales update_sale
refund_run = refl

make_refund-Reserves_example :
    (original : SaleLedgerEntry) × Reserves default_config 8 two_sales coffee_refund original
      coffee_after
make_refund-Reserves_example =
    make_refund-Reserves least_rng default_config noon 8 two_sales coffee_after 0 4 coffee_refund
      two_sales-IsLedger refund_run

business_event_made_example :
    (event : OutboundEvent) × (after : Sales) × (s' : ℕ) × (make_business_event least_rng
        default_config noon 8 two_sales 0
      ≡ some (some event, after, s'))
    × ((IsSale least_rng default_config 8 event × (after ≡ two_sales))
        ⊎ ((original : SaleLedgerEntry) × Reserves default_config 8 two_sales event original after))
business_event_made_example =
    business_event_made least_rng default_config noon 8 two_sales 0 noon-IsSpan two_sales-IsLedger

-- One sale of one coffee is delivered, and its refund is in flight.
abbrev one_coffee : SaleLedgerEntry
one_coffee = record coffee {
  occurred_at = noon - 1_000_000;
  remaining_quantity = 1;
  remaining_amount_cents = 899;
}

abbrev one_sale : OutboundEvent
one_sale =
    sale_event default_config (record { sku = "COFFEE-001"; unit_price_cents = 899 }) 7 1
      (noon - 1_000_000) true

abbrev one_refund : OutboundEvent
one_refund = refund_event default_config one_coffee 8 1 (noon - 1_000_000) true

abbrev refunding : Traffic
refunding = record {
  sales = record one_coffee { remaining_quantity = 0; remaining_amount_cents = 0 } ∷ [];
  in_flight = one_refund ∷ [];
  delivered = [];
  sold = one_coffee ∷ [];
}

refunding-Reach : Reach least_rng default_config refunding
unfolding commit_delivery set_default make_sale make_refund choose_refund refund_of event_time
    lt_float refundable_sales update_sale
refunding-Reach =
    later (later start (sale_delivered no_traffic noon 7 0 4 one_sale [] [] refl))
      (refund_made _ noon 8 0 4 one_refund _ refl)

Reach_conserves_example :
    (remaining 7 refunding.sales + held 7 refunding.in_flight + held 7 refunding.delivered
      ≡ remaining 7 refunding.sold)
    × All IsPriced refunding.sales
Reach_conserves_example = Reach_conserves least_rng default_config 7 refunding-Reach
