-- ===== src/Simulator/Runtime/Tests.antt =====
-- A sale that is delivered at the second attempt, its deliberate duplicate, and a refund that fails.
use storepulse.Prelude.{◌+◌, ◌≡◌, refl, some, List, [], ◌∷◌, true}
use storepulse.Simulator.Transport.{accepted, duplicate, receipt, permanent_error}
use storepulse.Simulator.Domain.{SaleLedgerEntry, OutboundEvent, set_default, update_sale}
use storepulse.Simulator.Domain.Generator.{sale_event, refund_event}
use storepulse.Simulator.Runtime.{
  Shared, no_stats, Piece, produced, event_settled, replay_settled, run_pieces,
}
use storepulse.Simulator.Runtime.Stats.{produced_in, settled_in, replays_in, stats_add_up}
use storepulse.Simulator.Fixtures.{default_config}

abbrev tea : SaleLedgerEntry
tea = record {
  event_id = 3;
  product_sku = "TEA-001";
  unit_price_cents = 549;
  occurred_at = 9_000_000;
  remaining_quantity = 2;
  remaining_amount_cents = 1098;
}

abbrev tea_sale : OutboundEvent
tea_sale =
    sale_event default_config (record { sku = "TEA-001"; unit_price_cents = 549 }) 3 2 9_000_000
      true

abbrev tea_refund : OutboundEvent
tea_refund = refund_event default_config tea 4 1 9_000_000 true

abbrev tea_run : List Piece
tea_run =
    produced tea_sale []
    ∷ event_settled tea_sale
        (receipt (record { status = accepted; http_status = 201; attempts = 2 }))
    ∷ produced tea_refund (record tea { remaining_quantity = 1; remaining_amount_cents = 549 } ∷ [])
    ∷ replay_settled (receipt (record { status = duplicate; http_status = 200; attempts = 1 }))
    ∷ event_settled tea_refund (permanent_error 422)
    ∷ []

abbrev tea_end : Shared
tea_end = record {
  sales = tea ∷ [];
  stats = record {
    generated_sales = 1;
    generated_refunds = 1;
    delivered_accepted = 1;
    delivered_duplicate = 1;
    deliberate_duplicates = 1;
    duplicate_replay_failures = 0;
    retry_attempts = 1;
    permanent_failures = 1;
  };
}

tea_run_ends : run_pieces tea_run (record { sales = []; stats = no_stats }) ≡ some tea_end
unfolding run_pieces set_default update_sale
tea_run_ends = refl

stats_add_up_example :
    (tea_end.stats.generated_sales + tea_end.stats.generated_refunds ≡ produced_in tea_run)
    × (tea_end.stats.delivered_accepted + tea_end.stats.delivered_duplicate
          + tea_end.stats.permanent_failures
        ≡ settled_in tea_run + tea_end.stats.deliberate_duplicates)
    × (tea_end.stats.deliberate_duplicates + tea_end.stats.duplicate_replay_failures
        ≡ replays_in tea_run)
stats_add_up_example = stats_add_up tea_run [] tea_end tea_run_ends
