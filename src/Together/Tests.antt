-- ===== src/Together/Tests.antt =====
-- A sale that is made, posted twice, since the first reply is lost, and delivered. JSON is a number, and a number is written in strokes.
use storepulse.Prelude.{ℕ, ◌-◌, ◌≡◌, refl, true, false, some, [], ◌∷◌, inl}
use storepulse.Simulator.Float.{lt_float}
use storepulse.Simulator.Domain.{
  ProductSpec, SaleLedgerEntry, OutboundEvent, find_sale, commit_delivery, set_default,
  refundable_sales,
}
use storepulse.Simulator.Domain.Generator.{
  make_business_event, make_refund, choose_refund, make_sale, event_time, sale_event,
}
use storepulse.Simulator.Transport.{
  duplicate as received_before, classify_answer, is_exhausted, is_success, read_status,
}
use storepulse.Simulator.Runtime.{no_stats, count_generated, count_receipt, settle_event}
use storepulse.Simulator.Fixtures.{default_config, least_rng}
use storepulse.Backend.Database.{find_event}
use storepulse.Backend.Classify.{EventIngestionResult, accepted, duplicate}
use storepulse.Backend.Ingestion.Fixtures.{number_json}
use storepulse.Backend.Api.{Handled, replied}
use storepulse.Backend.Validation.{post_event}
use storepulse.Backend.Validation.Printing.{event_json}
use storepulse.Backend.Validation.Fixtures.{
  reader, writer, reader-IsCodec, stocked_backend, stocked_db-IsWellFormed, default-IsServed, noon,
  noon-IsSpan,
}
use storepulse.Together.{
  System, answer_of, heard, concluded, remember, settle, attempted, IsFresh, made, first, again,
  Reach, start, later,
}
use storepulse.Together.Invariant.{Backed}
use storepulse.Together.Answers.{post_accepted, post_duplicate, ledger-Backed}

abbrev coffee : ProductSpec
coffee = record { sku = "COFFEE-001"; unit_price_cents = 899 }

abbrev first_sale : OutboundEvent
first_sale = sale_event default_config coffee 9 1 (noon - 1_000_000) true

abbrev nothing_yet : System ℕ
nothing_yet = record {
  shared = record { sales = []; stats = no_stats };
  in_flight = [];
  unanswered = [];
  delivered = [];
  backend = stocked_backend;
}

abbrev one_waits : System ℕ
one_waits = record nothing_yet {
  shared = record { sales = []; stats = count_generated first_sale no_stats };
  in_flight = first_sale ∷ [];
}

first_sale_made :
    make_business_event least_rng default_config noon 9 [] 0 ≡ some (some first_sale, [], 5)
unfolding make_business_event make_refund choose_refund make_sale event_time lt_float
    refundable_sales
first_sale_made = refl

nine-IsFresh : IsFresh 9 stocked_backend.db []
unfolding find_event
nine-IsFresh = (refl, tt)

one_waits-Reach : Reach least_rng default_config reader writer stocked_backend one_waits
one_waits-Reach =
    later start (made nothing_yet noon 9 0 5 first_sale [] first_sale_made noon-IsSpan nine-IsFresh)

-- The sale at the backend for the first time.
abbrev arrival : Handled ℕ EventIngestionResult
arrival =
    post_event reader (λ socket. false) [] 60 (event_json writer first_sale.payload) stocked_backend

post_accepted_example :
    arrival.reply ≡ replied 201 (record { event_id = 9; status = accepted; received_at = 60 })
post_accepted_example =
    post_accepted least_rng default_config reader writer reader-IsCodec refl stocked_backend
      one_waits [] [] first_sale (λ socket. false) [] 60 stocked_db-IsWellFormed default-IsServed
      one_waits-Reach refl

-- The reply is lost.
abbrev one_lost : System ℕ
one_lost = record one_waits {
  in_flight = [];
  unanswered = first_sale ∷ [];
  backend = arrival.state;
}

lost_left :
    attempted default_config 1
      (heard false arrival.reply)
      first_sale
      (record one_waits { in_flight = []; backend = arrival.state })
    ≡ some one_lost
unfolding attempted heard concluded classify_answer is_exhausted
lost_left = refl

one_lost-Reach : Reach least_rng default_config reader writer stocked_backend one_lost
one_lost-Reach =
    later one_waits-Reach
      (first one_waits one_lost [] [] first_sale (λ socket. false) [] 60 1 false refl lost_left)

-- The second attempt.
abbrev return : Handled ℕ EventIngestionResult
return =
    post_event reader (λ socket. false) [] 70 (event_json writer first_sale.payload) arrival.state

post_duplicate_example :
    ((received_at : ℕ) × (return.reply
        ≡ replied 200 (record { event_id = 9; status = duplicate; received_at = received_at })))
    × (return.state.db ≡ arrival.state.db)
post_duplicate_example =
    post_duplicate least_rng default_config reader writer reader-IsCodec refl stocked_backend
      one_lost [] [] first_sale (λ socket. false) [] 70 stocked_db-IsWellFormed default-IsServed
      one_lost-Reach (inl refl)

abbrev coffee_entry : SaleLedgerEntry
coffee_entry = record {
  event_id = 9;
  product_sku = "COFFEE-001";
  unit_price_cents = 899;
  occurred_at = noon - 1_000_000;
  remaining_quantity = 1;
  remaining_amount_cents = 899;
}

-- Its reply arrives.
abbrev answered : System ℕ
answered = record one_lost {
  shared = record {
    sales = commit_delivery first_sale [];
    stats =
        count_receipt (record { status = received_before; http_status = 200; attempts = 2 })
          (count_generated first_sale no_stats);
  };
  unanswered = [];
  delivered = first_sale ∷ [];
  backend = return.state;
}

answered_left :
    attempted default_config 2
      (heard true return.reply)
      first_sale
      (record one_lost { unanswered = []; backend = return.state })
    ≡ some answered
unfolding attempted heard concluded classify_answer is_exhausted answer_of is_success read_status
    settle settle_event remember
answered_left = rw (post_duplicate_example.0.1) refl

answered-Reach : Reach least_rng default_config reader writer stocked_backend answered
answered-Reach =
    later one_lost-Reach
      (again one_lost answered [] [] first_sale (λ socket. false) [] 70 2 true refl answered_left)

coffee_entered : find_sale 9 answered.shared.sales ≡ some coffee_entry
unfolding find_sale commit_delivery set_default
coffee_entered = refl

ledger-Backed_example : Backed default_config answered.in_flight answered.backend.db 9 coffee_entry
ledger-Backed_example =
    ledger-Backed least_rng default_config reader writer reader-IsCodec refl stocked_backend
      answered 9 coffee_entry stocked_db-IsWellFormed default-IsServed answered-Reach coffee_entered
