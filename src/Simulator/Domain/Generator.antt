-- ===== src/Simulator/Domain/Generator.antt =====
-- The traffic generator's `make_` methods: the draws, in the order in which the code makes them.
-- The parent models the ledger and the deliveries. `uuid4` is an argument.
use storepulse.Prelude.{
  ℕ, ◌*◌, Bool, true, false, Option, none, some, [], ◌∷◌, if◌then◌else◌, ltb, length,
}
use storepulse.Prelude.Int.{pos_part}
use storepulse.Simulator.Float.{lt_float}
use storepulse.Simulator.Config.{SimulatorConfig}
use storepulse.Simulator.Rng.{Rng}
use storepulse.Simulator.Domain.{
  ProductSpec, product_catalog, SaleLedgerEntry, sale, refund, EventPayload, OutboundEvent, Sales,
  update_sale, take_out, refundable_sales, get_elem?, minus_seconds,
}

abbrev sale_payload : SimulatorConfig → ProductSpec → ℕ → ℕ → ℕ → Bool → EventPayload
sale_payload config product event_id quantity occurred_at is_late = record {
  event_id = event_id;
  store_code = config.store_code;
  product_sku = product.sku;
  event_type = "SALE";
  quantity = quantity;
  amount_cents = product.unit_price_cents * quantity;
  occurred_at = occurred_at;
  original_event_id = none;
  source_instance = config.instance_label;
  late = is_late;
}

-- The outbound event of a sale, and the entry that its delivery would commit.
abbrev pub sale_event : SimulatorConfig → ProductSpec → ℕ → ℕ → ℕ → Bool → OutboundEvent
sale_event config product event_id quantity occurred_at is_late = record {
  payload = sale_payload config product event_id quantity occurred_at is_late;
  kind = sale;
  sale_entry = some (record {
    event_id = event_id;
    product_sku = product.sku;
    unit_price_cents = product.unit_price_cents;
    occurred_at = occurred_at;
    remaining_quantity = quantity;
    remaining_amount_cents = product.unit_price_cents * quantity;
  });
  refund_original_event_id = none;
  reserved_quantity = 0;
  reserved_amount_cents = 0;
  allow_deliberate_duplicate = true;
}

abbrev pub refund_event : SimulatorConfig → SaleLedgerEntry → ℕ → ℕ → ℕ → Bool → OutboundEvent
refund_event config original event_id quantity occurred_at is_late = record {
  payload = record {
    event_id = event_id;
    store_code = config.store_code;
    product_sku = original.product_sku;
    event_type = "REFUND";
    quantity = quantity;
    amount_cents = original.unit_price_cents * quantity;
    occurred_at = occurred_at;
    original_event_id = some original.event_id;
    source_instance = config.instance_label;
    late = is_late;
  };
  kind = refund;
  sale_entry = none;
  refund_original_event_id = some original.event_id;
  reserved_quantity = quantity;
  reserved_amount_cents = original.unit_price_cents * quantity;
  allow_deliberate_duplicate = true;
}

-- `if not_before is not None and occurred_at < not_before: occurred_at = not_before`
abbrev pub not_earlier : Option ℕ → ℕ → ℕ
not_earlier none occurred_at = occurred_at
not_earlier (some not_before) occurred_at =
    if ltb occurred_at not_before then not_before else occurred_at

-- What `make_sale` and `make_refund` give back: `none` for an exception, otherwise the event (none
-- for a refund of nothing), the ledger and the generator's state.
abbrev pub Made : Type 0 → Type 0
Made S = Option (Option OutboundEvent × Sales × S)

module _ {S : Type 0} (rng : Rng S) (config : SimulatorConfig) where
  -- `_event_time`
  unfoldable pub event_time : ℕ → Option ℕ → S → Option ((ℕ × Bool) × S)
  unfolding lt_float
  event_time now not_before s =
      let (r, s1) = rng.random s in
      if lt_float r config.late_event_rate
      then (let (seconds, s2) = rng.randint 1 (pos_part config.max_late_seconds) s1 in
          elim (minus_seconds now seconds) [
            | none ↦ none
            | some occurred_at ↦ some ((not_earlier not_before occurred_at, true), s2)
          ])
      else some ((not_earlier not_before now, false), s1)

  unfoldable pub make_sale : ℕ → ℕ → Sales → S → Made S
  unfolding event_time
  make_sale now event_id sales s =
      let (i, s1) = rng.choice (length product_catalog) s in
      let (quantity, s2) = rng.randint 1 (pos_part config.max_quantity) s1 in
      elim (get_elem? product_catalog i) [
        | none ↦ none
        | some product ↦ elim (event_time now none s2) [
          | none ↦ none
          | some ((occurred_at, is_late), s3) ↦
              some
                (some (sale_event config product event_id quantity occurred_at is_late), sales, s3)
        ]
      ]

  -- The refund of `original`, whose entry in the ledger is changed in place.
  unfoldable pub refund_of : ℕ → ℕ → SaleLedgerEntry → Sales → S → Made S
  unfolding event_time update_sale
  refund_of now event_id original sales s =
      let (quantity, s1) = rng.randint 1 original.remaining_quantity s in
      elim (event_time now (some original.occurred_at) s1) [
        | none ↦ none
        | some ((occurred_at, is_late), s2) ↦ some (
          some (refund_event config original event_id quantity occurred_at is_late),
          update_sale original.event_id (take_out quantity (original.unit_price_cents * quantity))
              sales,
          s2,
        )
      ]

  -- `make_refund` with its candidates; `choice` is not called on an empty list.
  unfoldable pub choose_refund : ℕ → ℕ → Sales → Sales → S → Made S
  unfolding refund_of
  choose_refund now event_id [] sales s = some (none, sales, s)
  choose_refund now event_id (c ∷ cs) sales s =
      let (i, s1) = rng.choice (length (c ∷ cs)) s in
      elim (get_elem? (c ∷ cs) i) [
        | none ↦ none
        | some original ↦ refund_of now event_id original sales s1
      ]

  unfoldable pub make_refund : ℕ → ℕ → Sales → S → Made S
  unfolding choose_refund refundable_sales
  make_refund now event_id sales s = choose_refund now event_id (refundable_sales sales) sales s

  -- `make_business_event`; at most one event is made, so one new id is enough.
  unfoldable pub make_business_event : ℕ → ℕ → Sales → S → Made S
  unfolding lt_float make_refund make_sale
  make_business_event now event_id sales s =
      let (r, s1) = rng.random s in
      if lt_float r config.refund_rate
      then elim (make_refund now event_id sales s1) [
        | none ↦ none
        | some (some event, sales', s2) ↦ some (some event, sales', s2)
        | some (none, sales', s2) ↦ make_sale now event_id sales' s2
      ]
      else make_sale now event_id sales s1
