-- ===== src/Simulator/Domain/Refunding.antt =====
-- What `make_refund` reserves, and that a rollback releases it.
use storepulse.Prelude.{
  ℕ, ◌+◌, ◌-◌, ◌*◌, ◌≤◌, ◌≡◌, refl, sym, Bool, inl, inr, some, [], ◌∷◌, arith, length, Option-cases,
}
use storepulse.Simulator.Config.{SimulatorConfig}
use storepulse.Simulator.Rng.{Rng}
use storepulse.Simulator.Domain.{
  SaleLedgerEntry, Sales, OutboundEvent, refund, find_sale, update_sale, take_out, refundable_sales,
  get_elem?, rollback_delivery,
}
use storepulse.Simulator.Domain.Generator.{
  event_time, refund_of, choose_refund, make_refund, refund_event,
}
use storepulse.Simulator.Domain.Ledger.{IsLedger, IsCandidate, drawn-IsCandidate}
use storepulse.Simulator.Domain.Reservation.{reserve-IsLedger, put_back_taken}

-- `event` is a refund of a part of `original` under a simulator's settings, and `after` is the
-- ledger without that part.
pub record Reserves (config : SimulatorConfig) (id : ℕ) (before : Sales) (event : OutboundEvent)
    (original : SaleLedgerEntry) (after : Sales) : Type 0 where
  pub made :
      event
      ≡ refund_event config original id event.payload.quantity event.payload.occurred_at
          event.payload.late
  pub in_ledger : find_sale original.event_id before ≡ some original
  pub is_refund : event.kind ≡ refund
  pub names_original : event.payload.original_event_id ≡ some original.event_id
  pub releases : event.refund_original_event_id ≡ some original.event_id
  pub same_product : event.payload.product_sku ≡ original.product_sku
  pub at_least_one : 1 ≤ event.payload.quantity
  pub within_quantity : event.payload.quantity ≤ original.remaining_quantity
  pub within_amount : event.payload.amount_cents ≤ original.remaining_amount_cents
  pub full_price : event.payload.amount_cents ≡ original.unit_price_cents * event.payload.quantity
  pub reserved_quantity_sent : event.reserved_quantity ≡ event.payload.quantity
  pub reserved_amount_sent : event.reserved_amount_cents ≡ event.payload.amount_cents
  pub not_before_sale : original.occurred_at ≤ event.payload.occurred_at
  pub taken_out :
      after
      ≡ update_sale original.event_id
          (take_out event.payload.quantity event.payload.amount_cents)
          before
  pub still_ledger : IsLedger after

pub mul_mono : (u q r : ℕ) → q ≤ r → u * q ≤ u * r
mul_mono u q r h = let e : r ≡ q + (r - q) = omega arith in rw e (omega arith)

module _ {S : Type 0} (rng : Rng S) (config : SimulatorConfig) where
  event_time-late :
      (now b t : ℕ) (late : Bool) (s s' : S)
      → event_time rng config now (some b) s ≡ some ((t, late), s')
      → b ≤ t
  unfolding event_time
  event_time-late now b t late s s' h = ground arith

  reserve-Reserves :
      (id q t : ℕ) (late : Bool) (o : SaleLedgerEntry) (before : Sales)
      → IsLedger before
      → IsCandidate before o
      → 1 ≤ q
      → q ≤ o.remaining_quantity
      → o.occurred_at ≤ t
      → Reserves config id before
          (refund_event config o id q t late)
          o
          (update_sale o.event_id (take_out q (o.unit_price_cents * q)) before)
  reserve-Reserves id q t late o before h c least most after = record {
    made = refl;
    in_ledger = c.found;
    is_refund = refl;
    names_original = refl;
    releases = refl;
    same_product = refl;
    at_least_one = least;
    within_quantity = most;
    within_amount = rw c.has_price (mul_mono o.unit_price_cents q o.remaining_quantity most);
    full_price = refl;
    reserved_quantity_sent = refl;
    reserved_amount_sent = refl;
    not_before_sale = after;
    taken_out = refl;
    still_ledger = reserve-IsLedger o q before h c most;
  }

  refund_of-Reserves :
      (now id : ℕ) (o : SaleLedgerEntry) (before after : Sales) (s s' : S) (event : OutboundEvent)
      → IsLedger before
      → IsCandidate before o
      → refund_of rng config now id o before s ≡ some (some event, after, s')
      → Reserves config id before event o after
  unfolding refund_of
  refund_of-Reserves now id o before after s s' event h c made =
      let (q, s1) = rng.randint 1 o.remaining_quantity s in
      let (least, most) = rng.randint_range 1 o.remaining_quantity s c.has_quantity in
      elim (Option-cases (event_time rng config now (some o.occurred_at) s1)) [
        | inl e ↦ absurd (ground (arith, made, e))
        | inr (((t, late), s2), e) ↦
            let kept =
              reserve-Reserves id q t late o before h c least most
                (event_time-late now o.occurred_at t late s1 s2 e) in
            let same_event : refund_event config o id q t late ≡ event = ground (arith, made, e) in
            let same_sales : update_sale o.event_id (take_out q (o.unit_price_cents * q)) before
                ≡ after =
              ground (arith, made, e) in
            rw (sym same_event, sym same_sales) kept
      ]

  choose_refund-Reserves :
      (now id : ℕ) (cs before after : Sales) (s s' : S) (event : OutboundEvent)
      → IsLedger before
      → refundable_sales before ≡ cs
      → choose_refund rng config now id cs before s ≡ some (some event, after, s')
      → (o : SaleLedgerEntry) × Reserves config id before event o after
  unfolding choose_refund
  choose_refund-Reserves now id [] before after s s' event h e made = absurd (ground (arith, made))
  choose_refund-Reserves now id (c ∷ cs) before after s s' event h e made =
      let (i, s1) = rng.choice (length (c ∷ cs)) s in
      elim (Option-cases (get_elem? (c ∷ cs) i)) [
        | inl p ↦ absurd (ground (arith, made, p))
        | inr (o, p) ↦
            let found : get_elem? (refundable_sales before) i ≡ some o = rw e p in
            (
              o,
              refund_of-Reserves now id o before after s1 s' event h
                  (drawn-IsCandidate i o before h found) (ground (arith, made, p)),
            )
      ]

  -- A refund made from a ledger reserves a positive part of a sale that is in the ledger, no more
  -- than remains of its quantity and of its amount, at its price and not before it; the ledger
  -- afterwards is the one before with just that part taken out, and is still a ledger.
  pub make_refund-Reserves :
      (now id : ℕ) (before after : Sales) (s s' : S) (event : OutboundEvent)
      → IsLedger before
      → make_refund rng config now id before s ≡ some (some event, after, s')
      → (original : SaleLedgerEntry) × Reserves config id before event original after
  unfolding make_refund
  make_refund-Reserves now id before after s s' event h made =
      choose_refund-Reserves now id (refundable_sales before) before after s s' event h refl made

  -- A rollback right after a refund was made gives back the ledger from which it was made.
  pub rollback_releases :
      (now id : ℕ) (before after : Sales) (s s' : S) (event : OutboundEvent)
      → IsLedger before
      → make_refund rng config now id before s ≡ some (some event, after, s')
      → rollback_delivery event after ≡ before
  unfolding rollback_delivery
  rollback_releases now id before after s s' event h made =
      let (o, r) = make_refund-Reserves now id before after s s' event h made in
      rw (r.is_refund, r.releases, r.reserved_quantity_sent, r.reserved_amount_sent, r.taken_out)
        (put_back_taken o.event_id event.payload.quantity event.payload.amount_cents o before
          r.in_ledger r.within_quantity r.within_amount)
