-- ===== src/Simulator/Domain/Making.antt =====
-- `make_sale` and `make_business_event`: what they make, and that they make something.
use storepulse.Prelude.{
  ℕ, zero, suc, ◌*◌, ◌≤◌, ◌<◌, ◌≡◌, ◌≢◌, ◌⊎◌, refl, Bool, inl, inr, Option, none, some, List, [],
  ◌∷◌, arith, length, Bool-cases, Option-cases,
}
use storepulse.Prelude.Int.{pos_part}
use storepulse.Simulator.Float.{lt_float}
use storepulse.Simulator.Config.{SimulatorConfig}
use storepulse.Simulator.Rng.{Rng}
use storepulse.Simulator.Domain.{
  ProductSpec, product_catalog, SaleLedgerEntry, Sales, OutboundEvent, refundable_sales, get_elem?,
  update_sale, take_out,
}
use storepulse.Simulator.Domain.Generator.{
  event_time, make_sale, refund_of, choose_refund, make_refund, make_business_event, sale_event,
  refund_event,
}
use storepulse.Simulator.Domain.Ledger.{IsLedger}
use storepulse.Simulator.Domain.Refunding.{Reserves, make_refund-Reserves}

get_elem?-length {ℓ} :
    {A : Type ℓ} (l : List A) (i : ℕ) → i < length l → (x : A) × (get_elem? l i ≡ some x)
get_elem?-length [] i h = absurd (omega arith)
get_elem?-length (x ∷ l) zero h = (x, refl)
get_elem?-length (x ∷ l) (suc i) h = get_elem?-length l i (omega arith)

module _ {S : Type 0} (rng : Rng S) (config : SimulatorConfig) where
  -- The largest delay that a late event can have fits before `now`, and so on.
  pub record IsSpan (now : ℕ) : Type 0 where
    pub late : 1 ≤ pos_part config.max_late_seconds
    pub quantity : 1 ≤ pos_part config.max_quantity
    pub room : pos_part config.max_late_seconds * 1_000_000 ≤ now

  event_time_total :
      (now : ℕ) (nb : Option ℕ) (s : S)
      → IsSpan now
      → (r : (ℕ × Bool) × S) × (event_time rng config now nb s ≡ some r)
  unfolding event_time
  event_time_total now nb s h = elim (Option-cases (event_time rng config now nb s)) [
    | inr found ↦ found
    | inl e ↦ absurd (
        ground (
          arith,
          e,
          rng.randint_range 1 (pos_part config.max_late_seconds) (rng.random s).1 h.late,
        ))
  ]

  -- The event is a sale of a product of the catalog, of a quantity in the configured range.
  pub record IsSale (id : ℕ) (event : OutboundEvent) : Type 0 where
    pub product : ProductSpec
    pub in_catalog : (i : ℕ) × (get_elem? product_catalog i ≡ some product)
    pub at_least_one : 1 ≤ event.payload.quantity
    pub at_most : event.payload.quantity ≤ pos_part config.max_quantity
    pub made :
        event
        ≡ sale_event config product id event.payload.quantity event.payload.occurred_at
            event.payload.late

  -- `make_sale` makes a sale of a product of the catalog and leaves the ledger alone, whenever the
  -- two limits are positive and the longest delay of a late event fits before `now`.
  pub make_sale_total :
      (now id : ℕ) (sales : Sales) (s : S)
      → IsSpan now
      → (event : OutboundEvent) × (s' : S) × (make_sale rng config now id sales s
          ≡ some (some event, sales, s'))
        × IsSale id event
  unfolding make_sale
  make_sale_total now id sales s h =
      let (i, s1) = rng.choice (length product_catalog) s in
      let (q, s2) = rng.randint 1 (pos_part config.max_quantity) s1 in
      let (least, most) = rng.randint_range 1 (pos_part config.max_quantity) s1 h.quantity in
      let (product, p) =
        get_elem?-length product_catalog i
          (rng.choice_range (length product_catalog) s (omega arith)) in
      let (((t, late), s3), e) = event_time_total now none s2 h in
      (
        sale_event config product id q t late,
        s3,
        ground (arith, p, e),
        record {
          product = product;
          in_catalog = (i, p);
          at_least_one = least;
          at_most = most;
          made = refl;
        },
      )

  refund_of_total :
      (now id : ℕ) (o : SaleLedgerEntry) (sales : Sales) (s : S)
      → IsSpan now
      → (event : OutboundEvent) × (after : Sales) × (s' : S) × (refund_of rng config now id o sales
            s
          ≡ some (some event, after, s'))
  unfolding refund_of
  refund_of_total now id o sales s h =
      let (q, s1) = rng.randint 1 o.remaining_quantity s in
      let (((t, late), s2), e) = event_time_total now (some o.occurred_at) s1 h in
      (
        refund_event config o id q t late,
        update_sale o.event_id (take_out q (o.unit_price_cents * q)) sales,
        s2,
        rw (refund_of, e) refl,
      )

  choose_refund_total :
      (now id : ℕ) (c : SaleLedgerEntry) (cs sales : Sales) (s : S)
      → IsSpan now
      → (event : OutboundEvent) × (after : Sales) × (s' : S) × (choose_refund rng config now id
            (c ∷ cs)
            sales
            s
          ≡ some (some event, after, s'))
  unfolding choose_refund
  choose_refund_total now id c cs sales s h =
      let (i, s1) = rng.choice (length (c ∷ cs)) s in
      let (o, p) =
        get_elem?-length (c ∷ cs) i (rng.choice_range (length (c ∷ cs)) s (omega arith)) in
      let (event, after, s', e) = refund_of_total now id o sales s1 h in
      (event, after, s', ground (arith, p, e))

  -- `make_refund` makes an event exactly if some sale can be refunded, otherwise it changes
  -- nothing; it does not fail, under the same conditions.
  pub make_refund_total :
      (now id : ℕ) (sales : Sales) (s : S)
      → IsSpan now
      → ((refundable_sales sales ≡ [])
          × (make_refund rng config now id sales s ≡ some (none, sales, s)))
        ⊎ ((refundable_sales sales ≢ [])
            × ((event : OutboundEvent) × (after : Sales) × (s' : S) × (make_refund rng config now id
                    sales s
                  ≡ some (some event, after, s'))))
  unfolding make_refund choose_refund
  make_refund_total now id sales s h = go (refundable_sales sales) refl
    where
      go :
          (cs : Sales)
          → refundable_sales sales ≡ cs
          → ((refundable_sales sales ≡ [])
              × (choose_refund rng config now id cs sales s ≡ some (none, sales, s)))
            ⊎ ((refundable_sales sales ≢ [])
                × ((event : OutboundEvent) × (after : Sales) × (s' : S) × (choose_refund rng config
                        now id cs sales s
                      ≡ some (some event, after, s'))))
      go [] e = inl (e, refl)
      go (c ∷ cs) e = inr (ground (arith, e), choose_refund_total now id c cs sales s h)

  -- `make_business_event` always makes an event, under the same conditions: a sale of a product of
  -- the catalog that leaves the ledger alone, or a refund that reserves a part of a sale in it.
  pub business_event_made :
      (now id : ℕ) (before : Sales) (s : S)
      → IsSpan now
      → IsLedger before
      → (event : OutboundEvent) × (after : Sales) × (s' : S) × (make_business_event rng config now
            id before s
          ≡ some (some event, after, s'))
        × ((IsSale id event × (after ≡ before))
            ⊎ ((original : SaleLedgerEntry) × Reserves config id before event original after))
  unfolding make_business_event
  business_event_made now id before s h l =
      let (r, s1) = rng.random s in
      elim (Bool-cases (lt_float r config.refund_rate)) [
        | inl drawn ↦ elim (make_refund_total now id before s1 h) [
          | inr (_, (event, after, s2, e)) ↦ (
            event,
            after,
            s2,
            rw (drawn, e) refl,
            inr (make_refund-Reserves rng config now id before after s1 s2 event l e),
          )
          | inl (_, e) ↦
              let (event, s3, p, made) = make_sale_total now id before s1 h in
              (event, before, s3, rw (drawn, e) p, inl (made, refl))
        ]
        | inr passed ↦
            let (event, s3, p, made) = make_sale_total now id before s1 h in
            (event, before, s3, rw passed p, inl (made, refl))
      ]
