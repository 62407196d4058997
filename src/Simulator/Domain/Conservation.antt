-- ===== src/Simulator/Domain/Conservation.antt =====
-- No interleaving of deliveries and rollbacks refunds more of a sale than was sold.
use storepulse.Prelude.{
  ℕ, ◌+◌, ◌≡◌, length, refl, sym, inl, inr, none, some, All, arith, Option-cases,
}
use storepulse.Prelude.Int.{pos_part}
use storepulse.Simulator.Config.{SimulatorConfig}
use storepulse.Simulator.Rng.{Rng}
use storepulse.Simulator.Domain.{
  product_catalog, get_elem?, SaleLedgerEntry, Sales, OutboundEvent, sale, find_sale,
  commit_delivery,
}
use storepulse.Simulator.Domain.Generator.{make_sale, sale_event, event_time}
use storepulse.Simulator.Domain.Ledger.{IsPriced}
use storepulse.Simulator.Domain.Refunding.{make_refund-Reserves}
use storepulse.Simulator.Domain.Traffic.{
  Traffic, remaining, held, Step, refund_made, sale_delivered, refund_delivered, rolled_back, Reach,
  start, later,
}
use storepulse.Simulator.Domain.Balance.{
  Balanced, reserve-Balanced, release-Balanced, deliver_refund-Balanced, add_sale-Balanced,
}

module _ {S : Type 0} (rng : Rng S) (config : SimulatorConfig) where
  make_sale-sale :
      (now id : ℕ) (s s' : S) (event : OutboundEvent) (before after : Sales)
      → make_sale rng config now id before s ≡ some (some event, after, s')
      → (x : SaleLedgerEntry) × (event.kind ≡ sale) × (event.sale_entry ≡ some x) × IsPriced x
  unfolding make_sale
  make_sale-sale now id s s' event before after made =
      let (i, s1) = rng.choice (length product_catalog) s in
      let (q, s2) = rng.randint 1 (pos_part config.max_quantity) s1 in
      elim (Option-cases (get_elem? product_catalog i)) [
        | inl e ↦ absurd (ground (arith, made, e))
        | inr (product, e) ↦ elim (Option-cases (event_time rng config now none s2)) [
          | inl d ↦ absurd (ground (arith, made, e, d))
          | inr (((at, late), s3), d) ↦
              let same : sale_event config product id q at late ≡ event =
                ground (arith, made, e, d) in
              rw (sym same) (_, refl, refl, refl)
        ]
      ]

  Step-Balanced : {t u : Traffic} → Step rng config t u → Balanced t → Balanced u
  Step-Balanced (refund_made t now id s s' event after made) b =
      let (o, r) = make_refund-Reserves rng config now id t.sales after s s' event b.ledger made in
      rw r.taken_out (reserve-Balanced config id t event o after r b)
  Step-Balanced (sale_delivered t now id s s' event before after made) b =
      let (x, kind, entry, priced) = make_sale-sale now id s s' event before after made in
      unfold commit_delivery in rw (kind, entry) (add_sale-Balanced t x priced b)
  Step-Balanced (refund_delivered t xs ys event e) b = deliver_refund-Balanced t xs ys event e b
  Step-Balanced (rolled_back t xs ys event e) b = release-Balanced t xs ys event e b

  Reach-Balanced : {t : Traffic} → Reach rng config t → Balanced t
  Reach-Balanced start =
      unfold find_sale remaining held in
      record {
        ledger = record { priced = tt; keyed = tt };
        same_keys = λ i. ground arith;
        balance = λ i. refl;
        holds = tt;
      }
  Reach-Balanced (later r step) = Step-Balanced step (Reach-Balanced r)

  -- However refunds are made, delivered and rolled back and sales delivered, in any order: what
  -- remains of a sale in the ledger, what is in flight and what was delivered of its refunds add up
  -- to the quantity with which the sale was entered. The ledger's amounts are the price of what
  -- remains.
  pub Reach_conserves :
      {t : Traffic} (i : ℕ)
      → Reach rng config t
      → (remaining i t.sales + held i t.in_flight + held i t.delivered ≡ remaining i t.sold)
        × All IsPriced t.sales
  Reach_conserves i r = let b = Reach-Balanced r in (b.balance i, b.ledger.priced)
