-- ===== src/Simulator/Domain/Balance.antt =====
-- What holds of the ledger and the refunds in flight, and that each kind of change keeps it.
use storepulse.Prelude.{
  ℕ, ◌+◌, ◌*◌, ◌≡◌, ◌↔◌, refl, ap, ◌∙◌, sym, inl, inr, none, some, List, [], ◌∷◌, ◌++◌, All, arith,
  ◌==◌, if◌then◌else◌, Bool-cases, Option-cases,
}
use storepulse.Simulator.Config.{SimulatorConfig}
use storepulse.Simulator.Domain.{
  SaleLedgerEntry, Sales, OutboundEvent, refund, find_sale, set_default, update_sale, take_out,
  put_back, commit_delivery, rollback_delivery,
}
use storepulse.Simulator.Domain.Ledger.{IsLedger, IsPriced}
use storepulse.Simulator.Domain.Refunding.{Reserves}
use storepulse.Simulator.Domain.Traffic.{Traffic, remaining, held, share}
use storepulse.Simulator.Domain.InFlight.{
  find-update_same, find-update_other, find-update_none, find-set_default_old, find-set_default_new,
  remaining-take_out, remaining-put_back, held-split, set_default-IsLedger, put_back-IsLedger,
  find-IsPriced,
}

-- A refund in flight, whose amount is the price of its quantity.
pub record Holds (sales : Sales) (event : OutboundEvent) : Type 0 where
  pub key : ℕ
  pub original : SaleLedgerEntry
  pub is_refund : event.kind ≡ refund
  pub releases : event.refund_original_event_id ≡ some key
  pub found : find_sale key sales ≡ some original
  pub price : event.reserved_amount_cents ≡ original.unit_price_cents * event.reserved_quantity

pub record Balanced (t : Traffic) : Type 0 where
  pub ledger : IsLedger t.sales
  pub same_keys : (i : ℕ) → (find_sale i t.sales ≡ none) ↔ (find_sale i t.sold ≡ none)
  pub balance :
      (i : ℕ) → remaining i t.sales + held i t.in_flight + held i t.delivered ≡ remaining i t.sold
  pub holds : All (Holds t.sales) t.in_flight

All-map :
    (P Q : OutboundEvent → Type 0) (l : List OutboundEvent)
    → ((e : OutboundEvent) → P e → Q e)
    → All P l
    → All Q l
All-map P Q [] f h = tt
All-map P Q (x ∷ l) f h = (f x h.0, All-map P Q l f h.1)

All-split :
    (P : OutboundEvent → Type 0) (xs ys : List OutboundEvent) (e : OutboundEvent)
    → All P (xs ++ e ∷ ys)
    → P e × All P (xs ++ ys)
All-split P [] ys e h = h
All-split P (x ∷ xs) ys e h = let (a, b) = All-split P xs ys e h.1 in (a, (h.0, b))

-- A change of one entry that keeps its key and its price keeps what is in flight.
update-Holds :
    (j : ℕ) (f : SaleLedgerEntry → SaleLedgerEntry) (l : Sales) (event : OutboundEvent)
    → ((x : SaleLedgerEntry) → (f x).event_id ≡ x.event_id)
    → ((x : SaleLedgerEntry) → (f x).unit_price_cents ≡ x.unit_price_cents)
    → Holds l event
    → Holds (update_sale j f l) event
update-Holds j f l event k u h = elim (Bool-cases (h.key == j)) [
  | inl p ↦
      let same : h.key ≡ j = ground arith in
      record {
        key = h.key;
        original = f h.original;
        is_refund = h.is_refund;
        releases = h.releases;
        found = rw same (find-update_same j f h.original l k (rw (sym same) h.found));
        price = rw (u h.original) h.price;
      }
  | inr p ↦ record {
    key = h.key;
    original = h.original;
    is_refund = h.is_refund;
    releases = h.releases;
    found = find-update_other h.key j f l k (ground arith) ∙ h.found;
    price = h.price;
  }
]

set_default-Holds :
    (x : SaleLedgerEntry) (l : Sales) (event : OutboundEvent)
    → Holds l event
    → Holds (set_default x l) event
set_default-Holds x l event h = record {
  key = h.key;
  original = h.original;
  is_refund = h.is_refund;
  releases = h.releases;
  found = find-set_default_old h.key x h.original l h.found;
  price = h.price;
}

pub reserve-Balanced :
    (config : SimulatorConfig) (id : ℕ) (t : Traffic) (event : OutboundEvent) (o : SaleLedgerEntry)
    (after : Sales)
    → Reserves config id t.sales event o after
    → Balanced t
    → Balanced (record t {
      sales =
          update_sale o.event_id
            (take_out event.payload.quantity event.payload.amount_cents)
            t.sales;
      in_flight = event ∷ t.in_flight;
    })
unfolding held
reserve-Balanced config id t event o after r b =
    let q : ℕ = event.payload.quantity in
    let a : ℕ = event.payload.amount_cents in
    let kept = update-Holds o.event_id (take_out q a) t.sales in
    record {
      ledger = rw (sym r.taken_out) r.still_ledger;
      same_keys = λ i.
          (ground (
            arith,
            b.same_keys i,
            find-update_none i o.event_id (take_out q a) t.sales (λ x. refl),
          ));
      balance = λ i.
          (ground (
            arith,
            r.releases,
            r.reserved_quantity_sent,
            b.balance i,
            remaining-take_out i o.event_id q a o t.sales r.in_ledger r.within_quantity,
          ));
      holds = (
        kept event (λ x. refl) (λ x. refl)
            (record {
              key = o.event_id;
              original = o;
              is_refund = r.is_refund;
              releases = r.releases;
              found = r.in_ledger;
              price = rw (r.reserved_quantity_sent, r.reserved_amount_sent) r.full_price;
            }),
        All-map _ _ t.in_flight (λ e h. kept e (λ x. refl) (λ x. refl) h) b.holds,
      );
    }

-- An answer or a rollback takes the event out of the list.
pub release-Balanced :
    (t : Traffic) (xs ys : List OutboundEvent) (event : OutboundEvent)
    → t.in_flight ≡ xs ++ event ∷ ys
    → Balanced t
    → Balanced (record t { sales = rollback_delivery event t.sales; in_flight = xs ++ ys })
unfolding rollback_delivery
release-Balanced t xs ys event e b =
    let (h, others) = All-split (Holds t.sales) xs ys event (rw (sym e) b.holds) in
    let q : ℕ = event.reserved_quantity in
    let a : ℕ = event.reserved_amount_cents in
    let priced = find-IsPriced h.key h.original t.sales b.ledger.priced h.found in
    rw (h.is_refund, h.releases)
      (record {
        ledger = put_back-IsLedger h.key q a h.original t.sales h.found h.price priced b.ledger;
        same_keys = λ i.
            (ground
              (arith, b.same_keys i, find-update_none i h.key (put_back q a) t.sales (λ x. refl)));
        balance = λ i.
            let in_flight : held i t.in_flight ≡ share i event + held i (xs ++ ys) =
              ap (held i) e ∙ held-split i xs ys event in
            let shared : share i event ≡ (if h.key == i then q else 0) = rw h.releases refl in
            let put = remaining-put_back i h.key q a h.original t.sales h.found in
            omega (arith, b.balance i, in_flight, shared, put);
        holds =
            All-map _ _ (xs ++ ys)
              (λ x k. update-Holds h.key (put_back q a) t.sales x (λ y. refl) (λ y. refl) k) others;
      })

pub deliver_refund-Balanced :
    (t : Traffic) (xs ys : List OutboundEvent) (event : OutboundEvent)
    → t.in_flight ≡ xs ++ event ∷ ys
    → Balanced t
    → Balanced (record t {
      sales = commit_delivery event t.sales;
      in_flight = xs ++ ys;
      delivered = event ∷ t.delivered;
    })
unfolding commit_delivery held
deliver_refund-Balanced t xs ys event e b =
    let (h, others) = All-split (Holds t.sales) xs ys event (rw (sym e) b.holds) in
    rw h.is_refund (record {
      ledger = b.ledger;
      same_keys = b.same_keys;
      balance = λ i.
          let in_flight : held i t.in_flight ≡ share i event + held i (xs ++ ys) =
            ap (held i) e ∙ held-split i xs ys event in
          omega (arith, b.balance i, in_flight);
      holds = others;
    })

pub add_sale-Balanced :
    (t : Traffic) (x : SaleLedgerEntry)
    → IsPriced x
    → Balanced t
    → Balanced (record t { sales = set_default x t.sales; sold = set_default x t.sold })
add_sale-Balanced t x p b = record {
  ledger = set_default-IsLedger x t.sales p b.ledger;
  same_keys = λ i. elim (Option-cases (find_sale i t.sales)) [
    | inl e ↦ ground (
      arith,
      b.same_keys i,
      find-set_default_new i x t.sales e,
      find-set_default_new i x t.sold ((b.same_keys i).0 e),
    )
    | inr (o, e) ↦ elim (Option-cases (find_sale i t.sold)) [
      | inl e' ↦ absurd (ground (arith, b.same_keys i))
      | inr (o', e') ↦
          ground
            (arith, find-set_default_old i x o t.sales e, find-set_default_old i x o' t.sold e')
    ]
  ];
  balance = λ i. elim (Option-cases (find_sale i t.sales)) [
    | inl e ↦
        unfold remaining in
        ground (
          arith,
          b.balance i,
          (b.same_keys i).0 e,
          find-set_default_new i x t.sales e,
          find-set_default_new i x t.sold ((b.same_keys i).0 e),
        )
    | inr (o, e) ↦ elim (Option-cases (find_sale i t.sold)) [
      | inl e' ↦ absurd (ground (arith, b.same_keys i))
      | inr (o', e') ↦
          unfold remaining in
          ground (
            arith,
            b.balance i,
            find-set_default_old i x o t.sales e,
            find-set_default_old i x o' t.sold e',
          )
    ]
  ];
  holds = All-map _ _ t.in_flight (set_default-Holds x t.sales) b.holds;
}
