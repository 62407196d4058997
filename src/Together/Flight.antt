-- ===== src/Together/Flight.antt =====
-- The events in flight without one that is answered.
use storepulse.Prelude.{ℕ, ◌≡◌, ◌≢◌, refl, sym, ap, none, List, [], ◌∷◌, ◌++◌, arith, All, inl, inr}
use storepulse.Simulator.Config.{SimulatorConfig}
use storepulse.Simulator.Rng.{Rng}
use storepulse.Simulator.Domain.{SaleLedgerEntry, Sales, OutboundEvent, find_sale, set_default}
use storepulse.Simulator.Domain.Traffic.{held}
use storepulse.Simulator.Domain.InFlight.{find-set_default_old}
use storepulse.Together.Invariant.{Cargo, Distinct}

pub All-split :
    (P : OutboundEvent → Type 0) (xs ys : List OutboundEvent) (e : OutboundEvent)
    → All P (xs ++ e ∷ ys)
    → P e × All P (xs ++ ys)
All-split P [] ys e h = h
All-split P (x ∷ xs) ys e h = let (a, b) = All-split P xs ys e h.1 in (a, (h.0, b))

pub All-both :
    {P Q R : OutboundEvent → Type 0} (l : List OutboundEvent)
    → ((e : OutboundEvent) → P e → Q e → R e)
    → All P l
    → All Q l
    → All R l
All-both [] f h k = tt
All-both (x ∷ l) f h k = (f x h.0 k.0, All-both l f h.1 k.1)

pub Distinct-split :
    (xs ys : List OutboundEvent) (e : OutboundEvent)
    → Distinct (xs ++ e ∷ ys)
    → All (λ (x : OutboundEvent). x.payload.event_id ≢ e.payload.event_id) (xs ++ ys)
      × Distinct (xs ++ ys)
Distinct-split [] ys e h = h
Distinct-split (x ∷ xs) ys e h =
    let (a, b) = Distinct-split xs ys e h.1 in
    let (c, d) = All-split (λ y. y.payload.event_id ≢ x.payload.event_id) xs ys e h.0 in
    (((λ p. c (sym p)), a), (d, b))

module _ {S : Type 0} (rng : Rng S) (config : SimulatorConfig) where
  -- Nothing in flight refunds a sale that is not in the ledger.
  pub held_absent :
      (i : ℕ) (sales : Sales) (l : List OutboundEvent)
      → find_sale i sales ≡ none
      → All (Cargo rng config sales) l
      → held i l ≡ 0
  unfolding held
  held_absent i sales [] absent h = refl
  held_absent i sales (x ∷ l) absent (inl (id, sold), h) =
      ground (arith, ap (λ y. y.refund_original_event_id) sold.made, held_absent i sales l absent h)
  held_absent i sales (x ∷ l) absent (inr r, h) = ground (
    arith,
    ap (λ y. y.refund_original_event_id) r.made,
    r.found,
    absent,
    held_absent i sales l absent h,
  )

  pub set_default-Cargo :
      (x : SaleLedgerEntry) (sales : Sales) (event : OutboundEvent)
      → Cargo rng config sales event
      → Cargo rng config (set_default x sales) event
  set_default-Cargo x sales event (inl sold) = inl sold
  set_default-Cargo x sales event (inr r) = inr (record {
    source = r.source;
    entry = r.entry;
    id = r.id;
    made = r.made;
    at_least_one = r.at_least_one;
    found = find-set_default_old r.source.event_id x r.entry sales r.found;
    same_sku = r.same_sku;
    same_price = r.same_price;
  })
