-- ===== src/Simulator/Domain/Reservation.antt =====
-- A reservation in the ledger and its release, a delivery, and the invariant through them.
use storepulse.Prelude.{
  ℕ, ◌+◌, ◌-◌, ◌*◌, ◌≤◌, ◌≡◌, refl, ap, ◌∙◌, inl, inr, none, some, [], ◌∷◌, All, arith, ◌==◌,
  Bool-cases,
}
use mathlib.Core.Path.{ap₂}
use storepulse.Simulator.Domain.{SaleLedgerEntry, Sales, find_sale, update_sale, take_out, put_back}
use storepulse.Simulator.Domain.Ledger.{IsPriced, IsKeyed, IsLedger, IsCandidate}

find-update_none :
    (i j : ℕ) (f : SaleLedgerEntry → SaleLedgerEntry) (l : Sales)
    → ((e : SaleLedgerEntry) → (f e).event_id ≡ e.event_id)
    → find_sale j l ≡ none
    → find_sale j (update_sale i f l) ≡ none
unfolding find_sale update_sale
find-update_none i j f [] k h = ground arith
find-update_none i j f (x ∷ l) k h = ground (arith, k x, find-update_none i j f l k)

pub update-IsKeyed :
    (i : ℕ) (f : SaleLedgerEntry → SaleLedgerEntry) (l : Sales)
    → ((e : SaleLedgerEntry) → (f e).event_id ≡ e.event_id)
    → IsKeyed l
    → IsKeyed (update_sale i f l)
unfolding update_sale
update-IsKeyed i f [] k h = tt
update-IsKeyed i f (x ∷ l) k h = elim (Bool-cases (x.event_id == i)) [
  | inl e ↦ rw e ((λ j p. h.0 j (p ∙ k x)), h.1)
  | inr e ↦ rw e ((λ j p. find-update_none i j f l k (h.0 j p)), update-IsKeyed i f l k h.1)
]

pub update-IsPriced :
    (i : ℕ) (f : SaleLedgerEntry → SaleLedgerEntry) (o : SaleLedgerEntry) (l : Sales)
    → find_sale i l ≡ some o
    → IsPriced (f o)
    → All IsPriced l
    → All IsPriced (update_sale i f l)
unfolding find_sale update_sale
update-IsPriced i f o [] found price h = tt
update-IsPriced i f o (x ∷ l) found price h = elim (Bool-cases (x.event_id == i)) [
  | inl e ↦ rw e (ground arith, h.1)
  | inr e ↦ rw e (h.0, update-IsPriced i f o l (ground arith) price h.1)
]

scaled_rest : (u r q d : ℕ) → r ≡ q + d → u * r - u * q ≡ u * (r - q)
scaled_rest u r q d e = let p : r - q ≡ d = omega arith in rw p (rw e (omega arith))

take_out-IsPriced :
    (q : ℕ) (e : SaleLedgerEntry)
    → IsPriced e
    → q ≤ e.remaining_quantity
    → IsPriced (take_out q (e.unit_price_cents * q) e)
take_out-IsPriced q e h room =
    rw h (
      scaled_rest e.unit_price_cents e.remaining_quantity q (e.remaining_quantity - q)
        (omega arith))

put_back_entry :
    (q a : ℕ) (e : SaleLedgerEntry)
    → q ≤ e.remaining_quantity
    → a ≤ e.remaining_amount_cents
    → put_back q a (take_out q a e) ≡ e
put_back_entry q a e room money =
    ap₂ (λ (n m : ℕ). record e { remaining_quantity = n; remaining_amount_cents = m }) (omega arith)
      (omega arith)

-- A reservation that a candidate has room for keeps the ledger's invariant.
pub reserve-IsLedger :
    (e : SaleLedgerEntry) (q : ℕ) (l : Sales)
    → IsLedger l
    → IsCandidate l e
    → q ≤ e.remaining_quantity
    → IsLedger (update_sale e.event_id (take_out q (e.unit_price_cents * q)) l)
reserve-IsLedger e q l h c room = record {
  priced =
      update-IsPriced e.event_id _ e l c.found (take_out-IsPriced q e c.has_price room) h.priced;
  keyed = update-IsKeyed e.event_id _ l (λ x. refl) h.keyed;
}

-- What was taken out and is put back leaves the ledger as it was.
pub put_back_taken :
    (i q a : ℕ) (e : SaleLedgerEntry) (l : Sales)
    → find_sale i l ≡ some e
    → q ≤ e.remaining_quantity
    → a ≤ e.remaining_amount_cents
    → update_sale i (put_back q a) (update_sale i (take_out q a) l) ≡ l
unfolding find_sale update_sale
put_back_taken i q a e [] found room money = refl
put_back_taken i q a e (x ∷ l) found room money = elim (Bool-cases (x.event_id == i)) [
  | inl same ↦
      rw (same, same) (ap (λ y. y ∷ l) (put_back_entry q a x (ground arith) (ground arith)))
  | inr other ↦
      rw (other, other) (ap (λ m. x ∷ m) (put_back_taken i q a e l (ground arith) room money))
]
