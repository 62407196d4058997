-- ===== src/Simulator/Domain/Ledger.antt =====
-- The ledger of sales: what holds of it, and what a reservation and its release do to it.
use storepulse.Prelude.{
  ℕ, zero, suc, ◌*◌, ◌≤◌, ◌≡◌, true, inl, inr, none, some, [], ◌∷◌, All, arith, Bool-cases,
}
use storepulse.Simulator.Domain.{
  SaleLedgerEntry, Sales, find_sale, is_refundable, refundable_sales, get_elem?,
}

-- The amount that can be refunded is the price of the quantity that can be.
abbrev pub IsPriced : SaleLedgerEntry → Type 0
IsPriced e = e.remaining_amount_cents ≡ e.unit_price_cents * e.remaining_quantity

-- No key twice.
abbrev pub IsKeyed : Sales → Type 0
IsKeyed [] = Unit
IsKeyed (e ∷ l) = ((j : ℕ) → j ≡ e.event_id → find_sale j l ≡ none) × IsKeyed l

pub record IsLedger (sales : Sales) : Type 0 where
  pub priced : All IsPriced sales
  pub keyed : IsKeyed sales

-- What a draw from the refundable sales is.
pub record IsCandidate (sales : Sales) (e : SaleLedgerEntry) : Type 0 where
  pub found : find_sale e.event_id sales ≡ some e
  pub has_price : IsPriced e
  pub has_quantity : 1 ≤ e.remaining_quantity

IsCandidate-tail :
    (x e : SaleLedgerEntry) (l : Sales) → IsLedger (x ∷ l) → IsCandidate l e → IsCandidate (x ∷ l) e
unfolding find_sale
IsCandidate-tail x e l h c = record {
  found = ground (arith, h.keyed.0 e.event_id);
  has_price = c.has_price;
  has_quantity = c.has_quantity;
}

IsCandidate-head :
    (x : SaleLedgerEntry) (l : Sales)
    → IsLedger (x ∷ l)
    → is_refundable x ≡ true
    → IsCandidate (x ∷ l) x
unfolding find_sale
IsCandidate-head x l h r = record {
  found = ground arith;
  has_price = h.priced.0;
  has_quantity = ground arith;
}

pub IsLedger-tail : (x : SaleLedgerEntry) (l : Sales) → IsLedger (x ∷ l) → IsLedger l
IsLedger-tail x l h = record { priced = h.priced.1; keyed = h.keyed.1 }

-- Whatever `choice` draws from the refundable sales is a candidate.
pub drawn-IsCandidate :
    (i : ℕ) (e : SaleLedgerEntry) (l : Sales)
    → IsLedger l
    → get_elem? (refundable_sales l) i ≡ some e
    → IsCandidate l e
unfolding refundable_sales
drawn-IsCandidate i e [] h p = absurd (ground arith)
drawn-IsCandidate zero e (x ∷ l) h p = elim (Bool-cases (is_refundable x)) [
  | inl r ↦ ground (arith, IsCandidate-head x l h)
  | inr r ↦
      ground (arith, IsCandidate-tail x e l h, drawn-IsCandidate zero e l (IsLedger-tail x l h))
]
drawn-IsCandidate (suc i) e (x ∷ l) h p = elim (Bool-cases (is_refundable x)) [
  | inl r ↦ ground (arith, IsCandidate-tail x e l h, drawn-IsCandidate i e l (IsLedger-tail x l h))
  | inr r ↦
      ground (arith, IsCandidate-tail x e l h, drawn-IsCandidate (suc i) e l (IsLedger-tail x l h))
]
