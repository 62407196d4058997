-- ===== src/Simulator/Domain/InFlight.antt =====
-- What the changes of a ledger do to its lookups, its sums and its invariant.
use storepulse.Prelude.{
  ℕ, ◌+◌, ◌*◌, ◌≤◌, ◌≡◌, ◌≢◌, ◌↔◌, refl, inl, inr, none, some, List, [], ◌∷◌, ◌++◌, All, arith,
  ◌==◌, if◌then◌else◌, Bool-cases,
}
use storepulse.Simulator.Domain.{
  SaleLedgerEntry, Sales, OutboundEvent, find_sale, set_default, update_sale, take_out, put_back,
}
use storepulse.Simulator.Domain.Traffic.{remaining, share, held}
use storepulse.Simulator.Domain.Ledger.{IsLedger, IsPriced, IsKeyed}
use storepulse.Simulator.Domain.Reservation.{update-IsPriced, update-IsKeyed}

pub find-update_same :
    (j : ℕ) (f : SaleLedgerEntry → SaleLedgerEntry) (e : SaleLedgerEntry) (l : Sales)
    → ((x : SaleLedgerEntry) → (f x).event_id ≡ x.event_id)
    → find_sale j l ≡ some e
    → find_sale j (update_sale j f l) ≡ some (f e)
unfolding find_sale update_sale
find-update_same j f e [] k found = absurd (ground arith)
find-update_same j f e (x ∷ l) k found = ground (arith, k x, find-update_same j f e l k)

pub find-update_other :
    (i j : ℕ) (f : SaleLedgerEntry → SaleLedgerEntry) (l : Sales)
    → ((x : SaleLedgerEntry) → (f x).event_id ≡ x.event_id)
    → i ≢ j
    → find_sale i (update_sale j f l) ≡ find_sale i l
unfolding find_sale update_sale
find-update_other i j f [] k other = refl
find-update_other i j f (x ∷ l) k other = ground (arith, k x, find-update_other i j f l k)

pub update_absent :
    (j : ℕ) (f : SaleLedgerEntry → SaleLedgerEntry) (l : Sales)
    → find_sale j l ≡ none
    → update_sale j f l ≡ l
unfolding find_sale update_sale
update_absent j f [] h = refl
update_absent j f (x ∷ l) h = ground (arith, update_absent j f l)

pub find-set_default_old :
    (i : ℕ) (e o : SaleLedgerEntry) (l : Sales)
    → find_sale i l ≡ some o
    → find_sale i (set_default e l) ≡ some o
unfolding find_sale set_default
find-set_default_old i e o [] h = absurd (ground arith)
find-set_default_old i e o (x ∷ l) h = ground (arith, find-set_default_old i e o l)

-- A key that is not there is added with the entry.
pub find-set_default_new :
    (i : ℕ) (e : SaleLedgerEntry) (l : Sales)
    → find_sale i l ≡ none
    → find_sale i (set_default e l) ≡ (if e.event_id == i then some e else none)
unfolding find_sale set_default
find-set_default_new i e [] h = ground arith
find-set_default_new i e (x ∷ l) h = ground (arith, find-set_default_new i e l)

pub find-update_none :
    (i j : ℕ) (f : SaleLedgerEntry → SaleLedgerEntry) (l : Sales)
    → ((x : SaleLedgerEntry) → (f x).event_id ≡ x.event_id)
    → (find_sale i (update_sale j f l) ≡ none) ↔ (find_sale i l ≡ none)
unfolding find_sale update_sale
find-update_none i j f [] k = ground arith
find-update_none i j f (x ∷ l) k = ground (arith, k x, find-update_none i j f l k)

pub remaining-take_out :
    (i j q a : ℕ) (e : SaleLedgerEntry) (l : Sales)
    → find_sale j l ≡ some e
    → q ≤ e.remaining_quantity
    → remaining i (update_sale j (take_out q a) l) + (if j == i then q else 0) ≡ remaining i l
unfolding remaining
remaining-take_out i j q a e l found room =
    let same = find-update_same j (take_out q a) e l (λ x. refl) found in
    let other = find-update_other i j (take_out q a) l (λ x. refl) in
    elim (Bool-cases (j == i)) [
      | inl p ↦ let e1 : j ≡ i = ground arith in ground (arith, same, e1)
      | inr p ↦ ground (arith, other)
    ]

pub remaining-put_back :
    (i j q a : ℕ) (e : SaleLedgerEntry) (l : Sales)
    → find_sale j l ≡ some e
    → remaining i (update_sale j (put_back q a) l) ≡ remaining i l + (if j == i then q else 0)
unfolding remaining
remaining-put_back i j q a e l found =
    let same = find-update_same j (put_back q a) e l (λ x. refl) found in
    let other = find-update_other i j (put_back q a) l (λ x. refl) in
    elim (Bool-cases (j == i)) [
      | inl p ↦ let e1 : j ≡ i = ground arith in ground (arith, same, e1)
      | inr p ↦ ground (arith, other)
    ]

pub held-append : (i : ℕ) (xs ys : List OutboundEvent) → held i (xs ++ ys) ≡ held i xs + held i ys
unfolding held
held-append i [] ys = ground arith
held-append i (x ∷ xs) ys = ground (arith, held-append i xs ys)

pub held-split :
    (i : ℕ) (xs ys : List OutboundEvent) (e : OutboundEvent)
    → held i (xs ++ e ∷ ys) ≡ share i e + held i (xs ++ ys)
unfolding held
held-split i [] ys e = refl
held-split i (x ∷ xs) ys e = omega (arith, held-split i xs ys e)

set_default-IsPriced :
    (e : SaleLedgerEntry) (l : Sales) → IsPriced e → All IsPriced l → All IsPriced (set_default e l)
unfolding set_default
set_default-IsPriced e [] p h = (p, tt)
set_default-IsPriced e (x ∷ l) p h = elim (Bool-cases (x.event_id == e.event_id)) [
  | inl same ↦ rw same h
  | inr other ↦ rw other (h.0, set_default-IsPriced e l p h.1)
]

set_default-IsKeyed : (e : SaleLedgerEntry) (l : Sales) → IsKeyed l → IsKeyed (set_default e l)
unfolding set_default
set_default-IsKeyed e [] h = ((λ j p. unfold find_sale in refl), tt)
set_default-IsKeyed e (x ∷ l) h = elim (Bool-cases (x.event_id == e.event_id)) [
  | inl same ↦ rw same h
  | inr other ↦ rw other (
    (λ j p. ground (arith, h.0 j p, find-set_default_new j e l (h.0 j p))),
    set_default-IsKeyed e l h.1,
  )
]

-- A delivered sale whose amount is its price keeps the ledger's invariant.
pub set_default-IsLedger :
    (e : SaleLedgerEntry) (l : Sales) → IsPriced e → IsLedger l → IsLedger (set_default e l)
set_default-IsLedger e l p h = record {
  priced = set_default-IsPriced e l p h.priced;
  keyed = set_default-IsKeyed e l h.keyed;
}

-- So does a reservation that is put back.
pub put_back-IsLedger :
    (j q a : ℕ) (o : SaleLedgerEntry) (l : Sales)
    → find_sale j l ≡ some o
    → a ≡ o.unit_price_cents * q
    → IsPriced o
    → IsLedger l
    → IsLedger (update_sale j (put_back q a) l)
put_back-IsLedger j q a o l found e p h = record {
  priced = update-IsPriced j (put_back q a) o l found (rw (p, e) (omega arith)) h.priced;
  keyed = update-IsKeyed j (put_back q a) l (λ x. refl) h.keyed;
}

pub find-IsPriced :
    (j : ℕ) (o : SaleLedgerEntry) (l : Sales) → All IsPriced l → find_sale j l ≡ some o → IsPriced o
unfolding find_sale
find-IsPriced j o [] h found = absurd (ground arith)
find-IsPriced j o (x ∷ l) h found = elim (Bool-cases (x.event_id == j)) [
  | inl same ↦ ground (arith, h.0)
  | inr other ↦ find-IsPriced j o l h.1 (ground arith)
]
