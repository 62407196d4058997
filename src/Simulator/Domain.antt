-- ===== src/Simulator/Domain.antt =====
-- simulator/simulator/domain.py: the traffic generator and its ledger of refundable sales.
-- An instant is a number of microseconds since the least datetime; a subtraction that passes it is
-- an `OverflowError`, `none` here. An event's JSON payload is a record of its fields. The
-- ledger's numbers are naturals: the code takes out what `randint` drew from what remains. The
-- configuration is validated, so its integers are their positive parts.
pub mod Ledger
pub mod Reservation
pub mod Refunding
pub mod Traffic
pub mod InFlight
pub mod Balance
pub mod Conservation
pub mod Making
mod Tests
pub mod Generator
use storepulse.Prelude.{
  ℕ, zero, suc, ◌+◌, ◌-◌, ◌*◌, Bool, true, false, ◌&&◌, not, String, Option, none, some, List, [],
  ◌∷◌, if◌then◌else◌, ◌==◌, leb, ltb, length,
}
use storepulse.Prelude.Int.{pos_part}
use storepulse.Simulator.Float.{lt_float}
use storepulse.Simulator.Config.{SimulatorConfig}
use storepulse.Simulator.Rng.{Rng}

pub record ProductSpec : Type 0 where
  pub sku : String
  pub unit_price_cents : ℕ

abbrev spec : String → ℕ → ProductSpec
spec sku price = record { sku = sku; unit_price_cents = price }

abbrev pub product_catalog : List ProductSpec
product_catalog =
    spec "COFFEE-001" 899
    ∷ spec "TEA-001" 549
    ∷ spec "MUG-001" 1299
    ∷ spec "BOTTLE-001" 1899
    ∷ spec "NOTE-001" 699
    ∷ spec "PEN-001" 599
    ∷ spec "BAG-001" 1499
    ∷ spec "CABLE-001" 1299
    ∷ spec "POWER-001" 2499
    ∷ spec "SNACK-001" 249
    ∷ []

pub record SaleLedgerEntry : Type 0 where
  pub event_id : ℕ
  pub product_sku : String
  pub unit_price_cents : ℕ
  pub occurred_at : ℕ
  pub remaining_quantity : ℕ
  pub remaining_amount_cents : ℕ

pub data EventKind : Type 0 where
  sale refund duplicate : EventKind

-- The JSON object; `original_event_id` is there for a refund only.
pub record EventPayload : Type 0 where
  pub event_id : ℕ
  pub store_code : String
  pub product_sku : String
  pub event_type : String
  pub quantity : ℕ
  pub amount_cents : ℕ
  pub occurred_at : ℕ
  pub original_event_id : Option ℕ
  pub source_instance : String
  pub late : Bool

pub record OutboundEvent : Type 0 where
  pub payload : EventPayload
  pub kind : EventKind
  pub sale_entry : Option SaleLedgerEntry
  pub refund_original_event_id : Option ℕ
  pub reserved_quantity : ℕ
  pub reserved_amount_cents : ℕ
  pub allow_deliberate_duplicate : Bool

-- The dict `self.sales`, in insertion order; the key of an entry is its `event_id`.
abbrev pub Sales : Type 0
Sales = List SaleLedgerEntry

unfoldable pub find_sale : ℕ → Sales → Option SaleLedgerEntry
find_sale i [] = none
find_sale i (e ∷ l) = if e.event_id == i then some e else find_sale i l

-- `setdefault`
unfoldable pub set_default : SaleLedgerEntry → Sales → Sales
set_default e [] = e ∷ []
set_default e (x ∷ l) = if x.event_id == e.event_id then x ∷ l else x ∷ set_default e l

-- The entry that an in-place change leaves under its key.
unfoldable pub update_sale : ℕ → (SaleLedgerEntry → SaleLedgerEntry) → Sales → Sales
update_sale i f [] = []
update_sale i f (x ∷ l) = if x.event_id == i then f x ∷ l else x ∷ update_sale i f l

-- `remaining_quantity -= quantity`, `remaining_amount_cents -= amount_cents`
abbrev pub take_out : ℕ → ℕ → SaleLedgerEntry → SaleLedgerEntry
take_out quantity amount e = record e {
  remaining_quantity = e.remaining_quantity - quantity;
  remaining_amount_cents = e.remaining_amount_cents - amount;
}

abbrev pub put_back : ℕ → ℕ → SaleLedgerEntry → SaleLedgerEntry
put_back quantity amount e = record e {
  remaining_quantity = e.remaining_quantity + quantity;
  remaining_amount_cents = e.remaining_amount_cents + amount;
}

abbrev pub is_refundable : SaleLedgerEntry → Bool
is_refundable e = ltb 0 e.remaining_quantity && leb e.unit_price_cents e.remaining_amount_cents

unfoldable pub refundable_sales : Sales → Sales
refundable_sales [] = []
refundable_sales (e ∷ l) =
    let rest = refundable_sales l in if is_refundable e then e ∷ rest else rest

-- `l[i]`; a draw of `choice` is in range.
abbrev pub get_elem? {ℓ} : {A : Type ℓ} → List A → ℕ → Option A
get_elem? [] i = none
get_elem? (x ∷ xs) zero = some x
get_elem? (x ∷ xs) (suc i) = get_elem? xs i

-- `occurred_at -= timedelta(seconds=seconds)`
abbrev pub minus_seconds : ℕ → ℕ → Option ℕ
minus_seconds t seconds =
    if ltb t (seconds * 1_000_000) then none else some (t - seconds * 1_000_000)

-- `commit_delivery`
unfoldable pub commit_delivery : OutboundEvent → Sales → Sales
unfolding set_default
commit_delivery event sales = elim event.kind [
  | sale ↦ elim event.sale_entry [ none ↦ sales | some entry ↦ set_default entry sales ]
  | _ ↦ sales
]

-- `rollback_delivery`
unfoldable pub rollback_delivery : OutboundEvent → Sales → Sales
unfolding update_sale
rollback_delivery event sales = elim event.kind [
  | refund ↦ elim event.refund_original_event_id [
    | none ↦ sales
    | some i ↦ update_sale i (put_back event.reserved_quantity event.reserved_amount_cents) sales
  ]
  | _ ↦ sales
]

-- `make_duplicate`: the defaults for all that is not given.
unfoldable pub make_duplicate : OutboundEvent → OutboundEvent
make_duplicate event = record {
  payload = event.payload;
  kind = duplicate;
  sale_entry = none;
  refund_original_event_id = none;
  reserved_quantity = 0;
  reserved_amount_cents = 0;
  allow_deliberate_duplicate = false;
}
