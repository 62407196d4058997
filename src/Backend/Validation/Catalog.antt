-- ===== src/Backend/Validation/Catalog.antt =====
-- The products of the simulator's catalogue, as the schema sees them.
use storepulse.Prelude.{ℕ, ◌*◌, ◌≤◌, ◌≡◌, refl, Bool, true, List, [], ◌∷◌, arith, ◌&&◌, leb, All}
use storepulse.Simulator.Domain.{ProductSpec, product_catalog}
use storepulse.Simulator.Domain.Refunding.{mul_mono}
use storepulse.Backend.Validation.{chars}
use storepulse.Backend.Validation.Bounds.{Within}
use storepulse.Backend.Validation.Printing.{is_plain}

-- What the schema asks of a product of the catalogue, with the highest price in it.
pub record IsListed (spec : ProductSpec) : Type 0 where
  pub sku_plain : is_plain spec.sku ≡ true
  pub sku_within : Within 64 spec.sku
  pub price_pos : 1 ≤ spec.unit_price_cents
  pub price_most : spec.unit_price_cents ≤ 2499

abbrev is_listed : ProductSpec → Bool
is_listed spec =
    is_plain spec.sku
    && leb 1 (chars spec.sku)
    && leb (chars spec.sku) 64
    && leb 1 spec.unit_price_cents
    && leb spec.unit_price_cents 2499

abbrev all_listed : List ProductSpec → Bool
all_listed [] = true
all_listed (x ∷ l) = is_listed x && all_listed l

all_listed-IsListed : (l : List ProductSpec) → all_listed l ≡ true → All IsListed l
all_listed-IsListed [] h = tt
all_listed-IsListed (x ∷ l) h = (
  record {
    sku_plain = ground (arith, h);
    sku_within = ground (arith, h);
    price_pos = ground (arith, h);
    price_most = ground (arith, h);
  },
  all_listed-IsListed l (ground (arith, h)),
)

pub catalog-IsListed : All IsListed product_catalog
unfolding is_plain chars
catalog-IsListed = all_listed-IsListed product_catalog refl

pub product_within :
    (price least most quantity : ℕ)
    → 1 ≤ price
    → price ≤ most
    → 1 ≤ least
    → least ≤ quantity
    → (1 ≤ price * least) × (price * least ≤ most * quantity)
product_within price least most quantity hp hm hl hq =
    let one = mul_mono price 1 least hl in
    let wide = mul_mono price least quantity hq in
    let high = mul_mono quantity price most hm in (omega arith, omega arith)
