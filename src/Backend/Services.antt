-- ===== src/Backend/Services.antt =====
-- backend/app/services.py: whether a store counts as online.
-- An instant is a number of microseconds. A naive datetime carries no zone and is only rejected.
mod Tests
use storepulse.Prelude.{
  ℕ, ◌+◌, ◌*◌, ◌≤◌, ◌≡◌, ◌↔◌, refl, Bool, true, false, String, Option, none, some, arith, leb,
  if◌then◌else◌,
}
use storepulse.Prelude.Int.{ℤ, pos, negsuc, leb_ℤ, pos_part, ltb_ℤ}

pub data DateTime : Type 0 where
  aware naive : ℕ → DateTime

pub data Answer (A : Type 0) : Type 0 where
  answer : A → Answer A
  value_error : String → Answer A

-- `timedelta(seconds=s)`
abbrev pub seconds : ℕ → ℕ
seconds s = s * 1_000_000

-- `clock` is `datetime.now(UTC)`, read when the caller gives no `now`.
abbrev reference_of : Option DateTime → ℕ → DateTime
reference_of none clock = aware clock
reference_of (some now) clock = now

-- Both datetimes are there: the tests on `tzinfo`, in order, and the comparison. The difference
-- may be negative, so the last time is moved to the other side.
compare_times : ℕ → DateTime → DateTime → Answer Bool
compare_times threshold reference (naive _) = value_error "last_seen_at must be timezone-aware"
compare_times threshold (naive _) (aware _) = value_error "now must be timezone-aware"
compare_times threshold (aware now) (aware last) = answer (leb now (last + seconds threshold))

unfoldable pub is_store_online : Option DateTime → Option DateTime → ℤ → ℕ → Answer Bool
unfolding compare_times
is_store_online last_seen_at now threshold_seconds clock =
    if leb_ℤ threshold_seconds (pos 0)
    then value_error "threshold_seconds must be positive"
    else elim last_seen_at [
      | none ↦ answer false
      | some last ↦ compare_times (pos_part threshold_seconds) (reference_of now clock) last
    ]
