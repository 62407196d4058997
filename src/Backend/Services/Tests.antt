-- ===== src/Backend/Services/Tests.antt =====
-- The refusals.
use storepulse.Prelude.{◌≡◌, refl, some}
use storepulse.Prelude.Int.{pos}
use storepulse.Backend.Services.{is_store_online, aware, naive, value_error}

naive_run :
    is_store_online (some (naive 5)) (some (aware 6)) (pos 30) 0
    ≡ value_error "last_seen_at must be timezone-aware"
unfolding is_store_online
naive_run = refl

zero_run :
    is_store_online (some (aware 5)) (some (aware 6)) (pos 0) 0
    ≡ value_error "threshold_seconds must be positive"
unfolding is_store_online
zero_run = refl
