-- ===== src/Scripts/Cleanup/Transaction/Tests.antt =====
-- The cleanup of a database with a sale and a refund of one run.
use storepulse.Prelude.{
  ℕ, ◌≡◌, refl, Bool, String, none, some, List, [], ◌∷◌, if◌then◌else◌, str_eq,
}
use storepulse.Backend.Models.{refund_event}
use storepulse.Backend.Database.{
  Db, find_event, find_store_id, find_store_code, find_product_id, find_product_sku, insert_row,
  touch_store, refunded_quantity, refunded_amount,
}
use storepulse.Backend.Session.{run}
use storepulse.Backend.Ingestion.{ingest}
use storepulse.Backend.Ingestion.WellFormed.{IsWellFormed, ingest-IsWellFormed}
use storepulse.Backend.Ingestion.Fixtures.{number_json, seeded, sold, back, sold-IsWellFormed}
use storepulse.Scripts.Cleanup.Transaction.{
  StoreState, find_state, restore_stores, drop_rows, names, any_names, delete_rows, run_rows,
  cleanup_transaction, any_stray,
}
use storepulse.Scripts.Cleanup.Transaction.Rows.{cleanup_transaction-rows}

unfoldable refunded : Db ℕ
unfolding run ingest
refunded = (run 70 (ingest (refund_event (back 101 1 799))) sold sold).1

refunded-IsWellFormed : IsWellFormed refunded
unfolding refunded
refunded-IsWellFormed =
    ingest-IsWellFormed 70 (refund_event (back 101 1 799)) sold sold-IsWellFormed

abbrev in_run : String → Bool
in_run source = str_eq source "simulator-madrid:demo:a"

abbrev snapshot : List StoreState
snapshot = record { id = 1; last_seen_at = none; updated_at = 0 } ∷ []

cleanup_transaction-rows_example : cleanup_transaction in_run snapshot refunded ≡ (
    if any_stray in_run refunded.events refunded.events
    then none
    else some (record refunded {
      events = drop_rows (run_rows in_run) refunded.events;
      stores = restore_stores snapshot refunded.stores;
    }))
cleanup_transaction-rows_example =
    cleanup_transaction-rows in_run snapshot refunded refunded-IsWellFormed.consistent

-- The sale and its refund go, and the store is as it was before them.
cleanup_undoes_run : cleanup_transaction in_run snapshot refunded ≡ some seeded
unfolding refunded run ingest cleanup_transaction delete_rows drop_rows any_names names
    restore_stores find_state find_event find_store_id find_store_code find_product_id
    find_product_sku insert_row touch_store refunded_quantity refunded_amount
cleanup_undoes_run = refl
