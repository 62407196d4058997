-- ===== src/Backend/Concurrent/Tests.antt =====
-- Two requests for one event interleave.
use storepulse.Prelude.{ℕ, ◌≡◌, refl, true, [], ◌∷◌, arith}
use storepulse.Backend.Models.{sale_event}
use storepulse.Backend.Database.{
  find_event, find_store_code, find_store_id, find_product_id, find_product_sku, insert_row,
  touch_store,
}
use storepulse.Backend.Session.{ok}
use storepulse.Backend.Ingestion.{ingest, event_values}
use storepulse.Backend.Ingestion.Stored.{accepted_result, stored_row}
use storepulse.Backend.Ingestion.Consistency.{IsConsistent}
use storepulse.Backend.Ingestion.Fixtures.{
  number_json, madrid, coffee, seeded, two_coffees, seeded-IsWellFormed,
}
use storepulse.Backend.Concurrent.{
  ended, does_return, System, Reach, begin, later, arrives, moves, gets_event, selects_store,
  selects_product, inserts, sets_last_seen, commits,
}
use storepulse.Backend.Concurrent.Guarantee.{Answers}
use storepulse.Backend.Concurrent.Reachable.{interleaved-IsConsistent, ended-Answers}

-- Task 0 commits the event, after task 1 has looked it up and found none, and answers.
interleaving :
    (s : System ℕ) × Reach seeded s
    × (s.db.events ≡ stored_row 60 (sale_event two_coffees) madrid coffee ∷ [])
    × (s.task 0 ≡ ended (ok (accepted_result 60 (sale_event two_coffees))))
unfolding ingest insert_row event_values find_event find_store_code find_store_id find_product_id
    find_product_sku touch_store
interleaving =
    let a : Reach seeded _ = later begin (arrives 0 60 (sale_event two_coffees) tt) in
    let b : Reach seeded _ = later a (arrives 1 61 (sale_event two_coffees) tt) in
    let c : Reach seeded _ = later b (moves 0 _ _ _ refl (gets_event _ _ _ refl)) in
    let d : Reach seeded _ = later c (moves 1 _ _ _ refl (gets_event _ _ _ refl)) in
    let e : Reach seeded _ = later d (moves 0 _ _ _ refl (selects_store _ _ _ refl)) in
    let f : Reach seeded _ = later e (moves 0 _ _ _ refl (selects_product _ _ _ refl)) in
    let g : Reach seeded _ =
      later f
        (moves 0 _ _ _ refl (inserts _ _ _ _ refl refl refl (λ j other claim. ground arith))) in
    let h : Reach seeded _ = later g (moves 0 _ _ _ refl (sets_last_seen _ _ _ _ refl)) in
    let i : Reach seeded _ = later h (moves 0 _ _ _ refl (commits _ _ true refl)) in
    let m : Reach seeded _ = later i (moves 0 _ _ _ refl (does_return _ _ refl)) in
    (_, m, refl, refl)

interleaved-IsConsistent_example : IsConsistent interleaving.0.db.events
interleaved-IsConsistent_example =
    interleaved-IsConsistent seeded-IsWellFormed.consistent interleaving.1

ended-Answers_example :
    Answers interleaving.0.db.events (accepted_result 60 (sale_event two_coffees))
ended-Answers_example =
    ended-Answers 0 (accepted_result 60 (sale_event two_coffees)) seeded-IsWellFormed.consistent
      interleaving.1 interleaving.3
