-- ===== src/Scripts/Cleanup/Transaction/Rows.antt =====
-- Which rows the cleanup transaction removes, and when it fails.
use storepulse.Prelude.{
  ℕ, ◌≡◌, refl, sym, Bool, true, false, ◌&&◌, not, String, none, some, List, [], ◌∷◌, inl, inr,
  arith, ◌==◌, if◌then◌else◌, Bool-cases, Option-cases, All,
}
use storepulse.Backend.Models.{EventType, sale, refund, event_type_eq, PosEvent}
use storepulse.Backend.Database.{Db, find_event, row_check, reference_check}
use storepulse.Backend.Ingestion.Consistency.{IsConsistent, IsLinked}
use storepulse.Scripts.Cleanup.Transaction.{
  StoreState, restore_stores, drop_rows, names, any_names, delete_rows, run_rows, run_rows_of,
  cleanup_transaction, any_stray,
}

event_types : (t : EventType) → event_type_eq t sale ≡ not (event_type_eq t refund)
event_types sale = refl
event_types refund = refl

reference-refund :
    (t : EventType) (i : ℕ) → reference_check t (some i) ≡ true → event_type_eq t refund ≡ true
reference-refund sale i h = cc
reference-refund refund i h = refl

module _ {J : Type 0} where
  find_event-drop_rows :
      (doomed : PosEvent J → Bool) (l : List (PosEvent J)) (i : ℕ) (o : PosEvent J)
      → doomed o ≡ false
      → find_event i l ≡ some o
      → find_event i (drop_rows doomed l) ≡ some o
  unfolding find_event drop_rows
  find_event-drop_rows doomed [] i o h k = cc
  find_event-drop_rows doomed (e ∷ l) i o h k = elim (Bool-cases (e.event_id == i)) [
    | inl same ↦ let eq : e ≡ o = ground (arith, same, k) in rw (eq, h) (ground (arith, same, eq))
    | inr other ↦ elim (Bool-cases (doomed e)) [
      | inl d ↦ rw d (find_event-drop_rows doomed l i o h (ground (arith, other, k)))
      | inr d ↦ rw (d, other) (find_event-drop_rows doomed l i o h (ground (arith, other, k)))
    ]
  ]

  module _ (in_run : String → Bool) where
    drop_rows-drop_rows :
        (l : List (PosEvent J))
        → drop_rows (run_rows_of in_run sale) (drop_rows (run_rows_of in_run refund) l)
          ≡ drop_rows (run_rows in_run) l
    unfolding drop_rows
    drop_rows-drop_rows [] = refl
    drop_rows-drop_rows (e ∷ l) = ground (arith, event_types e.event_type, drop_rows-drop_rows l)

    refunds-free :
        (table l : List (PosEvent J))
        → All (IsLinked table) l
        → any_names (run_rows_of in_run refund) table l ≡ false
    unfolding any_names names
    refunds-free table [] h = refl
    refunds-free table (e ∷ l) h = elim (Option-cases e.original_event_id) [
      | inl n ↦ rw n (refunds-free table l h.1)
      | inr (i, n) ↦
          let (o, found, s, _, _, _) = h.0 i n in
          let gone : (in_run o.source_instance && event_type_eq o.event_type refund) ≡ false =
            rw s (ground arith) in
          rw (n, found, gone) (refunds-free table l h.1)
    ]

    checked-refund :
        (e : PosEvent J) (i : ℕ)
        → row_check e.values ≡ true
        → e.original_event_id ≡ some i
        → event_type_eq e.event_type refund ≡ true
    unfolding row_check
    checked-refund e i h k =
        let c : reference_check e.event_type e.original_event_id ≡ true = ground arith in
        reference-refund e.event_type i (rw (sym k) c)

    -- What a row that names a sale adds, once the refunds of the run are gone.
    sales-strays :
        (table l : List (PosEvent J))
        → All (IsLinked table) l
        → All (λ e. row_check e.values ≡ true) l
        → any_names
            (run_rows_of in_run sale)
            (drop_rows (run_rows_of in_run refund) table)
            (drop_rows (run_rows_of in_run refund) l)
          ≡ any_stray in_run table l
    unfolding any_names any_stray names drop_rows
    sales-strays table [] h c = refl
    sales-strays table (e ∷ l) h c =
        let ih = sales-strays table l h.1 c.1 in
        elim (Option-cases e.original_event_id) [
          | inl n ↦ elim (Bool-cases (run_rows_of in_run refund e)) [
            | inl d ↦ rw (d, n) (ground (arith, ih))
            | inr d ↦ rw (d, n) (ground (arith, ih))
          ]
          | inr (i, n) ↦
              let (o, found, s, _, _, _) = h.0 i n in
              let r = checked-refund e i c.0 n in
              let stays : run_rows_of in_run refund o ≡ false = rw s (ground arith) in
              let found' = find_event-drop_rows (run_rows_of in_run refund) table i o stays found in
              elim (Bool-cases (in_run e.source_instance)) [
                | inl y ↦ rw (y, r) ih
                | inr y ↦ rw (y, n, found, found', s) (ground (arith, ih))
              ]
        ]

    -- On a consistent table of events the transaction fails exactly if a row from outside the run
    -- names a row of it, and otherwise leaves the database as if the run had sent no event: just
    -- the rows of the run are gone, the products are as before, and the stores are as the snapshot
    -- has them.
    pub cleanup_transaction-rows :
        (snapshot : List StoreState) (db : Db J)
        → IsConsistent db.events
        → cleanup_transaction in_run snapshot db ≡ (
            if any_stray in_run db.events db.events
            then none
            else some (record db {
              events = drop_rows (run_rows in_run) db.events;
              stores = restore_stores snapshot db.stores;
            }))
    unfolding cleanup_transaction delete_rows
    cleanup_transaction-rows snapshot db h =
        let free = refunds-free db.events db.events h.linked in
        let strays = sales-strays db.events db.events h.linked h.checked in
        rw free (rw (strays, drop_rows-drop_rows db.events) (ground arith))
