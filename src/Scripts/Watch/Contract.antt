-- ===== src/Scripts/Watch/Contract.antt =====
-- What the loop counts as evidence.
use storepulse.Prelude.{
  ℕ, zero, suc, ◌≡◌, Bool, true, ◌&&◌, String, Option, none, some, inl, inr, arith, ltb, Bool-cases,
}
use storepulse.Prelude.Int.{ℤ, pos, negsuc, ◌≤ℤ◌, leb_ℤ}
use storepulse.Scripts.Process.{Script, Platform, psql, count_rows, pure}
use storepulse.Scripts.Process.Outcome.{After, After-and_then, anything, After-mono, After-then}
use storepulse.Scripts.Sql.{build_metrics_sql, build_duplicate_count_sql}
use storepulse.Scripts.Services.{simulator_logs}
use storepulse.Scripts.Watch.{
  TrafficMetrics, satisfies_contract, equals, Evidence, Watched, evidence, no_evidence,
  parse_metrics, judge, confirm, extract_duplicate_event_id, watch_round, watch_loop, go_on,
}

-- Traffic from exactly five stores, with at least five sales, one refund and one late event, and
-- exactly one row for the replayed event.
abbrev pub Satisfied : Evidence → Type 0
Satisfied e =
    (e.metrics.stores ≡ pos 5)
    × (pos 5 ≤ℤ e.metrics.sales)
    × (pos 1 ≤ℤ e.metrics.refunds)
    × (pos 1 ≤ℤ e.metrics.late)
    × (e.duplicate_rows ≡ pos 1)

abbrev pub Sound : Watched → Type 0
Sound (evidence e) = Satisfied e
Sound (no_evidence m d) = Unit

equals→≡ : (a : ℤ) (n : ℕ) → equals a n ≡ true → a ≡ pos n
equals→≡ (pos a) n h = ground arith
equals→≡ (negsuc a) n h = ground arith

leb_ℤ→≤ : (a b : ℤ) → leb_ℤ a b ≡ true → a ≤ℤ b
leb_ℤ→≤ a b h = ground arith

and→both : (a b : Bool) → (a && b) ≡ true → (a ≡ true) × (b ≡ true)
and→both a b h = ground arith

contract-Satisfied :
    (e : Evidence)
    → satisfies_contract e.metrics ≡ true
    → equals e.duplicate_rows 1 ≡ true
    → Satisfied e
unfolding satisfies_contract
contract-Satisfied e h k =
    let m = e.metrics in
    let a = and→both (equals m.stores 5) _ h in
    let b = and→both (leb_ℤ (pos 5) m.sales) _ a.1 in
    let c = and→both (leb_ℤ (pos 1) m.refunds) (leb_ℤ (pos 1) m.late) b.1 in
    (
      equals→≡ m.stores 5 a.0,
      leb_ℤ→≤ (pos 5) m.sales b.0,
      leb_ℤ→≤ (pos 1) m.refunds c.0,
      leb_ℤ→≤ (pos 1) m.late c.1,
      equals→≡ e.duplicate_rows 1 k,
    )

judge-Sound :
    (m : TrafficMetrics) (event_id : String) (rows : ℤ)
    → satisfies_contract m ≡ true
    → Sound (judge m event_id rows)
judge-Sound m event_id rows h = elim (Bool-cases (equals rows 1)) [
  | inl e ↦
      rw e (
        contract-Satisfied (record { metrics = m; event_id = event_id; duplicate_rows = rows }) h e)
  | inr e ↦ rw e _
]

module _ {W : Type 0} (p : Platform W) where
  confirm-Sound :
      (run_tag db_user db_name : String) (m : TrafficMetrics) (d : Option String) (w : W)
      → After (λ watched _. Sound watched) (confirm p run_tag db_user db_name m d w)
  unfolding confirm
  confirm-Sound run_tag db_user db_name m none w = _
  confirm-Sound run_tag db_user db_name m (some event_id) w =
      elim (Bool-cases (satisfies_contract m)) [
        | inl e ↦ rw e (
            After-and_then (λ watched _. Sound watched)
              (count_rows p (build_duplicate_count_sql run_tag event_id) db_user db_name w)
              (λ rows. pure (judge m event_id rows))
              (anything (λ rows. Sound (judge m event_id rows))
                (λ rows. judge-Sound m event_id rows e)
                (count_rows p (build_duplicate_count_sql run_tag event_id) db_user db_name w)))
        | inr e ↦ rw e _
      ]

  watch_round-Sound :
      (run_tag db_user db_name : String) (w : W)
      → After (λ watched _. Sound watched) (watch_round p run_tag db_user db_name w)
  unfolding watch_round
  watch_round-Sound run_tag db_user db_name w =
      After-then _ (psql p (build_metrics_sql run_tag) db_user db_name true w) _ (λ raw w1.
        After-then _ (parse_metrics p raw w1) _ (λ m w2.
          After-then _ (simulator_logs p w2) _ (λ logs w3.
            confirm-Sound run_tag db_user db_name m (extract_duplicate_event_id p logs) w3)))

  go_on-Sound :
      (rest : Watched → Script W Watched)
      → ((seen : Watched) (w : W) → Sound seen → After (λ watched _. Sound watched) (rest seen w))
      → (seen : Watched) (w : W) → Sound seen
      → After (λ watched _. Sound watched) (go_on rest seen w)
  go_on-Sound rest ih (evidence e) w h = h
  go_on-Sound rest ih (no_evidence m d) w h = ih (no_evidence m d) w h

  pub watch_loop-Sound :
      (fuel deadline : ℕ) (run_tag db_user db_name : String) (seen : Watched) (w : W)
      → Sound seen
      → After
          (λ watched _. Sound watched)
          (watch_loop p fuel deadline run_tag db_user db_name seen w)
  unfolding watch_loop
  watch_loop-Sound zero deadline run_tag db_user db_name seen w h = _
  watch_loop-Sound (suc fuel) deadline run_tag db_user db_name seen w h =
      elim (Bool-cases (ltb (p.monotonic w).0 deadline)) [
        | inl e ↦ rw e (
            After-and_then _
              (watch_round p run_tag db_user db_name (p.sleep 1000 (p.monotonic w).1)) _
              (After-mono (λ watched _. Sound watched) _
                (watch_round p run_tag db_user db_name (p.sleep 1000 (p.monotonic w).1))
                (λ watched w1 s.
                  go_on-Sound (watch_loop p fuel deadline run_tag db_user db_name)
                    (watch_loop-Sound fuel deadline run_tag db_user db_name) watched w1 s)
                (watch_round-Sound run_tag db_user db_name (p.sleep 1000 (p.monotonic w).1))))
        | inr e ↦ rw e h
      ]
