-- ===== src/Scripts/Watch/Rounds.antt =====
-- The watch over the traffic comes to an end.
use storepulse.Prelude.{
  ℕ, zero, suc, ◌+◌, ◌*◌, ◌≤◌, Bool, true, String, Option, none, some, List, [], ◌∷◌, inl, inr,
  arith, ltb, ltb→lt, Bool-cases,
}
use storepulse.Scripts.Process.{
  Script, and_then, Platform, psql, psql_args, count_rows, compose, pure,
}
use storepulse.Scripts.Process.Timing.{
  Clock, EndsFrom, EndsFrom-mono, EndsFrom-and_then, EndsFrom-or_raise, EndsFrom-compose,
}
use storepulse.Scripts.Sql.{build_metrics_sql, build_duplicate_count_sql}
use storepulse.Scripts.Services.{simulator_services, simulator_logs}
use storepulse.Scripts.Watch.{
  TrafficMetrics, four_metrics, satisfies_contract, Watched, evidence, no_evidence, split_bars,
  parse_parts, parse_metrics, judge, confirm, extract_duplicate_event_id, watch_round, watch_loop,
  go_on,
}

module _ {W : Type 0} (p : Platform W) (c : Clock p) where
  psql-Ends :
      (t : ℕ) (sql db_user db_name : String) (scalar : Bool) (w : W)
      → t ≤ c.clock w
      → EndsFrom c.clock t (psql p sql db_user db_name scalar w)
  unfolding psql
  psql-Ends t sql db_user db_name scalar w h =
      EndsFrom-and_then c.clock t (compose p (psql_args p sql db_user db_name scalar) none true w)
        (λ result. pure (p.strip result.stdout))
        (EndsFrom-compose p c t (psql_args p sql db_user db_name scalar) none true w h)
        (λ r w' h'. h')

  count_rows-Ends :
      (t : ℕ) (sql db_user db_name : String) (w : W)
      → t ≤ c.clock w
      → EndsFrom c.clock t (count_rows p sql db_user db_name w)
  unfolding count_rows
  count_rows-Ends t sql db_user db_name w h =
      EndsFrom-and_then c.clock t (psql p sql db_user db_name true w) _
        (psql-Ends t sql db_user db_name true w h)
        (λ text w' h'. EndsFrom-or_raise c.clock t _ (p.to_int text) w' _ h')

  parse_parts-Ends :
      (t : ℕ) (raw : String) (parts : List String) (w : W)
      → t ≤ c.clock w
      → EndsFrom c.clock t (parse_parts p raw parts w)
  unfolding parse_parts
  parse_parts-Ends t raw (x ∷ y ∷ z ∷ u ∷ []) w h =
      EndsFrom-or_raise c.clock t _
        (four_metrics (p.to_int x) (p.to_int y) (p.to_int z) (p.to_int u)) w _ h
  parse_parts-Ends t raw [] w h = _
  parse_parts-Ends t raw (x ∷ []) w h = _
  parse_parts-Ends t raw (x ∷ y ∷ []) w h = _
  parse_parts-Ends t raw (x ∷ y ∷ z ∷ []) w h = _
  parse_parts-Ends t raw (x ∷ y ∷ z ∷ u ∷ v ∷ l) w h = _

  simulator_logs-Ends : (t : ℕ) (w : W) → t ≤ c.clock w → EndsFrom c.clock t (simulator_logs p w)
  unfolding simulator_logs
  simulator_logs-Ends t w h =
      EndsFrom-and_then c.clock t
        (compose p
          ("--profile" ∷ "demo" ∷ "logs" ∷ "--no-color" ∷ "--tail=1000" ∷ simulator_services) none
          true w)
        (λ result. pure result.stdout) (EndsFrom-compose p c t _ none true w h) (λ r w' h'. h')

  confirm-Ends :
      (t : ℕ) (run_tag db_user db_name : String) (m : TrafficMetrics) (d : Option String) (w : W)
      → t ≤ c.clock w
      → EndsFrom c.clock t (confirm p run_tag db_user db_name m d w)
  unfolding confirm
  confirm-Ends t run_tag db_user db_name m none w h = h
  confirm-Ends t run_tag db_user db_name m (some event_id) w h =
      elim (Bool-cases (satisfies_contract m)) [
        | inl e ↦ rw e (
            EndsFrom-and_then c.clock t
              (count_rows p (build_duplicate_count_sql run_tag event_id) db_user db_name w)
              (λ rows. pure (judge m event_id rows))
              (count_rows-Ends t (build_duplicate_count_sql run_tag event_id) db_user db_name w h)
              (λ rows w' h'. h'))
        | inr e ↦ rw e h
      ]

  watch_round-Ends :
      (t : ℕ) (run_tag db_user db_name : String) (w : W)
      → t ≤ c.clock w
      → EndsFrom c.clock t (watch_round p run_tag db_user db_name w)
  unfolding watch_round parse_metrics
  watch_round-Ends t run_tag db_user db_name w h =
      EndsFrom-and_then c.clock t (psql p (build_metrics_sql run_tag) db_user db_name true w) _
        (psql-Ends t (build_metrics_sql run_tag) db_user db_name true w h)
        (λ raw w1 h1.
          EndsFrom-and_then c.clock t (parse_metrics p raw w1) _
            (parse_parts-Ends t raw (split_bars (p.strip raw)) w1 h1)
            (λ m w2 h2.
              EndsFrom-and_then c.clock t (simulator_logs p w2) _ (simulator_logs-Ends t w2 h2)
                (λ logs w3 h3.
                  confirm-Ends t run_tag db_user db_name m (extract_duplicate_event_id p logs) w3
                    h3)))

  go_on-Ends :
      (t : ℕ) (rest : Watched → Script W Watched) (w : W)
      → ((seen : Watched) → EndsFrom c.clock t (rest seen w))
      → (seen : Watched) → t ≤ c.clock w
      → EndsFrom c.clock t (go_on rest seen w)
  go_on-Ends t rest w ih (evidence e) h = h
  go_on-Ends t rest w ih (no_evidence m d) h = ih (no_evidence m d)

  -- Time `t` has come, and as many rounds are left as there are seconds.
  pub watch_loop-Ends :
      (fuel t deadline : ℕ) (run_tag db_user db_name : String) (seen : Watched) (w : W)
      → t ≤ c.clock w
      → deadline ≤ t + fuel * 1000
      → EndsFrom c.clock t (watch_loop p (suc fuel) deadline run_tag db_user db_name seen w)
  unfolding watch_loop
  watch_loop-Ends zero t deadline run_tag db_user db_name seen w h enough =
      let now = (p.monotonic w).0 in
      elim (Bool-cases (ltb now deadline)) [
        | inl e ↦ absurd (omega (arith, ltb→lt now deadline e, c.not_before w))
        | inr e ↦ rw e (omega (arith, c.not_before w, c.not_after w))
      ]
  watch_loop-Ends (suc fuel) t deadline run_tag db_user db_name seen w h enough =
      let now = (p.monotonic w).0 in
      let w1 = (p.monotonic w).1 in
      let slept = p.sleep 1000 w1 in
      let rest = watch_loop p (suc fuel) deadline run_tag db_user db_name in
      let later : t + 1000 ≤ c.clock slept =
        omega (arith, c.not_before w, c.not_after w, c.sleep_lasts 1000 w1) in
      elim (Bool-cases (ltb now deadline)) [
        | inl e ↦ rw e (
            EndsFrom-mono c.clock t (t + 1000)
              (and_then (watch_round p run_tag db_user db_name slept) (go_on rest)) (omega arith)
              (EndsFrom-and_then c.clock (t + 1000) (watch_round p run_tag db_user db_name slept)
                (go_on rest) (watch_round-Ends (t + 1000) run_tag db_user db_name slept later)
                (λ seen' w' h'.
                  go_on-Ends (t + 1000) rest w'
                    (λ seen''.
                      watch_loop-Ends fuel (t + 1000) deadline run_tag db_user db_name seen'' w' h'
                        (omega arith))
                    seen' h')))
        | inr e ↦ rw e (omega (arith, c.not_before w, c.not_after w))
      ]
