-- ===== src/Simulator/Runtime/Stats.antt =====
-- The counters of a run add up.
use storepulse.Prelude.{ℕ, suc, ◌+◌, ◌≡◌, some, inl, inr, List, [], ◌∷◌, arith, Option-cases}
use storepulse.Simulator.Domain.{Sales}
use storepulse.Simulator.Runtime.{
  SimulatorStats, no_stats, Shared, count_receipt, count_generated, settle_event, settle_replay,
  Piece, produced, event_settled, replay_settled, run_piece, run_pieces,
}

-- The number of pieces of each kind.
abbrev pub produced_in : List Piece → ℕ
produced_in [] = 0
produced_in (produced _ _ ∷ l) = suc (produced_in l)
produced_in (_ ∷ l) = produced_in l

abbrev pub settled_in : List Piece → ℕ
settled_in [] = 0
settled_in (event_settled _ _ ∷ l) = suc (settled_in l)
settled_in (_ ∷ l) = settled_in l

abbrev pub replays_in : List Piece → ℕ
replays_in [] = 0
replays_in (replay_settled _ ∷ l) = suc (replays_in l)
replays_in (_ ∷ l) = replays_in l

-- From the counters `a`, a run with these numbers of pieces leaves the counters `b`.
pub record AddUp (a b : SimulatorStats) (produced settled replays : ℕ) : Type 0 where
  pub generated :
      b.generated_sales + b.generated_refunds ≡ a.generated_sales + a.generated_refunds + produced
  pub delivered :
      b.delivered_accepted + b.delivered_duplicate + b.permanent_failures + a.deliberate_duplicates
      ≡ a.delivered_accepted + a.delivered_duplicate + a.permanent_failures + settled
        + b.deliberate_duplicates
  pub replayed :
      b.deliberate_duplicates + b.duplicate_replay_failures
      ≡ a.deliberate_duplicates + a.duplicate_replay_failures + replays

piece-AddUp :
    (p : Piece) (s s' : Shared)
    → run_piece p s ≡ some s'
    → AddUp s.stats s'.stats (produced_in (p ∷ [])) (settled_in (p ∷ [])) (replays_in (p ∷ []))
unfolding run_piece count_generated settle_event settle_replay count_receipt
piece-AddUp (produced event after) s s' h = record {
  generated = ground arith;
  delivered = ground arith;
  replayed = ground arith;
}
piece-AddUp (event_settled event p) s s' h = record {
  generated = ground arith;
  delivered = ground arith;
  replayed = ground arith;
}
piece-AddUp (replay_settled p) s s' h = record {
  generated = ground arith;
  delivered = ground arith;
  replayed = ground arith;
}

run-AddUp :
    (l : List Piece) (s s' : Shared)
    → run_pieces l s ≡ some s'
    → AddUp s.stats s'.stats (produced_in l) (settled_in l) (replays_in l)
unfolding run_pieces
run-AddUp [] s s' h = record {
  generated = ground arith;
  delivered = ground arith;
  replayed = ground arith;
}
run-AddUp (p ∷ l) s s' h = elim (Option-cases (run_piece p s)) [
  | inl e ↦ absurd (ground arith)
  | inr (s1, e) ↦
      let here = piece-AddUp p s s1 e in
      let there = run-AddUp l s1 s' (ground arith) in join p l here there
]
  where
    join :
        {a b c : SimulatorStats} (p : Piece) (l : List Piece)
        → AddUp a b (produced_in (p ∷ [])) (settled_in (p ∷ [])) (replays_in (p ∷ []))
        → AddUp b c (produced_in l) (settled_in l) (replays_in l)
        → AddUp a c (produced_in (p ∷ l)) (settled_in (p ∷ l)) (replays_in (p ∷ l))
    join (produced _ _) l h t = record {
      generated = omega (arith, h.generated, t.generated);
      delivered = omega (arith, h.delivered, t.delivered);
      replayed = omega (arith, h.replayed, t.replayed);
    }
    join (event_settled _ _) l h t = record {
      generated = omega (arith, h.generated, t.generated);
      delivered = omega (arith, h.delivered, t.delivered);
      replayed = omega (arith, h.replayed, t.replayed);
    }
    join (replay_settled _) l h t = record {
      generated = omega (arith, h.generated, t.generated);
      delivered = omega (arith, h.delivered, t.delivered);
      replayed = omega (arith, h.replayed, t.replayed);
    }

-- In whatever order the tasks run, if no exception ends them, every event that was made is counted
-- as a sale or a refund; every call for an event that came back is counted as accepted, duplicate
-- or failed, the deliberate duplicates that were delivered apart; and every call for a deliberate
-- duplicate is counted as delivered or failed.
pub stats_add_up :
    (l : List Piece) (sales : Sales) (s : Shared)
    → run_pieces l (record { sales = sales; stats = no_stats }) ≡ some s
    → (s.stats.generated_sales + s.stats.generated_refunds ≡ produced_in l)
      × (s.stats.delivered_accepted + s.stats.delivered_duplicate + s.stats.permanent_failures
          ≡ settled_in l + s.stats.deliberate_duplicates)
      × (s.stats.deliberate_duplicates + s.stats.duplicate_replay_failures ≡ replays_in l)
stats_add_up l sales s h =
    let a = run-AddUp l (record { sales = sales; stats = no_stats }) s h in
    (omega (arith, a.generated), omega (arith, a.delivered), omega (arith, a.replayed))
