-- ===== src/Simulator/Rng.antt =====
-- `random.Random`, which the simulator draws from, and the float arithmetic of its delays: code
-- outside the repository, taken as a record of operations with the documented laws.
use storepulse.Prelude.{ℕ, ◌≤◌, ◌<◌}
use storepulse.Simulator.Float.{Float}

-- `S` is the generator's state. `choice n` is the index that `choice` takes in a sequence of
-- length n.
pub record Rng (S : Type 0) : Type 0 where
  pub random : S → Float × S
  pub randint : ℕ → ℕ → S → ℕ × S
  pub choice : ℕ → S → ℕ × S
  pub uniform : Float → Float → S → Float × S
  pub randint_range : (a b : ℕ) (s : S) → a ≤ b → (a ≤ (randint a b s).0) × ((randint a b s).0 ≤ b)
  pub choice_range : (n : ℕ) (s : S) → 0 < n → (choice n s).0 < n

-- Float products, sums and differences, which round.
pub record Rounding : Type 0 where
  pub mul : Float → Float → Float
  pub add : Float → Float → Float
  pub sub : Float → Float → Float
