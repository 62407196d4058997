-- ===== src/Scripts/Cleanup/Triples.antt =====
-- What each check of the script establishes where it raises nothing.
use storepulse.Prelude.{
  ◌≡◌, refl, true, String, Option, none, some, List, [], ◌∷◌, inl, inr, arith, Bool-cases,
  if◌then◌else◌,
}
use storepulse.Prelude.Int.{ℤ, pos, negsuc}
use storepulse.Scripts.Process.{
  Exception, CommandResult, completed, Platform, is_zero, psql, psql_args, count_rows, compose,
  pure, or_raise, raise,
}
use storepulse.Scripts.Process.Outcome.{After, After-and_then, After-compose}
use storepulse.Scripts.Services.{is_empty}

zero-pos : (n : ℤ) → is_zero n ≡ true → n ≡ pos 0
zero-pos (pos n) h = ground arith
zero-pos (negsuc n) h = ground arith

pub empty-[] : (l : List String) → is_empty l ≡ true → l ≡ []
empty-[] [] h = refl
empty-[] (x ∷ l) h = absurd (ground arith)

module _ {W : Type 0} (p : Platform W) where
  After-psql :
      (Q : String → W → Type 0) (sql db_user db_name : String) (w : W)
      → ((r : CommandResult)
          → (p.exec ("docker" ∷ "compose" ∷ psql_args p sql db_user db_name true) none w).0
            ≡ completed r
          → is_zero r.returncode ≡ true
          → Q
              (p.strip r.stdout)
              (p.exec ("docker" ∷ "compose" ∷ psql_args p sql db_user db_name true) none w).1)
      → After Q (psql p sql db_user db_name true w)
  unfolding psql
  After-psql Q sql db_user db_name w h =
      After-and_then Q (compose p (psql_args p sql db_user db_name true) none true w) _
        (After-compose p _ (psql_args p sql db_user db_name true) none w h)

  After-or_raise :
      {A : Type 0} (Q : A → W → Type 0) (e : Exception) (o : Option A) (w : W)
      → ((a : A) → o ≡ some a → Q a w)
      → After Q (or_raise e o w)
  After-or_raise Q e none w h = _
  After-or_raise Q e (some a) w h = h a refl

  -- A count that comes back was read from what a successful command printed.
  pub After-count_rows :
      (Q : ℤ → W → Type 0) (sql db_user db_name : String) (w : W)
      → ((r : CommandResult) (n : ℤ)
          → (p.exec ("docker" ∷ "compose" ∷ psql_args p sql db_user db_name true) none w).0
            ≡ completed r
          → is_zero r.returncode ≡ true
          → p.to_int (p.strip r.stdout) ≡ some n
          → Q n (p.exec ("docker" ∷ "compose" ∷ psql_args p sql db_user db_name true) none w).1)
      → After Q (count_rows p sql db_user db_name w)
  unfolding count_rows
  After-count_rows Q sql db_user db_name w h =
      After-and_then Q (psql p sql db_user db_name true w) _ (
        After-psql _ sql db_user db_name w
          (λ r e z. After-or_raise Q _ (p.to_int (p.strip r.stdout)) _ (λ n k. h r n e z k)))

  -- A check that the count is zero.
  pub After-zero :
      (P : W → Type 0) (n : ℤ) (e : Exception) (w : W)
      → (n ≡ pos 0 → P w)
      → After (λ _ w'. P w') ((if is_zero n then pure {A = Unit {0}} _ else raise e) w)
  After-zero P n e w h = elim (Bool-cases (is_zero n)) [
    | inl z ↦ rw z (h (zero-pos n z))
    | inr z ↦ rw z _
  ]
