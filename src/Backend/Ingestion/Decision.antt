-- ===== src/Backend/Ingestion/Decision.antt =====
-- Accepted requests.
use storepulse.Prelude.{ℕ, ◌<◌, ◌≡◌, inl, inr}
use storepulse.Backend.Models.{SaleEventCreate, EventCreate, JsonEq}
use storepulse.Backend.Database.{Db}
use storepulse.Backend.Session.{Outcome, ok, err, run}
use storepulse.Backend.Classify.{EventIngestionResult, accepted}
use storepulse.Backend.Ingestion.{ingest}
use storepulse.Backend.Ingestion.Stored.{Effect, Stored}
use storepulse.Backend.Ingestion.Effect.{ingest-Effect}

-- The request was answered with a new event.
abbrev pub IsAccepted : {J : Type 0} → Outcome EventIngestionResult × Db J → Type 0
IsAccepted (ok r, db) = r.status ≡ accepted
IsAccepted (err e, db) = ⊥

-- A payload as `gt=0` leaves it.
pub record IsPositive {J : Type 0} (p : SaleEventCreate J) : Type 0 where
  pub quantity_pos : 0 < p.quantity
  pub amount_pos : 0 < p.amount_cents

module _ {J : Type 0} ⦃j : JsonEq J⦄ (now : ℕ) (db : Db J) where
  Stored-of_IsAccepted :
      (p : EventCreate J) (res : Outcome EventIngestionResult × Db J)
      → Effect now p db res
      → IsAccepted res
      → Stored now p db res
  Stored-of_IsAccepted p (ok r, db') (inl same) h = cc
  Stored-of_IsAccepted p (err e, db') (inl same) h = absurd h
  Stored-of_IsAccepted p res (inr s) h = s

  -- An accepted request has stored its event.
  pub ingest-Stored :
      (p : EventCreate J)
      → IsAccepted (run now (ingest p) db db)
      → Stored now p db (run now (ingest p) db db)
  ingest-Stored p h = Stored-of_IsAccepted p (run now (ingest p) db db) (ingest-Effect now db p) h
