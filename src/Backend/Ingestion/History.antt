-- ===== src/Backend/Ingestion/History.antt =====
-- Requests one after another, each in a transaction of its own.
use storepulse.Prelude.{ℕ, ◌+◌, ◌≡◌, List, [], ◌∷◌, arith, inl, inr, length}
use storepulse.Backend.Models.{EventCreate, JsonEq}
use storepulse.Backend.Database.{Db}
use storepulse.Backend.Session.{Outcome, ok, err, run}
use storepulse.Backend.Classify.{EventIngestionResult, accepted}
use storepulse.Backend.Ingestion.{ingest}
use storepulse.Backend.Ingestion.Stored.{Effect}
use storepulse.Backend.Ingestion.Effect.{ingest-Effect}
use storepulse.Backend.Ingestion.WellFormed.{IsWellFormed, ingest-IsWellFormed}

-- A request, and when its transaction begins.
pub record Request (J : Type 0) : Type 0 where
  pub at : ℕ
  pub payload : EventCreate J

abbrev is_accepted : Outcome EventIngestionResult → ℕ
is_accepted (ok r) = elim r.status [ accepted ↦ 1 | _ ↦ 0 ]
is_accepted (err e) = 0

module _ {J : Type 0} ⦃j : JsonEq J⦄ where
  abbrev pub handle : Request J → Db J → Outcome EventIngestionResult × Db J
  handle r db = run r.at (ingest r.payload) db db

  unfoldable pub serve : List (Request J) → Db J → Db J
  serve [] db = db
  serve (r ∷ rest) db = serve rest (handle r db).1

  -- How many of the requests were answered `accepted`.
  unfoldable pub count_accepted : List (Request J) → Db J → ℕ
  count_accepted [] db = 0
  count_accepted (r ∷ rest) db = is_accepted (handle r db).0 + count_accepted rest (handle r db).1

  -- Any requests in any order keep the database well-formed: in particular the refunds of every
  -- sale stay within its quantity and its amount.
  pub serve-IsWellFormed :
      (l : List (Request J)) (db : Db J) → IsWellFormed db → IsWellFormed (serve l db)
  unfolding serve
  serve-IsWellFormed [] db h = h
  serve-IsWellFormed (r ∷ l) db h =
      serve-IsWellFormed l (handle r db).1 (ingest-IsWellFormed r.at r.payload db h)

  Effect-length :
      (now : ℕ) (p : EventCreate J) (db : Db J) (res : Outcome EventIngestionResult × Db J)
      → Effect now p db res
      → length res.1.events ≡ is_accepted res.0 + length db.events
  Effect-length now p db (ok r, db') (inl same) = ground arith
  Effect-length now p db (err e, db') (inl same) = ground arith
  Effect-length now p db (o, db') (inr s) = ground (arith, s.result)

  -- The table grows by one row for each accepted answer and by none for any other.
  pub length-serve :
      (l : List (Request J)) (db : Db J)
      → length (serve l db).events ≡ count_accepted l db + length db.events
  unfolding serve count_accepted
  length-serve [] db = omega arith
  length-serve (r ∷ l) db = omega (
    arith,
    length-serve l (handle r db).1,
    Effect-length r.at r.payload db (handle r db) (ingest-Effect r.at db r.payload),
  )
