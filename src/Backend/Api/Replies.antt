-- ===== src/Backend/Api/Replies.antt =====
-- What each reply of `create_event` says of the database and of the dashboards.
use storepulse.Prelude.{ℕ, ◌+◌, ◌≡◌, ◌⊎◌, Bool, List, [], arith, inl, inr, length}
use storepulse.Backend.Models.{EventCreate, JsonEq}
use storepulse.Backend.Database.{Db}
use storepulse.Backend.Session.{Outcome, ok, err, run}
use storepulse.Backend.Classify.{EventIngestionResult, accepted, duplicate}
use storepulse.Backend.Ingestion.{ingest}
use storepulse.Backend.Ingestion.Stored.{Effect}
use storepulse.Backend.Ingestion.Effect.{ingest-Effect}
use storepulse.Backend.Realtime.{SetChange}
use storepulse.Backend.Api.{
  Reply, replied, http_error, server_error, BackendState, Handled, create_event, finish_event,
}

-- The status, what is stored and who is told belong together.
abbrev pub Consequence :
    {J : Type 0}
    → ℕ
    → EventCreate J
    → BackendState J
    → Handled J EventIngestionResult
    → Reply EventIngestionResult
    → Type 0
Consequence now p s r (replied code result) =
    ((code ≡ 201)
      × (result.status ≡ accepted)
      × (length r.state.db.events ≡ length s.db.events + 1)
      × (length r.sent ≡ 1))
    ⊎ ((code ≡ 200) × (result.status ≡ duplicate) × (r.state ≡ s) × (r.sent ≡ []))
Consequence now p s r (http_error code detail) =
    ((code ≡ 404) ⊎ ((code ≡ 409) ⊎ (code ≡ 422))) × (r.state ≡ s) × (r.sent ≡ [])
Consequence now p s r server_error = (r.state ≡ s) × (r.sent ≡ [])

finish-Consequence :
    {J : Type 0} (fails : ℕ → Bool) (meanwhile : List SetChange) (now : ℕ) (p : EventCreate J)
    (s : BackendState J) (res : Outcome EventIngestionResult × Db J)
    → Effect now p s.db res
    → let r = finish_event fails meanwhile p res.0 (record s { db = res.1 }) in
      Consequence now p s r r.reply
unfolding finish_event
finish-Consequence fails meanwhile now p s (ok r, db') (inl same) = ground arith
finish-Consequence fails meanwhile now p s (err e, db') (inl same) = ground arith
finish-Consequence fails meanwhile now p s (o, db') (inr t) = ground (arith, t.result)

-- A reply 201 means that the event is accepted, one row is added and one message is broadcast; a
-- reply 200, that it is a duplicate; an `HTTPException` has status 404, 409 or 422. In all but the
-- first, and also when an exception leaves the handler, database and sockets are as before and
-- nothing is sent.
pub create_event-Consequence :
    {J : Type 0} ⦃j : JsonEq J⦄ (fails : ℕ → Bool) (meanwhile : List SetChange) (now : ℕ)
    (p : EventCreate J) (s : BackendState J)
    → let r = create_event fails meanwhile now p s in Consequence now p s r r.reply
unfolding create_event
create_event-Consequence fails meanwhile now p s =
    finish-Consequence fails meanwhile now p s (run now (ingest p) s.db s.db)
      (ingest-Effect now s.db p)
