-- ===== src/Together/Kept.antt =====
-- What stays of an event that the backend has stored: a later post of it is a duplicate.
use storepulse.Prelude.{ℕ, ◌≡◌, refl, Bool, List}
use storepulse.Simulator.Domain.{EventPayload}
use storepulse.Backend.Models.{EventCreate, JsonEq, base_of}
use storepulse.Backend.Database.{Db}
use storepulse.Backend.Session.{Outcome, run}
use storepulse.Backend.Classify.{EventIngestionResult, duplicate}
use storepulse.Backend.Ingestion.{ingest}
use storepulse.Backend.Ingestion.Stored.{Stored, stored_db}
use storepulse.Backend.Ingestion.Effect.{ingest-Effect}
use storepulse.Backend.Ingestion.WellFormed.{IsWellFormed}
use storepulse.Backend.Ingestion.Retry.{Extends, Extends-trans, Effect-Extends, retry_of_Stored}
use storepulse.Backend.Realtime.{SetChange}
use storepulse.Backend.Api.{replied, BackendState, create_event}
use storepulse.Backend.Validation.{Pydantic, post_event}
use storepulse.Backend.Validation.Printing.{
  Printer, IsCodec, event_json, received, IsPrintable, validate_event-event_json,
}
use storepulse.Together.Others.{finish_event-db}

module _ {J : Type 0} ⦃j : JsonEq J⦄ (w : Printer J) where
  -- The payload was stored once, and the database has only grown since.
  pub record Recorded (db : Db J) (payload : EventPayload) : Type 0 where
    pub clock : ℕ
    pub before : Db J
    pub res : Outcome EventIngestionResult × Db J
    pub well : IsWellFormed before
    pub stored : Stored clock (received w payload) before res
    pub grows : Extends (stored_db clock (received w payload) stored.store stored.product before) db
    pub printable : IsPrintable w payload

  pub Recorded-grown :
      (db db' : Db J) (payload : EventPayload)
      → Extends db db'
      → Recorded db payload
      → Recorded db' payload
  Recorded-grown db db' payload more h = record {
    clock = h.clock;
    before = h.before;
    res = h.res;
    well = h.well;
    stored = h.stored;
    grows = Extends-trans h.grows more;
    printable = h.printable;
  }

  -- A post of it is answered as a duplicate, and the tables stay as they are.
  pub post-Recorded :
      (p : Pydantic J)
      → IsCodec p w
      → (fails : ℕ → Bool) (meanwhile : List SetChange) (clock : ℕ) (b : BackendState J)
        (payload : EventPayload) (h : Recorded b.db payload)
      → let post = post_event p fails meanwhile clock (event_json w payload) b in
        (post.reply
          ≡ replied 200 (record {
            event_id = (base_of (received w payload)).event_id;
            status = duplicate;
            received_at = h.clock;
          }))
        × (post.state.db ≡ b.db)
  unfolding post_event create_event
  post-Recorded p c fails meanwhile clock b payload h =
      rw
        (
          validate_event-event_json p w c payload h.printable,
          retry_of_Stored (record { at = h.clock; payload = received w payload }) clock h.before
              b.db h.res h.well h.stored h.grows,
        )
        (refl, refl)

-- No request takes anything out of the tables.
pub create_event-Extends :
    {J : Type 0} ⦃j : JsonEq J⦄ (fails : ℕ → Bool) (meanwhile : List SetChange) (clock : ℕ)
    (p : EventCreate J) (b : BackendState J)
    → Extends b.db (create_event fails meanwhile clock p b).state.db
unfolding create_event
create_event-Extends fails meanwhile clock p b =
    rw
      (finish_event-db fails meanwhile p (run clock (ingest p) b.db b.db).0
        (record b { db = (run clock (ingest p) b.db b.db).1 }))
      (Effect-Extends clock p b.db (run clock (ingest p) b.db b.db) (ingest-Effect clock b.db p))
