-- ===== src/Backend/Api.antt =====
-- backend/app/main.py: the request handlers over the database and the dashboard sockets.
mod Tests
pub mod Replies
pub mod Online
use storepulse.Prelude.{
  ℕ, Bool, true, false, String, Option, none, some, List, [], ◌∷◌, map, if◌then◌else◌,
}
use mathlib.Core.Option
use storepulse.Prelude.Int.{ℤ}
use storepulse.Backend.Models.{Store, EventCreate, JsonEq, base_of}
use storepulse.Backend.Database.{Db, find_store_code, touch_store}
use storepulse.Backend.Session.{
  IngestError, unknown_store, unknown_product, event_conflict, original_sale_not_found,
  invalid_original_sale, refund_reference_mismatch, refund_limit_exceeded, runtime_error,
  database_error, Outcome, ok, err, run,
}
use storepulse.Backend.Classify.{EventIngestionResult, accepted, duplicate}
use storepulse.Backend.Ingestion.{ingest}
use storepulse.Backend.Services.{Answer, answer, value_error, aware, is_store_online}
use storepulse.Backend.Realtime.{ConnectionManager, SetChange, broadcast}

-- A reply with a body, an `HTTPException`, or an exception that leaves the handler.
pub data Reply (A : Type 0) : Type 0 where
  replied : ℕ → A → Reply A
  http_error : ℕ → String → Reply A
  server_error : Reply A

pub record Message : Type 0 where
  pub kind : String
  pub store_code : String

-- The `except` clauses of `create_event`. A `RuntimeError` or a database error is not caught.
unfoldable pub error_reply : {A : Type 0} → IngestError → Reply A
error_reply (unknown_store _) = http_error 404 "unknown store"
error_reply (unknown_product _) = http_error 404 "unknown product"
error_reply (original_sale_not_found _) = http_error 404 "original sale not found"
error_reply (invalid_original_sale _) = http_error 422 "original_event_id must reference a SALE"
error_reply (refund_reference_mismatch detail) = http_error 422 detail
error_reply (refund_limit_exceeded detail) = http_error 409 detail
error_reply (event_conflict _) = http_error 409 "event_id already exists with different payload"
error_reply (runtime_error _) = server_error
error_reply database_error = server_error

pub record BackendState (J : Type 0) : Type 0 where
  pub db : Db J
  pub manager : ConnectionManager

pub record HeartbeatResponse : Type 0 where
  pub store_code : String
  pub last_seen_at : ℕ

-- What a handler leaves: its reply, the messages that went out with the sockets that they
-- reached, and the state.
pub record Handled (J A : Type 0) : Type 0 where
  pub reply : Reply A
  pub sent : List (Message × List ℕ)
  pub state : BackendState J

module _ {J : Type 0} where
  -- `await manager.broadcast(message)` after the commit, then the reply.
  unfoldable pub announce :
      {A : Type 0} → (ℕ → Bool) → List SetChange → Message → Reply A → BackendState J → Handled J A
  announce fails meanwhile message reply s =
      let (reached, manager) = broadcast fails meanwhile s.manager in
      record {
        reply = reply;
        sent = (message, reached) ∷ [];
        state = record s { manager = manager };
      }

  abbrev quiet : {A : Type 0} → Reply A → BackendState J → Handled J A
  quiet reply s = record { reply = reply; sent = []; state = s }

  -- The end of `create_event`, by the outcome of the ingestion.
  unfoldable pub finish_event :
      (ℕ → Bool)
      → List SetChange
      → EventCreate J
      → Outcome EventIngestionResult
      → BackendState J
      → Handled J EventIngestionResult
  unfolding announce error_reply
  finish_event fails meanwhile payload (err e) s = quiet (error_reply e) s
  finish_event fails meanwhile payload (ok result) s = elim result.status [
    | duplicate ↦ quiet (replied 200 result) s
    | accepted ↦
        announce fails meanwhile
          (record { kind = "events.changed"; store_code = (base_of payload).store_code })
          (replied 201 result) s
  ]

  unfoldable pub create_event :
      ⦃j : JsonEq J⦄
      → (ℕ → Bool)
      → List SetChange
      → ℕ
      → EventCreate J
      → BackendState J
      → Handled J EventIngestionResult
  unfolding finish_event
  create_event fails meanwhile now payload s =
      let (outcome, db) = run now (ingest payload) s.db s.db in
      finish_event fails meanwhile payload outcome (record s { db = db })

  -- `now` is the server's clock, and `began` the start of the database transaction.
  unfoldable pub heartbeat :
      (ℕ → Bool) → List SetChange → ℕ → ℕ → String → BackendState J → Handled J HeartbeatResponse
  unfolding announce
  heartbeat fails meanwhile began now code s = elim (find_store_code code s.db.stores) [
    | none ↦ quiet (http_error 404 "unknown store") s
    | some store ↦
        announce fails meanwhile (record { kind = "stores.changed"; store_code = store.code })
          (replied 200 (record { store_code = store.code; last_seen_at = now }))
          (record s { db = record s.db { stores = touch_store store.id now began s.db.stores } })
  ]

pub record StoreResponse : Type 0 where
  pub id : ℕ
  pub name : String
  pub code : String
  pub timezone : String
  pub daily_target_cents : ℕ
  pub responsible_name : String
  pub responsible_email : String
  pub last_seen_at : Option ℕ
  pub online : Bool

-- `WHERE is_active`
unfoldable pub active_stores : List Store → List Store
active_stores [] = []
active_stores (s ∷ l) = let rest = active_stores l in if s.is_active then s ∷ rest else rest

unfoldable pub store_response : ℕ → ℤ → Store → Answer StoreResponse
store_response now threshold s =
    elim (is_store_online (Option.map aware s.last_seen_at) (some (aware now)) threshold now) [
      | value_error e ↦ value_error e
      | answer online ↦ answer (record {
        id = s.id;
        name = s.name;
        code = s.code;
        timezone = s.timezone;
        daily_target_cents = s.daily_target_cents;
        responsible_name = s.responsible_name;
        responsible_email = s.responsible_email;
        last_seen_at = s.last_seen_at;
        online = online;
      })
    ]

-- The list comprehension: the first store that raises ends it.
unfoldable pub store_responses : ℕ → ℤ → List Store → Answer (List StoreResponse)
unfolding store_response
store_responses now threshold [] = answer []
store_responses now threshold (s ∷ l) = elim (store_response now threshold s) [
  | value_error e ↦ value_error e
  | answer r ↦ elim (store_responses now threshold l) [
    | value_error e ↦ value_error e
    | answer rs ↦ answer (r ∷ rs)
  ]
]

-- `order` is the database's `ORDER BY name`, in its collation.
unfoldable pub list_stores :
    (List Store → List Store) → ℕ → ℤ → List Store → Answer (List StoreResponse)
unfolding active_stores store_responses
list_stores order now threshold stores =
    store_responses now threshold (order (active_stores stores))
