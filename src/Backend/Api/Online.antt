-- ===== src/Backend/Api/Online.antt =====
-- That a store which sends events or heartbeats is listed as online.
use mathlib.Core.Option
use storepulse.Prelude.{
  ℕ, ◌+◌, ◌≤◌, ◌≡◌, ◌⊎◌, Bool, true, String, none, some, List, [], arith, inl, inr, Option-cases,
  length, ap,
}
use storepulse.Backend.Models.{Store, EventCreate, JsonEq, base_of}
use storepulse.Backend.Database.{Db, find_store_code}
use storepulse.Backend.Database.Lookup.{find_store_code-touch_store, touched, find_store_code_code}
use storepulse.Backend.Session.{Outcome, run}
use storepulse.Backend.Classify.{EventIngestionResult}
use storepulse.Backend.Ingestion.{ingest}
use storepulse.Backend.Ingestion.Decision.{IsAccepted, ingest-Stored}
use storepulse.Backend.Realtime.{SetChange}
use storepulse.Backend.Services.{Answer, is_store_online, answer, aware, seconds}
use storepulse.Prelude.Int.{pos}
use storepulse.Backend.Api.{
  replied, http_error, BackendState, Handled, heartbeat, HeartbeatResponse,
}

abbrev online_at : ℕ → ℕ → Store → Answer Bool
online_at threshold t s =
    is_store_online (Option.map aware s.last_seen_at) (some (aware t)) (pos threshold) t

-- The row that a touch leaves.
touched_online :
    (t now began threshold : ℕ) (s : Store)
    → 1 ≤ threshold
    → t ≤ now + seconds threshold
    → online_at threshold t (touched s.id now began s) ≡ answer true
unfolding touched is_store_online
touched_online t now began threshold s h k = ground arith

-- An accepted event puts its store online from the time that its transaction began until the
-- threshold has passed.
pub accepted_is_online :
    {J : Type 0} ⦃j : JsonEq J⦄ (now t threshold : ℕ) (p : EventCreate J) (db : Db J) (s : Store)
    → IsAccepted (run now (ingest p) db db)
    → find_store_code (base_of p).store_code (run now (ingest p) db db).1.stores ≡ some s
    → 1 ≤ threshold
    → t ≤ now + seconds threshold
    → is_store_online (Option.map aware s.last_seen_at) (some (aware t)) (pos threshold) t
      ≡ answer true
accepted_is_online {J} now t threshold p db s a found h k =
    let st = ingest-Stored now db p a in
    ground (
      arith,
      ap (λ (x : Outcome EventIngestionResult × Db J). x.1) st.result,
      st.store_found,
      find_store_code-touch_store st.store.id now now (base_of p).store_code db.stores,
      touched_online t now now threshold st.store h k,
    )

-- What a heartbeat for `code` at `now` comes to: it is refused, or the store is there and online
-- at `t`.
abbrev pub HeartbeatConsequence :
    {J : Type 0} → ℕ → ℕ → ℕ → String → BackendState J → Handled J HeartbeatResponse → Type 0
HeartbeatConsequence now t threshold code s r =
    ((find_store_code code s.db.stores ≡ none)
      × (r.reply ≡ http_error 404 "unknown store")
      × (r.state ≡ s)
      × (r.sent ≡ []))
    ⊎ ((store : Store) × (r.reply ≡ replied 200 (record { store_code = code; last_seen_at = now }))
        × (length r.sent ≡ 1)
        × (r.state.db.events ≡ s.db.events)
        × (find_store_code code r.state.db.stores ≡ some store)
        × (is_store_online (Option.map aware store.last_seen_at) (some (aware t)) (pos threshold) t
            ≡ answer true))

-- A heartbeat for an unknown code is answered 404 and changes nothing. Any other is answered 200
-- with its time and broadcast once; it changes no event, and its store is online until the
-- threshold has passed.
pub heartbeat_online :
    {J : Type 0} (fails : ℕ → Bool) (meanwhile : List SetChange) (began now t threshold : ℕ)
    (code : String) (s : BackendState J)
    → 1 ≤ threshold
    → t ≤ now + seconds threshold
    → HeartbeatConsequence now t threshold code s (heartbeat fails meanwhile began now code s)
unfolding heartbeat
heartbeat_online fails meanwhile began now t threshold code s h k =
    elim (Option-cases (find_store_code code s.db.stores)) [
      | inl unknown ↦ inl (unknown, ground arith, ground arith, ground arith)
      | inr (store, found) ↦ inr (
        touched store.id now began store,
        ground (arith, find_store_code_code code s.db.stores store found),
        ground arith,
        ground arith,
        ground (arith, find_store_code-touch_store store.id now began code s.db.stores),
        touched_online t now began threshold store h k,
      )
    ]
