-- ===== src/Together/Others.antt =====
-- What others ask of the backend does not touch what backs a simulator's ledger.
use mathlib.Core.Path.{subst}
use storepulse.Prelude.{
  ℕ, ◌≡◌, ◌≢◌, refl, ap, ◌∙◌, Bool, false, String, some, List, arith, All, inl, inr,
}
use storepulse.Simulator.Config.{SimulatorConfig}
use storepulse.Simulator.Rng.{Rng}
use storepulse.Simulator.Domain.{SaleLedgerEntry, OutboundEvent, find_sale}
use storepulse.Backend.Models.{
  Store, Product, EventCreate, sale_event, refund_event, JsonEq, base_of,
}
use storepulse.Backend.Database.{Db, find_store_code, is_refund_of}
use storepulse.Backend.Database.Lookup.{find_store_code_code}
use storepulse.Backend.Session.{Outcome, ok, err, run}
use storepulse.Backend.Classify.{EventIngestionResult}
use storepulse.Backend.Ingestion.{ingest, event_values}
use storepulse.Backend.Ingestion.Stored.{Effect, Stored, stored_db, Allowed}
use storepulse.Backend.Ingestion.Effect.{ingest-Effect}
use storepulse.Backend.Ingestion.WellFormed.{IsWellFormed, ingest-IsWellFormed}
use storepulse.Backend.Realtime.{SetChange}
use storepulse.Backend.Api.{BackendState, finish_event, create_event}
use storepulse.Backend.Validation.Delivery.{is_some-some}
use storepulse.Together.Invariant.{Joint, Backed, Sound, Sound-at}
use storepulse.Together.Flight.{All-both}
use storepulse.Together.Storing.{stored-IsServed, stored-IsAbsent, stored-Backed}

-- Stores that are found under two codes have two ids.
two_stores :
    {J : Type 0} (db : Db J) (a b : String) (s s' : Store)
    → IsWellFormed db
    → find_store_code a db.stores ≡ some s
    → find_store_code b db.stores ≡ some s'
    → a ≢ b
    → s.id ≢ s'.id
two_stores db a b s s' well found found' other same = other (
    ground (
      arith,
      found,
      found',
      same,
      well.store_by_id a s found,
      well.store_by_id b s' found',
      find_store_code_code a db.stores s found,
      find_store_code_code b db.stores s' found',
    ))

-- A row of another store refunds no sale of ours.
refunds_not :
    {J : Type 0} (config : SimulatorConfig) (fl : List OutboundEvent) (db : Db J)
    (p : EventCreate J) (store ours : Store) (product : Product) (i : ℕ) (e : SaleLedgerEntry)
    → store.id ≢ ours.id
    → find_store_code config.store_code db.stores ≡ some ours
    → Allowed p store product db
    → Backed config fl db i e
    → is_refund_of i (event_values p store product) ≡ false
unfolding event_values
refunds_not config fl db (sale_event q) store ours product i e apart in_stores allowed b = refl
refunds_not config fl db (refund_event q) store ours product i e apart in_stores (o, r) b =
    ground (arith, r.found, r.same_store, b.found, b.same_store ours in_stores, apart)

module _ {J S : Type 0} (rng : Rng S) (config : SimulatorConfig) (clock : ℕ) (p : EventCreate J)
    (t : Joint J) (sound : Sound rng config t)
    (elsewhere : (base_of p).store_code ≢ config.store_code)
    (unused : All
      (λ (e : OutboundEvent). e.payload.event_id ≢ (base_of p).event_id)
      t.in_flight) where
  elsewhere-Backed :
      (res : Outcome EventIngestionResult × Db J) (s : Stored clock p t.backend.db res) (i : ℕ)
      (e : SaleLedgerEntry)
      → find_sale i t.sales ≡ some e
      → Backed config t.in_flight (stored_db clock p s.store s.product t.backend.db) i e
  elsewhere-Backed res s i e found =
      let (ours, in_stores) = is_some-some _ sound.served.store_known in
      let apart =
        two_stores t.backend.db _ _ s.store ours sound.well s.store_found in_stores elsewhere in
      let back = sound.backed i e found in
      let no =
        refunds_not config t.in_flight t.backend.db p s.store ours s.product i e apart in_stores
          s.allowed back in
      stored-Backed config clock p s.store s.product t.backend.db t.in_flight t.in_flight i 0 e
        s.absent (rw no refl) (rw no (omega arith)) (omega arith) back

  stored_elsewhere :
      (res : Outcome EventIngestionResult × Db J) (s : Stored clock p t.backend.db res)
      (b : BackendState J)
      → b.db ≡ stored_db clock p s.store s.product t.backend.db
      → IsWellFormed b.db
      → Sound rng config (record t { backend = b })
  stored_elsewhere res s b same well =
      Sound-at rng config t.sales t.in_flight b (stored_db clock p s.store s.product t.backend.db)
        same
        (record {
          well = subst (λ d. IsWellFormed d) same well;
          served = stored-IsServed config clock p s.store s.product t.backend.db sound.served;
          ledger = sound.ledger;
          backed = elsewhere-Backed res s;
          cargo = sound.cargo;
          absent =
              All-both t.in_flight
                (λ x a k. stored-IsAbsent config clock p s.store s.product t.backend.db x k a)
                sound.absent unused;
          distinct = sound.distinct;
        })

  unchanged_elsewhere :
      (b : BackendState J) → b.db ≡ t.backend.db → Sound rng config (record t { backend = b })
  unchanged_elsewhere b same = Sound-at rng config t.sales t.in_flight b t.backend.db same (record {
    well = sound.well;
    served = sound.served;
    ledger = sound.ledger;
    backed = sound.backed;
    cargo = sound.cargo;
    absent = sound.absent;
    distinct = sound.distinct;
  })

  Effect-elsewhere :
      (res : Outcome EventIngestionResult × Db J) (b : BackendState J)
      → Effect clock p t.backend.db res
      → b.db ≡ res.1
      → IsWellFormed res.1
      → Sound rng config (record t { backend = b })
  Effect-elsewhere (ok r, db') b (inl same) e well = unchanged_elsewhere b (e ∙ same.1)
  Effect-elsewhere (err x, db') b (inl same) e well = unchanged_elsewhere b (e ∙ same)
  Effect-elsewhere (o, db') b (inr s) e well =
      stored_elsewhere (o, db') s b
        (e ∙ ap (λ (r : Outcome EventIngestionResult × Db J). r.1) s.result) (rw e well)

pub finish_event-db :
    {J : Type 0} (fails : ℕ → Bool) (meanwhile : List SetChange) (p : EventCreate J)
    (o : Outcome EventIngestionResult) (s : BackendState J)
    → (finish_event fails meanwhile p o s).state.db ≡ s.db
unfolding finish_event
finish_event-db fails meanwhile p (err e) s = refl
finish_event-db fails meanwhile p (ok r) s = ground arith

-- A request for another store, with an id that is not in flight, keeps the invariant.
pub others-Sound :
    {J S : Type 0} ⦃j : JsonEq J⦄ (rng : Rng S) (config : SimulatorConfig) (clock : ℕ)
    (p : EventCreate J) (t : Joint J) (fails : ℕ → Bool) (meanwhile : List SetChange)
    → Sound rng config t
    → (base_of p).store_code ≢ config.store_code
    → All (λ (e : OutboundEvent). e.payload.event_id ≢ (base_of p).event_id) t.in_flight
    → Sound rng config
        (record t { backend = (create_event fails meanwhile clock p t.backend).state })
unfolding create_event
others-Sound rng config clock p t fails meanwhile sound elsewhere unused =
    Effect-elsewhere rng config clock p t sound elsewhere unused
      (run clock (ingest p) t.backend.db t.backend.db) _ (ingest-Effect clock t.backend.db p)
      (finish_event-db fails meanwhile p _ _) (ingest-IsWellFormed clock p t.backend.db sound.well)
