-- ===== src/Together/Accepting.antt =====
-- A simulator's event that the backend accepts keeps the invariant, with its delivery committed.
use mathlib.Core.Path.{subst}
use storepulse.Prelude.{ℕ, ◌≡◌, refl, sym, ap, ◌∙◌, Bool, List, ◌∷◌, ◌++◌, inl, inr, Option-cases}
use storepulse.Simulator.Config.{SimulatorConfig}
use storepulse.Simulator.Rng.{Rng}
use storepulse.Simulator.Domain.{OutboundEvent, EventPayload, set_default, commit_delivery}
use storepulse.Simulator.Domain.Making.{IsSale}
use storepulse.Backend.Models.{sale_event, refund_event, JsonEq, base_of}
use storepulse.Backend.Database.{find_store_code, find_product_sku}
use storepulse.Backend.Ingestion.Stored.{stored_db}
use storepulse.Backend.Ingestion.WellFormed.{IsWellFormed, ingest-IsWellFormed}
use storepulse.Backend.Realtime.{SetChange}
use storepulse.Backend.Validation.{Pydantic, post_event}
use storepulse.Backend.Validation.Printing.{Printer, IsCodec, event_json, received, received_base}
use storepulse.Together.Invariant.{Joint, IsRefund, Cargo, IsAbsent, Sound, Sound-at}
use storepulse.Together.Posting.{Cargo-Stored, Cargo-posted}
use storepulse.Together.Settling.{sold_entry, refund_settled, sale_settled}

pub base-received :
    {J : Type 0} (w : Printer J) (e : EventPayload) → base_of (received w e) ≡ received_base w e
base-received w e = elim (Option-cases e.original_event_id) [
  | inl k ↦ rw k refl
  | inr (i, k) ↦ rw k refl
]

module _ {J S : Type 0} ⦃j : JsonEq J⦄ (rng : Rng S) (config : SimulatorConfig) (p : Pydantic J)
    (w : Printer J) (c : IsCodec p w) (fails : ℕ → Bool) (meanwhile : List SetChange) (clock : ℕ)
    (t : Joint J) (sound : Sound rng config t) (xs ys : List OutboundEvent) (event : OutboundEvent)
    (e : t.in_flight ≡ xs ++ event ∷ ys) (absent : IsAbsent t.backend.db event) where
  stored-IsWellFormed :
      (k : Cargo rng config t.sales event)
      → let s =
          Cargo-Stored rng config p w c fails meanwhile clock t sound xs ys event e absent k in
        IsWellFormed (stored_db clock (received w event.payload) s.store s.product t.backend.db)
  stored-IsWellFormed k =
      subst (λ r. IsWellFormed r.1)
        (Cargo-Stored rng config p w c fails meanwhile clock t sound xs ys event e absent k).result
        (ingest-IsWellFormed clock (received w event.payload) t.backend.db sound.well)

  -- The delivery of a sale commits its entry, and that of a refund nothing.
  sale_committed :
      (id : ℕ) (sold : IsSale rng config id event)
      → commit_delivery event t.sales ≡ set_default (sold_entry event sold.product) t.sales
  unfolding commit_delivery
  sale_committed id sold =
      rw
        (
          ap (λ x. x.kind) sold.made,
          ap (λ x. x.sale_entry) sold.made,
          ap (λ x. x.payload.event_id) sold.made,
        )
        refl

  refund_committed : IsRefund config t.sales event → commit_delivery event t.sales ≡ t.sales
  unfolding commit_delivery
  refund_committed r = rw (ap (λ x. x.kind) r.made) refl

  -- The tables and the ledger once the event is stored and committed.
  pub accepted-Sound :
      Cargo rng config t.sales event
      → Sound rng config (record {
        sales = commit_delivery event t.sales;
        in_flight = xs ++ ys;
        backend = (post_event p fails meanwhile clock (event_json w event.payload) t.backend).state;
      })
  accepted-Sound (inl (id, sold)) =
      let k : Cargo rng config t.sales event = inl (id, sold) in
      let s = Cargo-Stored rng config p w c fails meanwhile clock t sound xs ys event e absent k in
      let table =
        (Cargo-posted rng config p w c fails meanwhile clock t sound xs ys event e absent k).1 in
      let is_sale : received w event.payload ≡ sale_event (received_base w event.payload) =
        rw (ap (λ x. x.payload.original_event_id) sold.made) refl in
      let base = base-received w event.payload in
      (Sound-at rng config (commit_delivery event t.sales) (xs ++ ys) _ _ table (
        rw (sale_committed id sold, is_sale)
          (sale_settled rng config w clock t sound xs ys event e s.store s.product id sold _
            (ap (λ b. find_store_code b.store_code t.backend.db.stores) (sym base) ∙ s.store_found)
            (ap (λ b. find_product_sku b.product_sku t.backend.db.products) (sym base)
              ∙ s.product_found)
            (subst (λ r. IsWellFormed (stored_db clock r s.store s.product t.backend.db)) is_sale
              (stored-IsWellFormed k)))))
  accepted-Sound (inr r) =
      let k : Cargo rng config t.sales event = inr r in
      let s = Cargo-Stored rng config p w c fails meanwhile clock t sound xs ys event e absent k in
      let table =
        (Cargo-posted rng config p w c fails meanwhile clock t sound xs ys event e absent k).1 in
      let is_refund : received w event.payload
          ≡ refund_event (record {
            base = received_base w event.payload;
            original_event_id = r.source.event_id;
          }) =
        rw (ap (λ x. x.payload.original_event_id) r.made) refl in
      (Sound-at rng config (commit_delivery event t.sales) (xs ++ ys) _ _ table (
        rw (refund_committed r, is_refund)
          (refund_settled rng config w clock t sound xs ys event e s.store s.product r _ (
            subst (λ q. IsWellFormed (stored_db clock q s.store s.product t.backend.db)) is_refund
              (stored-IsWellFormed k)))))
