-- ===== src/Together/Answers.antt =====
-- What the backend answers to a simulator's posts, and what backs its ledger.
use storepulse.Prelude.{ℕ, ◌≡◌, ◌⊎◌, ap, sym, ◌∙◌, Bool, some, List, [], ◌∷◌, ◌++◌, arith, inl, inr}
use storepulse.Prelude.Int.{pos}
use storepulse.Simulator.Config.{SimulatorConfig}
use storepulse.Simulator.Rng.{Rng}
use storepulse.Simulator.Domain.{SaleLedgerEntry, OutboundEvent, find_sale}
use storepulse.Simulator.Runtime.{count_generated}
use storepulse.Backend.Models.{SaleEventCreate, JsonEq}
use storepulse.Backend.Realtime.{SetChange}
use storepulse.Backend.Api.{BackendState, replied}
use storepulse.Backend.Validation.{Pydantic}
use storepulse.Backend.Validation.Printing.{Printer, IsCodec}
use storepulse.Together.{
  System, Step, post_of, made, first, again, cut_off, cut_off_again, duplicated, counted, others,
  Reach, start, later,
}
use storepulse.Together.Flight.{All-split}
use storepulse.Together.Others.{others-Sound}
use storepulse.Together.Kept.{Recorded, post-Recorded, create_event-Extends}
use storepulse.Together.Attempts.{tries_again}
use storepulse.Together.Whole.{Whole, AllRecorded-grown}
use storepulse.Together.Reserving.{made-Whole}
use storepulse.Backend.Classify.{accepted, duplicate}
use storepulse.Backend.Ingestion.WellFormed.{IsWellFormed}
use storepulse.Backend.Validation.Delivery.{IsServed}
use storepulse.Together.Invariant.{Backed}
use storepulse.Together.Accepting.{base-received}
use storepulse.Together.Steps.{first_reply, first-Whole, again-Whole, duplicated-Whole}

module _ {J S : Type 0} ⦃j : JsonEq J⦄ (rng : Rng S) (config : SimulatorConfig) (p : Pydantic J)
    (w : Printer J) (c : IsCodec p w) (endless : config.max_retry_attempts ≡ pos 0) where
  Step-Whole :
      {t u : System J} → Step rng config p w t u → Whole rng config w t → Whole rng config w u
  Step-Whole (made t now id s s' event after e span fresh) h =
      made-Whole rng config w t h now id s s' event after (count_generated event t.shared.stats) e
        span fresh
  Step-Whole (first t u xs ys event fails meanwhile clock attempt arrives e left) h =
      first-Whole rng config p w c t h fails meanwhile clock xs ys event e endless attempt arrives u
        left
  Step-Whole (again t u xs ys event fails meanwhile clock attempt arrives e left) h =
      again-Whole rng config p w c t h fails meanwhile clock xs ys event endless attempt arrives u e
        left
  Step-Whole (cut_off t u xs ys event attempt q e over left) h =
      absurd (ground (arith, over, tries_again config endless attempt))
  Step-Whole (cut_off_again t u xs ys event attempt q e over left) h =
      absurd (ground (arith, over, tries_again config endless attempt))
  Step-Whole (duplicated t xs ys event fails meanwhile clock e) h =
      duplicated-Whole rng config p w c t h fails meanwhile clock xs ys event e
  Step-Whole (counted t q stats e) h = record {
    shadow = h.shadow;
    sound = h.sound;
    ledger = h.ledger;
    covers = h.covers;
    pending = h.pending;
    unanswered = h.unanswered;
    delivered = h.delivered;
  }
  Step-Whole (others t payload fails meanwhile clock elsewhere unused) h =
      let more = create_event-Extends fails meanwhile clock payload t.backend in
      record {
        shadow = h.shadow;
        sound =
            others-Sound rng config clock payload
              (record { sales = h.shadow; in_flight = t.in_flight; backend = t.backend }) fails
              meanwhile h.sound elsewhere unused;
        ledger = h.ledger;
        covers = h.covers;
        pending = h.pending;
        unanswered = AllRecorded-grown rng config w _ _ t.unanswered more h.unanswered;
        delivered = AllRecorded-grown rng config w _ _ t.delivered more h.delivered;
      }

  Reach-Whole :
      {b : BackendState J} {t : System J}
      → IsWellFormed b.db
      → IsServed config b.db
      → Reach rng config p w b t
      → Whole rng config w t
  Reach-Whole well served start =
      unfold find_sale in
      record {
        shadow = [];
        sound = record {
          well = well;
          served = served;
          ledger = record { priced = tt; keyed = tt };
          backed = λ i e found. absurd (ground (arith, found));
          cargo = tt;
          absent = tt;
          distinct = tt;
        };
        ledger = record { priced = tt; keyed = tt };
        covers = λ i e found. found;
        pending = tt;
        unanswered = tt;
        delivered = tt;
      }
  Reach-Whole well served (later r step) = Step-Whole step (Reach-Whole well served r)

  -- From a well-formed backend that has the simulator's store and its whole catalogue, and an empty
  -- ledger, with settings that the schema and a BIGINT allow and no limit on attempts, and with a
  -- printer and a pydantic that agree: however events are made with fresh ids and attempted, replies
  -- arrive or are lost, duplicates are sent on purpose, and whatever others ask for other stores,
  -- every entry of the ledger has its sale in the backend, of its price and product, and what the
  -- backend has refunded of it, what is reserved by refunds that have not reached the backend and
  -- what remains in the entry are within the quantity that was sold.
  pub ledger-Backed :
      (b : BackendState J) (t : System J) (i : ℕ) (entry : SaleLedgerEntry)
      → IsWellFormed b.db
      → IsServed config b.db
      → Reach rng config p w b t
      → find_sale i t.shared.sales ≡ some entry
      → Backed config t.in_flight t.backend.db i entry
  ledger-Backed b t i entry well served r found =
      let h = Reach-Whole well served r in h.sound.backed i entry (h.covers i entry found)

  -- Under the same conditions: the first attempt of an event that reaches the backend, of a sale or
  -- of a refund, is answered 201 with the event's id.
  pub post_accepted :
      (b : BackendState J) (t : System J) (xs ys : List OutboundEvent) (event : OutboundEvent)
      (fails : ℕ → Bool) (meanwhile : List SetChange) (clock : ℕ)
      → IsWellFormed b.db
      → IsServed config b.db
      → Reach rng config p w b t
      → t.in_flight ≡ xs ++ event ∷ ys
      → (post_of rng config p w fails meanwhile clock event t.backend).reply
        ≡ replied 201
            (record { event_id = event.payload.event_id; status = accepted; received_at = clock })
  post_accepted b t xs ys event fails meanwhile clock well served r e =
      first_reply rng config p w c t (Reach-Whole well served r) fails meanwhile clock xs ys event e
      ∙ ap
          (λ (q : SaleEventCreate J).
            replied 201 (record { event_id = q.event_id; status = accepted; received_at = clock }))
          (base-received w event.payload)

  -- Under the same conditions: an event whose first reply was lost, or that is delivered, and is
  -- posted again is answered 200 as a duplicate, and the database does not change.
  pub post_duplicate :
      (b : BackendState J) (t : System J) (xs ys : List OutboundEvent) (event : OutboundEvent)
      (fails : ℕ → Bool) (meanwhile : List SetChange) (clock : ℕ)
      → IsWellFormed b.db
      → IsServed config b.db
      → Reach rng config p w b t
      → (t.unanswered ≡ xs ++ event ∷ ys) ⊎ (t.delivered ≡ xs ++ event ∷ ys)
      → let post = post_of rng config p w fails meanwhile clock event t.backend in
        ((received_at : ℕ) × (post.reply
            ≡ replied 200 (record {
              event_id = event.payload.event_id;
              status = duplicate;
              received_at = received_at;
            })))
        × (post.state.db ≡ t.backend.db)
  post_duplicate b t xs ys event fails meanwhile clock well served r which =
      let h = Reach-Whole well served r in
      let kept : Recorded w t.backend.db event.payload = elim which [
        | inl e ↦
            (All-split (λ x. Recorded w t.backend.db x.payload) xs ys event
              (rw (sym e) h.unanswered)).0
        | inr e ↦
            (All-split (λ x. Recorded w t.backend.db x.payload) xs ys event
              (rw (sym e) h.delivered)).0
      ] in
      let (reply, same) = post-Recorded w p c fails meanwhile clock t.backend event.payload kept in
      (
        (
          kept.clock,
          reply
              ∙ ap
                  (λ (q : SaleEventCreate J). replied 200 (record {
                    event_id = q.event_id;
                    status = duplicate;
                    received_at = kept.clock;
                  }))
                  (base-received w event.payload),
        ),
        same,
      )
