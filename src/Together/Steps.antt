-- ===== src/Together/Steps.antt =====
-- Every attempt keeps what holds of the simulator and the backend together.
use mathlib.Core.Path.{subst}
use storepulse.Prelude.{
  ℕ, ◌≡◌, sym, Bool, some, none, List, ◌∷◌, ◌++◌, arith, inl, inr, Option-cases,
}
use storepulse.Prelude.Int.{pos}
use storepulse.Simulator.Config.{SimulatorConfig}
use storepulse.Simulator.Rng.{Rng}
use storepulse.Simulator.Domain.{OutboundEvent, find_sale, commit_delivery, make_duplicate}
use storepulse.Backend.Models.{JsonEq}
use storepulse.Backend.Session.{run}
use storepulse.Backend.Ingestion.{ingest}
use storepulse.Backend.Ingestion.Stored.{Stored, stored_db, accepted_result}
use storepulse.Backend.Ingestion.Retry.{Extends, Extends-refl, stored_db-Extends}
use storepulse.Backend.Realtime.{SetChange}
use storepulse.Backend.Api.{BackendState, replied}
use storepulse.Backend.Validation.{Pydantic}
use storepulse.Backend.Validation.Printing.{Printer, IsCodec, received}
use storepulse.Together.{System, post_of, heard, attempted}
use storepulse.Together.Invariant.{Joint, Cargo, IsAbsent}
use storepulse.Together.Flight.{All-split}
use storepulse.Together.Posting.{Cargo-Stored, Cargo-posted, Cargo-IsPrintable}
use storepulse.Together.Accepting.{accepted-Sound}
use storepulse.Together.Making.{All-map}
use storepulse.Together.Kept.{Recorded, post-Recorded}
use storepulse.Together.Shadow.{
  Pending, Cargo-Commits, commit-Covers_before, Pending-Covers, commit-Pending,
}
use storepulse.Together.Attempts.{accepted-IsSuccess, duplicate-IsSuccess}
use storepulse.Together.Whole.{Whole, AllRecorded-grown, same-Sound, attempted-Whole}

module _ {J S : Type 0} ⦃j : JsonEq J⦄ (rng : Rng S) (config : SimulatorConfig) (p : Pydantic J)
    (w : Printer J) (c : IsCodec p w) (t : System J) (h : Whole rng config w t) where
  -- The joint state with the shadow for the ledger.
  abbrev shadowed : Joint J
  shadowed = record { sales = h.shadow; in_flight = t.in_flight; backend = t.backend }

  module _ (fails : ℕ → Bool) (meanwhile : List SetChange) (clock : ℕ) (xs ys : List OutboundEvent)
      (event : OutboundEvent) where
    abbrev posted : BackendState J
    posted = (post_of rng config p w fails meanwhile clock event t.backend).state

    -- The events that are left in flight, once the backend has stored one.
    abbrev taken : System J
    taken = record t { in_flight = xs ++ ys; backend = posted }

    module _ (e : t.in_flight ≡ xs ++ event ∷ ys) where
      flying-IsAbsent : IsAbsent t.backend.db event
      flying-IsAbsent =
          (All-split (IsAbsent t.backend.db) xs ys event (rw (sym e) h.sound.absent)).0

      flying-Cargo : Cargo rng config h.shadow event
      flying-Cargo =
          (All-split (Cargo rng config h.shadow) xs ys event (rw (sym e) h.sound.cargo)).0

      abbrev stored :
          Stored clock
            (received w event.payload)
            t.backend.db
            (run clock (ingest (received w event.payload)) t.backend.db t.backend.db)
      stored =
          Cargo-Stored rng config p w c fails meanwhile clock shadowed h.sound xs ys event e
            flying-IsAbsent flying-Cargo

      abbrev reply_and_table :
          ((post_of rng config p w fails meanwhile clock event t.backend).reply
            ≡ replied 201 (accepted_result clock (received w event.payload)))
          × (posted.db
              ≡ stored_db clock (received w event.payload) stored.store stored.product t.backend.db)
      reply_and_table =
          Cargo-posted rng config p w c fails meanwhile clock shadowed h.sound xs ys event e
            flying-IsAbsent flying-Cargo

      pub first_reply :
          (post_of rng config p w fails meanwhile clock event t.backend).reply
          ≡ replied 201 (accepted_result clock (received w event.payload))
      first_reply = reply_and_table.0

      posted-Extends : Extends t.backend.db posted.db
      posted-Extends =
          subst (λ d. Extends t.backend.db d) (sym reply_and_table.1)
            (stored_db-Extends clock (received w event.payload) stored.store stored.product
              t.backend.db stored.absent)

      posted-Recorded : Recorded w posted.db event.payload
      posted-Recorded = record {
        clock = clock;
        before = t.backend.db;
        res = run clock (ingest (received w event.payload)) t.backend.db t.backend.db;
        well = h.sound.well;
        stored = stored;
        grows = subst (λ d. Extends d posted.db) reply_and_table.1 (Extends-refl posted.db);
        printable =
            Cargo-IsPrintable rng config p w c fails meanwhile clock shadowed h.sound xs ys event e
              flying-IsAbsent flying-Cargo;
      }

      shadow_absent : find_sale event.payload.event_id h.shadow ≡ none
      shadow_absent = elim (Option-cases (find_sale event.payload.event_id h.shadow)) [
        | inl k ↦ k
        | inr (x, k) ↦ absurd (ground (arith, (h.sound.backed _ x k).found, flying-IsAbsent))
      ]

      pub first-Whole :
          (endless : config.max_retry_attempts ≡ pos 0) (attempt : ℕ) (arrives : Bool)
          (u : System J)
          → attempted config attempt
              (heard arrives (post_of rng config p w fails meanwhile clock event t.backend).reply)
              event
              taken
            ≡ some u
          → Whole rng config w u
      first-Whole endless attempt arrives u left =
          let commits = Cargo-Commits rng config h.shadow event flying-Cargo in
          let out : Whole rng config w taken = record {
            shadow = commit_delivery event h.shadow;
            sound =
                accepted-Sound rng config p w c fails meanwhile clock shadowed h.sound xs ys event e
                  flying-IsAbsent flying-Cargo;
            ledger = h.ledger;
            covers =
                λ i x found. commit-Covers_before event h.shadow commits i x (h.covers i x found);
            pending =
                All-map
                  (λ x.
                    Pending-Covers h.shadow (commit_delivery event h.shadow) t.shared.sales
                      t.shared.sales x (commit-Covers_before event h.shadow commits) (λ i y k. k))
                  t.unanswered h.pending;
            unanswered =
                AllRecorded-grown rng config w _ _ t.unanswered posted-Extends h.unanswered;
            delivered = AllRecorded-grown rng config w _ _ t.delivered posted-Extends h.delivered;
          } in
          attempted-Whole rng config w event taken out
            (commit-Pending h.shadow t.shared.sales event shadow_absent commits) posted-Recorded
            endless attempt arrives _ u (rw reply_and_table.0 (accepted-IsSuccess config _ clock))
            left

    -- A later attempt.
    pub again-Whole :
        (endless : config.max_retry_attempts ≡ pos 0) (attempt : ℕ) (arrives : Bool) (u : System J)
        → t.unanswered ≡ xs ++ event ∷ ys
        → attempted config attempt
            (heard arrives (post_of rng config p w fails meanwhile clock event t.backend).reply)
            event
            (record t { unanswered = xs ++ ys; backend = posted })
          ≡ some u
        → Whole rng config w u
    again-Whole endless attempt arrives u e left =
        let (kept, rest) =
          All-split (λ x. Recorded w t.backend.db x.payload) xs ys event
            (rw (sym e) h.unanswered) in
        let (entered, waiting) =
          All-split (Pending t.shared.sales h.shadow) xs ys event (rw (sym e) h.pending) in
        let (reply, same) =
          post-Recorded w p c fails meanwhile clock t.backend event.payload kept in
        let out : Whole rng config w (record t { unanswered = xs ++ ys; backend = posted }) =
          record {
            shadow = h.shadow;
            sound = same-Sound rng config w h.shadow t.in_flight t.backend posted same h.sound;
            ledger = h.ledger;
            covers = h.covers;
            pending = waiting;
            unanswered = rw same rest;
            delivered = rw same h.delivered;
          } in
        attempted-Whole rng config w event (record t { unanswered = xs ++ ys; backend = posted })
          out entered (rw same kept) endless attempt arrives _ u
          (rw reply (duplicate-IsSuccess config _ _)) left

    pub duplicated-Whole :
        t.delivered ≡ xs ++ event ∷ ys
        → Whole rng config w (record t {
          backend =
              (post_of rng config p w fails meanwhile clock (make_duplicate event) t.backend).state;
        })
    unfolding make_duplicate
    duplicated-Whole e =
        let kept =
          (All-split (λ x. Recorded w t.backend.db x.payload) xs ys event
            (rw (sym e) h.delivered)).0 in
        let same = (post-Recorded w p c fails meanwhile clock t.backend event.payload kept).1 in
        record {
          shadow = h.shadow;
          sound = same-Sound rng config w h.shadow t.in_flight t.backend posted same h.sound;
          ledger = h.ledger;
          covers = h.covers;
          pending = h.pending;
          unanswered = rw same h.unanswered;
          delivered = rw same h.delivered;
        }
