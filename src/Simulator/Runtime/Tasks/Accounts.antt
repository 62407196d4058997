-- ===== src/Simulator/Runtime/Tasks/Accounts.antt =====
-- What the queue, the workers and the counters add up to.
use mathlib.Core.Option.{some-injective}
use storepulse.Prelude.{
  ℕ, zero, suc, ◌+◌, ◌≤◌, ◌≡◌, refl, sym, ap, ◌∙◌, false, Option, none, some, List, [], ◌∷◌, ◌++◌,
  inl, inr, arith, length, length-append, ltb, ltb→lt, ◌==◌, Bool-cases,
}
use storepulse.Simulator.Transport.{Posted}
use storepulse.Simulator.Domain.{OutboundEvent, get_elem?}
use storepulse.Simulator.Runtime.{
  SimulatorStats, Shared, count_receipt, count_generated, settle_event, settle_replay,
}
use storepulse.Simulator.Runtime.Tasks.{
  Producer, pausing, putting, Worker, getting, delivering, replaying, Tasks, set_elem, hand_out,
  task_done, put,
}

unfoldable pub total : {A : Type 0} → (A → ℕ) → List A → ℕ
total f [] = 0
total f (x ∷ l) = f x + total f l

pub length-set_elem : {A : Type 0} (l : List A) (i : ℕ) (a : A) → length (set_elem l i a) ≡ length l
length-set_elem [] i a = refl
length-set_elem (x ∷ l) zero a = refl
length-set_elem (x ∷ l) (suc i) a = ap suc (length-set_elem l i a)

pub total-set_elem :
    {A : Type 0} (f : A → ℕ) (l : List A) (i : ℕ) (a b : A)
    → get_elem? l i ≡ some a
    → total f (set_elem l i b) + f a ≡ total f l + f b
unfolding total
total-set_elem f [] i a b h = cc
total-set_elem f (x ∷ l) zero a b h = let e : x ≡ a = cc in rw e (omega arith)
total-set_elem f (x ∷ l) (suc i) a b h = omega (arith, total-set_elem f l i a b h)

-- A worker that has an event in its hands, and one whose event is not settled yet.
abbrev pub busy : Worker → ℕ
busy getting = 0
busy _ = 1

abbrev pub unsettled : Worker → ℕ
unsettled (delivering e) = 1
unsettled _ = 0

abbrev pub held_back : Producer → ℕ
held_back pausing = 0
held_back (putting e) = 1

-- `unfinished` is not 0 while a worker has an event in hand.
pub total-busy :
    (l : List Worker) (i : ℕ) (w : Worker) → get_elem? l i ≡ some w → busy w ≤ total busy l
unfolding total
total-busy [] i w h = cc
total-busy (x ∷ l) zero w h = let e : x ≡ w = cc in rw e (omega arith)
total-busy (x ∷ l) (suc i) w h = omega (arith, total-busy l i w h)

-- The queue is within its size; no worker was lost; the queue's count of unfinished tasks is what waits in it and what the
-- workers have in hand; and every event that was made is in the queue, waits for room, is being
-- delivered, or is counted as settled.
pub record Sound {S : Type 0} (maxsize staff : ℕ) (t : Tasks S) : Type 0 where
  pub bounded : length t.queue ≤ maxsize
  pub staffed : length t.workers ≡ staff
  pub counted : t.unfinished ≡ length t.queue + total busy t.workers
  pub accounted :
      t.shared.stats.generated_sales + t.shared.stats.generated_refunds
        + t.shared.stats.deliberate_duplicates
      ≡ length t.queue
        + held_back t.producer
        + total unsettled t.workers
        + (t.shared.stats.delivered_accepted + t.shared.stats.delivered_duplicate
            + t.shared.stats.permanent_failures)

module _ {S : Type 0} where
  -- One event more has been counted as made, and is put.
  pub put-Sound :
      (maxsize staff : ℕ) (event : OutboundEvent) (t : Tasks S)
      → length t.queue ≤ maxsize
      → length t.workers ≡ staff
      → t.unfinished ≡ length t.queue + total busy t.workers
      → t.shared.stats.generated_sales + t.shared.stats.generated_refunds
          + t.shared.stats.deliberate_duplicates
        ≡ length t.queue
          + 1
          + total unsettled t.workers
          + (t.shared.stats.delivered_accepted + t.shared.stats.delivered_duplicate
              + t.shared.stats.permanent_failures)
      → Sound maxsize staff (put maxsize event t)
  unfolding put
  put-Sound maxsize staff event t b f c a = elim (Bool-cases (ltb (length t.queue) maxsize)) [
    | inl e ↦
        let longer : length (t.queue ++ (event ∷ [])) ≡ length t.queue + 1 =
          length-append t.queue (event ∷ []) in
        let less = ltb→lt (length t.queue) maxsize e in
        rw e (record {
          bounded = omega (arith, longer, less);
          staffed = f;
          counted = omega (arith, longer, c);
          accounted = omega (arith, longer, a);
        })
    | inr e ↦ rw e (record { bounded = b; staffed = f; counted = c; accounted = omega (arith, a) })
  ]

  pub hand_out-Sound :
      (maxsize staff i : ℕ) (t t' : Tasks S) (o : Option Worker) (q : List OutboundEvent)
      → get_elem? t.workers i ≡ o
      → t.queue ≡ q
      → hand_out i o q t ≡ some t'
      → Sound maxsize staff t
      → Sound maxsize staff t'
  hand_out-Sound maxsize staff i t t' (some getting) (event ∷ rest) g q h s =
      let e = some-injective _ _ h in
      let b = total-set_elem busy t.workers i getting (delivering event) g in
      let u = total-set_elem unsettled t.workers i getting (delivering event) g in
      let n : length t.queue ≡ suc (length rest) = rw q refl in
      rw (sym e) (record {
        bounded = omega (arith, s.bounded, n);
        staffed = length-set_elem t.workers i (delivering event) ∙ s.staffed;
        counted = omega (arith, s.counted, n, b);
        accounted = omega (arith, s.accounted, n, u);
      })
  hand_out-Sound maxsize staff i t t' (some getting) [] g q h s = absurd (ground (arith, h))
  hand_out-Sound maxsize staff i t t' none q g e h s = absurd (ground (arith, h))
  hand_out-Sound maxsize staff i t t' (some (delivering _)) q g e h s = absurd (ground (arith, h))
  hand_out-Sound maxsize staff i t t' (some (replaying _)) q g e h s = absurd (ground (arith, h))

  -- A round ends: the worker had an event in hand, which has been accounted for.
  pub task_done-Sound :
      (maxsize staff i : ℕ) (w : Worker) (t : Tasks S)
      → get_elem? t.workers i ≡ some w
      → busy w ≡ 1
      → length t.queue ≤ maxsize
      → length t.workers ≡ staff
      → t.unfinished ≡ length t.queue + total busy t.workers
      → t.shared.stats.generated_sales
          + t.shared.stats.generated_refunds
          + t.shared.stats.deliberate_duplicates
          + unsettled w
        ≡ length t.queue
          + held_back t.producer
          + total unsettled t.workers
          + (t.shared.stats.delivered_accepted + t.shared.stats.delivered_duplicate
              + t.shared.stats.permanent_failures)
      → ((task_done i t).stopped ≡ t.stopped) × Sound maxsize staff (task_done i t)
  unfolding task_done
  task_done-Sound maxsize staff i w t g k b f c a =
      let positive = total-busy t.workers i w g in
      let e : (t.unfinished == 0) ≡ false = ground (arith, positive, c, k) in
      let n = total-set_elem busy t.workers i w getting g in
      let u = total-set_elem unsettled t.workers i w getting g in
      rw e (
        refl,
        record {
          bounded = b;
          staffed = length-set_elem t.workers i getting ∙ f;
          counted = omega (arith, c, n, k, positive);
          accounted = omega (arith, a, u);
        },
      )

-- What a settled event and a settled replay add to the counters.
abbrev pub settled_count : SimulatorStats → ℕ
settled_count s = s.delivered_accepted + s.delivered_duplicate + s.permanent_failures

abbrev pub made_count : SimulatorStats → ℕ
made_count s = s.generated_sales + s.generated_refunds

pub settle_event-counts :
    (event : OutboundEvent) (answer : Posted) (a b : Shared)
    → settle_event event answer a ≡ some b
    → (made_count b.stats ≡ made_count a.stats)
      × (b.stats.deliberate_duplicates ≡ a.stats.deliberate_duplicates)
      × (settled_count b.stats ≡ settled_count a.stats + 1)
unfolding settle_event count_receipt
settle_event-counts event answer a b h = ground arith

pub settle_replay-counts :
    (answer : Posted) (a b : SimulatorStats)
    → settle_replay answer a ≡ some b
    → (made_count b ≡ made_count a)
      × (b.deliberate_duplicates + settled_count a ≡ a.deliberate_duplicates + settled_count b)
unfolding settle_replay count_receipt
settle_replay-counts answer a b h = ground arith

pub count_generated-counts :
    (event : OutboundEvent) (a : SimulatorStats)
    → (made_count (count_generated event a) ≡ made_count a + 1)
      × ((count_generated event a).deliberate_duplicates ≡ a.deliberate_duplicates)
      × (settled_count (count_generated event a) ≡ settled_count a)
unfolding count_generated
count_generated-counts event a = ground arith
