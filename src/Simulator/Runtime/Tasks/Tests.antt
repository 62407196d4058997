-- ===== src/Simulator/Runtime/Tasks/Tests.antt =====
-- Two events through a queue of one place and two workers.
use storepulse.Prelude.{
  ℕ, ◌+◌, ◌≤◌, ◌≡◌, ◌⊎◌, refl, false, Option, none, some, List, [], ◌∷◌, ◌++◌, arith, length,
}
use storepulse.Prelude.Int.{pos}
use storepulse.Simulator.Float.{Float, float_zero, lt_float}
use storepulse.Simulator.Config.{SimulatorConfig}
use storepulse.Simulator.Transport.{permanent_error}
use storepulse.Simulator.Domain.{refundable_sales, update_sale}
use storepulse.Simulator.Domain.Generator.{
  make_business_event, make_sale, make_refund, choose_refund, refund_of, event_time,
}
use storepulse.Simulator.Runtime.Tasks.{
  Tasks, Happening, paused, room, got, event_answered, run_tasks, start_tasks,
}
use storepulse.Simulator.Runtime.Tasks.Accounts.{Sound}
use storepulse.Simulator.Runtime.Tasks.Invariant.{run-Sound}
use storepulse.Simulator.Runtime.Tasks.Order.{held_event, made_in, taken_in, run-fifo}
use storepulse.Simulator.Runtime.Tasks.Draining.{work}
use storepulse.Simulator.Runtime.Tasks.Settling.{Settled, CanAdvance, run_settles}
use storepulse.Simulator.Fixtures.{default_config, least_rng}

abbrev config : SimulatorConfig
config = record default_config { queue_size = pos 1 }

abbrev pauses : Float → ℕ → Float × ℕ
pauses rate s = (rate, s + 1)

abbrev noon : ℕ
noon = 43_200_000_000

-- Two events are made, of which the second waits for room, and one is taken.
abbrev two_made : List Happening
two_made = paused noon 1 ∷ paused noon 2 ∷ got 0 ∷ []

abbrev first_fails : List Happening
first_fails = event_answered 0 (permanent_error 422) float_zero ∷ room ∷ []

abbrev or_start : Option (Tasks ℕ) → Tasks ℕ
or_start none = start_tasks config 0
or_start (some t) = t

unfoldable made_two : Tasks ℕ
unfolding run_tasks start_tasks
made_two = or_start (run_tasks least_rng pauses config two_made (start_tasks config 0))

unfoldable failed_one : Tasks ℕ
unfolding made_two
failed_one = or_start (run_tasks least_rng pauses config first_fails made_two)

two_made-run : run_tasks least_rng pauses config two_made (start_tasks config 0) ≡ some made_two
unfolding made_two make_business_event make_sale make_refund choose_refund refund_of event_time
    lt_float refundable_sales update_sale
two_made-run = refl

first_fails-run : run_tasks least_rng pauses config first_fails made_two ≡ some failed_one
unfolding failed_one make_business_event make_sale make_refund choose_refund refund_of event_time
    lt_float refundable_sales update_sale
first_fails-run = refl

still_runs : made_two.stopped ≡ false
unfolding made_two make_business_event make_sale make_refund choose_refund refund_of event_time
    lt_float refundable_sales update_sale
still_runs = refl

run-Sound_example : Sound 1 2 made_two
run-Sound_example = run-Sound least_rng pauses config 0 two_made made_two two_made-run

run-fifo_example :
    made_in least_rng pauses config two_made (start_tasks config 0)
    ≡ taken_in least_rng pauses config two_made (start_tasks config 0)
      ++ (made_two.queue ++ held_event made_two.producer)
run-fifo_example = run-fifo least_rng pauses config 0 two_made made_two two_made-run

run_settles_example :
    (length first_fails + work failed_one ≤ work made_two)
    × (Settled failed_one ⊎ CanAdvance least_rng pauses config failed_one)
run_settles_example =
    run_settles least_rng pauses config 0 two_made first_fails made_two failed_one
      (permanent_error 422) float_zero (omega arith) (omega arith) two_made-run still_runs
      (tt, (tt, tt)) first_fails-run tt
