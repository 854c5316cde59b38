-- ===== src/Tests/Machines.antt =====
-- The theorems on the state machines at short histories of the animation.
use always_be_learning.Common.{
  ◌<◌, ◌+◌, arith, ◌≡◌, ◌≢◌, refl, some, List, [], ◌∷◌, ◌++◌, replicate,
}
use always_be_learning.StateMachines.Machine.{Event, play, pause, stop, update, send_events}
use always_be_learning.StateMachines.Naive.{naive}
use always_be_learning.StateMachines.FirstHack.{first_hack}
use always_be_learning.StateMachines.Second.{second}
use always_be_learning.StateMachines.Third.{third}
use always_be_learning.StateMachines.Fourth
use always_be_learning.StateMachines.Tiny.{tiny}
use always_be_learning.StateMachines.Table
use always_be_learning.StateMachines.Static.{static_machine, send_all}
use always_be_learning.StateMachines.Statically.{static_at}
use always_be_learning.StateMachines.Ending.{updates_end}
use always_be_learning.StateMachines.Agreement.{
  final_count, counts_below_limit, visited_machines_agree, dispatched_machines_agree,
}
use always_be_learning.StateMachines.Alternatives.{fourth_never_empty}
use always_be_learning.StateMachines.Tables.{animating_at, stop_in_pause_keeps_count}

-- the events of `run_animation`
abbrev benchmark : List Event
benchmark = play ∷ update ∷ pause ∷ update ∷ play ∷ update ∷ stop ∷ play ∷ update ∷ stop ∷ []

counted_twice : final_count static_machine (play ∷ update ∷ pause ∷ update ∷ play ∷ update ∷ []) ≡ 2
unfolding send_events static_machine
counted_twice = refl

visited_machines_agree_example :
    (final_count naive benchmark ≡ final_count first_hack benchmark)
    × (final_count first_hack benchmark ≡ final_count second benchmark)
visited_machines_agree_example = visited_machines_agree benchmark

dispatched_machines_agree_example :
    (final_count third benchmark ≡ final_count Fourth.fourth benchmark)
    × (final_count Fourth.fourth benchmark ≡ final_count tiny benchmark)
    × (final_count tiny benchmark ≡ final_count static_machine benchmark)
dispatched_machines_agree_example = dispatched_machines_agree benchmark

updates_end_example :
    (send_all (replicate 39 update) (static_at 0 2) ≡ some (static_at 0 41))
    × (send_all (replicate 40 update) (static_at 0 2) ≡ some static_machine.initial)
updates_end_example = updates_end 2 39 refl

counts_below_limit_example :
    (final_count naive benchmark < 144)
    × (final_count first_hack benchmark < 144)
    × (final_count second benchmark < 144)
    × (final_count third benchmark < 42)
    × (final_count Fourth.fourth benchmark < 42)
    × (final_count tiny benchmark < 42)
    × (final_count static_machine benchmark < 42)
counts_below_limit_example = counts_below_limit benchmark

fourth_never_empty_example : send_events Fourth.fourth benchmark Fourth.idle ≢ Fourth.monostate
fourth_never_empty_example = fourth_never_empty benchmark

abbrev no_counts : Table.Handlers
no_counts = record { animating_counter = 0; paused_counter = 0; idle_counter = 0; shown = [] }

stop_in_pause_keeps_count_example :
    (fsm : Table.Fsm) × (Table.handle_all
        (replicate 3 Table.update ++ Table.pause ∷ Table.stop ∷ Table.play ∷ [])
        (animating_at 0 no_counts)
      ≡ some fsm)
    × (fsm.current_state ≡ Table.animating)
    × (fsm.handlers.animating_counter ≡ 0 + 3)
stop_in_pause_keeps_count_example = stop_in_pause_keeps_count 3 0 no_counts (omega arith)
