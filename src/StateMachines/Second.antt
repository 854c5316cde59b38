-- ===== src/StateMachines/Second.antt =====
-- State_machines/variant_fsm/second.cpp: the variant with `match`, whose first handler catches the
-- states that no other handler is for, and `dispatch` by the type of the event.
use Prim.Native.String.{String}
use always_be_learning.Common.{ℕ, ◌+◌, ◌%◌, ◌^◌, leb, if◌then◌else◌}
use always_be_learning.StateMachines.Machine.{Event, Machine}

-- `std::variant<StateIdle, StatePaused, StateAnimating>`
pub data State : Type 0 where
  idle : State
  paused animating : ℕ → State

abbrev pub counter_limit : ℕ
counter_limit = 144

abbrev pub current_count : State → ℕ
current_count idle = 0
current_count (animating counter) = counter
current_count (paused counter) = counter

abbrev pub current_state : State → String
current_state idle = "Idle"
current_state (paused counter) = "StatePaused"
current_state (animating counter) = "StateAnimating"

unfoldable pub update : State → State
update (animating n) =
    let counter = (n + 1) % 2 ^ 32 in if leb counter_limit counter then idle else animating counter
update s = s

unfoldable pub play : State → State
play idle = animating 0
play (paused counter) = animating counter
play s = s

unfoldable pub stop : State → State
stop (animating counter) = idle
stop (paused counter) = idle
stop s = s

unfoldable pub pause : State → State
pause (animating counter) = paused counter
pause s = s

unfoldable pub dispatch : Event → State → State
unfolding update play stop pause
dispatch Event.play s = play s
dispatch Event.update s = update s
dispatch Event.pause s = pause s
dispatch Event.stop s = stop s

unfoldable pub second : Machine State
unfolding dispatch
second = record { initial = idle; send = dispatch; current_count = current_count }
