-- ===== src/StateMachines/Third.antt =====
-- State_machines/variant_fsm/third.cpp: a machine as a base class that dispatches events to a copy of
-- the machine and takes the new state from the answer.
use Prim.Native.String.{String}
use always_be_learning.Common.{ℕ, ◌+◌, ◌%◌, ◌^◌, Option, none, some, leb, if◌then◌else◌}
use always_be_learning.StateMachines.Machine.{Event, Machine}

-- `std::variant<StateAnimating, StatePaused, StateIdle>`
pub data State : Type 0 where
  animating paused : ℕ → State
  idle : State

abbrev pub counter_limit : ℕ
counter_limit = 42

abbrev pub current_count : State → ℕ
current_count idle = 0
current_count (animating counter) = counter
current_count (paused counter) = counter

abbrev pub current_state : State → String
current_state idle = "Idle"
current_state (paused counter) = "StatePaused"
current_state (animating counter) = "StateAnimating"

-- The handlers of events change the state of the machine that they are called on, and answer with
-- a new state or without.
abbrev Handler : Type 0
Handler = State → State × Option State

unfoldable pub update : Handler
update (animating n) =
    let counter = (n + 1) % 2 ^ 32 in
    if leb counter_limit counter
    then (animating counter, some idle)
    else (animating counter, some (animating counter))
update s = (s, none)

unfoldable pub play : Handler
play idle = (idle, some (animating 0))
play (paused counter) = (paused counter, some (animating counter))
play s = (s, none)

unfoldable pub stop : Handler
stop (animating counter) = (animating counter, some idle)
stop (paused counter) = (paused counter, some idle)
stop s = (s, none)

unfoldable pub pause : Handler
pause (animating counter) = (animating counter, some (paused counter))
pause s = (s, none)

unfoldable pub dispatch_event : Event → Handler
unfolding update play stop pause
dispatch_event Event.update s = update s
dispatch_event Event.play s = play s
dispatch_event Event.pause s = pause s
dispatch_event Event.stop s = stop s

-- `auto fsm = derived()` copies the machine: what the handler changes is lost. The hooks `on_exit`
-- and `on_entry` are the empty ones of `Fsm`.
unfoldable pub dispatch : Event → State → State
unfolding dispatch_event
dispatch event state =
    let fsm = dispatch_event event state in elim fsm.1 [ none ↦ state | some new_state ↦ new_state ]

unfoldable pub third : Machine State
unfolding dispatch
third = record { initial = idle; send = dispatch; current_count = current_count }
