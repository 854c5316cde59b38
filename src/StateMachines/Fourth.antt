-- ===== src/StateMachines/Fourth.antt =====
-- State_machines/variant_fsm/fourth.cpp: the machine of third.cpp, in which the empty alternative of
-- the variant says that there is no new state.
use Prim.Native.String.{String}
use always_be_learning.Common.{ℕ, ◌+◌, ◌%◌, ◌^◌, leb, if◌then◌else◌}
use always_be_learning.StateMachines.Machine.{Event, Machine}

-- `std::variant<std::monostate, StateAnimating, StatePaused, StateIdle>`
pub data State : Type 0 where
  monostate : State
  animating paused : ℕ → State
  idle : State

abbrev pub counter_limit : ℕ
counter_limit = 42

abbrev pub current_count : State → ℕ
current_count idle = 0
current_count (animating counter) = counter
current_count (paused counter) = counter
current_count monostate = 144

abbrev pub current_state : State → String
current_state idle = "Idle"
current_state (paused counter) = "StatePaused"
current_state (animating counter) = "StateAnimating"
current_state monostate = "monostate"

-- The handlers of events change the state of the machine that they are called on, and answer with
-- a state.
abbrev Handler : Type 0
Handler = State → State × State

unfoldable pub update : Handler
update (animating n) =
    let counter = (n + 1) % 2 ^ 32 in
    if leb counter_limit counter
    then (animating counter, idle)
    else (animating counter, animating counter)
update s = (s, monostate)

unfoldable pub play : Handler
play idle = (idle, animating 0)
play (paused counter) = (paused counter, animating counter)
play s = (s, monostate)

unfoldable pub stop : Handler
stop (animating counter) = (animating counter, idle)
stop (paused counter) = (paused counter, idle)
stop s = (s, monostate)

unfoldable pub pause : Handler
pause (animating counter) = (animating counter, paused counter)
pause s = (s, monostate)

unfoldable pub dispatch_event : Event → Handler
unfolding update play stop pause
dispatch_event Event.update s = update s
dispatch_event Event.play s = play s
dispatch_event Event.pause s = pause s
dispatch_event Event.stop s = stop s

-- `auto fsm = derived()` copies the machine: what the handler changes is lost. The hooks `on_exit`
-- and `on_entry` are the empty ones of `Fsm`.
unfoldable pub dispatch : Event → State → State
unfolding dispatch_event
dispatch event state =
    let fsm = dispatch_event event state in elim fsm.1 [ monostate ↦ state | new_state ↦ new_state ]

unfoldable pub fourth : Machine State
unfolding dispatch
fourth = record { initial = idle; send = dispatch; current_count = current_count }
