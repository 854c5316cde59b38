-- ===== src/StateMachines/FirstHack.antt =====
-- State_machines/variant_fsm/first_hack.cpp: a variant of states, assigned by the visitors of it.
use Prim.Native.String.{String}
use always_be_learning.Common.{ℕ, ◌+◌, ◌%◌, ◌^◌, leb, if◌then◌else◌}
use always_be_learning.StateMachines.Machine.{Event, Machine}

-- `std::variant<StateIdle, StatePaused, StateAnimating>`
pub data State : Type 0 where
  idle : State
  paused animating : ℕ → State

abbrev pub counter_limit : ℕ
counter_limit = 144

abbrev pub current_count : State → ℕ
current_count idle = 0
current_count (animating counter) = counter
current_count (paused counter) = counter

abbrev pub current_state : State → String
current_state idle = "Idle"
current_state (animating counter) = "Animating"
current_state (paused counter) = "Paused"

unfoldable pub update : State → State
update (animating n) =
    let counter = (n + 1) % 2 ^ 32 in if leb counter_limit counter then idle else animating counter
update s = s

unfoldable pub play : State → State
play idle = animating 0
play (paused counter) = animating counter
play s = s

unfoldable pub stop : State → State
stop (animating counter) = idle
stop (paused counter) = idle
stop s = s

unfoldable pub pause : State → State
pause (animating counter) = paused counter
pause s = s

unfoldable pub first_hack : Machine State
unfolding update play stop pause
first_hack = record {
  initial = idle;
  send = λ e s. elim e [
    | Event.play ↦ play s
    | Event.pause ↦ pause s
    | Event.stop ↦ stop s
    | Event.update ↦ update s
  ];
  current_count = current_count;
}
