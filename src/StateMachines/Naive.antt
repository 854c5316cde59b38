-- ===== src/StateMachines/Naive.antt =====
-- State_machines/naive_fsm/fist.cpp: a switch over an enumeration, with one counter for all states.
use Prim.Native.String.{String}
use always_be_learning.Common.{ℕ, ◌+◌, ◌%◌, ◌^◌, leb, if◌then◌else◌}
use always_be_learning.StateMachines.Machine.{Event, Machine}

-- the class has no other state
pub data State : Type 0 where
  animating paused idle : State

pub record Animation : Type 0 where
  pub state : State
  pub counter : ℕ

abbrev pub counter_limit : ℕ
counter_limit = 144

abbrev pub current_count : Animation → ℕ
current_count a = elim a.state [ idle ↦ 0 | _ ↦ a.counter ]

abbrev pub current_state : Animation → String
current_state a = elim a.state [ animating ↦ "Animating" | paused ↦ "Paused" | idle ↦ "Idle" ]

abbrev pub stop : Animation → Animation
stop a = record { counter = 0; state = idle }

unfoldable pub animate : Animation → Animation
animate a =
    let counter = (a.counter + 1) % 2 ^ 32 in
    let counted = record a { counter = counter } in
    if leb counter_limit counter then stop counted else counted

unfoldable pub update : Animation → Animation
unfolding animate
update a = elim a.state [ animating ↦ animate a | _ ↦ a ]

abbrev pub play : Animation → Animation
play a = record a { state = animating }

abbrev pub pause : Animation → Animation
pause a = elim a.state [ animating ↦ record a { state = paused } | _ ↦ a ]

unfoldable pub naive : Machine Animation
unfolding update
naive = record {
  initial = record { state = idle; counter = 0 };
  send = λ e a. elim e [
    | Event.play ↦ play a
    | Event.pause ↦ pause a
    | Event.stop ↦ stop a
    | Event.update ↦ update a
  ];
  current_count = current_count;
}
