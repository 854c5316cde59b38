-- ===== src/StateMachines/Static.antt =====
-- State_machines/static_fsm/first: a machine over a table of transitions that is found by the types
-- of the state and the event (fsm.hpp, traits.hpp), and the animation as such a machine (fsm.cpp).
use always_be_learning.Common.{
  ℕ, ◌+◌, ◌%◌, ◌^◌, ◌==◌, Bool, true, false, Option, none, some, List, [], ◌∷◌, leb, if◌then◌else◌,
}
use always_be_learning.StateMachines.Machine.{Event, Machine}

-- `transition_table<State, Event>`, whose members are optional
pub record Transition (S D : Type 0) : Type 0 where
  pub guard : Option (D → Bool)
  pub action : Option (D → D)
  pub next_state : Option S

-- The states of a machine in their order, what they handle, and what they do when they are entered
-- and left. `D` is the machine as its derived class sees it.
pub record States (S D E : Type 0) : Type 0 where
  pub same : S → S → Bool
  pub states : List S
  pub handle_event : S → E → Option (D → D)
  pub exit : S → Option (D → D)
  pub entry : S → Option (D → D)
  pub transition_table : S → E → Transition S D

-- the index of the current state, and the derived object
pub record Fsm (D : Type 0) : Type 0 where
  pub state : ℕ
  pub derived : D

abbrev run_optional : {D : Type 0} → Option (D → D) → D → D
run_optional none d = d
run_optional (some f) d = f d

-- no member `value` for a state that is not in the list
unfoldable pub state_index : {S : Type 0} → (S → S → Bool) → List S → S → ℕ → Option ℕ
state_index same [] s n = none
state_index same (s' ∷ rest) s n =
    let later = state_index same rest s (n + 1) in if same s' s then some n else later

module _ {S D E : Type 0} (machine : States S D E) where
  -- leaving the state, the action, and entering the next state
  unfoldable pub change_state : S → Transition S D → S → Fsm D → Option (Fsm D)
  unfolding state_index
  change_state s traits next fsm =
      let acted = run_optional traits.action (run_optional (machine.exit s) fsm.derived) in
      elim (state_index machine.same machine.states next 0) [
        | none ↦ none
        | some index ↦
            some (record { state = index; derived = run_optional (machine.entry next) acted })
      ]

  -- The four specializations of `transition`.
  unfoldable pub transition : S → Transition S D → Fsm D → Option (Fsm D)
  unfolding change_state
  transition s traits fsm = elim traits.next_state [
    | none ↦ elim traits.guard [
      | none ↦ some (record fsm { derived = run_optional traits.action fsm.derived })
      | some guard ↦
          if guard fsm.derived
          then some (record fsm { derived = run_optional traits.action fsm.derived })
          else some fsm
    ]
    | some next ↦ elim traits.guard [
      | none ↦ change_state s traits next fsm
      | some guard ↦ if guard fsm.derived then change_state s traits next fsm else some fsm
    ]
  ]

  unfoldable pub set_initial_state : S → Fsm D → Option (Fsm D)
  unfolding state_index
  set_initial_state s fsm = elim (state_index machine.same machine.states s 0) [
    | none ↦ none
    | some index ↦ some (record fsm { state = index })
  ]

  -- The states are tried one after the other, from `index`.
  unfoldable pub dispatch_from : List S → ℕ → E → Fsm D → Option (Fsm D)
  unfolding transition
  dispatch_from [] index event fsm = some fsm
  dispatch_from (s ∷ rest) index event fsm =
      let later = dispatch_from rest (index + 1) event fsm in
      let handled = record fsm {
        derived = run_optional (machine.handle_event s event) fsm.derived;
      } in
      if index == fsm.state then transition s (machine.transition_table s event) handled else later

  unfoldable pub dispatch_event : E → Fsm D → Option (Fsm D)
  unfolding dispatch_from
  dispatch_event event fsm = dispatch_from machine.states 0 event fsm

pub data State : Type 0 where
  animating paused idle : State

abbrev pub same_state : State → State → Bool
same_state animating animating = true
same_state paused paused = true
same_state idle idle = true
same_state _ _ = false

-- the member of the derived class
pub record Animation : Type 0 where
  pub counter : ℕ

abbrev pub counter_limit : ℕ
counter_limit = 42

-- the handlers that only print are left out
abbrev pub animation_handle : State → Event → Option (Animation → Animation)
animation_handle animating Event.update =
    some λ fsm. record { counter = (fsm.counter + 1) % 2 ^ 32 }
animation_handle _ _ = none

abbrev pub animation_entry : State → Option (Animation → Animation)
animation_entry idle = some λ fsm. record { counter = 0 }
animation_entry _ = none

abbrev move_to : State → Transition State Animation
move_to next = record { guard = none; action = none; next_state = some next }

abbrev pub animation_table : State → Event → Transition State Animation
animation_table idle Event.play = record {
  guard = some λ fsm. true;
  action = some λ fsm. fsm;
  next_state = some animating;
}
animation_table animating Event.update = record {
  guard = some λ fsm. leb counter_limit fsm.counter;
  action = none;
  next_state = some idle;
}
animation_table animating Event.pause = move_to paused
animation_table animating Event.stop = move_to idle
animation_table paused Event.play = record {
  guard = none;
  action = some λ fsm. fsm;
  next_state = some animating;
}
animation_table paused Event.stop = move_to idle
animation_table _ _ = record { guard = none; action = none; next_state = none }

abbrev pub animation : States State Animation Event
animation = record {
  same = same_state;
  states = animating ∷ paused ∷ idle ∷ [];
  handle_event = animation_handle;
  exit = λ s. none;
  entry = animation_entry;
  transition_table = animation_table;
}

-- `send_events`
unfoldable pub send_all : List Event → Fsm Animation → Option (Fsm Animation)
unfolding dispatch_event
send_all [] fsm = some fsm
send_all (e ∷ events) fsm = elim (dispatch_event animation e fsm) [
  | none ↦ none
  | some next ↦ send_all events next
]

-- `Animation` after `set_initial_state(initial_state_v<sIdle>)`; an event that is ill formed would
-- leave it as it is
unfoldable pub static_machine : Machine (Fsm Animation)
unfolding dispatch_event
static_machine = record {
  initial = record { state = 2; derived = record { counter = 0 } };
  send = λ e fsm. elim (dispatch_event animation e fsm) [ none ↦ fsm | some fsm' ↦ fsm' ];
  current_count = λ fsm. fsm.derived.counter;
}
