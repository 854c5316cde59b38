-- ===== src/StateMachines/Tiny.antt =====
-- State_machines/tiny_fsm/first.cpp: one object for each state, of which only `StateAnimating` has a
-- counter, and a pointer to the current one.
use always_be_learning.Common.{
  ◌≡◌, refl, zero, suc, true, false, Option, none, List, [], ◌∷◌, ℕ, ◌+◌, ◌%◌, ◌^◌, Bool, leb,
  if◌then◌else◌,
}
use always_be_learning.StateMachines.Machine.{Event, Machine}

-- which of the objects `current_state` points to
pub data State : Type 0 where
  animating paused idle : State

-- the pointer, and the counter of `state_instance<StateAnimating>`
pub record Animation : Type 0 where
  pub current_state : State
  pub counter : ℕ

abbrev pub counter_limit : ℕ
counter_limit = 42

-- `Fsm_state_map`
abbrev pub state_map : State → Event → State
state_map animating Event.update = idle
state_map animating Event.play = animating
state_map animating Event.pause = paused
state_map animating Event.stop = idle
state_map paused Event.update = paused
state_map paused Event.play = animating
state_map paused Event.pause = paused
state_map paused Event.stop = idle
state_map idle Event.update = idle
state_map idle Event.play = animating
state_map idle Event.pause = idle
state_map idle Event.stop = idle

abbrev pub entry : Animation → Animation
entry a = a

abbrev pub exit : Animation → Animation
exit a = a

unfoldable pub transit : State → Event → Animation → Animation
transit s e a = let exited = exit a in entry (record exited { current_state = state_map s e })

-- with an action, the new state is not entered
unfoldable pub transit_action : State → Event → (Animation → Animation) → Animation → Animation
transit_action s e action a =
    let acted = action (exit a) in record acted { current_state = state_map s e }

unfoldable pub transit_if : State → Event → (Animation → Animation) → Bool → Animation → Animation
unfolding transit_action
transit_if s e action condition a = if condition then transit_action s e action a else a

abbrev pub reset_counter : Animation → Animation
reset_counter a = record a { counter = 0 }

unfoldable pub react_animating : Event → Animation → Animation
unfolding transit transit_action transit_if
react_animating Event.update a =
    let counted = record a { counter = (a.counter + 1) % 2 ^ 32 } in
    transit_if animating Event.update reset_counter (leb counter_limit counted.counter) counted
react_animating Event.play a = a
react_animating Event.pause a = transit animating Event.pause a
react_animating Event.stop a = transit_action animating Event.stop reset_counter a

unfoldable pub react_paused : Event → Animation → Animation
unfolding transit transit_action
react_paused Event.play a = transit paused Event.play a
react_paused Event.stop a = transit_action paused Event.stop reset_counter a
react_paused _ a = a

unfoldable pub react_idle : Event → Animation → Animation
unfolding transit
react_idle Event.play a = transit idle Event.play a
react_idle _ a = a

unfoldable pub dispatch : Event → Animation → Animation
unfolding react_animating react_paused react_idle
dispatch e a = elim a.current_state [
  | animating ↦ react_animating e a
  | paused ↦ react_paused e a
  | idle ↦ react_idle e a
]

abbrev pub set_initial_state : Animation → Animation
set_initial_state a = record a { current_state = idle }

abbrev pub enter : Animation → Animation
enter a = entry a

abbrev pub start : Animation → Animation
start a = enter (set_initial_state a)

abbrev pub is_in_state : State → Animation → Bool
is_in_state animating a = elim a.current_state [ animating ↦ true | _ ↦ false ]
is_in_state paused a = elim a.current_state [ paused ↦ true | _ ↦ false ]
is_in_state idle a = elim a.current_state [ idle ↦ true | _ ↦ false ]

-- `Derived::reset()` is the inherited function itself, which calls itself again
unfoldable pub reset : ℕ → Animation → Option Animation
reset zero a = none
reset (suc calls) a = reset calls a

reset_never_returns : (calls : ℕ) (a : Animation) → reset calls a ≡ none
unfolding reset
reset_never_returns zero a = refl
reset_never_returns (suc calls) a = reset_never_returns calls a

-- `StateList::reset`: of the states, only `StateAnimating` has something to reset
unfoldable pub reset_states : List State → Animation → Animation
reset_states [] a = a
reset_states (animating ∷ rest) a = reset_states rest (record a { counter = 0 })
reset_states (s ∷ rest) a = reset_states rest a

-- `EventList::dispatch`
unfoldable pub dispatch_events : List Event → Animation → Animation
unfolding dispatch
dispatch_events [] a = a
dispatch_events (e ∷ events) a = dispatch_events events (dispatch e a)

-- `FsmList`, for machines of this kind
unfoldable pub dispatch_list : Event → List Animation → List Animation
unfolding dispatch
dispatch_list e [] = []
dispatch_list e (a ∷ rest) = dispatch e a ∷ dispatch_list e rest

unfoldable pub set_initial_states : List Animation → List Animation
set_initial_states [] = []
set_initial_states (a ∷ rest) = set_initial_state a ∷ set_initial_states rest

unfoldable pub enter_list : List Animation → List Animation
enter_list [] = []
enter_list (a ∷ rest) = enter a ∷ enter_list rest

-- the initial states of all machines are set before the first is entered
unfoldable pub start_list : List Animation → List Animation
unfolding set_initial_states enter_list
start_list machines = enter_list (set_initial_states machines)

-- the class has no accessor: the counter is that of `StateAnimating`
unfoldable pub tiny : Machine Animation
unfolding dispatch
tiny = record {
  initial = start (record { current_state = idle; counter = 0 });
  send = dispatch;
  current_count = λ a. a.counter;
}
