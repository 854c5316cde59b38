-- ===== src/StateMachines/Table.antt =====
-- State_machines/naive_fsm/second.cpp: a table of handlers and a table of transitions, both indexed
-- by the numbers of states and events. The handlers write the counters of the handler table.
use Prim.Native.String.{String}
use always_be_learning.Common.{ℕ, zero, suc, ◌+◌, ◌%◌, ◌^◌, Option, none, some, List, [], ◌∷◌}

pub data Event : Type 0 where
  play pause stop update show : Event

pub data State : Type 0 where
  animating paused idle : State

abbrev pub state_index : State → ℕ
state_index animating = 0
state_index paused = 1
state_index idle = 2

abbrev pub event_index : Event → ℕ
event_index play = 0
event_index pause = 1
event_index stop = 2
event_index update = 3
event_index show = 4

infixl 5 ◌>>=◌
abbrev ◌>>=◌ : {A B : Type 0} → Option A → (A → Option B) → Option B
none >>= k = none
some a >>= k = k a

-- reading outside of an array is undefined
unfoldable pub at_index : {A : Type 0} → List A → ℕ → Option A
at_index [] i = none
at_index (a ∷ as') zero = some a
at_index (a ∷ as') (suc i) = at_index as' i

abbrev pub animation_transitions : List (List State)
animation_transitions =
    (animating ∷ paused ∷ idle ∷ animating ∷ animating ∷ [])
    ∷ (animating ∷ paused ∷ idle ∷ paused ∷ paused ∷ [])
    ∷ (animating ∷ idle ∷ idle ∷ idle ∷ idle ∷ [])
    ∷ []

-- the counters of the three entries of the handler table, and what was written to `std::cout`
pub record Handlers : Type 0 where
  pub animating_counter : ℕ
  pub paused_counter : ℕ
  pub idle_counter : ℕ
  pub shown : List (String × ℕ)

abbrev show_count : String → ℕ → Handlers → Handlers
show_count label counter h = record h { shown = (label, counter) ∷ h.shown }

unfoldable pub handle_animating : Event → Handlers → Handlers
handle_animating play h = h
handle_animating pause h = record h { paused_counter = h.animating_counter }
handle_animating stop h = record h { animating_counter = 0 }
handle_animating update h = record h { animating_counter = (h.animating_counter + 1) % 2 ^ 32 }
handle_animating show h = show_count "Animating, count: " h.animating_counter h

unfoldable pub handle_paused : Event → Handlers → Handlers
handle_paused play h = record h { animating_counter = h.paused_counter }
handle_paused stop h = record h { paused_counter = 0 }
handle_paused show h = show_count "Paused, count: " h.paused_counter h
handle_paused _ h = h

unfoldable pub handle_idle : Event → Handlers → Handlers
handle_idle show h = show_count "Idle, count: " h.idle_counter h
handle_idle _ h = h

-- `AnimationStateHandlers`
unfoldable pub state_handlers : List (Event → Handlers → Handlers)
unfolding handle_animating handle_paused handle_idle
state_handlers = handle_animating ∷ handle_paused ∷ handle_idle ∷ []

pub record Fsm : Type 0 where
  pub current_state : State
  pub handlers : Handlers

abbrev pub initial_state : State → Fsm → Fsm
initial_state s fsm = record fsm { current_state = s }

unfoldable pub transition : Event → Fsm → Option Fsm
unfolding at_index
transition e fsm = do
  row ← at_index animation_transitions (state_index fsm.current_state)
  next ← at_index row (event_index e)
  some (record fsm { current_state = next })

unfoldable pub handle : Event → Fsm → Option Fsm
unfolding at_index transition state_handlers
handle e fsm = do
  handler ← at_index state_handlers (state_index fsm.current_state)
  transition e (record fsm { handlers = handler e fsm.handlers })

unfoldable pub handle_all : List Event → Fsm → Option Fsm
unfolding handle
handle_all [] fsm = some fsm
handle_all (e ∷ events) fsm = handle e fsm >>= handle_all events
