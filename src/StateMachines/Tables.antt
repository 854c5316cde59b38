-- ===== src/StateMachines/Tables.antt =====
-- State_machines/naive_fsm/second.cpp: the tables are read in range, and where the counters of the
-- states come from.
use always_be_learning.Common.{
  ℕ, zero, suc, ◌+◌, ◌<◌, ◌%◌, ◌^◌, arith, ◌≡◌, refl, ◌∙◌, some, List, [], ◌∷◌, ◌++◌, replicate,
}
use always_be_learning.StateMachines.Table

-- Every event is handled in every state, with a transition that the table has.
handle_defined :
    (e : Table.Event) (s : Table.State) (h : Table.Handlers)
    → (fsm : Table.Fsm) × (Table.handle e (record { current_state = s; handlers = h }) ≡ some fsm)
unfolding Table.handle Table.state_handlers
handle_defined Table.play Table.animating h = (_, refl)
handle_defined Table.pause Table.animating h = (_, refl)
handle_defined Table.stop Table.animating h = (_, refl)
handle_defined Table.update Table.animating h = (_, refl)
handle_defined Table.show Table.animating h = (_, refl)
handle_defined Table.play Table.paused h = (_, refl)
handle_defined Table.pause Table.paused h = (_, refl)
handle_defined Table.stop Table.paused h = (_, refl)
handle_defined Table.update Table.paused h = (_, refl)
handle_defined Table.show Table.paused h = (_, refl)
handle_defined Table.play Table.idle h = (_, refl)
handle_defined Table.pause Table.idle h = (_, refl)
handle_defined Table.stop Table.idle h = (_, refl)
handle_defined Table.update Table.idle h = (_, refl)
handle_defined Table.show Table.idle h = (_, refl)

-- Any events are handled, from any state, without a read outside of the tables.
handle_all_defined :
    (events : List Table.Event) (fsm : Table.Fsm)
    → (fsm' : Table.Fsm) × (Table.handle_all events fsm ≡ some fsm')
unfolding Table.handle_all
handle_all_defined [] fsm = (fsm, refl)
handle_all_defined (e ∷ events) fsm =
    let (next, handled) = handle_defined e fsm.current_state fsm.handlers in
    let (last, rest) = handle_all_defined events next in (last, rw handled rest)

abbrev pub animating_at : ℕ → Table.Handlers → Table.Fsm
animating_at n h = record {
  current_state = Table.animating;
  handlers = record h { animating_counter = n };
}

-- Stopped while it is paused, the animation starts again at the count of the pause and not at zero.
pub stop_in_pause_keeps_count :
    (updates n : ℕ) (h : Table.Handlers)
    → n + updates < 2 ^ 32
    → (fsm : Table.Fsm) × (Table.handle_all
          (replicate updates Table.update ++ Table.pause ∷ Table.stop ∷ Table.play ∷ [])
          (animating_at n h)
        ≡ some fsm)
      × (fsm.current_state ≡ Table.animating)
      × (fsm.handlers.animating_counter ≡ n + updates)
unfolding Table.handle_all Table.handle Table.state_handlers replicate
stop_in_pause_keeps_count zero n h w = (_, refl, refl, omega arith)
stop_in_pause_keeps_count (suc updates) n h w =
    let (fsm, handled, state, counted) =
      stop_in_pause_keeps_count updates (n + 1) h (omega arith) in
    let unwrapped : (n + 1) % 2 ^ 32 ≡ n + 1 = omega arith in
    (fsm, rw unwrapped handled, state, counted ∙ omega arith)
