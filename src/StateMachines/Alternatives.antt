-- ===== src/StateMachines/Alternatives.antt =====
-- State_machines/variant_fsm/fourth.cpp: the empty alternative of the variant is never the state.
use always_be_learning.Common.{◌≢◌, List, [], ◌∷◌}
use always_be_learning.StateMachines.Machine.{Event, send_events}
use always_be_learning.StateMachines.Fourth
use always_be_learning.StateMachines.Dispatched.{FourthInv, send-FourthInv}

send_events-FourthInv :
    (events : List Event) (s : Fourth.State)
    → FourthInv s
    → FourthInv (send_events Fourth.fourth events s)
unfolding send_events
send_events-FourthInv [] s h = h
send_events-FourthInv (e ∷ events) s h =
    send_events-FourthInv events (Fourth.fourth.send e s) (send-FourthInv e s h)

not_empty : (s : Fourth.State) → FourthInv s → s ≢ Fourth.monostate
not_empty Fourth.monostate h e = absurd h
not_empty Fourth.idle h e = absurd cc
not_empty (Fourth.paused n) h e = absurd cc
not_empty (Fourth.animating n) h e = absurd cc

-- The machine is never in the empty alternative, after any events.
pub fourth_never_empty :
    (events : List Event) → send_events Fourth.fourth events Fourth.idle ≢ Fourth.monostate
fourth_never_empty events = not_empty _ (send_events-FourthInv events Fourth.idle tt)
