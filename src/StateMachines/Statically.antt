-- ===== src/StateMachines/Statically.antt =====
-- State_machines/static_fsm/first: the machine over the table is the animation.
use always_be_learning.Common.{
  List, [], ◌∷◌, ℕ, zero, suc, ◌+◌, ◌<◌, ◌%◌, ◌^◌, arith, Bool, true, false, Bool-cases, ◌≡◌, refl,
  ap, ◌∙◌, inl, inr, leb, if◌then◌else◌, none, some,
}
use always_be_learning.StateMachines.Machine.{
  Event, Phase, play, pause, stop, update, idle, paused, animating, count_of, animate, send_events,
  Animates,
}
use always_be_learning.StateMachines.Count.{unwrapped, if_ap}
use always_be_learning.StateMachines.Static

answer :
    {A : Type 0} (b : Bool) (old x y : A)
    → (elim (if b then some x else some y) as (λ r. A) [ none ↦ old | some new ↦ new ])
      ≡ (if b then x else y)
answer true old x y = refl
answer false old x y = refl

abbrev pub static_at : ℕ → ℕ → Static.Fsm Static.Animation
static_at s n = record { state = s; derived = record { counter = n } }

abbrev pub static_phase : ℕ → ℕ → Phase
static_phase (suc (suc zero)) n = idle
static_phase (suc zero) n = paused n
static_phase zero n = animating n
static_phase _ n = idle

-- the counter is reset in the idle state, and below the limit in the others
abbrev pub StaticInv : ℕ → ℕ → Type 0
StaticInv (suc (suc zero)) n = n ≡ 0
StaticInv (suc zero) n = n < 42
StaticInv zero n = n < 42
StaticInv _ n = ⊥

pub static_update :
    (n : ℕ)
    → Static.static_machine.send update (static_at zero n) ≡ (
        let n' = (n + 1) % 2 ^ 32 in
        if leb 42 n' then static_at (suc (suc zero)) 0 else static_at zero n')
unfolding Static.static_machine
static_update n = answer (leb 42 ((n + 1) % 2 ^ 32)) (static_at zero n) _ _

abbrev static_phase_of : Static.Fsm Static.Animation → Phase
static_phase_of a = static_phase a.state a.derived.counter

abbrev StaticInvOf : Static.Fsm Static.Animation → Type 0
StaticInvOf a = StaticInv a.state a.derived.counter

static_send_phase :
    (e : Event) (s : ℕ) (n : ℕ)
    → StaticInv s n
    → static_phase_of (Static.static_machine.send e (static_at s n))
      ≡ animate 42 e (static_phase s n)
unfolding animate Static.static_machine
static_send_phase play (suc (suc zero)) n h = ap animating h
static_send_phase play (suc zero) n h = refl
static_send_phase play zero n h = refl
static_send_phase pause (suc (suc zero)) n h = refl
static_send_phase pause (suc zero) n h = refl
static_send_phase pause zero n h = refl
static_send_phase stop (suc (suc zero)) n h = refl
static_send_phase stop (suc zero) n h = refl
static_send_phase stop zero n h = refl
static_send_phase update (suc (suc zero)) n h = refl
static_send_phase update (suc zero) n h = refl
static_send_phase update zero n h =
    ap static_phase_of (static_update n)
    ∙ rw (unwrapped 42 n (omega arith) h) (if_ap static_phase_of (leb 42 (n + 1)) _ _)
static_send_phase e (suc (suc (suc s))) n h = absurd h

send-StaticInv :
    (e : Event) (s : ℕ) (n : ℕ)
    → StaticInv s n
    → StaticInvOf (Static.static_machine.send e (static_at s n))
unfolding Static.static_machine
send-StaticInv play (suc (suc zero)) n h = omega arith
send-StaticInv play (suc zero) n h = h
send-StaticInv play zero n h = h
send-StaticInv pause (suc (suc zero)) n h = h
send-StaticInv pause (suc zero) n h = h
send-StaticInv pause zero n h = h
send-StaticInv stop (suc (suc zero)) n h = h
send-StaticInv stop (suc zero) n h = refl
send-StaticInv stop zero n h = refl
send-StaticInv update (suc (suc zero)) n h = h
send-StaticInv update (suc zero) n h = h
send-StaticInv update zero n h = elim (Bool-cases (leb 42 ((n + 1) % 2 ^ 32))) [
  | inl e ↦ rw (static_update n, e) refl
  | inr e ↦ rw (static_update n, e) (ground arith)
]
send-StaticInv e (suc (suc (suc s))) n h = absurd h

static_count :
    (s : ℕ) (n : ℕ)
    → StaticInv s n
    → Static.static_machine.current_count (static_at s n) ≡ count_of (static_phase s n)
unfolding Static.static_machine
static_count (suc (suc zero)) n h = h
static_count (suc zero) n h = refl
static_count zero n h = refl
static_count (suc (suc (suc s))) n h = absurd h

pub static_machine-Animates : Animates 42 Static.static_machine
unfolding Static.static_machine
static_machine-Animates = record {
  Inv = StaticInvOf;
  phase = static_phase_of;
  initial_Inv = refl;
  initial_phase = refl;
  send_Inv = λ e a. send-StaticInv e a.state a.derived.counter;
  send_phase = λ e a. static_send_phase e a.state a.derived.counter;
  count_phase = λ a. static_count a.state a.derived.counter;
}

answered :
    {A : Type 0} (b : Bool) (old x y : A)
    → (if b then some x else some y)
      ≡ some (elim (if b then some x else some y) as (λ r. A) [ none ↦ old | some new ↦ new ])
answered true old x y = refl
answered false old x y = refl

pub dispatch_event_defined :
    (e : Event) (s n : ℕ)
    → StaticInv s n
    → Static.dispatch_event Static.animation e (static_at s n)
      ≡ some (Static.static_machine.send e (static_at s n))
unfolding Static.dispatch_event Static.static_machine
dispatch_event_defined play (suc (suc zero)) n h = refl
dispatch_event_defined play (suc zero) n h = refl
dispatch_event_defined play zero n h = refl
dispatch_event_defined pause (suc (suc zero)) n h = refl
dispatch_event_defined pause (suc zero) n h = refl
dispatch_event_defined pause zero n h = refl
dispatch_event_defined stop (suc (suc zero)) n h = refl
dispatch_event_defined stop (suc zero) n h = refl
dispatch_event_defined stop zero n h = refl
dispatch_event_defined update (suc (suc zero)) n h = refl
dispatch_event_defined update (suc zero) n h = refl
dispatch_event_defined update zero n h = answered (leb 42 ((n + 1) % 2 ^ 32)) (static_at zero n) _ _
dispatch_event_defined e (suc (suc (suc s))) n h = absurd h

-- no event is ill formed, in any state that the machine can have
send_all_defined :
    (events : List Event) (fsm : Static.Fsm Static.Animation)
    → StaticInvOf fsm
    → Static.send_all events fsm ≡ some (send_events Static.static_machine events fsm)
unfolding Static.send_all send_events
send_all_defined [] fsm h = refl
send_all_defined (e ∷ events) fsm h =
    rw (Static.send_all, dispatch_event_defined e fsm.state fsm.derived.counter h)
      (send_all_defined events (Static.static_machine.send e fsm)
        (send-StaticInv e fsm.state fsm.derived.counter h))

initial_set :
    Static.set_initial_state Static.animation Static.idle
      (record { state = 0; derived = record { counter = 0 } })
    ≡ some Static.static_machine.initial
unfolding Static.set_initial_state Static.static_machine
initial_set = refl
