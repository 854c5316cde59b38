-- ===== src/StateMachines/Dispatched.antt =====
-- State_machines/variant_fsm: the machines that dispatch to a copy are the animation.
use always_be_learning.Common.{
  ℕ, ◌+◌, ◌<◌, ◌%◌, ◌^◌, arith, Bool, true, false, Bool-cases, ◌≡◌, refl, ap, ◌∙◌, inl, inr, leb,
  if◌then◌else◌, Option, none, some,
}
use always_be_learning.StateMachines.Machine.{
  Event, Phase, play, pause, stop, update, idle, paused, animating, count_of, animate, Animates,
}
use always_be_learning.StateMachines.Count.{unwrapped, if_ap}
use always_be_learning.StateMachines.Third
use always_be_learning.StateMachines.Fourth

abbrev pub third_phase : Third.State → Phase
third_phase Third.idle = idle
third_phase (Third.paused n) = paused n
third_phase (Third.animating n) = animating n

abbrev pub ThirdInv : Third.State → Type 0
ThirdInv s = Third.current_count s < 42

third_answer :
    (b : Bool) (m n : ℕ)
    → (elim (if◌then◌else◌ {A = Third.State × Option Third.State} b
          (Third.animating n, some Third.idle)
          (Third.animating n, some (Third.animating n))).1
        as (λ x. Third.State) [ none ↦ Third.animating m | some new_state ↦ new_state ])
      ≡ (if b then Third.idle else Third.animating n)
third_answer true m n = refl
third_answer false m n = refl

third_update :
    (n : ℕ)
    → Third.third.send update (Third.animating n)
      ≡ (let n' = (n + 1) % 2 ^ 32 in if leb 42 n' then Third.idle else Third.animating n')
unfolding Third.third
third_update n = third_answer (leb 42 ((n + 1) % 2 ^ 32)) n _

third_send_phase :
    (e : Event) (s : Third.State)
    → ThirdInv s
    → third_phase (Third.third.send e s) ≡ animate 42 e (third_phase s)
unfolding animate Third.third
third_send_phase play Third.idle h = refl
third_send_phase play (Third.paused n) h = refl
third_send_phase play (Third.animating n) h = refl
third_send_phase pause Third.idle h = refl
third_send_phase pause (Third.paused n) h = refl
third_send_phase pause (Third.animating n) h = refl
third_send_phase stop Third.idle h = refl
third_send_phase stop (Third.paused n) h = refl
third_send_phase stop (Third.animating n) h = refl
third_send_phase update Third.idle h = refl
third_send_phase update (Third.paused n) h = refl
third_send_phase update (Third.animating n) h =
    ap third_phase (third_update n)
    ∙ rw (unwrapped 42 n (omega arith) h) (if_ap third_phase (leb 42 (n + 1)) _ _)

send-ThirdInv : (e : Event) (s : Third.State) → ThirdInv s → ThirdInv (Third.third.send e s)
unfolding Third.third
send-ThirdInv play Third.idle h = omega arith
send-ThirdInv play (Third.paused n) h = h
send-ThirdInv play (Third.animating n) h = h
send-ThirdInv pause Third.idle h = h
send-ThirdInv pause (Third.paused n) h = h
send-ThirdInv pause (Third.animating n) h = h
send-ThirdInv stop Third.idle h = h
send-ThirdInv stop (Third.paused n) h = omega arith
send-ThirdInv stop (Third.animating n) h = omega arith
send-ThirdInv update Third.idle h = h
send-ThirdInv update (Third.paused n) h = h
send-ThirdInv update (Third.animating n) h = elim (Bool-cases (leb 42 ((n + 1) % 2 ^ 32))) [
  | inl e ↦ rw (third_update n, e) (omega arith)
  | inr e ↦ rw (third_update n, e) (ground arith)
]

third_count_phase :
    (s : Third.State) → ThirdInv s → Third.third.current_count s ≡ count_of (third_phase s)
unfolding Third.third
third_count_phase Third.idle h = refl
third_count_phase (Third.paused n) h = refl
third_count_phase (Third.animating n) h = refl

pub third-Animates : Animates 42 Third.third
unfolding Third.third
third-Animates = record {
  Inv = ThirdInv;
  phase = third_phase;
  initial_Inv = omega arith;
  initial_phase = refl;
  send_Inv = send-ThirdInv;
  send_phase = third_send_phase;
  count_phase = third_count_phase;
}

abbrev pub fourth_phase : Fourth.State → Phase
fourth_phase Fourth.idle = idle
fourth_phase (Fourth.paused n) = paused n
fourth_phase (Fourth.animating n) = animating n
fourth_phase Fourth.monostate = idle

-- never the empty alternative, and below the limit
abbrev pub FourthInv : Fourth.State → Type 0
FourthInv Fourth.monostate = ⊥
FourthInv Fourth.idle = Unit
FourthInv (Fourth.paused n) = n < 42
FourthInv (Fourth.animating n) = n < 42

fourth_answer :
    (b : Bool) (m n : ℕ)
    → (elim (if◌then◌else◌ {A = Fourth.State × Fourth.State} b
          (Fourth.animating n, Fourth.idle)
          (Fourth.animating n, Fourth.animating n)).1
        as (λ x. Fourth.State) [ Fourth.monostate ↦ Fourth.animating m | new_state ↦ new_state ])
      ≡ (if b then Fourth.idle else Fourth.animating n)
fourth_answer true m n = refl
fourth_answer false m n = refl

fourth_update :
    (n : ℕ)
    → Fourth.fourth.send update (Fourth.animating n)
      ≡ (let n' = (n + 1) % 2 ^ 32 in if leb 42 n' then Fourth.idle else Fourth.animating n')
unfolding Fourth.fourth
fourth_update n = fourth_answer (leb 42 ((n + 1) % 2 ^ 32)) n _

fourth_send_phase :
    (e : Event) (s : Fourth.State)
    → FourthInv s
    → fourth_phase (Fourth.fourth.send e s) ≡ animate 42 e (fourth_phase s)
unfolding animate Fourth.fourth
fourth_send_phase play Fourth.idle h = refl
fourth_send_phase play (Fourth.paused n) h = refl
fourth_send_phase play (Fourth.animating n) h = refl
fourth_send_phase pause Fourth.idle h = refl
fourth_send_phase pause (Fourth.paused n) h = refl
fourth_send_phase pause (Fourth.animating n) h = refl
fourth_send_phase stop Fourth.idle h = refl
fourth_send_phase stop (Fourth.paused n) h = refl
fourth_send_phase stop (Fourth.animating n) h = refl
fourth_send_phase update Fourth.idle h = refl
fourth_send_phase update (Fourth.paused n) h = refl
fourth_send_phase update (Fourth.animating n) h =
    ap fourth_phase (fourth_update n)
    ∙ rw (unwrapped 42 n (omega arith) h) (if_ap fourth_phase (leb 42 (n + 1)) _ _)
fourth_send_phase e Fourth.monostate h = absurd h

pub send-FourthInv :
    (e : Event) (s : Fourth.State) → FourthInv s → FourthInv (Fourth.fourth.send e s)
unfolding Fourth.fourth
send-FourthInv play Fourth.idle h = omega arith
send-FourthInv play (Fourth.paused n) h = h
send-FourthInv play (Fourth.animating n) h = h
send-FourthInv pause Fourth.idle h = h
send-FourthInv pause (Fourth.paused n) h = h
send-FourthInv pause (Fourth.animating n) h = h
send-FourthInv stop Fourth.idle h = tt
send-FourthInv stop (Fourth.paused n) h = tt
send-FourthInv stop (Fourth.animating n) h = tt
send-FourthInv update Fourth.idle h = h
send-FourthInv update (Fourth.paused n) h = h
send-FourthInv update (Fourth.animating n) h = elim (Bool-cases (leb 42 ((n + 1) % 2 ^ 32))) [
  | inl e ↦ rw (fourth_update n, e) tt
  | inr e ↦ rw (fourth_update n, e) (ground arith)
]
send-FourthInv e Fourth.monostate h = absurd h

fourth_count_phase :
    (s : Fourth.State) → FourthInv s → Fourth.fourth.current_count s ≡ count_of (fourth_phase s)
unfolding Fourth.fourth
fourth_count_phase Fourth.idle h = refl
fourth_count_phase (Fourth.paused n) h = refl
fourth_count_phase (Fourth.animating n) h = refl
fourth_count_phase Fourth.monostate h = absurd h

pub fourth-Animates : Animates 42 Fourth.fourth
unfolding Fourth.fourth
fourth-Animates = record {
  Inv = FourthInv;
  phase = fourth_phase;
  initial_Inv = tt;
  initial_phase = refl;
  send_Inv = send-FourthInv;
  send_phase = fourth_send_phase;
  count_phase = fourth_count_phase;
}
