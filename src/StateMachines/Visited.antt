-- ===== src/StateMachines/Visited.antt =====
-- State_machines/variant_fsm: the machines that assign the variant are the animation.
use always_be_learning.Common.{◌+◌, ◌<◌, ◌%◌, ◌^◌, arith, Bool-cases, ◌≡◌, refl, inl, inr, leb}
use always_be_learning.StateMachines.Machine.{
  Event, Phase, play, pause, stop, update, idle, paused, animating, count_of, animate, Animates,
}
use always_be_learning.StateMachines.Count.{unwrapped, if_ap}
use always_be_learning.StateMachines.FirstHack
use always_be_learning.StateMachines.Second

abbrev pub first_phase : FirstHack.State → Phase
first_phase FirstHack.idle = idle
first_phase (FirstHack.paused n) = paused n
first_phase (FirstHack.animating n) = animating n

abbrev pub FirstInv : FirstHack.State → Type 0
FirstInv s = FirstHack.current_count s < 144

first_send_phase :
    (e : Event) (s : FirstHack.State)
    → FirstInv s
    → first_phase (FirstHack.first_hack.send e s) ≡ animate 144 e (first_phase s)
unfolding animate FirstHack.first_hack
first_send_phase play FirstHack.idle h = refl
first_send_phase play (FirstHack.paused n) h = refl
first_send_phase play (FirstHack.animating n) h = refl
first_send_phase pause FirstHack.idle h = refl
first_send_phase pause (FirstHack.paused n) h = refl
first_send_phase pause (FirstHack.animating n) h = refl
first_send_phase stop FirstHack.idle h = refl
first_send_phase stop (FirstHack.paused n) h = refl
first_send_phase stop (FirstHack.animating n) h = refl
first_send_phase update FirstHack.idle h = refl
first_send_phase update (FirstHack.paused n) h = refl
first_send_phase update (FirstHack.animating n) h =
    rw (unwrapped 144 n (omega arith) h) (if_ap first_phase (leb 144 (n + 1)) _ _)

send-FirstInv :
    (e : Event) (s : FirstHack.State) → FirstInv s → FirstInv (FirstHack.first_hack.send e s)
unfolding FirstHack.first_hack
send-FirstInv play FirstHack.idle h = omega arith
send-FirstInv play (FirstHack.paused n) h = h
send-FirstInv play (FirstHack.animating n) h = h
send-FirstInv pause FirstHack.idle h = h
send-FirstInv pause (FirstHack.paused n) h = h
send-FirstInv pause (FirstHack.animating n) h = h
send-FirstInv stop FirstHack.idle h = h
send-FirstInv stop (FirstHack.paused n) h = omega arith
send-FirstInv stop (FirstHack.animating n) h = omega arith
send-FirstInv update FirstHack.idle h = h
send-FirstInv update (FirstHack.paused n) h = h
send-FirstInv update (FirstHack.animating n) h = elim (Bool-cases (leb 144 ((n + 1) % 2 ^ 32))) [
  | inl e ↦ rw (e) (omega arith)
  | inr e ↦ rw (e) (ground arith)
]

first_count_phase :
    (s : FirstHack.State)
    → FirstInv s
    → FirstHack.first_hack.current_count s ≡ count_of (first_phase s)
unfolding FirstHack.first_hack
first_count_phase FirstHack.idle h = refl
first_count_phase (FirstHack.paused n) h = refl
first_count_phase (FirstHack.animating n) h = refl

pub first_hack-Animates : Animates 144 FirstHack.first_hack
unfolding FirstHack.first_hack
first_hack-Animates = record {
  Inv = FirstInv;
  phase = first_phase;
  initial_Inv = omega arith;
  initial_phase = refl;
  send_Inv = send-FirstInv;
  send_phase = first_send_phase;
  count_phase = first_count_phase;
}

abbrev pub second_phase : Second.State → Phase
second_phase Second.idle = idle
second_phase (Second.paused n) = paused n
second_phase (Second.animating n) = animating n

abbrev pub SecondInv : Second.State → Type 0
SecondInv s = Second.current_count s < 144

second_send_phase :
    (e : Event) (s : Second.State)
    → SecondInv s
    → second_phase (Second.second.send e s) ≡ animate 144 e (second_phase s)
unfolding animate Second.second
second_send_phase play Second.idle h = refl
second_send_phase play (Second.paused n) h = refl
second_send_phase play (Second.animating n) h = refl
second_send_phase pause Second.idle h = refl
second_send_phase pause (Second.paused n) h = refl
second_send_phase pause (Second.animating n) h = refl
second_send_phase stop Second.idle h = refl
second_send_phase stop (Second.paused n) h = refl
second_send_phase stop (Second.animating n) h = refl
second_send_phase update Second.idle h = refl
second_send_phase update (Second.paused n) h = refl
second_send_phase update (Second.animating n) h =
    rw (unwrapped 144 n (omega arith) h) (if_ap second_phase (leb 144 (n + 1)) _ _)

send-SecondInv : (e : Event) (s : Second.State) → SecondInv s → SecondInv (Second.second.send e s)
unfolding Second.second
send-SecondInv play Second.idle h = omega arith
send-SecondInv play (Second.paused n) h = h
send-SecondInv play (Second.animating n) h = h
send-SecondInv pause Second.idle h = h
send-SecondInv pause (Second.paused n) h = h
send-SecondInv pause (Second.animating n) h = h
send-SecondInv stop Second.idle h = h
send-SecondInv stop (Second.paused n) h = omega arith
send-SecondInv stop (Second.animating n) h = omega arith
send-SecondInv update Second.idle h = h
send-SecondInv update (Second.paused n) h = h
send-SecondInv update (Second.animating n) h = elim (Bool-cases (leb 144 ((n + 1) % 2 ^ 32))) [
  | inl e ↦ rw (e) (omega arith)
  | inr e ↦ rw (e) (ground arith)
]

second_count_phase :
    (s : Second.State) → SecondInv s → Second.second.current_count s ≡ count_of (second_phase s)
unfolding Second.second
second_count_phase Second.idle h = refl
second_count_phase (Second.paused n) h = refl
second_count_phase (Second.animating n) h = refl

pub second-Animates : Animates 144 Second.second
unfolding Second.second
second-Animates = record {
  Inv = SecondInv;
  phase = second_phase;
  initial_Inv = omega arith;
  initial_phase = refl;
  send_Inv = send-SecondInv;
  send_phase = second_send_phase;
  count_phase = second_count_phase;
}
