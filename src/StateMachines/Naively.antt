-- ===== src/StateMachines/Naively.antt =====
-- State_machines/naive_fsm/fist.cpp and tiny_fsm/first.cpp: the machines with one counter are the
-- animation.
use always_be_learning.Common.{
  ℕ, ◌+◌, ◌<◌, ◌%◌, ◌^◌, arith, Bool-cases, ◌≡◌, refl, ap, ◌∙◌, inl, inr, leb, if◌then◌else◌,
}
use always_be_learning.StateMachines.Machine.{
  Event, Phase, play, pause, stop, update, idle, paused, animating, count_of, animate, Animates,
}
use always_be_learning.StateMachines.Count.{unwrapped, if_ap}
use always_be_learning.StateMachines.Naive
use always_be_learning.StateMachines.Tiny

abbrev naive_at : Naive.State → ℕ → Naive.Animation
naive_at s n = record { state = s; counter = n }

abbrev pub naive_phase : Naive.State → ℕ → Phase
naive_phase Naive.idle n = idle
naive_phase Naive.paused n = paused n
naive_phase Naive.animating n = animating n

-- the counter is reset in the idle state, and below the limit in the others
abbrev pub NaiveInv : Naive.State → ℕ → Type 0
NaiveInv Naive.idle n = n ≡ 0
NaiveInv Naive.paused n = n < 144
NaiveInv Naive.animating n = n < 144

naive_update :
    (n : ℕ)
    → Naive.naive.send update (naive_at Naive.animating n) ≡ (
        let n' = (n + 1) % 2 ^ 32 in
        if leb 144 n' then naive_at Naive.idle 0 else naive_at Naive.animating n')
unfolding Naive.naive
naive_update n = refl

abbrev naive_phase_of : Naive.Animation → Phase
naive_phase_of a = naive_phase a.state a.counter

abbrev NaiveInvOf : Naive.Animation → Type 0
NaiveInvOf a = NaiveInv a.state a.counter

naive_send_phase :
    (e : Event) (s : Naive.State) (n : ℕ)
    → NaiveInv s n
    → naive_phase_of (Naive.naive.send e (naive_at s n)) ≡ animate 144 e (naive_phase s n)
unfolding animate Naive.naive
naive_send_phase play Naive.idle n h = ap animating h
naive_send_phase play Naive.paused n h = refl
naive_send_phase play Naive.animating n h = refl
naive_send_phase pause Naive.idle n h = refl
naive_send_phase pause Naive.paused n h = refl
naive_send_phase pause Naive.animating n h = refl
naive_send_phase stop Naive.idle n h = refl
naive_send_phase stop Naive.paused n h = refl
naive_send_phase stop Naive.animating n h = refl
naive_send_phase update Naive.idle n h = refl
naive_send_phase update Naive.paused n h = refl
naive_send_phase update Naive.animating n h =
    ap naive_phase_of (naive_update n)
    ∙ rw (unwrapped 144 n (omega arith) h) (if_ap naive_phase_of (leb 144 (n + 1)) _ _)

send-NaiveInv :
    (e : Event) (s : Naive.State) (n : ℕ)
    → NaiveInv s n
    → NaiveInvOf (Naive.naive.send e (naive_at s n))
unfolding Naive.naive
send-NaiveInv play Naive.idle n h = omega arith
send-NaiveInv play Naive.paused n h = h
send-NaiveInv play Naive.animating n h = h
send-NaiveInv pause Naive.idle n h = h
send-NaiveInv pause Naive.paused n h = h
send-NaiveInv pause Naive.animating n h = h
send-NaiveInv stop Naive.idle n h = refl
send-NaiveInv stop Naive.paused n h = refl
send-NaiveInv stop Naive.animating n h = refl
send-NaiveInv update Naive.idle n h = h
send-NaiveInv update Naive.paused n h = h
send-NaiveInv update Naive.animating n h = elim (Bool-cases (leb 144 ((n + 1) % 2 ^ 32))) [
  | inl e ↦ rw (naive_update n, e) refl
  | inr e ↦ rw (naive_update n, e) (ground arith)
]

naive_count :
    (s : Naive.State) (n : ℕ)
    → NaiveInv s n
    → Naive.naive.current_count (naive_at s n) ≡ count_of (naive_phase s n)
unfolding Naive.naive
naive_count Naive.idle n h = refl
naive_count Naive.paused n h = refl
naive_count Naive.animating n h = refl

pub naive-Animates : Animates 144 Naive.naive
unfolding Naive.naive
naive-Animates = record {
  Inv = NaiveInvOf;
  phase = naive_phase_of;
  initial_Inv = refl;
  initial_phase = refl;
  send_Inv = λ e a. send-NaiveInv e a.state a.counter;
  send_phase = λ e a. naive_send_phase e a.state a.counter;
  count_phase = λ a. naive_count a.state a.counter;
}

abbrev tiny_at : Tiny.State → ℕ → Tiny.Animation
tiny_at s n = record { current_state = s; counter = n }

abbrev pub tiny_phase : Tiny.State → ℕ → Phase
tiny_phase Tiny.idle n = idle
tiny_phase Tiny.paused n = paused n
tiny_phase Tiny.animating n = animating n

-- the counter is reset in the idle state, and below the limit in the others
abbrev pub TinyInv : Tiny.State → ℕ → Type 0
TinyInv Tiny.idle n = n ≡ 0
TinyInv Tiny.paused n = n < 42
TinyInv Tiny.animating n = n < 42

tiny_update :
    (n : ℕ)
    → Tiny.tiny.send update (tiny_at Tiny.animating n) ≡ (
        let n' = (n + 1) % 2 ^ 32 in
        if leb 42 n' then tiny_at Tiny.idle 0 else tiny_at Tiny.animating n')
unfolding Tiny.tiny
tiny_update n = refl

abbrev tiny_phase_of : Tiny.Animation → Phase
tiny_phase_of a = tiny_phase a.current_state a.counter

abbrev TinyInvOf : Tiny.Animation → Type 0
TinyInvOf a = TinyInv a.current_state a.counter

tiny_send_phase :
    (e : Event) (s : Tiny.State) (n : ℕ)
    → TinyInv s n
    → tiny_phase_of (Tiny.tiny.send e (tiny_at s n)) ≡ animate 42 e (tiny_phase s n)
unfolding animate Tiny.tiny
tiny_send_phase play Tiny.idle n h = ap animating h
tiny_send_phase play Tiny.paused n h = refl
tiny_send_phase play Tiny.animating n h = refl
tiny_send_phase pause Tiny.idle n h = refl
tiny_send_phase pause Tiny.paused n h = refl
tiny_send_phase pause Tiny.animating n h = refl
tiny_send_phase stop Tiny.idle n h = refl
tiny_send_phase stop Tiny.paused n h = refl
tiny_send_phase stop Tiny.animating n h = refl
tiny_send_phase update Tiny.idle n h = refl
tiny_send_phase update Tiny.paused n h = refl
tiny_send_phase update Tiny.animating n h =
    ap tiny_phase_of (tiny_update n)
    ∙ rw (unwrapped 42 n (omega arith) h) (if_ap tiny_phase_of (leb 42 (n + 1)) _ _)

send-TinyInv :
    (e : Event) (s : Tiny.State) (n : ℕ) → TinyInv s n → TinyInvOf (Tiny.tiny.send e (tiny_at s n))
unfolding Tiny.tiny
send-TinyInv play Tiny.idle n h = omega arith
send-TinyInv play Tiny.paused n h = h
send-TinyInv play Tiny.animating n h = h
send-TinyInv pause Tiny.idle n h = h
send-TinyInv pause Tiny.paused n h = h
send-TinyInv pause Tiny.animating n h = h
send-TinyInv stop Tiny.idle n h = h
send-TinyInv stop Tiny.paused n h = refl
send-TinyInv stop Tiny.animating n h = refl
send-TinyInv update Tiny.idle n h = h
send-TinyInv update Tiny.paused n h = h
send-TinyInv update Tiny.animating n h = elim (Bool-cases (leb 42 ((n + 1) % 2 ^ 32))) [
  | inl e ↦ rw (tiny_update n, e) refl
  | inr e ↦ rw (tiny_update n, e) (ground arith)
]

tiny_count :
    (s : Tiny.State) (n : ℕ)
    → TinyInv s n
    → Tiny.tiny.current_count (tiny_at s n) ≡ count_of (tiny_phase s n)
unfolding Tiny.tiny
tiny_count Tiny.idle n h = h
tiny_count Tiny.paused n h = refl
tiny_count Tiny.animating n h = refl

pub tiny-Animates : Animates 42 Tiny.tiny
unfolding Tiny.tiny
tiny-Animates = record {
  Inv = TinyInvOf;
  phase = tiny_phase_of;
  initial_Inv = refl;
  initial_phase = refl;
  send_Inv = λ e a. send-TinyInv e a.current_state a.counter;
  send_phase = λ e a. tiny_send_phase e a.current_state a.counter;
  count_phase = λ a. tiny_count a.current_state a.counter;
}
