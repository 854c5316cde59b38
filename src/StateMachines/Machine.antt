-- ===== src/StateMachines/Machine.antt =====
-- State_machines: what the designs of the animation have in common, as an interface, and the
-- animation that each of them is to be.
use always_be_learning.Common.{ℕ, ◌+◌, ◌≡◌, leb, List, [], ◌∷◌, if◌then◌else◌}

pub data Event : Type 0 where
  play pause stop update : Event

-- Idle, or paused or animating at a count.
pub data Phase : Type 0 where
  idle : Phase
  paused animating : ℕ → Phase

abbrev pub count_of : Phase → ℕ
count_of idle = 0
count_of (paused n) = n
count_of (animating n) = n

-- The animation: it ends when it has counted to the limit.
unfoldable pub animate : ℕ → Event → Phase → Phase
animate limit play idle = animating 0
animate limit play (paused n) = animating n
animate limit pause (animating n) = paused n
animate limit stop phase = idle
animate limit update (animating n) = if leb limit (n + 1) then idle else animating (n + 1)
animate limit _ phase = phase

pub record Machine {ℓ} (S : Type ℓ) : Type ℓ where
  pub initial : S
  pub send : Event → S → S
  pub current_count : S → ℕ

unfoldable pub send_events {ℓ} : {S : Type ℓ} → Machine S → List Event → S → S
send_events machine [] s = s
send_events machine (e ∷ events) s = send_events machine events (machine.send e s)

unfoldable pub animate_all : ℕ → List Event → Phase → Phase
unfolding animate
animate_all limit [] phase = phase
animate_all limit (e ∷ events) phase = animate_all limit events (animate limit e phase)

-- The laws of a machine that is the animation, with an invariant of its states.
pub record Animates {ℓ} {S : Type ℓ} (limit : ℕ) (machine : Machine S) : Type (ℓ + 1) where
  pub Inv : S → Type 0
  pub phase : S → Phase
  pub initial_Inv : Inv machine.initial
  pub initial_phase : phase machine.initial ≡ idle
  pub send_Inv : (e : Event) (s : S) → Inv s → Inv (machine.send e s)
  pub send_phase :
      (e : Event) (s : S) → Inv s → phase (machine.send e s) ≡ animate limit e (phase s)
  pub count_phase : (s : S) → Inv s → machine.current_count s ≡ count_of (phase s)
