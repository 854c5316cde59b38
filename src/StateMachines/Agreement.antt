-- ===== src/StateMachines/Agreement.antt =====
-- State_machines: what follows for every machine that is the animation, and the machines side by side.
use always_be_learning.Common.{
  ℕ, ◌+◌, ◌<◌, arith, Bool-cases, ◌≡◌, refl, sym, ap, ◌∙◌, inl, inr, List, [], ◌∷◌, leb,
}
use always_be_learning.StateMachines.Machine.{
  Event, Phase, play, pause, stop, update, idle, paused, animating, count_of, animate, animate_all,
  send_events, Machine, Animates,
}
use always_be_learning.StateMachines.Naive.{naive}
use always_be_learning.StateMachines.FirstHack.{first_hack}
use always_be_learning.StateMachines.Second.{second}
use always_be_learning.StateMachines.Third.{third}
use always_be_learning.StateMachines.Fourth
use always_be_learning.StateMachines.Tiny.{tiny}
use always_be_learning.StateMachines.Static.{static_machine}
use always_be_learning.StateMachines.Visited.{first_hack-Animates, second-Animates}
use always_be_learning.StateMachines.Dispatched.{third-Animates, fourth-Animates}
use always_be_learning.StateMachines.Naively.{naive-Animates, tiny-Animates}
use always_be_learning.StateMachines.Statically.{static_machine-Animates}

-- the count that a machine shows after these events
abbrev pub final_count {ℓ} : {S : Type ℓ} → Machine S → List Event → ℕ
final_count machine events = machine.current_count (send_events machine events machine.initial)

animate-count :
    (limit : ℕ) (e : Event) (p : Phase) → count_of p < limit → count_of (animate limit e p) < limit
unfolding animate
animate-count limit play idle h = omega arith
animate-count limit play (paused n) h = h
animate-count limit play (animating n) h = h
animate-count limit pause idle h = h
animate-count limit pause (paused n) h = h
animate-count limit pause (animating n) h = h
animate-count limit stop p h = omega arith
animate-count limit update idle h = h
animate-count limit update (paused n) h = h
animate-count limit update (animating n) h = elim (Bool-cases (leb limit (n + 1))) [
  | inl e ↦ rw (animate, e) (omega arith)
  | inr e ↦ rw (animate, e) (ground arith)
]

animate_all-count :
    (limit : ℕ) (events : List Event) (p : Phase)
    → count_of p < limit
    → count_of (animate_all limit events p) < limit
unfolding animate_all
animate_all-count limit [] p h = h
animate_all-count limit (e ∷ events) p h =
    animate_all-count limit events (animate limit e p) (animate-count limit e p h)

module _ {ℓ} {S : Type ℓ} {limit : ℕ} {machine : Machine S} (laws : Animates limit machine) where
  send_events-Inv :
      (events : List Event) (s : S) → laws.Inv s → laws.Inv (send_events machine events s)
  unfolding send_events
  send_events-Inv [] s h = h
  send_events-Inv (e ∷ events) s h = send_events-Inv events (machine.send e s) (laws.send_Inv e s h)

  send_events-animate_all :
      (events : List Event) (s : S)
      → laws.Inv s
      → laws.phase (send_events machine events s) ≡ animate_all limit events (laws.phase s)
  unfolding send_events animate_all
  send_events-animate_all [] s h = refl
  send_events-animate_all (e ∷ events) s h =
      send_events-animate_all events (machine.send e s) (laws.send_Inv e s h)
      ∙ ap (animate_all limit events) (laws.send_phase e s h)

  pub final_count-animate_all :
      (events : List Event) → final_count machine events ≡ count_of (animate_all limit events idle)
  final_count-animate_all events =
      laws.count_phase _ (send_events-Inv events machine.initial laws.initial_Inv)
      ∙ ap count_of (
          send_events-animate_all events machine.initial laws.initial_Inv
          ∙ ap (animate_all limit events) laws.initial_phase)

  final_count-below : (events : List Event) → 0 < limit → final_count machine events < limit
  final_count-below events h =
      rw (final_count-animate_all events) (animate_all-count limit events idle h)

counts_agree {ℓ κ} :
    {S : Type ℓ} {T : Type κ} {limit : ℕ} {m : Machine S} {m' : Machine T}
    → Animates limit m
    → Animates limit m'
    → (events : List Event) → final_count m events ≡ final_count m' events
counts_agree laws laws' events =
    final_count-animate_all laws events ∙ sym (final_count-animate_all laws' events)

-- After any events, each of the seven machines shows a count below its limit, which is 144 for the
-- switch and the first two variants and 42 for the others.
pub counts_below_limit :
    (events : List Event)
    → (final_count naive events < 144)
      × (final_count first_hack events < 144)
      × (final_count second events < 144)
      × (final_count third events < 42)
      × (final_count Fourth.fourth events < 42)
      × (final_count tiny events < 42)
      × (final_count static_machine events < 42)
counts_below_limit events = (
  final_count-below naive-Animates events (omega arith),
  final_count-below first_hack-Animates events (omega arith),
  final_count-below second-Animates events (omega arith),
  final_count-below third-Animates events (omega arith),
  final_count-below fourth-Animates events (omega arith),
  final_count-below tiny-Animates events (omega arith),
  final_count-below static_machine-Animates events (omega arith),
)

-- The switch, the visited variant and the matched variant show the same count after any events.
pub visited_machines_agree :
    (events : List Event)
    → (final_count naive events ≡ final_count first_hack events)
      × (final_count first_hack events ≡ final_count second events)
visited_machines_agree events = (
  counts_agree naive-Animates first_hack-Animates events,
  counts_agree first_hack-Animates second-Animates events,
)

-- The two machines that dispatch to a copy, the machine of state objects and the machine over a
-- static table show the same count after any events.
pub dispatched_machines_agree :
    (events : List Event)
    → (final_count third events ≡ final_count Fourth.fourth events)
      × (final_count Fourth.fourth events ≡ final_count tiny events)
      × (final_count tiny events ≡ final_count static_machine events)
dispatched_machines_agree events = (
  counts_agree third-Animates fourth-Animates events,
  counts_agree fourth-Animates tiny-Animates events,
  counts_agree tiny-Animates static_machine-Animates events,
)
