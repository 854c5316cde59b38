-- ===== src/StateMachines/Ending.antt =====
-- State_machines/static_fsm/first: the updates of the machine over the table, up to the end of the
-- animation.
use always_be_learning.Common.{
  ℕ, zero, suc, ◌+◌, ◌<◌, arith, ◌≡◌, refl, ap, ◌∙◌, false, leb, some, replicate,
}
use always_be_learning.StateMachines.Machine.{update}
use always_be_learning.StateMachines.Count.{unwrapped}
use always_be_learning.StateMachines.Static.{
  static_machine, animation, dispatch_event, send_all, counter_limit,
}
use always_be_learning.StateMachines.Statically.{static_at, static_update, dispatch_event_defined}

-- one update below the limit counts
update_counts :
    (n : ℕ)
    → n + 1 < 42
    → dispatch_event animation update (static_at 0 n) ≡ some (static_at 0 (n + 1))
update_counts n h =
    let small : n < 42 = omega arith in
    let goes_on : leb 42 (n + 1) ≡ false = ground arith in
    dispatch_event_defined update 0 n small
    ∙ ap some (static_update n ∙ rw (unwrapped 42 n (omega arith) small, goes_on) refl)

-- the update that reaches the limit ends the animation
update_ends : dispatch_event animation update (static_at 0 41) ≡ some (static_at 2 0)
update_ends = dispatch_event_defined update 0 41 (omega arith) ∙ ap some (static_update 41)

updates_count :
    (left n : ℕ)
    → n + left < 42
    → send_all (replicate left update) (static_at 0 n) ≡ some (static_at 0 (n + left))
unfolding send_all replicate
updates_count zero n h = ap (λ c. some (static_at 0 c)) (omega arith)
updates_count (suc left) n h =
    let shift : n + 1 + left ≡ n + suc left = omega arith in
    rw (send_all, update_counts n (omega arith))
      (updates_count left (n + 1) (omega arith) ∙ ap (λ c. some (static_at 0 c)) shift)

updates_reach_idle :
    (left n : ℕ)
    → n + left + 1 ≡ 42
    → send_all (replicate (suc left) update) (static_at 0 n) ≡ some (static_at 2 0)
unfolding send_all replicate
updates_reach_idle zero n h = let last : n ≡ 41 = omega arith in rw (last, update_ends) refl
updates_reach_idle (suc left) n h =
    rw (send_all, update_counts n (omega arith)) (updates_reach_idle left (n + 1) (omega arith))

-- From the animating state at a count below the limit, the machine over the table animates and counts
-- every update up to one below the limit, and with the next update it is idle at the count zero, as it
-- was at its start.
pub updates_end :
    (n left : ℕ)
    → n + left + 1 ≡ counter_limit
    → (send_all (replicate left update) (static_at 0 n) ≡ some (static_at 0 (n + left)))
      × (send_all (replicate (suc left) update) (static_at 0 n) ≡ some static_machine.initial)
unfolding static_machine
updates_end n left h = (updates_count left n (omega arith), updates_reach_idle left n h)
