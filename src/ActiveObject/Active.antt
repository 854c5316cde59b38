-- ===== src/ActiveObject/Active.antt =====
-- `threadsafe_queue` and `Active` of threadsafe_queue.h, active.h and active.cpp. Every member of the
-- queue holds the mutex from its first line to its last access, so it is one step; between the steps
-- the sending threads, the active thread and the owner interleave in any order.
use always_be_learning.Common.{Bool, true, false, Option, none, some, List, [], ◌∷◌, ◌++◌}

-- a message of a client, or the callback that the destructor sends
pub data Callback (A : Type 0) : Type 0 where
  task : A → Callback A
  do_done : Callback A

-- the active thread: at the test of the loop, in `wait_and_pop`, in a callback, behind `run`
pub data Worker (A : Type 0) : Type 0 where
  testing waiting ended : Worker A
  executing : Callback A → Worker A

-- the owner: before the destructor, in `thread_.join()`, behind the destructor
pub data Owner : Type 0 where
  alive joining destroyed : Owner

-- `queue_`, `done_`, the threads, the messages that were executed, those that were sent before the
-- destructor began, and those that were sent since
pub record Active (A : Type 0) : Type 0 where
  pub queue : List (Callback A)
  pub done : Bool
  pub worker : Worker A
  pub owner : Owner
  pub executed : List A
  pub sent : List A
  pub late : List A

pub data Action (A : Type 0) : Type 0 where
  send : A → Action A
  destroy test pop execute join : Action A

module _ {A : Type 0} where
  unfoldable pub push : Callback A → List (Callback A) → List (Callback A)
  push value queue = queue ++ value ∷ []

  -- `wait_and_pop` goes on when the queue is not empty
  unfoldable pub wait_and_pop : List (Callback A) → Option (Callback A × List (Callback A))
  wait_and_pop [] = none
  wait_and_pop (value ∷ queue) = some (value, queue)

  -- `send` tests nothing, so it also goes on while the destructor waits
  unfoldable pub send_step : Owner → A → Active A → Option (Active A)
  unfolding push
  send_step alive msg s =
      some (record s { queue = push (task msg) s.queue; sent = s.sent ++ msg ∷ [] })
  send_step joining msg s =
      some (record s { queue = push (task msg) s.queue; late = s.late ++ msg ∷ [] })
  send_step destroyed msg s = none

  -- the destructor up to `join`
  unfoldable pub destroy_step : Owner → Active A → Option (Active A)
  unfolding push
  destroy_step alive s =
      some (record s { queue = push do_done s.queue; owner = joining; late = [] })
  destroy_step _ s = none

  -- `while (!done_)`
  unfoldable pub test_step : Worker A → Bool → Active A → Option (Active A)
  test_step testing false s = some (record s { worker = waiting })
  test_step testing true s = some (record s { worker = ended })
  test_step _ _ s = none

  unfoldable pub pop_step : Worker A → Active A → Option (Active A)
  unfolding wait_and_pop
  pop_step waiting s = elim (wait_and_pop s.queue) [
    | none ↦ none
    | some r ↦ some (record s { worker = executing r.0; queue = r.1 })
  ]
  pop_step _ s = none

  -- `cb()`
  unfoldable pub execute_step : Worker A → Active A → Option (Active A)
  execute_step (executing (task msg)) s =
      some (record s { worker = testing; executed = s.executed ++ msg ∷ [] })
  execute_step (executing do_done) s = some (record s { worker = testing; done = true })
  execute_step _ s = none

  -- `thread_.join()` returns when `run` has
  unfoldable pub join_step : Owner → Worker A → Active A → Option (Active A)
  join_step joining ended s = some (record s { owner = destroyed })
  join_step _ _ s = none

  -- one action, where it is possible
  unfoldable pub step : Action A → Active A → Option (Active A)
  unfolding send_step destroy_step test_step pop_step execute_step join_step
  step (send msg) s = send_step s.owner msg s
  step destroy s = destroy_step s.owner s
  step test s = test_step s.worker s.done s
  step pop s = pop_step s.worker s
  step execute s = execute_step s.worker s
  step join s = join_step s.owner s.worker s

  abbrev pub then_steps : Option (Active A) → (Active A → Option (Active A)) → Option (Active A)
  then_steps none k = none
  then_steps (some s) k = k s

  -- an interleaving
  unfoldable pub steps : List (Action A) → Active A → Option (Active A)
  unfolding step
  steps [] s = some s
  steps (a ∷ actions) s = then_steps (step a s) (steps actions)

  -- `Active::create`
  abbrev pub create : Active A
  create = record {
    queue = [];
    done = false;
    worker = testing;
    owner = alive;
    executed = [];
    sent = [];
    late = [];
  }
