-- ===== src/ActiveObject/Queue.antt =====
-- Patterns/Active_object/threadsafe_queue.h: what the queue has beside `push` and `wait_and_pop`. The
-- lock makes each of them one step.
use always_be_learning.Common.{
  Bool, true, false, ◌≡◌, refl, Option, none, some, List, [], ◌∷◌, if◌then◌else◌,
}
use always_be_learning.ActiveObject.Active.{Callback, push, wait_and_pop}

module _ {A : Type 0} where
  -- whether there was a value, the value, and the queue
  unfoldable pub try_pop : List (Callback A) → Bool × Option (Callback A) × List (Callback A)
  try_pop [] = (false, none, [])
  try_pop (value ∷ queue) = (true, some value, queue)

  abbrev pub empty : List (Callback A) → Bool
  empty [] = true
  empty (value ∷ queue) = false

  -- `same` is `this == &other`; both queues, this one first
  unfoldable pub copy_assign :
      Bool → List (Callback A) → List (Callback A) → List (Callback A) × List (Callback A)
  copy_assign same queue other = if same then (queue, other) else (other, other)

  -- the move assignment copies as well
  unfoldable pub move_assign :
      Bool → List (Callback A) → List (Callback A) → List (Callback A) × List (Callback A)
  move_assign same queue other = if same then (queue, other) else (other, other)

  -- the move constructor leaves the other queue empty
  abbrev pub move_construct : List (Callback A) → List (Callback A) × List (Callback A)
  move_construct other = (other, [])

  unfoldable pub push_all : List (Callback A) → List (Callback A) → List (Callback A)
  unfolding push
  push_all [] queue = queue
  push_all (value ∷ values) queue = push_all values (push value queue)

  push_all-append :
      (values queue : List (Callback A)) (first : Callback A)
      → push_all values (first ∷ queue) ≡ first ∷ push_all values queue
  unfolding push_all push
  push_all-append [] queue first = refl
  push_all-append (value ∷ values) queue first = push_all-append values (push value queue) first

  -- What was pushed first is popped first, whatever was pushed behind it, and the others stay in
  -- their order.
  try_pop-push_all :
      (first : Callback A) (values queue : List (Callback A))
      → try_pop (push_all values (first ∷ queue)) ≡ (true, some first, push_all values queue)
  unfolding try_pop
  try_pop-push_all first values queue = rw (push_all-append values queue first) refl

  -- `try_pop` takes what `wait_and_pop` would take, and says so
  try_pop-wait_and_pop :
      (queue : List (Callback A)) (value : Callback A) (rest : List (Callback A))
      → wait_and_pop queue ≡ some (value, rest)
      → try_pop queue ≡ (true, some value, rest)
  unfolding try_pop wait_and_pop
  try_pop-wait_and_pop [] value rest e = absurd cc
  try_pop-wait_and_pop (value' ∷ queue) value rest e = cc
