-- ===== src/Tests/Threads.antt =====
-- An active object with two messages.
use always_be_learning.Common.{ℕ, false, some, List, [], ◌∷◌, ◌≡◌, refl}
use always_be_learning.ActiveObject.Active.{
  task, do_done, waiting, joining, destroyed, Active, Action, send, destroy, test, pop, execute,
  steps, create, push, wait_and_pop,
}
use always_be_learning.ActiveObject.Shutdown.{IsQuiet, steps_ordered, destructor_returns}

-- the second message is sent while the first is executed, and the third by it, behind the callback of
-- the destructor
abbrev interleaving : List (Action ℕ)
interleaving = test ∷ send 1 ∷ pop ∷ send 2 ∷ destroy ∷ send 3 ∷ execute ∷ test ∷ []

abbrev between : Active ℕ
between = record {
  queue = task 2 ∷ do_done ∷ task 3 ∷ [];
  done = false;
  worker = waiting;
  owner = joining;
  executed = 1 ∷ [];
  sent = 1 ∷ 2 ∷ [];
  late = 3 ∷ [];
}

interleaved : steps interleaving create ≡ some between
unfolding steps push wait_and_pop
interleaved = refl

steps_ordered_example : (msgs : List ℕ) × (1 ∷ msgs ≡ 1 ∷ 2 ∷ [])
steps_ordered_example = steps_ordered interleaving between interleaved

destructor_returns_example :
    (more : List (Action ℕ)) × (IsQuiet more
      × ((s' : Active ℕ) × ((steps more between ≡ some s')
            × ((s'.owner ≡ destroyed) × (s'.executed ≡ 1 ∷ 2 ∷ [])))))
destructor_returns_example = destructor_returns interleaving between interleaved refl
