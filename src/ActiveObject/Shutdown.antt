-- ===== src/ActiveObject/Shutdown.antt =====
-- What a client of an active object sees: the order of execution, and that the destructor returns.
use always_be_learning.Common.{
  Bool, true, false, some, List, [], ◌∷◌, ◌++◌, ◌≡◌, refl, ◌∙◌, inl, inr,
}
use mathlib.Core.List.{append-nil}
use mathlib.Core.Path.{subst}
use always_be_learning.ActiveObject.Active.{
  Callback, task, do_done, Worker, testing, waiting, ended, executing, Owner, alive, joining,
  destroyed, Active, Action, send, destroy, test, pop, execute, join, wait_and_pop, test_step,
  pop_step, execute_step, join_step, step, steps, create,
}
use always_be_learning.ActiveObject.Order.{IsInOrder, Possible, tasks}
use always_be_learning.ActiveObject.Steps.{steps-IsInOrder}

module _ {A : Type 0} where
  reached : (actions : List (Action A)) (s : Active A) → steps actions create ≡ some s → IsInOrder s
  unfolding tasks
  reached actions s e =
      subst (Possible IsInOrder) e (steps-IsInOrder actions create ([], (refl, (tt, (refl, refl)))))

  left_over :
      (q : List (Callback A)) (d : Bool) (w : Worker A) (o : Owner) (ex se la : List A)
      → IsInOrder (record {
        queue = q;
        done = d;
        worker = w;
        owner = o;
        executed = ex;
        sent = se;
        late = la;
      })
      → (msgs : List A) × (ex ++ msgs ≡ se)
  left_over q d w alive ex se la h = (h.0, h.1.1.1.1)
  left_over q d w joining ex se la (inl h) = (h.0, h.1.1.1.1)
  left_over q d w joining ex se la (inr h) = ([], append-nil ex ∙ h.1.1.1)
  left_over q d w destroyed ex se la h = ([], append-nil ex ∙ h.1.1.1)

  -- In every interleaving of the senders, the active thread and the destructor, the messages that were
  -- executed are the first of those that were sent before the destructor began, in the order in which
  -- they were sent, each once; one that is sent later is not executed.
  pub steps_ordered :
      (actions : List (Action A)) (s : Active A)
      → steps actions create ≡ some s
      → (msgs : List A) × (s.executed ++ msgs ≡ s.sent)
  steps_ordered actions s e =
      left_over s.queue s.done s.worker s.owner s.executed s.sent s.late (reached actions s e)

  all_executed :
      (q : List (Callback A)) (d : Bool) (w : Worker A) (o : Owner) (ex se la : List A)
      → o ≡ destroyed
      → IsInOrder (record {
        queue = q;
        done = d;
        worker = w;
        owner = o;
        executed = ex;
        sent = se;
        late = la;
      })
      → ex ≡ se
  all_executed q d w alive ex se la e h = absurd cc
  all_executed q d w joining ex se la e h = absurd cc
  all_executed q d w destroyed ex se la e h = h.1.1.1

  -- none of the actions sends a message
  abbrev pub IsQuiet : List (Action A) → Type 0
  IsQuiet [] = Unit
  IsQuiet (send _ ∷ actions) = ⊥
  IsQuiet (destroy ∷ actions) = IsQuiet actions
  IsQuiet (test ∷ actions) = IsQuiet actions
  IsQuiet (pop ∷ actions) = IsQuiet actions
  IsQuiet (execute ∷ actions) = IsQuiet actions
  IsQuiet (join ∷ actions) = IsQuiet actions

  -- Some steps, none of them a message, take the destructor to its end.
  abbrev Returns : Active A → Type 0
  Returns s =
      (actions : List (Action A)) × (IsQuiet actions
        × ((s' : Active A) × ((steps actions s ≡ some s')
              × ((s'.owner ≡ destroyed) × (s'.sent ≡ s.sent)))))

  -- one action in front
  Returns-step :
      (a : Action A) (s s' : Active A)
      → step a s ≡ some s'
      → s'.sent ≡ s.sent
      → ((actions : List (Action A)) → IsQuiet actions → IsQuiet (a ∷ actions))
      → Returns s'
      → Returns s
  unfolding steps
  Returns-step a s s' e same quiet (actions, (silent, (s'', (run, (over, kept))))) =
      (a ∷ actions, (quiet actions silent, (s'', ((rw e run), (over, kept ∙ same)))))

  ended-Returns :
      (q : List (Callback A)) (d : Bool) (ex se la : List A)
      → Returns (record {
        queue = q;
        done = d;
        worker = ended;
        owner = joining;
        executed = ex;
        sent = se;
        late = la;
      })
  unfolding steps step join_step
  ended-Returns q d ex se la = (join ∷ [], (tt, (_, (refl, (refl, refl)))))

  done-Returns :
      (q : List (Callback A)) (ex se la : List A)
      → Returns (record {
        queue = q;
        done = true;
        worker = testing;
        owner = joining;
        executed = ex;
        sent = se;
        late = la;
      })
  unfolding step test_step
  done-Returns q ex se la =
      Returns-step test _ _ refl refl (λ _ silent. silent) (ended-Returns q true ex se la)

  waiting-Returns :
      (msgs ex se la : List A)
      → Returns (record {
        queue = tasks msgs (do_done ∷ tasks la []);
        done = false;
        worker = waiting;
        owner = joining;
        executed = ex;
        sent = se;
        late = la;
      })
  unfolding step test_step pop_step execute_step wait_and_pop tasks
  waiting-Returns [] ex se la =
      Returns-step pop _ _ refl refl (λ _ silent. silent)
        (Returns-step execute _ _ refl refl (λ _ silent. silent)
          (done-Returns (tasks la []) ex se la))
  waiting-Returns (msg ∷ msgs) ex se la =
      Returns-step pop _ _ refl refl (λ _ silent. silent)
        (Returns-step execute _ _ refl refl (λ _ silent. silent)
          (Returns-step test _ _ refl refl (λ _ silent. silent)
            (waiting-Returns msgs (ex ++ msg ∷ []) se la)))

  testing-Returns :
      (msgs ex se la : List A)
      → Returns (record {
        queue = tasks msgs (do_done ∷ tasks la []);
        done = false;
        worker = testing;
        owner = joining;
        executed = ex;
        sent = se;
        late = la;
      })
  unfolding step test_step
  testing-Returns msgs ex se la =
      Returns-step test _ _ refl refl (λ _ silent. silent) (waiting-Returns msgs ex se la)

  executing-Returns :
      (cb : Callback A) (q : List (Callback A)) (msgs ex se la : List A)
      → cb ∷ q ≡ tasks msgs (do_done ∷ tasks la [])
      → Returns (record {
        queue = q;
        done = false;
        worker = executing cb;
        owner = joining;
        executed = ex;
        sent = se;
        late = la;
      })
  unfolding step execute_step tasks
  executing-Returns cb q [] ex se la e =
      let first : cb ≡ do_done = cc in
      let late_left : q ≡ tasks la [] = cc in
      rw (first, late_left)
        (Returns-step execute _ _ refl refl (λ _ silent. silent)
          (done-Returns (tasks la []) ex se la))
  executing-Returns cb q (msg ∷ msgs) ex se la e =
      let first : cb ≡ task msg = cc in
      let others : q ≡ tasks msgs (do_done ∷ tasks la []) = cc in
      rw (first, others)
        (Returns-step execute _ _ refl refl (λ _ silent. silent)
          (testing-Returns msgs (ex ++ msg ∷ []) se la))

  joining-Returns :
      (q : List (Callback A)) (d : Bool) (w : Worker A) (o : Owner) (ex se la : List A)
      → o ≡ joining
      → IsInOrder (record {
        queue = q;
        done = d;
        worker = w;
        owner = o;
        executed = ex;
        sent = se;
        late = la;
      })
      → Returns (record {
        queue = q;
        done = d;
        worker = w;
        owner = o;
        executed = ex;
        sent = se;
        late = la;
      })
  joining-Returns q d w alive ex se la e h = absurd cc
  joining-Returns q d w destroyed ex se la e h = absurd cc
  joining-Returns q d testing joining ex se la e (inl (msgs, (not_done, (going, (left, all))))) =
      rw (not_done, left) (testing-Returns msgs ex se la)
  joining-Returns q d waiting joining ex se la e (inl (msgs, (not_done, (going, (left, all))))) =
      rw (not_done, left) (waiting-Returns msgs ex se la)
  joining-Returns q d (executing cb) joining ex se la e
        (inl (msgs, (not_done, (going, (left, all))))) =
      rw not_done (executing-Returns cb q msgs ex se la left)
  joining-Returns q d ended joining ex se la e (inl (msgs, (not_done, (going, rest)))) =
      absurd going
  joining-Returns q d testing joining ex se la e (inr (finished, rest)) =
      rw finished (done-Returns q ex se la)
  joining-Returns q d ended joining ex se la e (inr (finished, rest)) = ended-Returns q d ex se la
  joining-Returns q d waiting joining ex se la e (inr (finished, (at_end, rest))) = absurd at_end
  joining-Returns q d (executing cb) joining ex se la e (inr (finished, (at_end, rest))) =
      absurd at_end

  -- From every reachable state in which the destructor waits in `join`, some further steps, which send
  -- nothing, lead to the return of the destructor; then every message that was sent before the
  -- destructor began was executed, in order, and none of those that were sent since.
  pub destructor_returns :
      (actions : List (Action A)) (s : Active A)
      → steps actions create ≡ some s
      → s.owner ≡ joining
      → (more : List (Action A)) × (IsQuiet more
          × ((s' : Active A) × ((steps more s ≡ some s')
                × ((s'.owner ≡ destroyed) × (s'.executed ≡ s.sent)))))
  destructor_returns actions s e waits =
      let order = reached actions s e in
      let (more, (silent, (s', (run, (over, kept))))) =
        joining-Returns s.queue s.done s.worker s.owner s.executed s.sent s.late waits order in
      let order' : IsInOrder s' = subst (Possible IsInOrder) run (steps-IsInOrder more s order) in
      let all =
        all_executed s'.queue s'.done s'.worker s'.owner s'.executed s'.sent s'.late over order' in
      (more, (silent, (s', (run, (over, all ∙ kept)))))
