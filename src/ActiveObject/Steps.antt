-- ===== src/ActiveObject/Steps.antt =====
-- The steps of the active thread and of `join` keep the order.
use always_be_learning.Common.{
  Bool, true, false, List, [], ◌∷◌, ◌++◌, ◌≡◌, ◌≢◌, refl, sym, ◌∙◌, inl, inr, Option-cases,
}
use mathlib.Core.List.{append_assoc, append-nil}
use mathlib.Core.Path.{subst}
use always_be_learning.ActiveObject.Active.{
  Callback, task, do_done, Worker, testing, waiting, ended, executing, Owner, alive, joining,
  destroyed, Active, Action, send, destroy, test, pop, execute, join, wait_and_pop, test_step,
  pop_step, execute_step, join_step, step, steps,
}
use always_be_learning.ActiveObject.Order.{
  send-IsInOrder, destroy-IsInOrder, tasks, IsWorking, IsInOrder, Possible,
}

module _ {A : Type 0} where
  test-IsInOrder :
      (q : List (Callback A)) (d : Bool) (w : Worker A) (o : Owner) (ex se la : List A)
      → IsInOrder (record {
        queue = q;
        done = d;
        worker = w;
        owner = o;
        executed = ex;
        sent = se;
        late = la;
      })
      → Possible IsInOrder (
          test_step w d (record {
            queue = q;
            done = d;
            worker = w;
            owner = o;
            executed = ex;
            sent = se;
            late = la;
          }))
  unfolding test_step
  test-IsInOrder q false testing alive ex se la (msgs, (not_done, (going, rest))) =
      (msgs, (refl, (tt, rest)))
  test-IsInOrder q false testing joining ex se la (inl (msgs, (not_done, (going, rest)))) =
      inl (msgs, (refl, (tt, rest)))
  test-IsInOrder q false testing joining ex se la (inr (finished, rest)) = absurd cc
  test-IsInOrder q false testing destroyed ex se la (finished, rest) = absurd cc
  test-IsInOrder q true testing alive ex se la (msgs, (not_done, rest)) = absurd cc
  test-IsInOrder q true testing joining ex se la (inl (msgs, (not_done, rest))) = absurd cc
  test-IsInOrder q true testing joining ex se la (inr (finished, (at_end, rest))) =
      inr (refl, (tt, rest))
  test-IsInOrder q true testing destroyed ex se la (finished, (at_end, rest)) = (refl, (tt, rest))
  test-IsInOrder q d waiting o ex se la h = tt
  test-IsInOrder q d ended o ex se la h = tt
  test-IsInOrder q d (executing cb) o ex se la h = tt

  pop-IsInOrder :
      (q : List (Callback A)) (d : Bool) (w : Worker A) (o : Owner) (ex se la : List A)
      → IsInOrder (record {
        queue = q;
        done = d;
        worker = w;
        owner = o;
        executed = ex;
        sent = se;
        late = la;
      })
      → Possible IsInOrder (
          pop_step w (record {
            queue = q;
            done = d;
            worker = w;
            owner = o;
            executed = ex;
            sent = se;
            late = la;
          }))
  unfolding pop_step wait_and_pop
  pop-IsInOrder [] d waiting o ex se la h = tt
  pop-IsInOrder (cb ∷ q) d waiting alive ex se la h = h
  pop-IsInOrder (cb ∷ q) d waiting joining ex se la (inl h) = inl h
  pop-IsInOrder (cb ∷ q) d waiting joining ex se la (inr (finished, (at_end, rest))) = absurd at_end
  pop-IsInOrder (cb ∷ q) d waiting destroyed ex se la (finished, (at_end, rest)) = absurd at_end
  pop-IsInOrder q d testing o ex se la h = tt
  pop-IsInOrder q d ended o ex se la h = tt
  pop-IsInOrder q d (executing cb) o ex se la h = tt

  -- the message in hand is the first of those that are pending
  execute_task-IsWorking :
      (msg : A) (q : List (Callback A)) (d : Bool) (o : Owner) (ex se la : List A)
      → IsWorking (record {
        queue = q;
        done = d;
        worker = executing (task msg);
        owner = o;
        executed = ex;
        sent = se;
        late = la;
      })
      → IsWorking (record {
        queue = q;
        done = d;
        worker = testing;
        owner = o;
        executed = ex ++ msg ∷ [];
        sent = se;
        late = la;
      })
  unfolding tasks
  execute_task-IsWorking msg q d alive ex se la ([], (not_done, (going, (left, all)))) = absurd cc
  execute_task-IsWorking msg q d joining ex se la ([], (not_done, (going, (left, all)))) = absurd cc
  execute_task-IsWorking msg q d destroyed ex se la ([], (not_done, (going, (left, all)))) =
      absurd cc
  execute_task-IsWorking msg q d o ex se la (b ∷ msgs, (not_done, (going, (left, all)))) =
      let first : msg ≡ b = cc in
      (msgs, (not_done, (tt, (cc, (append_assoc ex (msg ∷ []) msgs ∙ rw first all)))))

  execute_done-IsFinished :
      (q : List (Callback A)) (d : Bool) (o : Owner) (ex se la : List A)
      → IsWorking (record {
        queue = q;
        done = d;
        worker = executing do_done;
        owner = o;
        executed = ex;
        sent = se;
        late = la;
      })
      → (o ≢ alive) × ((q ≡ tasks la []) × (ex ≡ se))
  unfolding tasks
  execute_done-IsFinished q d alive ex se la ([], (not_done, (going, (left, all)))) = absurd cc
  execute_done-IsFinished q d joining ex se la ([], (not_done, (going, (left, all)))) =
      ((λ e. absurd cc), (cc, (sym (append-nil ex) ∙ all)))
  execute_done-IsFinished q d destroyed ex se la ([], (not_done, (going, (left, all)))) =
      ((λ e. absurd cc), (cc, (sym (append-nil ex) ∙ all)))
  execute_done-IsFinished q d o ex se la (b ∷ msgs, (not_done, (going, (left, all)))) = absurd cc

  execute-IsInOrder :
      (q : List (Callback A)) (d : Bool) (w : Worker A) (o : Owner) (ex se la : List A)
      → IsInOrder (record {
        queue = q;
        done = d;
        worker = w;
        owner = o;
        executed = ex;
        sent = se;
        late = la;
      })
      → Possible IsInOrder (
          execute_step w (record {
            queue = q;
            done = d;
            worker = w;
            owner = o;
            executed = ex;
            sent = se;
            late = la;
          }))
  unfolding execute_step
  execute-IsInOrder q d (executing (task msg)) alive ex se la h =
      execute_task-IsWorking msg q d alive ex se la h
  execute-IsInOrder q d (executing (task msg)) joining ex se la (inl h) =
      inl (execute_task-IsWorking msg q d joining ex se la h)
  execute-IsInOrder q d (executing (task msg)) joining ex se la (inr (finished, (at_end, rest))) =
      absurd at_end
  execute-IsInOrder q d (executing (task msg)) destroyed ex se la (finished, (at_end, rest)) =
      absurd at_end
  execute-IsInOrder q d (executing do_done) alive ex se la h =
      absurd ((execute_done-IsFinished q d alive ex se la h).0 refl)
  execute-IsInOrder q d (executing do_done) joining ex se la (inl h) =
      inr (refl, (tt, (execute_done-IsFinished q d joining ex se la h).1))
  execute-IsInOrder q d (executing do_done) joining ex se la (inr (finished, (at_end, rest))) =
      absurd at_end
  execute-IsInOrder q d (executing do_done) destroyed ex se la (finished, (at_end, rest)) =
      absurd at_end
  execute-IsInOrder q d testing o ex se la h = tt
  execute-IsInOrder q d waiting o ex se la h = tt
  execute-IsInOrder q d ended o ex se la h = tt

  join-IsInOrder :
      (q : List (Callback A)) (d : Bool) (w : Worker A) (o : Owner) (ex se la : List A)
      → IsInOrder (record {
        queue = q;
        done = d;
        worker = w;
        owner = o;
        executed = ex;
        sent = se;
        late = la;
      })
      → Possible IsInOrder (
          join_step o w (record {
            queue = q;
            done = d;
            worker = w;
            owner = o;
            executed = ex;
            sent = se;
            late = la;
          }))
  unfolding join_step
  join-IsInOrder q d ended joining ex se la (inl (msgs, (not_done, (going, rest)))) = absurd going
  join-IsInOrder q d ended joining ex se la (inr h) = h
  join-IsInOrder q d testing joining ex se la h = tt
  join-IsInOrder q d waiting joining ex se la h = tt
  join-IsInOrder q d (executing cb) joining ex se la h = tt
  join-IsInOrder q d w alive ex se la h = tt
  join-IsInOrder q d w destroyed ex se la h = tt

  step-IsInOrder : (a : Action A) (s : Active A) → IsInOrder s → Possible IsInOrder (step a s)
  unfolding step
  step-IsInOrder (send msg) s h =
      send-IsInOrder msg s.queue s.done s.worker s.owner s.executed s.sent s.late h
  step-IsInOrder destroy s h =
      destroy-IsInOrder s.queue s.done s.worker s.owner s.executed s.sent s.late h
  step-IsInOrder test s h =
      test-IsInOrder s.queue s.done s.worker s.owner s.executed s.sent s.late h
  step-IsInOrder pop s h = pop-IsInOrder s.queue s.done s.worker s.owner s.executed s.sent s.late h
  step-IsInOrder execute s h =
      execute-IsInOrder s.queue s.done s.worker s.owner s.executed s.sent s.late h
  step-IsInOrder join s h =
      join-IsInOrder s.queue s.done s.worker s.owner s.executed s.sent s.late h

  pub steps-IsInOrder :
      (actions : List (Action A)) (s : Active A)
      → IsInOrder s
      → Possible IsInOrder (steps actions s)
  unfolding steps
  steps-IsInOrder [] s h = h
  steps-IsInOrder (a ∷ actions) s h = elim (Option-cases (step a s)) [
    | inl e ↦ rw e tt
    | inr s' ↦
        rw s'.1
          (steps-IsInOrder actions s'.0 (subst (Possible IsInOrder) s'.1 (step-IsInOrder a s h)))
  ]
