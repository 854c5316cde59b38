-- ===== src/ActiveObject/Order.antt =====
-- The order that every interleaving keeps; sending and the destructor keep it.
use always_be_learning.Common.{
  Bool, true, false, Option, none, some, List, [], ◌∷◌, ◌++◌, ◌≡◌, refl, sym, ap, ◌∙◌, ◌⊎◌, inl,
  inr,
}
use mathlib.Core.List.{append_assoc}
use always_be_learning.ActiveObject.Active.{
  Callback, task, do_done, Worker, testing, waiting, ended, executing, Owner, alive, joining,
  destroyed, Active, push, send_step, destroy_step,
}

module _ {A : Type 0} where
  -- what is not executed yet, the callback in hand first
  abbrev pub pending : Worker A → List (Callback A) → List (Callback A)
  pending (executing cb) queue = cb ∷ queue
  pending _ queue = queue

  abbrev HasNotEnded : Worker A → Type 0
  HasNotEnded ended = ⊥
  HasNotEnded _ = Unit

  abbrev IsAtEnd : Worker A → Type 0
  IsAtEnd testing = Unit
  IsAtEnd ended = Unit
  IsAtEnd _ = ⊥

  unfoldable pub tasks : List A → List (Callback A) → List (Callback A)
  tasks [] rest = rest
  tasks (a ∷ msgs) rest = task a ∷ tasks msgs rest

  abbrev pub last_callback : Owner → List A → List (Callback A)
  last_callback alive late = []
  last_callback _ late = do_done ∷ tasks late []

  -- `msgs` and then the callback of the destructor are pending, and behind it the late messages
  abbrev pub IsWorking : Active A → Type 0
  IsWorking s =
      (msgs : List A) × ((s.done ≡ false)
        × (HasNotEnded s.worker
            × ((pending s.worker s.queue ≡ tasks msgs (last_callback s.owner s.late))
                × (s.executed ++ msgs ≡ s.sent))))

  -- all but the late messages was executed, the callback of the destructor as well
  abbrev pub IsFinished : Active A → Type 0
  IsFinished s =
      (s.done ≡ true) × (IsAtEnd s.worker × ((s.queue ≡ tasks s.late []) × (s.executed ≡ s.sent)))

  abbrev OwnerFits : Owner → Active A → Type 0
  OwnerFits alive s = IsWorking s
  OwnerFits joining s = IsWorking s ⊎ IsFinished s
  OwnerFits destroyed s = IsFinished s

  abbrev pub IsInOrder : Active A → Type 0
  IsInOrder s = OwnerFits s.owner s

  -- a possible step ends in a state that has `P`
  abbrev pub Possible : (Active A → Type 0) → Option (Active A) → Type 0
  Possible P none = Unit
  Possible P (some s) = P s

  tasks-append :
      (msgs : List A) (xs ys : List (Callback A)) → tasks msgs xs ++ ys ≡ tasks msgs (xs ++ ys)
  unfolding tasks
  tasks-append [] xs ys = refl
  tasks-append (a ∷ msgs) xs ys = ap (λ zs. task a ∷ zs) (tasks-append msgs xs ys)

  tasks_snoc : (msgs : List A) (a : A) → tasks msgs (task a ∷ []) ≡ tasks (msgs ++ a ∷ []) []
  unfolding tasks
  tasks_snoc [] a = refl
  tasks_snoc (b ∷ msgs) a = ap (λ zs. task b ∷ zs) (tasks_snoc msgs a)

  late_snoc : (a : A) (late : List A) → tasks late [] ++ task a ∷ [] ≡ tasks (late ++ a ∷ []) []
  late_snoc a late = tasks-append late [] (task a ∷ []) ∙ tasks_snoc late a

  pending-append :
      (w : Worker A) (queue xs : List (Callback A))
      → pending w (queue ++ xs) ≡ pending w queue ++ xs
  pending-append testing queue xs = refl
  pending-append waiting queue xs = refl
  pending-append ended queue xs = refl
  pending-append (executing cb) queue xs = refl

  pub send-IsInOrder :
      (msg : A) (q : List (Callback A)) (d : Bool) (w : Worker A) (o : Owner) (ex se la : List A)
      → IsInOrder (record {
        queue = q;
        done = d;
        worker = w;
        owner = o;
        executed = ex;
        sent = se;
        late = la;
      })
      → Possible IsInOrder (
          send_step o msg (record {
            queue = q;
            done = d;
            worker = w;
            owner = o;
            executed = ex;
            sent = se;
            late = la;
          }))
  unfolding send_step push tasks
  send-IsInOrder msg q d w alive ex se la (msgs, (not_done, (going, (left, all)))) = (
    msgs ++ msg ∷ [],
    (
      not_done,
      (
        going,
        (
          (pending-append w q (task msg ∷ [])
              ∙ ap (λ xs. xs ++ task msg ∷ []) left
              ∙ tasks-append msgs [] (task msg ∷ [])
              ∙ tasks_snoc msgs msg),
          (sym (append_assoc ex msgs (msg ∷ [])) ∙ ap (λ xs. xs ++ msg ∷ []) all),
        ),
      ),
    ),
  )
  send-IsInOrder msg q d w joining ex se la (inl (msgs, (not_done, (going, (left, all))))) = inl (
    msgs,
    (
      not_done,
      (
        going,
        (
          (pending-append w q (task msg ∷ [])
              ∙ ap (λ xs. xs ++ task msg ∷ []) left
              ∙ tasks-append msgs (do_done ∷ tasks la []) (task msg ∷ [])
              ∙ ap (λ xs. tasks msgs (do_done ∷ xs)) (late_snoc msg la)),
          all,
        ),
      ),
    ),
  )
  send-IsInOrder msg q d w joining ex se la (inr (finished, (at_end, (left, all)))) =
      inr (finished, (at_end, (ap (λ xs. xs ++ task msg ∷ []) left ∙ late_snoc msg la, all)))
  send-IsInOrder msg q d w destroyed ex se la h = tt

  pub destroy-IsInOrder :
      (q : List (Callback A)) (d : Bool) (w : Worker A) (o : Owner) (ex se la : List A)
      → IsInOrder (record {
        queue = q;
        done = d;
        worker = w;
        owner = o;
        executed = ex;
        sent = se;
        late = la;
      })
      → Possible IsInOrder (
          destroy_step o (record {
            queue = q;
            done = d;
            worker = w;
            owner = o;
            executed = ex;
            sent = se;
            late = la;
          }))
  unfolding destroy_step push tasks
  destroy-IsInOrder q d w alive ex se la (msgs, (not_done, (going, (left, all)))) = inl (
    msgs,
    (
      not_done,
      (
        going,
        (
          (pending-append w q (do_done ∷ [])
              ∙ ap (λ xs. xs ++ do_done ∷ []) left
              ∙ tasks-append msgs [] (do_done ∷ [])),
          all,
        ),
      ),
    ),
  )
  destroy-IsInOrder q d w joining ex se la h = tt
  destroy-IsInOrder q d w destroyed ex se la h = tt
