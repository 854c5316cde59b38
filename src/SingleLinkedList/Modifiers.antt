-- ===== src/SingleLinkedList/Modifiers.antt =====
-- The construction of nodes, access, and the modifiers of `SingleLinkedList`. The overloads that
-- differ in copying or moving the value are one function. A `while` loop over nodes takes a
-- number of rounds, `fuel`; a loop that counts down recurs on the count.
use always_be_learning.Common.{
  ℕ, zero, suc, ◌+◌, ◌-◌, ◌%◌, ◌^◌, Bool, not, ◌&&◌, List, [], ◌∷◌, ◌==◌, if◌then◌else◌,
}
use always_be_learning.Memory.{
  Ptr, null, violated, out_of_fuel, Cmd, Allocator, pure, ◌>>=◌, ◌>>◌, load, link_nodes, free_node,
  make_node,
}

module _ {ℓ} {A : Type ℓ} where
  -- `front()`
  unfoldable pub front : Ptr → Cmd A A
  front head = do
    h ← load head
    if h.next == null then (λ _. violated) else do n ← load h.next; pure n.content

  unfoldable pub empty : Ptr → Cmd A Bool
  empty head = do h ← load head; pure (h.next == null)

  -- `clear()` and the destructor: the loop of `free()`
  unfoldable pub clear : ℕ → Ptr → Cmd A (Unit {0})
  clear zero head = λ _. out_of_fuel
  clear (suc fuel) head = do
    h ← load head
    if h.next == null
        then pure tt
        else do temp ← load h.next; link_nodes head temp.next; free_node h.next; clear fuel head

  unfoldable pub pop_front : Ptr → Cmd A (Unit {0})
  pop_front head = do
    h ← load head
    if h.next == null
        then pure tt
        else do tmp ← load h.next; link_nodes head tmp.next; free_node h.next

  -- `erase_after(pos)`
  unfoldable pub erase_after : Ptr → Cmd A Ptr
  erase_after pos = if pos == null then pure null else do
    p ← load pos
    if p.next == null then pure null else do
      pn ← load p.next
      link_nodes pos pn.next
      free_node p.next
      p' ← load pos
      pure p'.next

  -- the loop `while (p != e)` that frees the nodes that were cut out
  unfoldable pub free_until : ℕ → (p e : Ptr) → Cmd A Ptr
  free_until zero p e = λ _. out_of_fuel
  free_until (suc fuel) p e =
      if p == e then pure p else do tmp ← load p; free_node p; free_until fuel tmp.next e

  -- `erase_after(first, last)`
  unfoldable pub erase_range : ℕ → (first last : Ptr) → Cmd A Ptr
  unfolding free_until
  erase_range fuel first last =
      if first == last
      then pure last
      else do b ← load first; link_nodes first last; free_until fuel b.next last

  module _ (alloc : Allocator A) where
    -- `push_front` and `emplace_front`
    unfoldable pub push_front : Ptr → A → Cmd A Ptr
    push_front head value = do
      nn ← make_node alloc value
      h ← load head
      link_nodes nn h.next
      link_nodes head nn
      pure nn

    -- `insert_after(pos, value)` and `emplace_after`
    unfoldable pub insert_after : Ptr → A → Cmd A Ptr
    insert_after pos value = if pos == null then (λ _. violated) else do
      nn ← make_node alloc value
      p ← load pos
      link_nodes nn p.next
      link_nodes pos nn
      pure nn

    -- the loop of `make_n`, with the rounds that are left and the last node so far
    unfoldable pub extend_n : ℕ → A → Ptr → Cmd A Ptr
    extend_n zero value nn = pure nn
    extend_n (suc count) value nn = do
      next_node ← make_node alloc value
      link_nodes nn next_node
      extend_n count value next_node

    -- `make_n`; the test `--count` wraps at 0
    unfoldable pub make_n : ℕ → A → Cmd A (Ptr × Ptr)
    unfolding extend_n
    make_n count value = do
      front ← make_node alloc value
      back ← extend_n ((count + 2 ^ 64 - 1) % 2 ^ 64) value front
      pure (front, back)

    -- the loop of `make_range`, over the values that are left
    unfoldable pub extend : List A → Ptr → Cmd A Ptr
    extend [] nn = pure nn
    extend (value ∷ values) nn = do
      next_node ← make_node alloc value
      link_nodes nn next_node
      extend values next_node

    unfoldable pub make_range : List A → Cmd A (Ptr × Ptr)
    unfolding extend
    make_range [] = λ _. violated
    make_range (value ∷ values) = do
      front ← make_node alloc value
      back ← extend values front
      pure (front, back)

    -- the constructors from a count and a value, and from a range; `head` is the new `head_`
    unfoldable pub construct_n : Ptr → ℕ → A → Cmd A (Unit {0})
    unfolding make_n
    construct_n head count value = do nodes ← make_n count value; link_nodes head nodes.0

    unfoldable pub construct_range : Ptr → List A → Cmd A (Unit {0})
    unfolding make_range
    construct_range head values = do nodes ← make_range values; link_nodes head nodes.0

    -- `insert_after(pos, count, value)`
    unfoldable pub insert_after_n : Ptr → ℕ → A → Cmd A Ptr
    unfolding make_n
    insert_after_n pos count value =
        if pos == null then (λ _. violated) else if count == 0 then pure pos else do
          nodes ← make_n count value
          p ← load pos
          link_nodes nodes.1 p.next
          link_nodes pos nodes.0
          pure nodes.1

    -- `insert_after(pos, first, last)`
    unfoldable pub insert_after_range : Ptr → List A → Cmd A Ptr
    unfolding make_range
    insert_after_range pos [] = if pos == null then (λ _. violated) else pure pos
    insert_after_range pos (value ∷ values) = if pos == null then (λ _. violated) else do
      nodes ← make_range (value ∷ values)
      p ← load pos
      link_nodes nodes.1 p.next
      link_nodes pos nodes.0
      pure nodes.1

  -- the loop of `resize`: the two iterators move on together while `count` falls
  unfoldable pub seek : ℕ → (before it : Ptr) → Cmd A (Ptr × Ptr × ℕ)
  seek zero before it = pure (before, it, 0)
  seek (suc count) before it =
      if it == null
      then pure (before, it, suc count)
      else do i ← load it; b ← load before; seek count b.next i.next

  unfoldable pub resize : Allocator A → ℕ → Ptr → ℕ → A → Cmd A (Unit {0})
  unfolding seek insert_after_n erase_range
  resize alloc fuel head count value = do
    h ← load head
    (before, it, left) ← seek count head h.next
    if not (left == 0) && (it == null)
        then insert_after_n alloc before left value >> pure tt
        else if (left == 0) && not (it == null)
        then erase_range fuel before null >> pure tt
        else pure tt
