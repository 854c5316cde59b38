-- ===== src/SingleLinkedList/Operations.antt =====
-- The operations of `SingleLinkedList` that relink its nodes: `merge`, `remove_if`, `reverse`,
-- `unique` and `sort`. A `while` loop takes a number of rounds, `fuel`.
use always_be_learning.Common.{ℕ, zero, suc, ◌+◌, Bool, true, false, ◌==◌, if◌then◌else◌}
use always_be_learning.Memory.{
  Ptr, null, out_of_fuel, Cmd, pure, ◌>>=◌, ◌>>◌, load, link_nodes, free_node,
}

module _ {ℓ} {A : Type ℓ} where
  unfoldable pub reverse_loop : ℕ → (head begin : Ptr) → Cmd A (Unit {0})
  reverse_loop zero head begin = λ _. out_of_fuel
  reverse_loop (suc fuel) head begin = if begin == null then pure tt else do
    b ← load begin
    h ← load head
    link_nodes begin h.next
    link_nodes head begin
    reverse_loop fuel head b.next

  unfoldable pub reverse : ℕ → Ptr → Cmd A (Unit {0})
  reverse fuel head = do h ← load head; link_nodes head null; reverse_loop fuel head h.next

  unfoldable pub remove_if_loop : (A → Bool) → ℕ → (bbegin begin : Ptr) → ℕ → Cmd A ℕ
  remove_if_loop pred zero bbegin begin count = λ _. out_of_fuel
  remove_if_loop pred (suc fuel) bbegin begin count = if begin == null then pure count else do
    b ← load begin
    if pred b.content
        then (do
          link_nodes bbegin b.next
          free_node begin
          bb ← load bbegin
          remove_if_loop pred fuel bbegin bb.next (count + 1))
        else remove_if_loop pred fuel begin b.next count

  unfoldable pub remove_if : (A → Bool) → ℕ → Ptr → Cmd A ℕ
  remove_if pred fuel head = do h ← load head; remove_if_loop pred fuel head h.next 0

  -- the inner loop: frees the nodes behind `begin` that equal it
  unfoldable pub unique_run : (A → A → Bool) → ℕ → (begin next : Ptr) → ℕ → Cmd A (Ptr × ℕ)
  unique_run pred zero begin next count = λ _. out_of_fuel
  unique_run pred (suc fuel) begin next count = if next == null then pure (next, count) else do
    b ← load begin
    n ← load next
    if pred b.content n.content
        then (do
          link_nodes begin n.next
          free_node next
          b' ← load begin
          unique_run pred fuel begin b'.next (count + 1))
        else pure (next, count)

  unfoldable pub unique_loop : (A → A → Bool) → ℕ → Ptr → ℕ → Cmd A ℕ
  unique_loop pred zero begin count = λ _. out_of_fuel
  unique_loop pred (suc fuel) begin count = if begin == null then pure count else do
    b ← load begin
    if b.next == null then pure count else do
      (next, count') ← unique_run pred (suc fuel) begin b.next count
      unique_loop pred fuel next count'

  unfoldable pub unique : (A → A → Bool) → ℕ → Ptr → Cmd A ℕ
  unique pred fuel head = do h ← load head; unique_loop pred fuel h.next 0

  -- the lambda of `sort`
  unfoldable pub swap_nodes : (blhs lhs rhs : Ptr) → Cmd A (Unit {0})
  swap_nodes blhs lhs rhs = do
    link_nodes blhs rhs
    r ← load rhs
    link_nodes lhs r.next
    link_nodes rhs lhs

  -- the inner loop of `sort`: one pass, which returns the flag `sorted`
  unfoldable pub sort_pass : (A → A → Bool) → ℕ → (blhs lhs : Ptr) → Bool → Cmd A Bool
  sort_pass cmp zero blhs lhs sorted = λ _. out_of_fuel
  sort_pass cmp (suc fuel) blhs lhs sorted = do
    l ← load lhs
    if l.next == null then pure sorted else do
      r ← load l.next
      if cmp r.content l.content
          then (do swap_nodes blhs lhs l.next; b ← load blhs; sort_pass cmp fuel b.next lhs false)
          else (do b ← load blhs; sort_pass cmp fuel b.next l.next sorted)

  -- the outer loop, entered with `sorted == false`
  unfoldable pub sort_loop : (A → A → Bool) → (rounds fuel : ℕ) → Ptr → Cmd A (Unit {0})
  sort_loop cmp zero fuel head = λ _. out_of_fuel
  sort_loop cmp (suc rounds) fuel head = do
    h ← load head
    sorted ← sort_pass cmp fuel head h.next true
    if sorted then pure tt else sort_loop cmp rounds fuel head

  unfoldable pub sort : (A → A → Bool) → (rounds fuel : ℕ) → Ptr → Cmd A (Unit {0})
  sort cmp rounds fuel head = do
    h ← load head
    if h.next == null then pure tt else sort_loop cmp rounds fuel head

  -- the first inner loop of `merge`: to the first node of the left list that `rb` precedes
  unfoldable pub merge_left : (A → A → Bool) → ℕ → (rb lbb lb : Ptr) → Cmd A (Ptr × Ptr)
  merge_left cmp zero rb lbb lb = λ _. out_of_fuel
  merge_left cmp (suc fuel) rb lbb lb = if lb == null then pure (lbb, lb) else do
    r ← load rb
    l ← load lb
    if cmp r.content l.content then pure (lbb, lb) else merge_left cmp fuel rb lb l.next

  -- the second: over the nodes of the right list that precede `lb`
  unfoldable pub merge_right : (A → A → Bool) → ℕ → (lb rend : Ptr) → Cmd A Ptr
  merge_right cmp zero lb rend = λ _. out_of_fuel
  merge_right cmp (suc fuel) lb rend = if rend == null then pure rend else do
    r ← load rend
    if lb == null then merge_right cmp fuel lb r.next else do
      l ← load lb
      if cmp l.content r.content then pure rend else merge_right cmp fuel lb r.next

  unfoldable pub merge_loop : (A → A → Bool) → ℕ → (rbb lbb lb rb : Ptr) → Cmd A (Unit {0})
  merge_loop cmp zero rbb lbb lb rb = λ _. out_of_fuel
  merge_loop cmp (suc fuel) rbb lbb lb rb = if rb == null then pure tt else do
    (lbb', lb') ← merge_left cmp (suc fuel) rb lbb lb
    r ← load rb
    rend ← merge_right cmp (suc fuel) lb' r.next
    link_nodes lbb' rb
    link_nodes rbb rend
    link_nodes rb lb'
    merge_loop cmp fuel rbb lbb' lb' rend

  unfoldable pub merge : (A → A → Bool) → ℕ → (head other : Ptr) → Cmd A (Unit {0})
  merge cmp fuel head other = do
    l ← load head
    r ← load other
    merge_loop cmp fuel other head l.next r.next
