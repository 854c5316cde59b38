-- ===== src/Tests/Trees.antt =====
-- Trees of numbers, ordered by `<`.
use always_be_learning.BinaryTree.Insert
use always_be_learning.BinaryTree.Tree.{
  erase_found, erase_node, erase_branch, leftmost, plug, find_node_with_link,
}
use always_be_learning.Common.{◌<◌}
use always_be_learning.BinaryTree.Backward.{reverse_visited, descending, reverse_visited-descending}
use always_be_learning.Common.{
  ℕ, ◌≡◌, refl, ◌+◌, ◌*◌, ◌≢◌, Bool, not, none, some, arith, to_nat, Bool,
}
use always_be_learning.BinaryTree.Order.{nat_ordered}
use always_be_learning.BinaryTree.Tree.{Tree, leaf, node, ok, insert_or_assign, erase, insert_at}
use always_be_learning.BinaryTree.Update.{IsOrdered, lookup}
use always_be_learning.BinaryTree.Writes.{is_none, Writes}
use always_be_learning.BinaryTree.Assign.{insert_or_assign-Writes}
use always_be_learning.BinaryTree.Erase.{erase-Writes}
use always_be_learning.BinaryTree.Insert.{
  Holds, Among, Inserted, IsPairOrdered, insert_at-Inserted, make_range-Holds,
}
use always_be_learning.BinaryTree.Traversal.{
  preorder, inorder, visit, traverse_preorder, traverse_inorder,
}
use always_be_learning.BinaryTree.Visits.{traverse-visit}
use always_be_learning.BinaryTree.Iterator.{Iterator, visited, find}
use always_be_learning.BinaryTree.Iteration.{StandsAt, drop_to, visited-inorder, find-StandsAt}

abbrev three : Tree ℕ ℕ
three = node (node leaf 1 10 leaf) 2 20 (node leaf 5 50 leaf)

abbrev nothing : Tree ℕ ℕ
nothing = leaf

three-IsOrdered : IsOrdered three
three-IsOrdered = ((tt, refl, tt), (tt, refl, tt), (tt, tt, tt, tt), (tt, tt, tt, tt))

three-ne-leaf : three ≢ leaf
three-ne-leaf = ground arith

-- a functor whose result depends on the order
abbrev add : ℕ → ℕ × ℕ → ℕ
add s e = s * 3 + e.1

insert_or_assign-Writes_example :
    (t' : Tree ℕ ℕ) × (insert_or_assign three 5 7 ≡ ok (t', is_none (lookup three 5)))
    × Writes three 5 (some 7) t'
insert_or_assign-Writes_example = insert_or_assign-Writes three 5 7 three-ne-leaf three-IsOrdered

erase-Writes_example :
    ((erase three 2).1 ≡ to_nat (not (is_none (lookup three 2))))
    × Writes three 2 none (erase three 2).0
erase-Writes_example = erase-Writes three 2 three-IsOrdered

insert_at-Inserted_example :
    (t' : Tree ℕ ℕ) × (done : Bool) × (insert_at three 4 40 ≡ ok (t', done))
    × Inserted three 4 40 t' done
insert_at-Inserted_example = insert_at-Inserted three 4 40 three-ne-leaf

three-lookup : lookup three 5 ≡ some 50
unfolding lookup
three-lookup = refl

traverse-visit_example :
    (traverse_preorder add 4 three 0 ≡ some (visit add 0 (preorder three)))
    × (traverse_inorder add 4 three 0 ≡ some (visit add 0 (inorder three)))
traverse-visit_example = traverse-visit add 4 three 0 (omega arith)

visited-inorder_example : visited 4 three ≡ ok (inorder three)
visited-inorder_example = visited-inorder 4 three (omega arith)

find-StandsAt_example :
    (it : Iterator ℕ ℕ) × (find 4 three 2 ≡ ok it) × StandsAt (drop_to 2 (inorder three)) it
find-StandsAt_example = find-StandsAt 4 three 2 (omega arith)

reverse_visited-descending_example : reverse_visited 4 three ≡ ok (descending three)
reverse_visited-descending_example = reverse_visited-descending 4 three (omega arith)

three_erased_size : Insert.size (erase three 2).0 < 4
unfolding erase erase_found erase_node erase_branch leftmost plug find_node_with_link
three_erased_size = omega arith
