-- ===== src/Tests/Lists.antt =====
-- Lists of numbers in a heap of a few nodes.
use mathlib.Core.List
use always_be_learning.Common.{
  ℕ, ◌≡◌, refl, ◌+◌, ◌%◌, ◌≢◌, Bool, true, false, none, some, Option, [], ◌∷◌, arith, ◌==◌, ltb,
  if◌then◌else◌, length,
}
use always_be_learning.Memory.{Ptr, null, Heap, node, Allocator, Returns}
use always_be_learning.Memory.Cells.{Cells, ◌∈◌, ◌∉◌, Chain, Rewrites}
use always_be_learning.SingleLinkedList.Operations.{reverse, remove_if, unique, sort, merge}
use always_be_learning.SingleLinkedList.Modifiers.{construct_range, resize}
use always_be_learning.SingleLinkedList.Construction.{Appends, construct_range-Appends}
use always_be_learning.SingleLinkedList.Resize.{take, resize-Rewrites}
use always_be_learning.SingleLinkedList.Reverse.{reverse-Rewrites}
use always_be_learning.SingleLinkedList.Remove.{kept, remove_if-Rewrites}
use always_be_learning.SingleLinkedList.Unique.{distinct, unique-Rewrites}
use always_be_learning.SingleLinkedList.Sort.{Sorted, sort-Sorted}
use always_be_learning.SingleLinkedList.Bubble.{inversions}
use always_be_learning.SingleLinkedList.Merge.{merge_loses_nodes}

-- the list 7, 7, 4 behind the head at 1, and an empty one at 9
abbrev store : Heap ℕ
store a =
    if a == 1
    then some (node 0 2)
    else if a == 2
    then some (node 7 3)
    else if a == 3
    then some (node 7 4)
    else if a == 4
    then some (node 4 null)
    else if a == 9
    then some (node 0 null)
    else none

abbrev cells : Cells ℕ
cells = (2, 7) ∷ (3, 7) ∷ (4, 4) ∷ []

abbrev behind : Cells ℕ
behind = (3, 7) ∷ (4, 4) ∷ []

abbrev even : ℕ → Bool
even v = v % 2 == 0

store-Chain : Chain store ((1, 0) ∷ cells) null
store-Chain = (
  omega arith,
  refl,
  refl,
  (omega arith, refl, refl, (omega arith, refl, refl, (omega arith, refl, refl, tt))),
)

other-Chain : Chain store ((9, 0) ∷ []) null
other-Chain = (omega arith, refl, refl, tt)

-- An allocator with one place, the address 5.
abbrev allocate_five : Heap ℕ → Option Ptr
allocate_five h = elim (h 5) [ none ↦ some 5 | some n ↦ none ]

five-ne_null : (h : Heap ℕ) (p : Ptr) → allocate_five h ≡ some p → p ≢ null
five-ne_null h p e = ground arith

five-unused : (h : Heap ℕ) (p : Ptr) → allocate_five h ≡ some p → h p ≡ none
five-unused h p e = ground arith

abbrev five : Allocator ℕ
five = record { allocate = allocate_five; ne_null = five-ne_null; unused = five-unused }

-- An allocator with two places, the addresses 5 and 6.
abbrev allocate_two : Heap ℕ → Option Ptr
allocate_two h = elim (h 5) [
  | none ↦ some 5
  | some n ↦ elim (h 6) [ none ↦ some 6 | some m ↦ none ]
]

two-ne_null : (h : Heap ℕ) (p : Ptr) → allocate_two h ≡ some p → p ≢ null
two-ne_null h p e = ground arith

two-unused : (h : Heap ℕ) (p : Ptr) → allocate_two h ≡ some p → h p ≡ none
two-unused h p e = ground arith

abbrev two : Allocator ℕ
two = record { allocate = allocate_two; ne_null = two-ne_null; unused = two-unused }

ltb_asymm : (u v : ℕ) → ltb u v ≡ true → ltb v u ≡ false
ltb_asymm u v h = ground arith

reverse-Rewrites_example :
    Returns (reverse 4 1 store) (λ _. Rewrites store ((1, 0) ∷ cells) ((1, 0) ∷ List.reverse cells))
reverse-Rewrites_example = reverse-Rewrites 4 store 1 0 cells (omega arith) store-Chain

remove_if-Rewrites_example : Returns (remove_if even 4 1 store) λ n g.
    (n + length (kept even cells) ≡ 3)
    × Rewrites store ((1, 0) ∷ cells) ((1, 0) ∷ kept even cells) g
remove_if-Rewrites_example = remove_if-Rewrites even 4 store 1 0 cells (omega arith) store-Chain

construct_range-Appends_example :
    Appends two store 9 0 (3 ∷ 8 ∷ []) (construct_range two 9 (3 ∷ 8 ∷ []) store)
construct_range-Appends_example = construct_range-Appends two store 9 0 3 (8 ∷ []) other-Chain

resize-Rewrites_example :
    Returns
      (resize five 4 1 2 8 store)
      (λ _. Rewrites store ((1, 0) ∷ cells) ((1, 0) ∷ take 2 cells))
resize-Rewrites_example =
    resize-Rewrites five 4 store 1 0 cells 2 8 (omega arith) (omega arith) store-Chain

unique-Rewrites_example : Returns (unique ◌==◌ 4 1 store) λ n g.
    (n + length (distinct ◌==◌ cells) ≡ 3)
    × Rewrites store ((1, 0) ∷ cells) ((1, 0) ∷ distinct ◌==◌ cells) g
unique-Rewrites_example = unique-Rewrites ◌==◌ 4 store 1 0 cells (omega arith) store-Chain

sort-Sorted_example : Returns (sort ltb 3 3 1 store) (λ _. Sorted ltb store (1, 0) cells)
unfolding inversions
sort-Sorted_example =
    sort-Sorted ltb ltb_asymm 3 3 store 1 0 cells (omega arith) (omega arith) store-Chain

merge_loses_nodes_example : Returns (merge ltb 4 9 1 store) λ _ g.
    Chain g ((9, 0) ∷ (2, 7) ∷ []) null
    × Chain g ((1, 0) ∷ []) null
    × ((a : Ptr) → a ∈ behind → g a ≡ store a)
merge_loses_nodes_example =
    merge_loses_nodes ltb 4 store 9 1 2 0 0 7 behind (omega arith) other-Chain store-Chain refl

abbrev no_cells : Cells ℕ
no_cells = []

heads_apart : (a : Ptr) → a ∈ ((9, 0) ∷ no_cells) → a ∉ ((1, 0) ∷ cells)
heads_apart a i = ground arith
