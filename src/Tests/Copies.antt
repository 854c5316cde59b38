-- ===== src/Tests/Copies.antt =====
-- The numbers from 1 to 10 copied as in the tests of Metaprogramming/output_iterators.
use always_be_learning.Common.{ℕ, ◌%◌, ◌*◌, ◌==◌, ◌+◌, some, ◌≡◌, refl, List, [], ◌∷◌}
use always_be_learning.OutputIterators.Tuple.{
  Tuple, tuple_find_if, tuple_find_if_from, tuple_accumulate,
}
use always_be_learning.OutputIterators.Iterators.{
  copy, back_inserter, DemuxBranch, output_demux, output_multitransform, output_unzip, unzip_alt,
}
use always_be_learning.OutputIterators.Splitting.{share, copy-demux, unzip_alt-unzip}

abbrev coll : List ℕ
coll = 1 ∷ 2 ∷ 3 ∷ 4 ∷ 5 ∷ 6 ∷ 7 ∷ 8 ∷ 9 ∷ 10 ∷ []

abbrev multiples : ℕ → DemuxBranch (List ℕ) ℕ
multiples n = record { predicate = λ val. val % n == 0; iterator = [] }

abbrev branches : Tuple (DemuxBranch (List ℕ) ℕ) 3
branches = (multiples 3, (multiples 2, (multiples 1, tt)))

multiples_of_3 : (copy (output_demux back_inserter 3) coll branches).0.iterator ≡ 3 ∷ 6 ∷ 9 ∷ []
unfolding copy output_demux
multiples_of_3 = refl

squares_and_cubes :
    copy
      (output_multitransform back_inserter 2 ((λ val. val * val), ((λ val. val * val * val), tt)))
      (1 ∷ 2 ∷ 3 ∷ [])
      ([], ([], tt))
    ≡ (1 ∷ 4 ∷ 9 ∷ [], (1 ∷ 8 ∷ 27 ∷ [], tt))
unfolding copy output_multitransform
squares_and_cubes = refl

copy-demux_example :
    copy (output_demux back_inserter 3) coll branches ≡ share back_inserter 3 coll branches
copy-demux_example = copy-demux back_inserter 3 coll branches

unzip_alt-unzip_example :
    copy (unzip_alt (back_inserter {A = ℕ}) 2) ((1, (2, tt)) ∷ (3, (4, tt)) ∷ []) ([], ([], tt))
    ≡ copy
        (output_unzip (back_inserter {A = ℕ}) 2)
        ((1, (2, tt)) ∷ (3, (4, tt)) ∷ [])
        ([], ([], tt))
unzip_alt-unzip_example =
    unzip_alt-unzip (back_inserter {A = ℕ}) 2 ((1, (2, tt)) ∷ (3, (4, tt)) ∷ []) ([], ([], tt))

even_found : tuple_find_if 3 (λ val. val % 2 == 0) (5, (8, (9, tt))) ≡ some 1
unfolding tuple_find_if tuple_find_if_from
even_found = refl

summed : tuple_accumulate 3 (5, (8, (9, tt))) 0 (λ total val. total + val) ≡ some 22
unfolding tuple_accumulate
summed = refl
