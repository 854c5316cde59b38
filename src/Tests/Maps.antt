-- ===== src/Tests/Maps.antt =====
-- Tables from numbers to numbers, where a number is its own hash.
use always_be_learning.HashMap.Copy.{copy_construct, copy_assign, copy-lookup}
use always_be_learning.Common.{
  ℕ, ◌≡◌, refl, true, not, none, some, List, [], ◌∷◌, arith, ◌==◌, ==-refl, eq_of_==, to_nat,
}
use always_be_learning.HashMap.Key.{Key}
use always_be_learning.HashMap.Table.{
  HashMap, ok, out_of_range, size, insert, insert_or_assign, erase, at, rehash,
}
use always_be_learning.HashMap.Entries.{assoc, is_none, get_or}
use always_be_learning.HashMap.Slots.{IsValid, lookup, Stores}
use always_be_learning.HashMap.Operations.{
  insert-Stores, insert_or_assign-Stores, erase-Stores, at-lookup,
}
use always_be_learning.HashMap.Rehash.{rehash-lookup}

eq_of_native : (a b : ℕ) → (a == b) ≡ true → a ≡ b
eq_of_native a b h = eq_of_== h

instance abbrev own_hash : Key ℕ
own_hash = record { equal = ◌==◌; hash = λ a. a; equal_refl = ==-refl; eq_of_equal = eq_of_native }

abbrev pair_of_buckets : HashMap ℕ ℕ
pair_of_buckets = record {
  bucket_count = 2;
  buckets = ((4, 40) ∷ (2, 20) ∷ []) ∷ ((1, 10) ∷ []) ∷ [];
  count = 3;
}

pair-IsValid : IsValid pair_of_buckets
unfolding assoc
pair-IsValid = record {
  width = refl;
  positive = omega arith;
  counted = refl;
  placed = ((refl, (refl, tt)), (refl, (refl, tt)), ((refl, tt), (refl, tt), tt));
}

five-absent : lookup pair_of_buckets 5 ≡ none
unfolding lookup assoc
five-absent = refl

abbrev twice : List (ℕ × ℕ)
twice = (3, 30) ∷ (3, 31) ∷ []

insert-Stores_example :
    (m : HashMap ℕ ℕ) × (insert pair_of_buckets 4 7 ≡ ok (m, is_none (lookup pair_of_buckets 4)))
    × Stores pair_of_buckets 4 (some (get_or (lookup pair_of_buckets 4) 7)) m
insert-Stores_example = insert-Stores pair_of_buckets 4 7 pair-IsValid

insert_or_assign-Stores_example :
    (m : HashMap ℕ ℕ) × (insert_or_assign pair_of_buckets 2 7
      ≡ ok (m, is_none (lookup pair_of_buckets 2)))
    × Stores pair_of_buckets 2 (some 7) m
insert_or_assign-Stores_example = insert_or_assign-Stores pair_of_buckets 2 7 pair-IsValid

erase-Stores_example :
    (m : HashMap ℕ ℕ) × (erase pair_of_buckets 4
      ≡ ok (m, to_nat (not (is_none (lookup pair_of_buckets 4)))))
    × Stores pair_of_buckets 4 none m
erase-Stores_example = erase-Stores pair_of_buckets 4 pair-IsValid

at-lookup_example :
    at pair_of_buckets 2
    ≡ elim (lookup pair_of_buckets 2) [ some v ↦ ok (2, v) | none ↦ out_of_range ]
at-lookup_example = at-lookup pair_of_buckets 2 pair-IsValid

rehash-lookup_example :
    (m : HashMap ℕ ℕ) × (rehash [] 4 pair_of_buckets 7 ≡ ok m)
    × IsValid m
    × (m.bucket_count ≡ 7)
    × (size m ≡ size pair_of_buckets)
    × ((q : ℕ) → lookup m q ≡ lookup pair_of_buckets q)
unfolding size
rehash-lookup_example =
    rehash-lookup [] 4 pair_of_buckets 7 pair-IsValid (omega arith) (omega arith)

copy-lookup_example :
    (m : HashMap ℕ ℕ) × (copy_construct (λ n. 9) 4 pair_of_buckets ≡ ok m)
    × (copy_assign (λ n. 9) 4 pair_of_buckets ≡ ok m)
    × IsValid m
    × (size m ≡ size pair_of_buckets)
    × ((q : ℕ) → lookup m q ≡ lookup pair_of_buckets q)
unfolding size
copy-lookup_example = copy-lookup (λ n. 9) 4 pair_of_buckets pair-IsValid (omega arith) refl
