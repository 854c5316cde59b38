-- ===== src/Typelist/Laws.antt =====
-- Metaprogramming/typelist: the two list templates have the laws of the interface, and what the sort
-- of insertion_sort.hpp names for any template that has them.
use mathlib.Core.List.{Perm}
use always_be_learning.Common.{ℕ, ◌<◌, Bool, ◌≡◌, refl, ap, List, [], ◌∷◌, ◌++◌, map, length}
use always_be_learning.Typelist.Meta.{names}
use always_be_learning.Typelist.Operations.{is_empty_v}
use always_be_learning.Typelist.Interface.{
  ListLike, Laws, Gives, typelists, valuelists, CtValue, Valuelist, values_front, values_pop_front,
}
use always_be_learning.Typelist.Recursive.{insertion_sort_t}
use always_be_learning.Typelist.Sorting.{
  StrictWeakOrder, IsSorted, insertion_sort_alt_t-perm, insertion_sort_alt_t-IsSorted,
}
use always_be_learning.Typelist.Agreement.{insertion_sort_t-alt}

pub typelists-Laws {ℓ} : {A : Type ℓ} → Laws (typelists {A = A})
typelists-Laws = record {
  view = λ l. l;
  is_empty_law = λ l. refl;
  front_law = λ l a xs e. rw e refl;
  pop_front_law = λ l a xs e. record { list = xs; named = rw e refl; elements = refl };
  push_front_law = λ l a. record { list = a ∷ l; named = refl; elements = refl };
  push_back_law = λ l a. record { list = l ++ a ∷ []; named = refl; elements = refl };
}

module _ {ℓ} {V : Type ℓ} where
  abbrev ct_value : V → CtValue V
  ct_value v = record { value = v }

  front-values :
      (vs : List V) (a : CtValue V) (xs : List (CtValue V))
      → map ct_value vs ≡ a ∷ xs
      → values_front (record { values = vs }) ≡ names a
  front-values [] a xs e = absurd cc
  front-values (v ∷ vs) a xs e = ap names cc

  pop_front-values :
      (vs : List V) (a : CtValue V) (xs : List (CtValue V))
      → map ct_value vs ≡ a ∷ xs
      → Gives (λ l. map ct_value l.values) (values_pop_front (record { values = vs })) xs
  pop_front-values [] a xs e = absurd cc
  pop_front-values (v ∷ vs) a xs e = record {
    list = record { values = vs };
    named = refl;
    elements = cc;
  }

  map_empty : (vs : List V) → is_empty_v vs ≡ is_empty_v (map ct_value vs)
  map_empty [] = refl
  map_empty (v ∷ vs) = refl

  map-append :
      (vs : List V) (v : V) → map ct_value (vs ++ v ∷ []) ≡ map ct_value vs ++ ct_value v ∷ []
  map-append [] v = refl
  map-append (w ∷ vs) v = ap (◌∷◌ (ct_value w)) (map-append vs v)

  pub valuelists-Laws : Laws (valuelists {V = V})
  valuelists-Laws = record {
    view = λ l. map ct_value l.values;
    is_empty_law = λ l. map_empty l.values;
    front_law = λ l. front-values l.values;
    pop_front_law = λ l. pop_front-values l.values;
    push_front_law = λ l a. record {
      list = record { values = a.value ∷ l.values };
      named = refl;
      elements = refl;
    };
    push_back_law = λ l a. record {
      list = record { values = l.values ++ a.value ∷ [] };
      named = refl;
      elements = map-append l.values a.value;
    };
  }

  pub view-values : (l : Valuelist V) → valuelists-Laws.view l ≡ map ct_value l.values
  unfolding valuelists-Laws
  view-values l = refl

pub view-typelists {ℓ} : {A : Type ℓ} (l : List A) → typelists-Laws.view l ≡ l
unfolding typelists-Laws
view-typelists l = refl

module _ {ℓ κ} {A : Type ℓ} {L : Type κ} {ops : ListLike A L} (laws : Laws ops) where
  -- The sort of a list names a list that is sorted and has the same elements as often, given more
  -- nested instantiations than the list has elements and a comparison that is a strict weak order.
  pub insertion_sort_t-IsSorted :
      (compare : A → A → Bool) (order : StrictWeakOrder compare) (l : L) (depth : ℕ)
      → length (laws.view l) < depth
      → (r : L) × (insertion_sort_t ops depth l compare ≡ names r)
        × IsSorted compare (laws.view r)
        × Perm (laws.view r) (laws.view l)
  insertion_sort_t-IsSorted compare order l depth h =
      let g = insertion_sort_t-alt laws compare (laws.view l) l depth refl h in
      (
        g.list,
        g.named,
        rw g.elements (insertion_sort_alt_t-IsSorted compare order (laws.view l)),
        rw g.elements (insertion_sort_alt_t-perm compare (laws.view l)),
      )
