-- ===== src/Typelist/MostDerived.antt =====
-- Metaprogramming/typelist/most_derived.hpp: in a family of types that derive from one another, the
-- most derived one is found.
use mathlib.Core.List.{Mem, mem-cons_self, mem-cons_of_mem, not-mem-nil, forall_mem-cons}
use mathlib.Core.Bool.{Bool-set}
use always_be_learning.Common.{
  true, false, Bool-cases, ◌≡◌, ◌⊎◌, inl, inr, refl, List, [], ◌∷◌, ◌++◌,
}
use always_be_learning.Typelist.Meta.{names, Types, is_derived_from_v}
use always_be_learning.Typelist.Derived.{most_derived_t}

module _ {ℓ} {A : Type ℓ} ⦃t : Types A⦄ where
  abbrev pub Derives : A → A → Type 0
  Derives a b = is_derived_from_v a b ≡ true

  -- a type of the list that derives from all of them
  pub record Bottom (types : List A) (a : A) : Type ℓ where
    pub member : Mem a types
    pub derives : (b : A) → Mem b types → Derives a b

  -- Any two types of the list derive one from the other, and deriving is transitive.
  pub record Family (types : List A) : Type ℓ where
    pub comparable : (a b : A) → Mem a types → Mem b types → Derives a b ⊎ Derives b a
    pub trans : (a b c : A) → Derives a b → Derives b c → Derives a c

  Family-tail : {a : A} {types : List A} → Family (a ∷ types) → Family types
  Family-tail {a} fam = record {
    comparable = λ b c m n. fam.comparable b c (mem-cons_of_mem a m) (mem-cons_of_mem a n);
    trans = fam.trans;
  }

  Derives-self : {types : List A} → Family types → (a : A) → Mem a types → Derives a a
  Derives-self fam a m = elim (fam.comparable a a m m) [ inl d ↦ d | inr d ↦ d ]

  Derives-all :
      {a : A} (b : A) {types : List A}
      → Derives b a
      → ((c : A) → Mem c types → Derives b c)
      → (c : A) → Mem c (a ∷ types)
      → Derives b c
  Derives-all b h hs = (forall_mem-cons (λ c. Bool-set _ _)).1 (h, hs)

  keep-Bottom : {a b : A} {types : List A} → Bottom types b → Derives b a → Bottom (a ∷ types) b
  keep-Bottom {a} low h = record {
    member = mem-cons_of_mem a low.member;
    derives = Derives-all _ h low.derives;
  }

  new-Bottom :
      {a b : A} {types : List A}
      → Family (a ∷ types)
      → Bottom types b
      → Derives a b
      → Bottom (a ∷ types) a
  new-Bottom {a} {b} fam low h = record {
    member = mem-cons_self;
    derives =
        Derives-all a (Derives-self fam a mem-cons_self) λ c m. fam.trans a b c h (low.derives c m);
  }

  other_way :
      {a b : A} {types : List A}
      → Family types
      → Mem a types
      → Mem b types
      → is_derived_from_v a b ≡ false
      → Derives b a
  other_way {a} {b} fam m n h = elim (fam.comparable a b m n) [ inl d ↦ absurd cc | inr d ↦ d ]

  -- In a family of types, the most derived of a list and a base is one of them, and derives from
  -- all of them.
  pub most_derived_t-Bottom :
      (a : A) (rest : List A) (base : A)
      → Family (a ∷ rest ++ base ∷ [])
      → (m : A) × (most_derived_t (a ∷ rest) base ≡ names m) × Bottom (a ∷ rest ++ base ∷ []) m
  unfolding most_derived_t
  most_derived_t-Bottom a [] base fam =
      let alone : Bottom (base ∷ []) base = record {
        member = mem-cons_self;
        derives =
            Derives-all base (Derives-self fam base (mem-cons_of_mem a mem-cons_self))
              λ c m. absurd (not-mem-nil m);
      } in
      elim (Bool-cases (is_derived_from_v a base)) [
        | inl d ↦ (a, rw d refl, new-Bottom fam alone d)
        | inr d ↦
            let back = other_way fam mem-cons_self (mem-cons_of_mem a mem-cons_self) d in
            (base, rw d refl, keep-Bottom alone back)
      ]
  most_derived_t-Bottom a (b ∷ rest) base fam =
      let (c, named, low) = most_derived_t-Bottom b rest base (Family-tail fam) in
      elim (Bool-cases (is_derived_from_v c a)) [
        | inl d ↦ (c, rw (named, d) refl, keep-Bottom low d)
        | inr d ↦
            let back = other_way fam (mem-cons_of_mem a low.member) mem-cons_self d in
            (a, rw (named, d) refl, new-Bottom fam low back)
      ]
