-- ===== src/Typelist/Fronted.antt =====
-- Metaprogramming/typelist/most_derived_first.hpp and replace.hpp: the most derived type changes places
-- with the first one.
use mathlib.Core.Logic.Or
use mathlib.Core.List.{
  Mem, Mem-prop, Nodup, Nodup-cons, mem-cons, mem-cons_of_mem, not-mem-nil, mem-append,
}
use always_be_learning.Common.{◌≡◌, ◌⊎◌, inl, inr, refl, sym, ap, List, [], ◌∷◌, ◌++◌}
use always_be_learning.Typelist.Meta.{names, Types}
use always_be_learning.Typelist.Same.{is_same_v_refl, is_same_v_ne}
use always_be_learning.Typelist.Algorithms.{replace_t}
use always_be_learning.Typelist.Derived.{most_derived_first_t}
use always_be_learning.Typelist.MostDerived.{Family, Bottom, most_derived_t-Bottom}

module _ {ℓ} {A : Type ℓ} ⦃t : Types A⦄ where
  replace_absent : (xs : List A) (s r : A) → ¬ Mem s xs → replace_t xs s r ≡ xs
  unfolding replace_t
  replace_absent [] s r n = refl
  replace_absent (x ∷ xs) s r n =
      rw (is_same_v_ne λ e. n (mem-cons.1 (Or.inl (sym e))))
        (ap (◌∷◌ x) (replace_absent xs s r λ m. n (mem-cons_of_mem x m)))

  replace_same : (xs : List A) (s : A) → replace_t xs s s ≡ xs
  unfolding replace_t
  replace_same [] s = refl
  replace_same (x ∷ xs) s = elim (t.same x s) [
    | yes e ↦ rw (is_same_v_refl e, replace_same xs s) (ap (λ y. y ∷ xs) (sym e))
    | no n ↦ rw (is_same_v_ne n, replace_same xs s) refl
  ]

  mem_tail : {m x : A} {xs : List A} → ¬ (x ≡ m) → Mem m (x ∷ xs) → Mem m xs
  mem_tail n m = Or.elim Mem-prop (mem-cons.0 m) (λ e. absurd (n (sym e))) λ r. r

  -- In the list that begins with `a` and goes on with `types`, `a` and `m` change places; `tail` is
  -- what follows `m` then.
  abbrev pub Exchanged : A → List A → A → List A → Type ℓ
  Exchanged a types m tail =
      ((m ≡ a) × (tail ≡ types))
      ⊎ ((ws : List A) × (zs : List A) × (types ≡ ws ++ m ∷ zs) × (tail ≡ ws ++ a ∷ zs))

  -- where the replaced type stands once, the other takes its place
  replace_split :
      (xs : List A) (m a : A)
      → Nodup xs
      → Mem m xs
      → (ws : List A) × (zs : List A) × (xs ≡ ws ++ m ∷ zs) × (replace_t xs m a ≡ ws ++ a ∷ zs)
  unfolding replace_t
  replace_split [] m a d h = absurd (not-mem-nil h)
  replace_split (x ∷ xs) m a d h = elim (t.same x m) [
    | yes e ↦
        let absent = replace_absent xs m a (λ r. (Nodup-cons.0 d).0 (rw e r)) in
        ([], xs, ap (λ y. y ∷ xs) e, rw (is_same_v_refl e, absent) refl)
    | no n ↦
        let (ws, zs, whole, replaced) = replace_split xs m a (Nodup-cons.0 d).1 (mem_tail n h) in
        (x ∷ ws, zs, ap (◌∷◌ x) whole, rw (is_same_v_ne n) (ap (◌∷◌ x) replaced))
  ]

  mem_front : {m a : A} {xs : List A} → ¬ (m ≡ a) → Mem m (xs ++ a ∷ []) → Mem m xs
  mem_front n h =
      Or.elim Mem-prop (mem-append.0 h) (λ r. r)
        λ r. Or.elim Mem-prop (mem-cons.0 r) (λ e. absurd (n e)) λ q. absurd (not-mem-nil q)

  replace-Exchanged :
      (xs : List A) (m a : A)
      → Nodup xs
      → Mem m (xs ++ a ∷ [])
      → Exchanged a xs m (replace_t xs m a)
  replace-Exchanged xs m a d h = elim (t.same m a) [
    | yes e ↦ inl (e, rw e (replace_same xs a))
    | no n ↦ inr (replace_split xs m a d (mem_front n h))
  ]

  -- In a list of at least two types, any two of which derive one from the other, where deriving is
  -- transitive and those behind the first are all different, the first type and the one that derives
  -- from all of them change places, and the others stay where they are.
  pub most_derived_first_t-Exchanged :
      (a b : A) (rest : List A)
      → Family (b ∷ rest ++ a ∷ [])
      → Nodup (b ∷ rest)
      → (m : A) × (tail : List A) × (most_derived_first_t (a ∷ b ∷ rest) ≡ names (m ∷ tail))
        × Bottom (b ∷ rest ++ a ∷ []) m
        × Exchanged a (b ∷ rest) m tail
  unfolding most_derived_first_t
  most_derived_first_t-Exchanged a b rest fam d =
      let (m, named, low) = most_derived_t-Bottom b rest a fam in
      (
        m,
        replace_t (b ∷ rest) m a,
        rw named refl,
        low,
        replace-Exchanged (b ∷ rest) m a d low.member,
      )
