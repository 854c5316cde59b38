-- ===== src/Typelist/Duplicates.antt =====
-- Metaprogramming/typelist: erase.hpp and remove_duplicates.hpp.
use mathlib.Core.Logic.Or
use mathlib.Core.List.{
  Mem, Mem-prop, Pairwise, Pairwise-singleton, Nodup, Nodup-cons, erase, erase-cons-head,
  erase-cons-tail, erase-sublist, mem-cons, mem-cons_self, mem-cons_of_mem, not-mem-nil,
  mem_of_mem-erase, mem-erase_of_ne, Sublist,
}
use mathlib.Core.List.Nodup
use mathlib.Core.List.Sublist
use mathlib.Core.Path.{subst}
use always_be_learning.Common.{◌≡◌, ◌↔◌, refl, sym, List, [], ◌∷◌}
use always_be_learning.Typelist.Meta.{names, Types}
use always_be_learning.Typelist.Same.{is_same_v_refl, is_same_v_ne}
use always_be_learning.Typelist.Algorithms.{erase_t, remove_duplicates_t}

module _ {ℓ} {A : Type ℓ} ⦃t : Types A⦄ where
  erase_at : {a b : A} (rest : List A) → a ≡ b → erase t.same (b ∷ rest) a ≡ rest
  erase_at {a} rest e =
      subst (λ b. erase t.same (b ∷ rest) a ≡ rest) e (erase-cons-head t.same a rest)

  erase_t-erase :
      (b : A) (rest : List A) (a : A) → erase_t (b ∷ rest) a ≡ names (erase t.same (b ∷ rest) a)
  unfolding erase_t
  erase_t-erase b [] a = elim (t.same a b) [
    | yes e ↦ rw (is_same_v_refl e, erase_at [] e) refl
    | no n ↦ rw (is_same_v_ne n, erase-cons-tail t.same [] λ e. n (sym e)) refl
  ]
  erase_t-erase b (c ∷ rest) a = elim (t.same a b) [
    | yes e ↦ rw (erase_t-erase c rest a, is_same_v_refl e, erase_at (c ∷ rest) e) refl
    | no n ↦
        rw
          (erase_t-erase c rest a, is_same_v_ne n, erase-cons-tail t.same (c ∷ rest) λ e. n (sym e))
          refl
  ]

  -- What is left of a list without its duplicates: each type once, in the order of the list.
  pub record Pruned (xs ys : List A) : Type ℓ where
    pub distinct : Nodup ys
    pub members : (a : A) → Mem a ys ↔ Mem a xs
    pub in_order : Sublist ys xs

  same_list : (xs : List A) → Nodup xs → Pruned xs xs
  same_list xs h = record {
    distinct = h;
    members = λ a. (λ m. m, λ m. m);
    in_order = Sublist.refl xs;
  }

  members_step :
      {xs ys : List A} (a : A)
      → Pruned xs ys
      → (x : A) → Mem x (a ∷ erase t.same ys a) ↔ Mem x (a ∷ xs)
  members_step {xs} {ys} a pr x = (to, from)
    where
      to : Mem x (a ∷ erase t.same ys a) → Mem x (a ∷ xs)
      to m =
          Or.elim Mem-prop (mem-cons.0 m) (λ e. mem-cons.1 (Or.inl e))
            λ r. mem-cons_of_mem a ((pr.members x).0 (mem_of_mem-erase t.same a r))

      from : Mem x (a ∷ xs) → Mem x (a ∷ erase t.same ys a)
      from m = elim (t.same x a) [
        | yes e ↦ mem-cons.1 (Or.inl e)
        | no n ↦
            Or.elim Mem-prop (mem-cons.0 m) (λ e. mem-cons.1 (Or.inl e))
              λ r. mem-cons_of_mem a ((mem-erase_of_ne t.same n).1 ((pr.members x).1 r))
      ]

  erase_t-Pruned :
      {xs : List A} (a b : A) (ys : List A)
      → Mem b xs
      → Pruned xs ys
      → (zs : List A) × (erase_t ys a ≡ names zs) × Pruned (a ∷ xs) (a ∷ zs)
  erase_t-Pruned a b [] m pr = absurd (not-mem-nil ((pr.members b).1 m))
  erase_t-Pruned {xs} a b (c ∷ ys) m pr = (
    erase t.same (c ∷ ys) a,
    erase_t-erase c ys a,
    record {
      distinct = Nodup-cons.1 (
        (λ r. ((Nodup.mem-erase_iff t.same pr.distinct).0 r).0 refl),
        Nodup.sublist (erase-sublist t.same a) pr.distinct,
      );
      members = members_step a pr;
      in_order = Sublist.cons-cons a (Sublist.trans (erase-sublist t.same a) pr.in_order);
    },
  )

  -- `remove_duplicates` is defined for every list, and leaves each type once, in the order of the
  -- list.
  pub remove_duplicates_t-Pruned :
      (xs : List A) → (ys : List A) × (remove_duplicates_t xs ≡ names ys) × Pruned xs ys
  unfolding remove_duplicates_t
  remove_duplicates_t-Pruned [] = ([], refl, same_list [] Pairwise.nil)
  remove_duplicates_t-Pruned (a ∷ []) = (a ∷ [], refl, same_list (a ∷ []) (Pairwise-singleton _ a))
  remove_duplicates_t-Pruned (a ∷ b ∷ rest) =
      let (ys, named, pr) = remove_duplicates_t-Pruned (b ∷ rest) in
      let (zs, erased, pr') = erase_t-Pruned a b ys mem-cons_self pr in
      (a ∷ zs, rw (named, erased) refl, pr')
