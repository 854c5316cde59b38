-- ===== src/Typelist/Folds.antt =====
-- Metaprogramming/typelist: accumulate, transform, nth_element, largest_type and find_index_of in
-- their two versions.
use always_be_learning.Common.{
  ℕ, zero, suc, ◌+◌, ◌<◌, ◌≤◌, ◌%◌, ◌^◌, arith, true, Bool-cases, ◌≡◌, refl, sym, ◌∙◌, inl, inr,
  List, [], ◌∷◌, length, leb, if◌then◌else◌,
}
use always_be_learning.Typelist.Meta.{Meta, names, ill_formed, too_deep, ◌>>=◌, Types, is_same_v}
use always_be_learning.Typelist.Algorithms.{
  accumulate_t, transform_t, nth_element_t, largest_type_t, find_index_of_from,
}
use always_be_learning.Typelist.Interface.{ListLike, Laws, Gives}
use always_be_learning.Typelist.Recursive.{
  accumulate_alt_t, transform_alt_t, nth_element_alt_t, largest_type_alt_t, find_index_of_alt_from,
}
use always_be_learning.Typelist.Same.{is_same_v_comm}
use always_be_learning.Typelist.Agreement.{Gives-bind, names-Gives, is_empty_at, push_front-Gives}

module _ {ℓ κ} {A : Type ℓ} {B : Type κ} where
  bind-cong : (m : Meta A) {k h : A → Meta B} → ((a : A) → k a ≡ h a) → (m >>= k) ≡ (m >>= h)
  bind-cong (names a) e = e a
  bind-cong ill_formed e = refl
  bind-cong too_deep e = refl

  bind_inv :
      (m : Meta A) {k : A → Meta B} {b : B}
      → (m >>= k) ≡ names b
      → (a : A) × (m ≡ names a) × (k a ≡ names b)
  bind_inv (names a) e = (a, refl, e)
  bind_inv ill_formed e = absurd cc
  bind_inv too_deep e = absurd cc

  accumulate_t-cons :
      (a : A) (xs : List A) (f : B → A → Meta B) (init : B)
      → accumulate_t (a ∷ xs) f init ≡ (f init a >>= λ next. accumulate_t xs f next)
  unfolding accumulate_t
  accumulate_t-cons a [] f init = right_unit (f init a)
    where
      right_unit : (m : Meta B) → m ≡ (m >>= λ b. names b)
      right_unit (names b) = refl
      right_unit ill_formed = refl
      right_unit too_deep = refl
  accumulate_t-cons a (b ∷ xs) f init = refl

module _ {ℓ} {A : Type ℓ} ⦃t : Types A⦄ where
  largest_type_t-cons :
      (a : A) (xs : List A)
      → t.size t.char ≤ t.size a
      → largest_type_t (a ∷ xs)
        ≡ (let tail = largest_type_t xs in if leb (t.size tail) (t.size a) then a else tail)
  unfolding largest_type_t
  largest_type_t-cons a [] h =
      let fits : leb (t.size t.char) (t.size a) ≡ true = ground arith in rw fits refl
  largest_type_t-cons a (b ∷ xs) h = refl

module _ {ℓ κ} {A : Type ℓ} {L : Type κ} {ops : ListLike A L} (laws : Laws ops) where
  -- `accumulate` by `front` and `pop_front` names the type that the one on packs does, or fails as it
  -- does, given more nested instantiations than the list has elements.
  pub accumulate_alt_t-accumulate_t {μ} :
      {B : Type μ} (xs : List A) (l : L) (depth : ℕ) (f : B → A → Meta B) (init : B)
      → laws.view l ≡ xs
      → length xs < depth
      → accumulate_alt_t ops depth l f init ≡ accumulate_t xs f init
  unfolding accumulate_alt_t accumulate_t
  accumulate_alt_t-accumulate_t xs l zero f init e h = absurd (omega arith)
  accumulate_alt_t-accumulate_t [] l (suc depth) f init e h =
      rw (accumulate_alt_t, is_empty_at laws l e) refl
  accumulate_alt_t-accumulate_t (a ∷ xs) l (suc depth) f init e h =
      let r = laws.pop_front_law l a xs e in
      rw
        (
          accumulate_alt_t,
          is_empty_at laws l e,
          r.named,
          laws.front_law l a xs e,
          accumulate_t-cons a xs f init,
        )
        (bind-cong (f init a)
          λ next. accumulate_alt_t-accumulate_t xs r.list depth f next r.elements (omega arith))

  -- where `transform` on packs names a list, the one by `front` and `pop_front` names it too
  pub transform_alt_t-transform_t :
      (xs : List A) (l : L) (depth : ℕ) (meta_fun : A → Meta A) (ys : List A)
      → laws.view l ≡ xs
      → length xs < depth
      → transform_t xs meta_fun ≡ names ys
      → Gives laws.view (transform_alt_t ops depth l meta_fun) ys
  unfolding transform_alt_t transform_t
  transform_alt_t-transform_t xs l zero f ys e h d = absurd (omega arith)
  transform_alt_t-transform_t [] l (suc depth) f ys e h d =
      rw (transform_alt_t, is_empty_at laws l e) (names-Gives laws (e ∙ cc))
  transform_alt_t-transform_t (a ∷ xs) l (suc depth) f ys e h d =
      let (b, fa, d') = bind_inv (f a) d in
      let (bs, rest, whole) = bind_inv (transform_t xs f) d' in
      let same : b ∷ bs ≡ ys = cc in
      rw (transform_alt_t, is_empty_at laws l e, laws.front_law l a xs e, fa)
        (Gives-bind laws (laws.pop_front_law l a xs e) λ r er.
          Gives-bind laws (transform_alt_t-transform_t xs r depth f bs er (omega arith) rest)
            λ s es. rw same at (push_front-Gives laws s b es))

  pub nth_element_alt_t-nth_element_t :
      (xs : List A) (l : L) (n : ℕ)
      → laws.view l ≡ xs
      → n < length xs
      → nth_element_alt_t ops l n ≡ nth_element_t xs n
  unfolding nth_element_alt_t nth_element_t
  nth_element_alt_t-nth_element_t [] l n e h = absurd (omega arith)
  nth_element_alt_t-nth_element_t (a ∷ xs) l zero e h = laws.front_law l a xs e
  nth_element_alt_t-nth_element_t (a ∷ xs) l (suc n) e h =
      let r = laws.pop_front_law l a xs e in
      rw r.named (nth_element_alt_t-nth_element_t xs r.list n r.elements (omega arith))

  module _ ⦃t : Types A⦄ where
    pub largest_type_alt_t-largest_type_t :
        (xs : List A) (l : L) (depth : ℕ)
        → laws.view l ≡ xs
        → length xs < depth
        → ((a : A) → t.size t.char ≤ t.size a)
        → largest_type_alt_t ops depth l ≡ names (largest_type_t xs)
    unfolding largest_type_alt_t largest_type_t
    largest_type_alt_t-largest_type_t xs l zero e h small = absurd (omega arith)
    largest_type_alt_t-largest_type_t [] l (suc depth) e h small =
        rw (largest_type_alt_t, is_empty_at laws l e) refl
    largest_type_alt_t-largest_type_t (a ∷ xs) l (suc depth) e h small =
        let r = laws.pop_front_law l a xs e in
        let rest =
          largest_type_alt_t-largest_type_t xs r.list depth r.elements (omega arith) small in
        rw
          (
            largest_type_alt_t,
            is_empty_at laws l e,
            r.named,
            laws.front_law l a xs e,
            rest,
            largest_type_t-cons a xs (small a),
          )
          refl

    pub find_index_of_alt-from :
        (xs : List A) (l : L) (depth : ℕ) (a : A) (n : ℕ)
        → laws.view l ≡ xs
        → length xs < depth
        → find_index_of_alt_from ops depth l a n ≡ find_index_of_from xs a n
    unfolding find_index_of_alt_from find_index_of_from
    find_index_of_alt-from xs l zero a n e h = absurd (omega arith)
    find_index_of_alt-from [] l (suc depth) a n e h =
        rw (find_index_of_alt_from, is_empty_at laws l e) refl
    find_index_of_alt-from (b ∷ xs) l (suc depth) a n e h =
        let r = laws.pop_front_law l b xs e in
        let rest =
          find_index_of_alt-from xs r.list depth a ((n + 1) % 2 ^ 32) r.elements (omega arith) in
        let shape = is_empty_at laws l e in
        let head = laws.front_law l b xs e in
        elim (Bool-cases (is_same_v b a)) [
          | inl p ↦
              rw
                (
                  find_index_of_alt_from,
                  shape,
                  head,
                  ◌>>=◌,
                  p,
                  find_index_of_from,
                  sym (is_same_v_comm b a) ∙ p,
                )
                refl
          | inr p ↦
              rw
                (
                  find_index_of_alt_from,
                  shape,
                  head,
                  ◌>>=◌,
                  p,
                  r.named,
                  rest,
                  find_index_of_from,
                  sym (is_same_v_comm b a) ∙ p,
                )
                refl
        ]
