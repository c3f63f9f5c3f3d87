-- ===== src/Router/Choose/Order.antt =====
-- Which feasible route `_choose` (router.py) takes: the most loaded group, or with `fill` the first
-- group in the fixed order that has room.
use cana_tune_llm.Base.{
  ◌≡◌, refl, true, false, none, some, List, [], ◌∷◌, Float, All, arith, inl, inr, Bool-cases,
  if_true, if_false, subst, ℤ, ◌≤ℤ◌, any, sym, ◌∙◌, ap, Option-cases, some_injective, Compared,
  is_less, max_by, sort_by, IsWeak, IsTotal, IsSorted, sort_by_back, sort_by-IsSorted,
}
use cana_tune_llm.Router.Settings.{GroupChoice}
use cana_tune_llm.Router.State.{Router}
use cana_tune_llm.Router.Candidates.{Assessment}
use cana_tune_llm.Router.Choose.{
  order_key, load_key, first_room, or_spread, choose_fill, max_of, by_choice, has_room,
}
use cana_tune_llm.Router.Choose.Member.{OnSome}

module _ {ℓ} {A : Type ℓ} (key : A → A → Compared) where
  -- A key whose first part compares `count`.
  abbrev Counts : (A → ℤ) → Type ℓ
  Counts count =
      (a b : A)
      → (is_less (key a b) ≡ true → count a ≤ℤ count b)
        × (is_less (key a b) ≡ false → count b ≤ℤ count a)

  max_by-ge_best :
      (count : A → ℤ) (counts : Counts count) (best : A) (xs : List A)
      → count best ≤ℤ count (max_by key best xs)
  unfolding max_by
  max_by-ge_best count counts best [] = omega arith
  max_by-ge_best count counts best (x ∷ xs) = elim (Bool-cases (is_less (key best x))) [
    | inl e ↦ rw e (omega (arith, (counts best x).0 e, max_by-ge_best count counts x xs))
    | inr e ↦ rw e (max_by-ge_best count counts best xs)
  ]

  max_by-All_below :
      (count : A → ℤ) (counts : Counts count) (best : A) (xs : List A) (m : ℤ)
      → count (max_by key best xs) ≤ℤ m
      → All (λ x. count x ≤ℤ m) xs
  unfolding max_by
  max_by-All_below count counts best [] m h = tt
  max_by-All_below count counts best (x ∷ xs) m h = elim (Bool-cases (is_less (key best x))) [
    | inl e ↦
        let h' =
          subst (λ b. count (max_by key b xs) ≤ℤ m) (if_true (is_less (key best x)) x best e) h in
        (
          omega (arith, h', max_by-ge_best count counts x xs),
          max_by-All_below count counts x xs m h',
        )
    | inr e ↦
        let h' =
          subst (λ b. count (max_by key b xs) ≤ℤ m) (if_false (is_less (key best x)) x best e) h in
        (
          omega (arith, h', (counts best x).1 e, max_by-ge_best count counts best xs),
          max_by-All_below count counts best xs m h',
        )
  ]

module _ {F : Type 0} ⦃num : Float F⦄ (r : Router F) (now : F) where
  load_key-Counts : Counts (load_key r now) (λ a. (r.groups a.route.p).n_inflight)
  unfolding load_key
  load_key-Counts a b = (ground arith, ground arith)

  pub choose_concentrate-most :
      (xs : List (Assessment F))
      → OnSome
          (λ b. All (λ a. (r.groups a.route.p).n_inflight ≤ℤ (r.groups b.route.p).n_inflight) xs)
          (by_choice r now GroupChoice.concentrate xs)
  unfolding by_choice max_of
  choose_concentrate-most [] = tt
  choose_concentrate-most (x ∷ xs) =
      let count = λ (a : Assessment F). (r.groups a.route.p).n_inflight in
      (
        max_by-ge_best (load_key r now) count load_key-Counts x xs,
        max_by-All_below (load_key r now) count load_key-Counts x xs
            (count (max_by (load_key r now) x xs)) (omega arith),
      )

  order_key-IsWeak : IsWeak (order_key r now)
  unfolding order_key
  order_key-IsWeak a b c h k = ground arith

  order_key-IsTotal : IsTotal (order_key r now)
  unfolding order_key
  order_key-IsTotal a b h = ground arith

  order_key-irreflexive : (a : Assessment F) → is_less (order_key r now a a) ≡ false
  order_key-irreflexive a = elim (Bool-cases (is_less (order_key r now a a))) [
    | inl e ↦ order_key-IsTotal a a e
    | inr e ↦ e
  ]

  -- No item with room has a smaller key in the fixed order.
  abbrev pub Precedes : Assessment F → Assessment F → Type 0
  Precedes b a = has_room r now a ≡ true → is_less (order_key r now a b) ≡ false

  All-Precedes :
      (b : Assessment F) (xs : List (Assessment F))
      → All (λ y. is_less (order_key r now y b) ≡ false) xs
      → All (Precedes b) xs
  All-Precedes b [] h = tt
  All-Precedes b (x ∷ xs) h = (λ room. h.0, All-Precedes b xs h.1)

  first_room-Precedes :
      (xs : List (Assessment F)) (s : IsSorted (order_key r now) xs) (b : Assessment F)
      → first_room r now xs ≡ some b
      → has_room r now b ≡ true × All (Precedes b) xs
  unfolding first_room
  first_room-Precedes [] s b e = ground arith
  first_room-Precedes (x ∷ xs) s b e = elim (Bool-cases (has_room r now x)) [
    | inl t ↦
        let e' = sym (if_true (has_room r now x) (some x) (first_room r now xs) t) ∙ e in
        let same = some_injective e' in
        subst (λ y. has_room r now y ≡ true × All (Precedes y) (x ∷ xs)) same
          (t, ((λ room. order_key-irreflexive x), All-Precedes x xs s.0))
    | inr f ↦
        let e' = sym (if_false (has_room r now x) (some x) (first_room r now xs) f) ∙ e in
        let (t, rest) = first_room-Precedes xs s.1 b e' in (t, ((λ room. ground arith), rest))
  ]

  first_room-none :
      (xs : List (Assessment F))
      → first_room r now xs ≡ none
      → All (λ a. has_room r now a ≡ false) xs
  unfolding first_room
  first_room-none [] e = tt
  first_room-none (x ∷ xs) e = elim (Bool-cases (has_room r now x)) [
    | inl t ↦
        let e' = sym (if_true (has_room r now x) (some x) (first_room r now xs) t) ∙ e in
        ground arith
    | inr f ↦
        let e' = sym (if_false (has_room r now x) (some x) (first_room r now xs) f) ∙ e in
        (f, first_room-none xs e')
  ]

  any-false :
      (xs : List (Assessment F))
      → All (λ a. has_room r now a ≡ false) xs
      → any (has_room r now) xs ≡ false
  any-false [] h = refl
  any-false (x ∷ xs) h =
      if_false (has_room r now x) true (any (has_room r now) xs) h.0 ∙ any-false xs h.1

  pub choose_fill-first :
      (xs : List (Assessment F)) (b : Assessment F)
      → any (has_room r now) xs ≡ true
      → choose_fill r now xs ≡ some b
      → has_room r now b ≡ true × All (Precedes b) xs
  unfolding choose_fill or_spread
  choose_fill-first xs b room e =
      let order = sort_by (order_key r now) xs in
      elim (Option-cases (first_room r now order)) [
        | inl f ↦
            let shut = any-false xs (
              sort_by_back (order_key r now) (λ a. has_room r now a ≡ false) xs
                (first_room-none order f)) in
            ground arith
        | inr (c, f) ↦
            let e' = some_injective (subst (λ o. or_spread r now o order ≡ some b) f e) in
            let (t, rest) =
              first_room-Precedes order
                (sort_by-IsSorted (order_key r now) order_key-IsWeak order_key-IsTotal xs) b
                (f ∙ ap some e') in
            (t, sort_by_back (order_key r now) (Precedes b) xs rest)
      ]
