-- ===== src/Base/Chosen.antt =====
-- What `min`, `max` and `sorted` with a key take from their lists, and in which order.
use mathlib.Core.Path.{◌≡◌}
use mathlib.Core.Logic.{inl, inr}
use mathlib.Core.Bool.{Bool, true, false}
use mathlib.Core.List.{List, [], ◌∷◌}
use cana_tune_llm.Base.Tests.{if◌then◌else◌, Bool-cases, if_true, if_false}
use cana_tune_llm.Base.Lists.{All}
use cana_tune_llm.Base.Order.{Compared, is_less, min_by, max_by, insert_by, sort_by}
use mathlib.Core.Path.{subst}

module _ {ℓ κ} {A : Type ℓ} (P : A → Type κ) (key : A → A → Compared) where
  pick : (c : Bool) (x y : A) → P x → P y → P (if c then x else y)
  pick true x y h k = h
  pick false x y h k = k

  pub min_by-All : (best : A) (xs : List A) → P best → All P xs → P (min_by key best xs)
  unfolding min_by
  min_by-All best [] h a = h
  min_by-All best (x ∷ xs) h a =
      min_by-All (if is_less (key x best) then x else best) xs (pick _ x best a.0 h) a.1

  pub max_by-All : (best : A) (xs : List A) → P best → All P xs → P (max_by key best xs)
  unfolding max_by
  max_by-All best [] h a = h
  max_by-All best (x ∷ xs) h a =
      max_by-All (if is_less (key best x) then x else best) xs (pick _ x best a.0 h) a.1

  pub insert_by-All : (x : A) (ys : List A) → P x → All P ys → All P (insert_by key x ys)
  unfolding insert_by
  insert_by-All x [] h a = (h, tt)
  insert_by-All x (y ∷ ys) h a = elim (Bool-cases (is_less (key y x))) [
    | inl e ↦ rw e (a.0, insert_by-All x ys h a.1)
    | inr e ↦ rw e (h, a)
  ]

  pub sort_by-All : (xs : List A) → All P xs → All P (sort_by key xs)
  unfolding sort_by
  sort_by-All [] a = tt
  sort_by-All (x ∷ xs) a = insert_by-All x (sort_by key xs) a.0 (sort_by-All xs a.1)

-- Not being less is transitive.
abbrev pub IsWeak {ℓ} : {A : Type ℓ} → (A → A → Compared) → Type ℓ
IsWeak {A} key =
    (a b c : A) → is_less (key a b) ≡ false → is_less (key b c) ≡ false → is_less (key a c) ≡ false

abbrev pub IsTotal {ℓ} : {A : Type ℓ} → (A → A → Compared) → Type ℓ
IsTotal {A} key = (a b : A) → is_less (key a b) ≡ true → is_less (key b a) ≡ false

module _ {ℓ} {A : Type ℓ} (key : A → A → Compared) where
  -- Later items are not less than earlier ones.
  abbrev pub IsSorted : List A → Type ℓ
  IsSorted [] = Unit
  IsSorted (x ∷ xs) = All (λ y. is_less (key y x) ≡ false) xs × IsSorted xs

  pub insert_by_back {κ} :
      (P : A → Type κ) (x : A) (ys : List A) → All P (insert_by key x ys) → P x × All P ys
  unfolding insert_by
  insert_by_back P x [] h = (h.0, tt)
  insert_by_back P x (y ∷ ys) h = elim (Bool-cases (is_less (key y x))) [
    | inl e ↦
        let h' : All P (y ∷ insert_by key x ys) =
          subst (All P) (if_true (is_less (key y x)) (y ∷ insert_by key x ys) (x ∷ y ∷ ys) e) h in
        let (k, rest) = insert_by_back P x ys h'.1 in (k, (h'.0, rest))
    | inr e ↦ subst (All P) (if_false (is_less (key y x)) (y ∷ insert_by key x ys) (x ∷ y ∷ ys) e) h
  ]

  pub sort_by_back {κ} : (P : A → Type κ) (xs : List A) → All P (sort_by key xs) → All P xs
  unfolding sort_by
  sort_by_back P [] h = tt
  sort_by_back P (x ∷ xs) h =
      let (k, rest) = insert_by_back P x (sort_by key xs) h in (k, sort_by_back P xs rest)

  module _ (weak : IsWeak key) (total : IsTotal key) where
    not_less_trans :
        (x y : A) (ys : List A)
        → is_less (key y x) ≡ false
        → All (λ z. is_less (key z y) ≡ false) ys
        → All (λ z. is_less (key z x) ≡ false) ys
    not_less_trans x y [] h a = tt
    not_less_trans x y (z ∷ zs) h a = (weak z y x a.0 h, not_less_trans x y zs h a.1)

    insert_by-All_below :
        (x y : A) (ys : List A)
        → is_less (key x y) ≡ false
        → All (λ z. is_less (key z y) ≡ false) ys
        → All (λ z. is_less (key z y) ≡ false) (insert_by key x ys)
    unfolding insert_by
    insert_by-All_below x y [] h a = (h, tt)
    insert_by-All_below x y (w ∷ ws) h a = elim (Bool-cases (is_less (key w x))) [
      | inl e ↦ rw e (a.0, insert_by-All_below x y ws h a.1)
      | inr e ↦ rw e (h, a)
    ]

    insert_by-IsSorted : (x : A) (ys : List A) → IsSorted ys → IsSorted (insert_by key x ys)
    unfolding insert_by
    insert_by-IsSorted x [] s = (tt, tt)
    insert_by-IsSorted x (y ∷ ys) s = elim (Bool-cases (is_less (key y x))) [
      | inl e ↦ rw e (insert_by-All_below x y ys (total y x e) s.0, insert_by-IsSorted x ys s.1)
      | inr e ↦ rw e ((e, not_less_trans x y ys e s.0), s)
    ]

    pub sort_by-IsSorted : (xs : List A) → IsSorted (sort_by key xs)
    unfolding sort_by
    sort_by-IsSorted [] = tt
    sort_by-IsSorted (x ∷ xs) = insert_by-IsSorted x (sort_by key xs) (sort_by-IsSorted xs)

-- A comparison that says which of two items is below the other.
abbrev pub Decides {ℓ κ} : {A : Type ℓ} → (A → A → Compared) → (A → A → Type κ) → A → A → Type κ
Decides key Below a b =
    (is_less (key a b) ≡ true → Below a b) × (is_less (key a b) ≡ false → Below b a)

-- What `min` takes is below every item, when the key decides a transitive relation on good items.
module _ {ℓ κ} {A : Type ℓ} (key : A → A → Compared) (Below : A → A → Type κ) (Good : A → Type κ)
    (decides : (a b : A) → Good a → Good b → Decides key Below a b)
    (trans : (a b c : A) → Below a b → Below b c → Below a c)
    (same : (a : A) → Good a → Below a a) where
  next : A → A → A
  next best x = if is_less (key x best) then x else best

  next-Good : (best x : A) → Good best → Good x → Good (next best x)
  unfolding next
  next-Good best x g h = elim (Bool-cases (is_less (key x best))) [
    | inl e ↦ rw e h
    | inr e ↦ rw e g
  ]

  next-Below : (best x : A) → Good best → Good x → Below (next best x) best × Below (next best x) x
  unfolding next
  next-Below best x g h = elim (Bool-cases (is_less (key x best))) [
    | inl e ↦ rw e ((decides x best h g).0 e, same x h)
    | inr e ↦ rw e (same best g, (decides x best h g).1 e)
  ]

  pub min_by-Below :
      (best : A) (xs : List A)
      → Good best
      → All Good xs
      → Below (min_by key best xs) best × All (Below (min_by key best xs)) xs
  unfolding min_by next
  min_by-Below best [] g all = (same best g, tt)
  min_by-Below best (x ∷ xs) g all =
      let (to_best, to_x) = next-Below best x g all.0 in
      let (b, rest) = min_by-Below (next best x) xs (next-Good best x g all.0) all.1 in
      (trans _ _ _ b to_best, (trans _ _ _ b to_x, rest))
