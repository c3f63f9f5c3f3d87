-- ===== src/Base/Order.antt =====
-- Comparisons of Python's tuples by key, and `min`, `max` and `sorted` with a key.
use Prim.Native.Nat.{ℕ}
use mathlib.Core.Bool.{Bool, true, false}
use mathlib.Core.List.{List, [], ◌∷◌}
use cana_tune_llm.Base.Tests.{if◌then◌else◌, ltb}
use cana_tune_llm.Base.Int.{ℤ, ltb_ℤ}
use cana_tune_llm.Base.Floats.{Float}

-- Python compares tuples by their first parts that differ: what a key part says of two items.
pub data Compared : Type 0 where
  less equal greater : Compared

abbrev pub lexicographic : Compared → Compared → Compared
lexicographic less c = less
lexicographic greater c = greater
lexicographic equal c = c

abbrev pub by_int : ℤ → ℤ → Compared
by_int a b = if ltb_ℤ a b then less else if ltb_ℤ b a then greater else equal

abbrev pub by_nat : ℕ → ℕ → Compared
by_nat a b = if ltb a b then less else if ltb b a then greater else equal

abbrev pub by_bool : Bool → Bool → Compared
by_bool true b = if b then equal else greater
by_bool false b = if b then less else equal

abbrev pub by_float : {F : Type 0} ⦃num : Float F⦄ → F → F → Compared
by_float ⦃num⦄ a b = if num.eq a b then equal else if num.lt a b then less else greater

abbrev pub is_less : Compared → Bool
is_less less = true
is_less _ = false

-- `min(x, *xs, key=...)`: the first item that no other is less than; `max` with the roles swapped.
unfoldable pub min_by {ℓ} : {A : Type ℓ} → (A → A → Compared) → A → List A → A
min_by key best [] = best
min_by key best (x ∷ xs) = min_by key (if is_less (key x best) then x else best) xs

unfoldable pub max_by {ℓ} : {A : Type ℓ} → (A → A → Compared) → A → List A → A
max_by key best [] = best
max_by key best (x ∷ xs) = max_by key (if is_less (key best x) then x else best) xs

unfoldable pub insert_by {ℓ} : {A : Type ℓ} → (A → A → Compared) → A → List A → List A
insert_by key x [] = x ∷ []
insert_by key x (y ∷ ys) = if is_less (key y x) then y ∷ insert_by key x ys else x ∷ y ∷ ys

-- `sorted(xs, key=...)`, which is stable.
unfoldable pub sort_by {ℓ} : {A : Type ℓ} → (A → A → Compared) → List A → List A
unfolding insert_by
sort_by key [] = []
sort_by key (x ∷ xs) = insert_by key x (sort_by key xs)
