-- ===== src/Base/Lists.antt =====
-- Lists measured and indexed by native numbers.
use Prim.Native.Nat.{ℕ, zero, suc, ◌+◌, ◌≤◌, ◌<◌}
use mathlib.Core.Path.{◌≡◌, refl, subst}
use mathlib.Core.Bool.{Bool, true, false, not}
use mathlib.Core.List.{List, [], ◌∷◌, ◌++◌}
use mathlib.Core.Option.{Option, none, some}
use native.Mathlib.Omega.{arith}
use cana_tune_llm.Base.Tests.{if◌then◌else◌, ◌>>=◌, some_injective, Option-cases}
use mathlib.Core.Logic.{inl, inr}

module _ {ℓ} {A : Type ℓ} where
  abbrev pub length : List A → ℕ
  length [] = 0
  length (x ∷ xs) = suc (length xs)

  abbrev pub get_elem? : List A → ℕ → Option A
  get_elem? [] i = none
  get_elem? (x ∷ xs) zero = some x
  get_elem? (x ∷ xs) (suc i) = get_elem? xs i

  -- A write out of bounds changes nothing.
  abbrev pub set : List A → ℕ → A → List A
  set [] i v = []
  set (x ∷ xs) zero v = v ∷ xs
  set (x ∷ xs) (suc i) v = x ∷ set xs i v

  abbrev pub All {κ} : (A → Type κ) → List A → Type κ
  All P [] = Unit
  All P (x ∷ xs) = P x × All P xs

  -- `[x for x in xs if p(x)]`
  abbrev pub keep_if : (A → Bool) → List A → List A
  keep_if p [] = []
  keep_if p (x ∷ xs) = if p x then x ∷ keep_if p xs else keep_if p xs

  -- `any(p(x) for x in xs)` and `all(...)`
  abbrev pub any : (A → Bool) → List A → Bool
  any p [] = false
  any p (x ∷ xs) = if p x then true else any p xs

  -- A sum over a list of natural weights.
  abbrev pub sum_by : (A → ℕ) → List A → ℕ
  sum_by f [] = 0
  sum_by f (x ∷ xs) = f x + sum_by f xs

  pub length-append : (xs ys : List A) → length (xs ++ ys) ≡ length xs + length ys
  length-append [] ys = omega arith
  length-append (x ∷ xs) ys = omega (arith, length-append xs ys)

  pub sum_by-append : (f : A → ℕ) (xs ys : List A) → sum_by f (xs ++ ys) ≡ sum_by f xs + sum_by f ys
  sum_by-append f [] ys = omega arith
  sum_by-append f (x ∷ xs) ys = omega (arith, sum_by-append f xs ys)

  -- A write moves the sum from the old element's weight to the new one's.
  pub sum_by-set :
      (f : A → ℕ) (xs : List A) (i : ℕ) (old new : A)
      → get_elem? xs i ≡ some old
      → sum_by f (set xs i new) + f old ≡ sum_by f xs + f new
  sum_by-set f [] i old new h = ground arith
  sum_by-set f (x ∷ xs) zero old new h = ground arith
  sum_by-set f (x ∷ xs) (suc i) old new h = omega (arith, sum_by-set f xs i old new h)

  pub le-sum_by :
      (f : A → ℕ) (xs : List A) (i : ℕ) (x : A) → get_elem? xs i ≡ some x → f x ≤ sum_by f xs
  le-sum_by f [] i x h = ground arith
  le-sum_by f (y ∷ ys) zero x h = ground arith
  le-sum_by f (y ∷ ys) (suc i) x h = omega (arith, le-sum_by f ys i x h)

  pub All-append {κ} : (P : A → Type κ) (xs ys : List A) → All P xs → All P ys → All P (xs ++ ys)
  All-append P [] ys p q = q
  All-append P (x ∷ xs) ys p q = (p.0, All-append P xs ys p.1 q)

  pub All-keep_if {κ} :
      (P : A → Type κ) (p : A → Bool) (xs : List A) → All P xs → All P (keep_if p xs)
  All-keep_if P p [] h = tt
  All-keep_if P p (x ∷ xs) h = ground (arith, All-keep_if P p xs h.1)

  pub All_imp {κ κ'} :
      (P : A → Type κ) (Q : A → Type κ') (xs : List A) → ((x : A) → P x → Q x) → All P xs → All Q xs
  All_imp P Q [] f h = tt
  All_imp P Q (x ∷ xs) f h = (f x h.0, All_imp P Q xs f h.1)

  pub All_and {κ κ'} :
      (P : A → Type κ) (Q : A → Type κ') (xs : List A)
      → All P xs
      → All Q xs
      → All (λ x. P x × Q x) xs
  All_and P Q [] h k = tt
  All_and P Q (x ∷ xs) h k = ((h.0, k.0), All_and P Q xs h.1 k.1)

  pub get_elem?_below : (xs : List A) (i : ℕ) → i < length xs → (x : A) × (get_elem? xs i ≡ some x)
  get_elem?_below [] i h = absurd (omega arith)
  get_elem?_below (x ∷ xs) zero h = (x, refl)
  get_elem?_below (x ∷ xs) (suc i) h = get_elem?_below xs i (omega arith)

  pub All_keep_if : (p : A → Bool) (xs : List A) → All (λ x. p x ≡ true) (keep_if p xs)
  All_keep_if p [] = tt
  All_keep_if p (x ∷ xs) = ground (arith, All_keep_if p xs)

  -- What a filter leaves empty has no item that passes.
  pub All_dropped : (p : A → Bool) (xs : List A) → keep_if p xs ≡ [] → All (λ x. p x ≡ false) xs
  All_dropped p [] e = tt
  All_dropped p (x ∷ xs) e = ground (arith, All_dropped p xs)

  abbrev pub is_empty : List A → Bool
  is_empty [] = true
  is_empty (x ∷ xs) = false

  pub any-keep_if : (p : A → Bool) (xs : List A) → any p xs ≡ not (is_empty (keep_if p xs))
  any-keep_if p [] = refl
  any-keep_if p (x ∷ xs) = ground (arith, any-keep_if p xs)

-- A comprehension whose items may raise.
abbrev pub traverse {ℓ κ} : {A : Type ℓ} {B : Type κ} → (A → Option B) → List A → Option (List B)
traverse f [] = some []
traverse f (x ∷ xs) = do y ← f x; ys ← traverse f xs; some (y ∷ ys)

-- Every item of a comprehension comes from an item of the list.
pub traverse-All {ℓ κ ℓ' κ'} :
    {A : Type ℓ} {B : Type κ} (P : A → Type ℓ') (Q : B → Type κ') (f : A → Option B)
    → ((a : A) (b : B) → P a → f a ≡ some b → Q b)
    → (xs : List A) (ys : List B) → traverse f xs ≡ some ys
    → All P xs
    → All Q ys
traverse-All P Q f h [] ys e all = subst (All Q) (some_injective e) tt
traverse-All P Q f h (x ∷ xs) ys e all = elim (Option-cases (f x)) [
  | inl raised ↦ ground arith
  | inr (y, found) ↦ elim (Option-cases (traverse f xs)) [
    | inl raised ↦ ground arith
    | inr (zs, rest) ↦
        let whole : (some (y ∷ zs)) ≡ some ys = ground arith in
        subst (All Q) (some_injective whole)
          (h x y all.0 found, traverse-All P Q f h xs zs rest all.1)
  ]
]
