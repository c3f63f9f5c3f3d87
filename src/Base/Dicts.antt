-- ===== src/Base/Dicts.antt =====
-- Dictionaries keyed by ids, and queues of ids, as lists in insertion order.
use Prim.Native.Nat.{ℕ}
use mathlib.Core.Path.{◌≡◌, refl}
use mathlib.Core.Bool.{Bool, true, false}
use mathlib.Core.List.{List, [], ◌∷◌, ◌++◌}
use mathlib.Core.Option.{Option, none, some}
use native.Mathlib.Omega.{arith}
use cana_tune_llm.Base.Tests.{if◌then◌else◌, ◌==◌}

module _ {ℓ} {V : Type ℓ} where
  -- `d.get(k)`
  abbrev pub get_key : ℕ → List (ℕ × V) → Option V
  get_key k [] = none
  get_key k ((j, v) ∷ m) = if j == k then some v else get_key k m

  -- `d[k] = v`
  abbrev pub put_key : ℕ → V → List (ℕ × V) → List (ℕ × V)
  put_key k v [] = (k, v) ∷ []
  put_key k v ((j, w) ∷ m) = if j == k then (j, v) ∷ m else (j, w) ∷ put_key k v m

  -- `d.pop(k, None)`
  abbrev pub drop_key : ℕ → List (ℕ × V) → List (ℕ × V)
  drop_key k [] = []
  drop_key k ((j, w) ∷ m) = if j == k then drop_key k m else (j, w) ∷ drop_key k m

  pub get_key-put_key :
      (k j : ℕ) (v : V) (m : List (ℕ × V))
      → get_key j (put_key k v m) ≡ (if k == j then some v else get_key j m)
  get_key-put_key k j v [] = refl
  get_key-put_key k j v ((i, w) ∷ m) = ground (arith, get_key-put_key k j v m)

  pub get_key-drop_key :
      (k j : ℕ) (m : List (ℕ × V))
      → get_key j (drop_key k m) ≡ (if k == j then none else get_key j m)
  get_key-drop_key k j [] = ground arith
  get_key-drop_key k j ((i, w) ∷ m) = ground (arith, get_key-drop_key k j m)

-- `x in xs`
abbrev pub contains : ℕ → List ℕ → Bool
contains k [] = false
contains k (x ∷ xs) = if x == k then true else contains k xs

-- `xs.remove(x)` on a queue, or `discard` on a set: the first occurrence leaves, if there is one.
abbrev pub remove_one : ℕ → List ℕ → List ℕ
remove_one k [] = []
remove_one k (x ∷ xs) = if x == k then xs else x ∷ remove_one k xs

abbrev pub IsDistinct : List ℕ → Type 0
IsDistinct [] = Unit {0}
IsDistinct (x ∷ xs) = (contains x xs ≡ false) × IsDistinct xs

pub contains-remove_one :
    (k j : ℕ) (xs : List ℕ)
    → IsDistinct xs
    → contains j (remove_one k xs) ≡ (if k == j then false else contains j xs)
contains-remove_one k j [] d = ground arith
contains-remove_one k j (x ∷ xs) d = ground (arith, contains-remove_one k j xs d.1)

pub remove_one-IsDistinct : (k : ℕ) (xs : List ℕ) → IsDistinct xs → IsDistinct (remove_one k xs)
remove_one-IsDistinct k [] d = tt
remove_one-IsDistinct k (x ∷ xs) d =
    ground (arith, contains-remove_one k x xs d.1, remove_one-IsDistinct k xs d.1)

pub contains-append :
    (j : ℕ) (xs ys : List ℕ)
    → contains j (xs ++ ys) ≡ (if contains j xs then true else contains j ys)
contains-append j [] ys = refl
contains-append j (x ∷ xs) ys = ground (arith, contains-append j xs ys)

pub append-IsDistinct :
    (xs : List ℕ) (k : ℕ) → IsDistinct xs → contains k xs ≡ false → IsDistinct (xs ++ (k ∷ []))
append-IsDistinct [] k d h = (refl, tt)
append-IsDistinct (x ∷ xs) k d h =
    ground (arith, contains-append x xs (k ∷ []), append-IsDistinct xs k d.1)
