-- ===== src/Base/Floats.antt =====
-- Python's `float`: the operations that the code uses, over any type that has them.
use Prim.Native.Nat.{ℕ}
use mathlib.Core.Path.{◌≡◌}
use mathlib.Core.Logic.{◌⊎◌}
use mathlib.Core.Bool.{Bool, true, false, not, ◌&&◌}
use mathlib.Core.List.{List, [], ◌∷◌}
use mathlib.Core.Option.{Option, none, some}
use cana_tune_llm.Base.Tests.{if◌then◌else◌}
use cana_tune_llm.Base.Int.{ℤ, pos}

-- `of_int` is the conversion that Python makes where an `int` meets a `float`; `div` raises on a
-- zero divisor in Python, and the code below divides by values that it has checked or configured.
pub record Float (F : Type 0) : Type 0 where
  pub of_int : ℤ → F
  pub add : F → F → F
  pub sub : F → F → F
  pub mul : F → F → F
  pub div : F → F → F
  pub lt : F → F → Bool
  pub le : F → F → Bool
  pub eq : F → F → Bool
  pub inf : F
  pub neg_inf : F
  pub sqrt : F → F
  pub abs : F → F
  pub is_finite : F → Bool
  -- `round(x, 1)` and `round(x, 3)`
  pub round_1 : F → F
  pub round_3 : F → F
  -- `round(x)`, to the even one of two nearest integers
  pub round : F → ℤ
  -- `math.ceil` and `int(...)`
  pub ceil : F → ℤ
  pub trunc : F → ℤ
  -- `int(x // y)`
  pub floor_div : F → F → ℤ

module _ {F : Type 0} ⦃num : Float F⦄ where
  -- A literal `n.0`, and a literal `m / n` such as `0.9`.
  abbrev pub of_nat : ℕ → F
  of_nat n = num.of_int (pos n)

  abbrev pub frac : ℕ → ℕ → F
  frac m n = num.div (of_nat m) (of_nat n)

  -- `sum(xs)`
  abbrev pub sum_from : F → List F → F
  sum_from total [] = total
  sum_from total (x ∷ xs) = sum_from (num.add total x) xs

  abbrev pub sum_f : List F → F
  sum_f = sum_from (of_nat 0)

  -- `x or 0.0`
  abbrev pub or_zero : Option F → F
  or_zero none = of_nat 0
  or_zero (some x) = x

  -- Python's `max(x, y)` and `min(x, y)`: the first unless the second is beyond it.
  abbrev pub max_f : F → F → F
  max_f x y = if num.lt x y then y else x

  abbrev pub min_f : F → F → F
  min_f x y = if num.lt y x then y else x

infix 4 ◌≼◌
abbrev pub ◌≼◌ : {F : Type 0} ⦃num : Float F⦄ → F → F → Type 0
◌≼◌ ⦃num⦄ x y = num.le x y ≡ true

-- What IEEE 754 comparisons satisfy, NaN included: NaN is the value that is not `<=` itself.
pub record IsOrdered (F : Type 0) ⦃num : Float F⦄ : Type 0 where
  pub le_trans : (x y z : F) → x ≼ y → y ≼ z → x ≼ z
  pub refl_of_le : (x y : F) → x ≼ y → (x ≼ x) × (y ≼ y)
  pub le_total : (x y : F) → x ≼ x → y ≼ y → (x ≼ y) ⊎ (y ≼ x)
  pub lt-eq-not-le : (x y : F) → x ≼ x → y ≼ y → num.lt x y ≡ not (num.le y x)
  pub eq-eq-le : (x y : F) → x ≼ x → y ≼ y → num.eq x y ≡ (num.le x y && num.le y x)
  pub lt_of_nan : (x y : F) → num.le x x ≡ false → (num.lt x y ≡ false) × (num.lt y x ≡ false)
