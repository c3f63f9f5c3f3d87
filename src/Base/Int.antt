-- ===== src/Base/Int.antt =====
-- Python's `int` where it may fall below zero: signed integers over the native numbers.
use Prim.Native.Nat.{ℕ, suc, ◌+◌, ◌-◌, ◌≤◌}
use mathlib.Core.Path.{◌≡◌}
use mathlib.Core.Bool.{Bool, false}
use native.Mathlib.Omega.{arith}
use cana_tune_llm.Base.Tests.{ltb, leb, if◌then◌else◌, ◌==◌}

-- `negsuc n` is -(n + 1).
pub data ℤ : Type 0 where
  pos : ℕ → ℤ
  negsuc : ℕ → ℤ

abbrev pub pos_part : ℤ → ℕ
pos_part (pos n) = n
pos_part (negsuc n) = 0

abbrev pub neg_part : ℤ → ℕ
neg_part (pos n) = 0
neg_part (negsuc n) = suc n

-- a - b, as an integer.
abbrev pub sub_ℕ : ℕ → ℕ → ℤ
sub_ℕ a b = if leb b a then pos (a - b) else negsuc (b - a - 1)

infixl 65 ◌+ℤ◌ ◌-ℤ◌
unfoldable pub ◌+ℤ◌ : ℤ → ℤ → ℤ
a +ℤ b = sub_ℕ (pos_part a + pos_part b) (neg_part a + neg_part b)

unfoldable pub ◌-ℤ◌ : ℤ → ℤ → ℤ
a -ℤ b = sub_ℕ (pos_part a + neg_part b) (neg_part a + pos_part b)

abbrev pub ltb_ℤ : ℤ → ℤ → Bool
ltb_ℤ a b = ltb (pos_part a + neg_part b) (pos_part b + neg_part a)

abbrev pub leb_ℤ : ℤ → ℤ → Bool
leb_ℤ a b = leb (pos_part a + neg_part b) (pos_part b + neg_part a)

-- `max(a, b)`
unfoldable pub max_ℤ : ℤ → ℤ → ℤ
max_ℤ a b = if ltb_ℤ a b then b else a

pub +ℤ-pos : (m n : ℕ) → pos m +ℤ pos n ≡ pos (m + n)
unfolding ◌+ℤ◌
+ℤ-pos m n = ground arith

-- What a counter loses when it stands at the sum of the part that leaves and the rest.
pub -ℤ-pos : (m n : ℕ) → pos (m + n) -ℤ pos m ≡ pos n
unfolding ◌-ℤ◌
-ℤ-pos m n = ground arith

pub +ℤ-zero : (a : ℤ) → a +ℤ pos 0 ≡ a
unfolding ◌+ℤ◌
+ℤ-zero a = ground arith

pub +ℤ_cancel : (a : ℤ) (n : ℕ) → a -ℤ pos n +ℤ pos n ≡ a
unfolding ◌+ℤ◌ ◌-ℤ◌
+ℤ_cancel a n = ground arith

pub +ℤ_twice : (a : ℤ) (m n : ℕ) → a +ℤ pos m +ℤ pos n ≡ a +ℤ pos (m + n)
unfolding ◌+ℤ◌
+ℤ_twice a m n = ground arith

-- A counter that stood at a sum, of which a part has left.
pub eq_of_+ℤ-pos : (a : ℤ) (m n : ℕ) → a +ℤ pos m ≡ pos (n + m) → a ≡ pos n
unfolding ◌+ℤ◌
eq_of_+ℤ-pos a m n h = ground arith

pub +ℤ_cancel_two : (a : ℤ) → a -ℤ pos 1 -ℤ pos 1 +ℤ pos 2 ≡ a
unfolding ◌+ℤ◌ ◌-ℤ◌
+ℤ_cancel_two a = ground arith

abbrev pub is_zero : ℤ → Bool
is_zero (pos n) = n == 0
is_zero (negsuc n) = false

infix 50 ◌≤ℤ◌
abbrev pub ◌≤ℤ◌ : ℤ → ℤ → Type 0
a ≤ℤ b = pos_part a + neg_part b ≤ pos_part b + neg_part a
