-- ===== src/Samples/Fixed.antt =====
-- Fixed-point numbers, in thousandths: a concrete `Float` for the models of src/canatune.
use cana_tune_llm.Base.{
  ℕ, zero, suc, ◌+◌, ◌-◌, ◌*◌, ◌/◌, ◌%◌, ◌==◌, Bool, true, false, not, ◌&&◌, if◌then◌else◌, leb,
  ltb, ℤ, pos, pos_part, neg_part, sub_ℕ, ◌+ℤ◌, ◌-ℤ◌, ltb_ℤ, leb_ℤ, Float, IsOrdered, arith,
}

abbrev size_of : ℤ → ℕ
size_of x = pos_part x + neg_part x

abbrev signed : Bool → ℕ → ℤ
signed negative n = if negative then sub_ℕ 0 n else pos n

abbrev below_zero : ℤ → Bool
below_zero x = ltb 0 (neg_part x)

abbrev differs : Bool → Bool → Bool
differs true b = not b
differs false b = b

abbrev root_from : ℕ → ℕ → ℕ → ℕ → ℕ
root_from zero step n r = r
root_from (suc k) step n r =
    let c = r + step in
    let high = root_from k (step / 2) n c in
    let low = root_from k (step / 2) n r in if leb (c * c) n then high else low

-- To the even one of two nearest thousands.
abbrev nearest : ℕ → ℕ
nearest n =
    let k = n / 1_000 in
    let rest = n % 1_000 in if ltb 500 rest then k + 1 else if rest == 500 then k + k % 2 else k

instance abbrev pub fixed : Float ℤ
fixed = record {
  of_int = λ x. signed (below_zero x) (size_of x * 1_000);
  add = λ x y. x +ℤ y;
  sub = λ x y. x -ℤ y;
  mul = λ x y. signed (differs (below_zero x) (below_zero y)) (size_of x * size_of y / 1_000);
  div = λ x y. signed (differs (below_zero x) (below_zero y)) (size_of x * 1_000 / size_of y);
  lt = λ x y. ltb_ℤ x y;
  le = λ x y. leb_ℤ x y;
  eq = λ x y. leb_ℤ x y && leb_ℤ y x;
  inf = pos 1_000_000_000_000;
  neg_inf = sub_ℕ 0 1_000_000_000_000;
  sqrt = λ x. pos (root_from 8 128 (pos_part x * 1_000) 0);
  abs = λ x. pos (size_of x);
  is_finite = λ x. ltb (size_of x) 1_000_000_000_000;
  round_1 = λ x. signed (below_zero x) (size_of x / 100 * 100);
  round_3 = λ x. x;
  round = λ x. signed (below_zero x) (nearest (size_of x));
  ceil = λ x. if below_zero x then sub_ℕ 0 (size_of x / 1_000) else pos ((size_of x + 999) / 1_000);
  trunc = λ x. signed (below_zero x) (size_of x / 1_000);
  floor_div = λ x y.
      if differs (below_zero x) (below_zero y)
      then sub_ℕ 0 ((size_of x + size_of y - 1) / size_of y)
      else pos (size_of x / size_of y);
}

pub fixed-IsOrdered : IsOrdered ℤ
fixed-IsOrdered = record {
  le_trans = λ x y z h k. ground arith;
  refl_of_le = λ x y h. (ground arith, ground arith);
  le_total = λ x y h k. ground arith;
  lt-eq-not-le = λ x y h k. ground arith;
  eq-eq-le = λ x y h k. ground arith;
  lt_of_nan = λ x y h. ground arith;
}
