-- ===== src/Domain/Risk/Ranges.antt =====
-- The numbers that `range` gives, as the loops of src/canatune use it.
use cana_tune_llm.Base.{ℕ, zero, suc, ◌+◌, ◌≤◌, ◌<◌, All, All_imp, arith}
use cana_tune_llm.Domain.Risk.{range_from}

pub range_from-All :
    (start count : ℕ) → All (λ n. (start ≤ n) × (n < start + count)) (range_from start count)
unfolding range_from
range_from-All start zero = tt
range_from-All start (suc count) = (
  (omega arith, omega arith),
  All_imp (λ n. (start + 1 ≤ n) × (n < start + 1 + count))
      (λ n. (start ≤ n) × (n < start + suc count)) (range_from (start + 1) count)
      (λ n h. (omega (arith, h.0), omega (arith, h.1))) (range_from-All (start + 1) count),
)

pub range-All_below : (n : ℕ) → All (λ i. i < n) (range_from 0 n)
range-All_below n =
    All_imp (λ i. (0 ≤ i) × (i < 0 + n)) (λ i. i < n) (range_from 0 n) (λ i h. omega (arith, h.1))
      (range_from-All 0 n)
