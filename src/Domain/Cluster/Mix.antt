-- ===== src/Domain/Cluster/Mix.antt =====
-- src/canatune/domain/models.py: `Solver._mix`, at most sixteen quantiles of the length mix.
--
-- `int((i + 0.5) * n / 16)` is (2 i + 1) n / 32 rounded down: both products are exact below 2 ^ 53.
use cana_tune_llm.Base.{
  ℕ, zero, suc, ◌+◌, ◌*◌, ◌/◌, Bool, List, [], ◌∷◌, ◌++◌, Option, none, some, if◌then◌else◌, leb,
  ltb, ◌==◌, length, get_elem?, Compared, lexicographic, by_nat, sort_by,
}
pub mod Longest

abbrev pub Lengths : Type 0
Lengths = List (ℕ × ℕ)

abbrev pub mix_points : ℕ
mix_points = 16

abbrev pub by_pair : ℕ × ℕ → ℕ × ℕ → Compared
by_pair a b = lexicographic (by_nat a.0 b.0) (by_nat a.1 b.1)

-- `kept[i]`, an index that the code keeps in range.
pick : Lengths → ℕ → Lengths
pick kept i = elim (get_elem? kept i) [ none ↦ [] | some e ↦ e ∷ [] ]

-- The quantiles from `i` on, `n` of them.
quantiles : Lengths → ℕ → ℕ → Lengths
unfolding pick
quantiles kept i zero = []
quantiles kept i (suc n) = pick kept ((2 * i + 1) * length kept / 32) ++ quantiles kept (i + 1) n

-- `representatives[-1] = kept[-1]`, when `last` is the last of the mix.
replace_last : ℕ × ℕ → Lengths → Lengths
replace_last last [] = []
replace_last last (x ∷ []) = last ∷ []
replace_last last (x ∷ y ∷ xs) = x ∷ replace_last last (y ∷ xs)

last_of : ℕ × ℕ → Lengths → ℕ × ℕ
last_of x [] = x
last_of x (y ∷ ys) = last_of y ys

reduce : Lengths → Lengths
unfolding quantiles replace_last last_of
reduce [] = []
reduce (x ∷ xs) =
    if leb (length (x ∷ xs)) mix_points
    then x ∷ xs
    else replace_last (last_of x xs) (quantiles (x ∷ xs) 0 mix_points)

-- `Solver._mix`
unfoldable pub mix_of : Lengths → Lengths
unfolding reduce sort_by
mix_of mix = reduce (sort_by by_pair mix)
