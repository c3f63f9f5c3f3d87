-- ===== src/Domain/Cluster/Solve.antt =====
-- src/canatune/domain/models.py: `Solver.solve`, the cheapest feasible configuration.
use cana_tune_llm.Base.{
  ℕ, suc, ◌+◌, ◌-◌, Bool, Option, none, some, List, [], ◌∷◌, ◌++◌, map, if◌then◌else◌, ◌==◌, Float,
  of_nat, max_f, keep_if, traverse, ◌>>=◌, Compared, lexicographic, by_nat, by_float, min_by,
}
use cana_tune_llm.Domain.Tiers.{ClockPoint}
use cana_tune_llm.Domain.Risk.{range_from}
use cana_tune_llm.Domain.Cluster.{points}
use cana_tune_llm.Domain.Cluster.Mix.{Lengths}
use cana_tune_llm.Domain.Cluster.Uniform.{Use, Evaluation, Solver}
use cana_tune_llm.Domain.Cluster.Evaluate.{evaluate}
pub mod Cheapest
pub mod Range

-- `groups or self.groups`
abbrev pub top_groups : Option ℕ → ℕ → ℕ
top_groups none groups = groups
top_groups (some n) groups = if n == 0 then groups else n

abbrev pub Config : Type 0
Config = ℕ × ClockPoint

-- `for n in range(...) for point in points`
unfoldable pub configs : List ℕ → List ClockPoint → List Config
configs [] ps = []
configs (n ∷ ns) ps = map (λ p. (n, p)) ps ++ configs ns ps

module _ {F : Type 0} ⦃num : Float F⦄ where
  -- `key=lambda e: (e.power_w, e.n)`
  abbrev pub by_power : Evaluation F → Evaluation F → Compared
  by_power a b = lexicographic (by_float a.power_w b.power_w) (by_nat a.n b.n)

  -- `max(e.use.values())`
  most_use : Use F → F
  most_use [] = of_nat 0
  most_use (u ∷ []) = u.1
  most_use (u ∷ v ∷ rest) = most_use ((v.0, max_f u.1 v.1) ∷ rest)

  -- The most headroom, then more groups and higher clocks.
  by_headroom : Evaluation F → Evaluation F → Compared
  unfolding most_use
  by_headroom a b =
      lexicographic (by_float (num.round_3 (most_use a.use_of)) (num.round_3 (most_use b.use_of))) (
        lexicographic (by_nat b.n a.n) (
          lexicographic (by_nat b.point.prefill_mhz a.point.prefill_mhz)
            (by_nat b.point.decode_mhz a.point.decode_mhz)))

  unfoldable pub cheapest : Evaluation F → List (Evaluation F) → List (Evaluation F) → Evaluation F
  unfolding by_headroom min_by
  cheapest e es [] = min_by by_headroom e es
  cheapest e es (x ∷ xs) = min_by by_power x xs

  -- The choice among the evaluations; `none` is the `ValueError` of none at all.
  unfoldable pub best_of : List (Evaluation F) → Option (Evaluation F)
  unfolding cheapest
  best_of [] = none
  best_of (e ∷ es) = some (cheapest e es (keep_if (λ x. x.feasible) (e ∷ es)))

  unfoldable pub evaluations : Solver F → F → Lengths → ℕ → Option ℕ → Option (List (Evaluation F))
  unfolding configs points range_from evaluate
  evaluations s rate mix min_groups groups =
      let ns = range_from min_groups (top_groups groups s.groups + 1 - min_groups) in
      traverse (λ c. evaluate s rate mix c.0 c.1) (configs ns (points s.model))

  -- `Solver.solve`
  unfoldable pub solve : Solver F → F → Lengths → ℕ → Option ℕ → Option (Evaluation F)
  unfolding evaluations best_of
  solve s rate mix min_groups groups = do es ← evaluations s rate mix min_groups groups; best_of es
