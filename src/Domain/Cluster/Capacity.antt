-- ===== src/Domain/Cluster/Capacity.antt =====
-- src/canatune/domain/models.py: `Solver.capacity`, the largest feasible request rate of one group.
--
-- The memo `_capacities` only saves time: its key has all that the result depends on.
use cana_tune_llm.Base.{
  ℕ, zero, suc, Bool, true, false, Option, none, some, [], ◌∷◌, if◌then◌else◌, Float, of_nat,
}
use cana_tune_llm.Domain.Tiers.{ClockPoint}
use cana_tune_llm.Domain.Cluster.Mix.{Lengths, mix_of}
use cana_tune_llm.Domain.Cluster.Uniform.{Solver, uniform}
pub mod Bracket

module _ {F : Type 0} ⦃num : Float F⦄ (feasible : F → Bool) where
  -- `hi` is doubled while it is feasible, at most so many times.
  unfoldable pub doubled : ℕ → F → F
  doubled zero hi = hi
  doubled (suc k) hi = elim (feasible hi) [ true ↦ doubled k (num.mul hi (of_nat 2)) | false ↦ hi ]

  -- One step of the bisection on (lo, hi).
  unfoldable pub narrow : F × F → F × F
  narrow (lo, hi) =
      let mid = num.div (num.add lo hi) (of_nat 2) in if feasible mid then (mid, hi) else (lo, mid)

  unfoldable pub bisect : ℕ → F × F → F × F
  unfolding narrow
  bisect zero b = b
  bisect (suc k) b = bisect k (narrow b)

  unfoldable pub largest : F
  unfolding doubled bisect
  largest =
      if feasible (of_nat 0) then (bisect 24 (of_nat 0, doubled 30 (of_nat 1))).0 else of_nat 0

module _ {F : Type 0} ⦃num : Float F⦄ where
  -- `self._uniform(r, mix, 1, point).feasible`
  abbrev pub carries : Solver F → Lengths → ClockPoint → F → Bool
  carries s mix point r = (uniform s r mix 1 point).feasible

  -- On a reduced mix; `none` is the `ValueError` of an empty one.
  unfoldable pub capacity_of : Solver F → Lengths → ClockPoint → Option F
  unfolding largest
  capacity_of s [] point = none
  capacity_of s (e ∷ mix) point = some (largest (carries s (e ∷ mix) point))

  -- `Solver.capacity`
  unfoldable pub capacity : Solver F → Lengths → ClockPoint → Option F
  unfolding capacity_of mix_of
  capacity s mix point = capacity_of s (mix_of mix) point
