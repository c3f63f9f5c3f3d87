-- ===== src/Domain/Cluster/Evaluate.antt =====
-- src/canatune/domain/models.py: `Solver.evaluate`, groups filled one after another.
use cana_tune_llm.Base.{
  ℕ, zero, suc, Bool, true, false, ◌&&◌, Option, none, some, List, [], ◌∷◌, map, if◌then◌else◌, pos,
  ◌-ℤ◌, Float, of_nat, min_f, max_f, sum_f, ltb, ◌||◌,
}
use cana_tune_llm.Domain.Tiers.{ClockPoint}
use cana_tune_llm.Domain.Cluster.Mix.{Lengths, mix_of}
use cana_tune_llm.Domain.Cluster.Uniform.{
  Constraint, Use, Evaluation, Solver, uniform, parked_power, binding_of,
}
use cana_tune_llm.Domain.Cluster.Capacity.{capacity_of}
pub mod Filled

abbrev pub same_constraint : Constraint → Constraint → Bool
same_constraint Constraint.prefill Constraint.prefill = true
same_constraint Constraint.decode Constraint.decode = true
same_constraint Constraint.kv Constraint.kv = true
same_constraint Constraint.ttft Constraint.ttft = true
same_constraint Constraint.cap Constraint.cap = true
same_constraint _ _ = false

module _ {F : Type 0} ⦃num : Float F⦄ where
  -- The rates of `n` groups: each up to the capacity, the last with all that is left.
  unfoldable pub fill : F → F → ℕ → List F
  fill cap remaining zero = []
  fill cap remaining (suc zero) = remaining ∷ []
  fill cap remaining (suc (suc k)) =
      let rate = min_f remaining cap in rate ∷ fill cap (num.sub remaining rate) (suc k)

  -- `e.use.get(k, 0)`
  use_at : Constraint → Use F → F
  use_at k [] = of_nat 0
  use_at k ((j, v) ∷ rest) = if same_constraint j k then v else use_at k rest

  most_from : Constraint → F → List (Evaluation F) → F
  unfolding use_at
  most_from k best [] = best
  most_from k best (e ∷ es) = most_from k (max_f best (use_at k e.use_of)) es

  -- `{k: max(e.use.get(k, 0) for e in evaluations) for k in evaluations[0].use}`
  joint_use : List (Evaluation F) → Use F
  unfolding most_from
  joint_use [] = []
  joint_use (e ∷ es) = map (λ u. (u.0, most_from u.0 (use_at u.0 e.use_of) es)) e.use_of

  unfoldable pub all_feasible : List (Evaluation F) → Bool
  all_feasible [] = true
  all_feasible (e ∷ es) = e.feasible && all_feasible es

  unfoldable pub joint : Solver F → ℕ → ClockPoint → List F → List (Evaluation F) → Evaluation F
  unfolding joint_use all_feasible binding_of
  joint s n point rates es =
      let use_of = joint_use es in
      let own : Evaluation F → F = λ e. num.sub e.power_w (parked_power s 1) in
      record {
        n = n;
        point = point;
        feasible = all_feasible es;
        power_w = num.add (sum_f (map own es)) (parked_power s n);
        binding = binding_of use_of;
        use_of = use_of;
        rates = rates;
      }

  unfoldable pub evaluate_with :
      Solver F → F → Lengths → ℕ → ClockPoint → Option F → Option (Evaluation F)
  unfolding fill uniform joint
  evaluate_with s rate mix n point none = none
  evaluate_with s rate mix n point (some cap) =
      let rates = fill cap rate n in
      some (joint s n point rates (map (λ r. uniform s r mix 1 point) rates))

  -- `Solver.evaluate`; `none` is one of its two `ValueError`s.
  unfoldable pub evaluate : Solver F → F → Lengths → ℕ → ClockPoint → Option (Evaluation F)
  unfolding evaluate_with capacity_of mix_of
  evaluate s rate mix n point =
      let reduced = mix_of mix in
      if ltb n 1 || num.lt rate (of_nat 0)
      then none
      else evaluate_with s rate reduced n point (capacity_of s reduced point)
