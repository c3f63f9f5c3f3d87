-- ===== src/Domain/Cluster/Evaluate/Filled.antt =====
-- `evaluate` (models.py) judges a configuration by the groups that it fills.
use cana_tune_llm.Base.{
  ℕ, zero, suc, ◌≡◌, refl, true, Option, none, some, List, [], ◌∷◌, map, Float, All, length, sym,
  arith, some_injective, subst, &&-eq-true, inl, inr, ltb, ◌||◌, of_nat, if◌then◌else◌, Bool-cases,
}
use cana_tune_llm.Domain.Tiers.{ClockPoint}
use cana_tune_llm.Domain.Cluster.Mix.{Lengths, mix_of}
use cana_tune_llm.Domain.Cluster.Uniform.{Evaluation, Solver, uniform}
use cana_tune_llm.Domain.Cluster.Capacity.{capacity_of, carries}
use cana_tune_llm.Domain.Cluster.Evaluate.{fill, all_feasible, joint, evaluate_with, evaluate}

module _ {F : Type 0} ⦃num : Float F⦄ where
  length-fill : (cap remaining : F) (n : ℕ) → length (fill cap remaining n) ≡ n
  unfolding fill
  length-fill cap remaining zero = refl
  length-fill cap remaining (suc zero) = refl
  length-fill cap remaining (suc (suc k)) = omega (
    arith,
    length-fill cap (num.sub remaining (if num.lt cap remaining then cap else remaining)) (suc k),
  )

  all_feasible-All :
      (f : F → Evaluation F) (rates : List F)
      → all_feasible (map f rates) ≡ true
      → All (λ r. (f r).feasible ≡ true) rates
  unfolding all_feasible
  all_feasible-All f [] h = tt
  all_feasible-All f (r ∷ rates) h =
      let (own, rest) = &&-eq-true (f r).feasible (all_feasible (map f rates)) h in
      (own, all_feasible-All f rates rest)

  joint-filled :
      (s : Solver F) (n : ℕ) (point : ClockPoint) (mix : Lengths) (rates : List F)
      → (joint s n point rates (map (λ r. uniform s r mix 1 point) rates)).feasible ≡ true
      → All (λ r. carries s mix point r ≡ true) rates
  unfolding joint
  joint-filled s n point mix rates h = all_feasible-All (λ r. uniform s r mix 1 point) rates h

  -- Each of the `n` groups carries the rate that it is given.
  pub record IsFilled (s : Solver F) (mix : Lengths) (n : ℕ) (e : Evaluation F) : Type 0 where
    pub groups : length e.rates ≡ n
    pub carried : All (λ r. carries s (mix_of mix) e.point r ≡ true) e.rates

  evaluate_with-IsFilled :
      (s : Solver F) (rate : F) (mix : Lengths) (n : ℕ) (point : ClockPoint) (cap : Option F)
      → (e : Evaluation F) → evaluate_with s rate (mix_of mix) n point cap ≡ some e
      → e.feasible ≡ true
      → IsFilled s mix n e
  unfolding evaluate_with
  evaluate_with-IsFilled s rate mix n point none e h ok = ground arith
  evaluate_with-IsFilled s rate mix n point (some cap) e h ok =
      let rates = fill cap rate n in
      let es = map (λ (r : F). uniform s r (mix_of mix) 1 point) rates in
      let filled : (e : Evaluation F)
          → joint s n point rates es ≡ e
          → e.feasible ≡ true
          → IsFilled s mix n e =
        λ e same good. subst (IsFilled s mix n) same (record {
          groups = unfold joint in length-fill cap rate n;
          carried =
              joint-filled s n point (mix_of mix) rates
                (subst (λ x. x.feasible ≡ true) (sym same) good);
        }) in
      filled e (some_injective h) ok

  -- A configuration that `evaluate` calls feasible has one rate for each of the groups, and each
  -- group carries its rate.
  pub evaluate-IsFilled :
      (s : Solver F) (rate : F) (mix : Lengths) (n : ℕ) (point : ClockPoint) (e : Evaluation F)
      → evaluate s rate mix n point ≡ some e
      → e.feasible ≡ true
      → IsFilled s mix n e
  unfolding evaluate
  evaluate-IsFilled s rate mix n point e h ok =
      elim (Bool-cases (ltb n 1 || num.lt rate (of_nat 0))) [
        | inl bad ↦ ground arith
        | inr good ↦
            evaluate_with-IsFilled s rate mix n point (capacity_of s (mix_of mix) point) e
              (subst
                (λ b.
                  (if b
                    then none
                    else evaluate_with s rate (mix_of mix) n point
                        (capacity_of s (mix_of mix) point))
                  ≡ some e)
                good h)
              ok
      ]
