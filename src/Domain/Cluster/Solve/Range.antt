-- ===== src/Domain/Cluster/Solve/Range.antt =====
-- `solve` (models.py) returns an evaluation of a configuration in the asked range.
use cana_tune_llm.Base.{
  ℕ, ◌+◌, ◌-◌, ◌≤◌, ◌<◌, ◌≡◌, Option, some, List, [], ◌∷◌, map, Float, All, All-append, All-keep_if,
  traverse, ◌>>=◌, min_by-All, some_injective, subst, arith, Option-cases, inl, inr, keep_if,
  traverse-All,
}
use cana_tune_llm.Domain.Tiers.{ClockPoint}
use cana_tune_llm.Domain.Risk.{range_from}
use cana_tune_llm.Domain.Risk.Ranges.{range_from-All}
use cana_tune_llm.Domain.Cluster.{points}
use cana_tune_llm.Domain.Cluster.Mix.{Lengths}
use cana_tune_llm.Domain.Cluster.Uniform.{Evaluation, Solver}
use cana_tune_llm.Domain.Cluster.Evaluate.{evaluate}
use cana_tune_llm.Domain.Cluster.Solve.{
  Config, configs, top_groups, by_power, by_headroom, cheapest, best_of, evaluations, solve,
}

module _ (P : Config → Type 0) where
  map-All :
      (n : ℕ) (ps : List ClockPoint) → ((p : ClockPoint) → P (n, p)) → All P (map (λ p. (n, p)) ps)
  map-All n [] h = tt
  map-All n (p ∷ ps) h = (h p, map-All n ps h)

configs-All :
    (Q : ℕ → Type 0) (ns : List ℕ) (ps : List ClockPoint)
    → All Q ns
    → All (λ c. Q c.0) (configs ns ps)
unfolding configs
configs-All Q [] ps h = tt
configs-All Q (n ∷ ns) ps h =
    All-append (λ c. Q c.0) (map (λ p. (n, p)) ps) (configs ns ps)
      (map-All (λ c. Q c.0) n ps (λ p. h.0)) (configs-All Q ns ps h.1)

module _ {F : Type 0} ⦃num : Float F⦄ where
  best_of-All :
      (Q : Evaluation F → Type 0) (es : List (Evaluation F)) (best : Evaluation F)
      → All Q es
      → best_of es ≡ some best
      → Q best
  unfolding best_of
  best_of-All Q [] best all e = ground arith
  best_of-All Q (x ∷ xs) best all e =
      subst Q (some_injective e)
        (taken (keep_if (λ x. x.feasible) (x ∷ xs)) (All-keep_if Q (λ x. x.feasible) (x ∷ xs) all))
    where
      taken : (ok : List (Evaluation F)) → All Q ok → Q (cheapest x xs ok)
      taken [] h = unfold cheapest in min_by-All Q by_headroom x xs all.0 all.1
      taken (y ∷ ys) h = unfold cheapest in min_by-All Q by_power y ys h.0 h.1

  -- An evaluation of so many groups, from `min_groups` to all of them.
  abbrev pub InRange : Solver F → F → Lengths → ℕ → ℕ → Evaluation F → Type 0
  InRange s rate mix low high e =
      (n : ℕ) × (low ≤ n)
      × (n ≤ high)
      × (point : ClockPoint) × (evaluate s rate mix n point ≡ some e)

  -- What `solve` returns is the evaluation of one of its configurations, with at least `min_groups`
  -- and at most `groups` groups (all of the solver's when that is not given).
  pub solve-InRange :
      (s : Solver F) (rate : F) (mix : Lengths) (min_groups : ℕ) (groups : Option ℕ)
      → (best : Evaluation F) → solve s rate mix min_groups groups ≡ some best
      → InRange s rate mix min_groups (top_groups groups s.groups) best
  unfolding solve evaluations
  solve-InRange s rate mix min_groups groups best e =
      let top = top_groups groups s.groups in
      let ns = range_from min_groups (top + 1 - min_groups) in
      let cs = configs ns (points s.model) in
      let f = λ (c : Config). evaluate s rate mix c.0 c.1 in
      let Within = λ (n : ℕ). (min_groups ≤ n) × (n < min_groups + (top + 1 - min_groups)) in
      elim (Option-cases (traverse f cs)) [
        | inl raised ↦ ground arith
        | inr (es, found) ↦
            best_of-All (InRange s rate mix min_groups top) es best
              (traverse-All (λ c. Within c.0) (InRange s rate mix min_groups top) f
                (λ c b h same. (c.0, h.0, omega (arith, h.0, h.1), c.1, same)) cs es found
                (configs-All Within ns (points s.model)
                  (range_from-All min_groups (top + 1 - min_groups))))
              (subst (λ o. (o >>= best_of) ≡ some best) found e)
      ]
