-- ===== src/Domain/Cluster/Solve/Cheapest.antt =====
-- `solve` (models.py) returns a cheapest feasible configuration whenever there is a feasible one.
use cana_tune_llm.Base.{
  ◌≡◌, refl, true, false, Option, some, List, [], ◌∷◌, Float, not, is_empty, All_keep_if,
  All_dropped, any-keep_if, All-keep_if, IsOrdered, ◌≼◌, All, any, keep_if, ◌>>=◌, arith, ℕ,
  Decides, min_by-Below, min_by-All, some_injective, subst, sym, ◌∙◌,
}
use cana_tune_llm.Domain.Cluster.Mix.{Lengths}
use cana_tune_llm.Domain.Cluster.Uniform.{Evaluation, Solver}
use cana_tune_llm.Domain.Cluster.Solve.{
  by_power, by_headroom, cheapest, best_of, evaluations, solve,
}

module _ {F : Type 0} ⦃num : Float F⦄ where
  abbrev pub Cheaper : Evaluation F → Evaluation F → Type 0
  Cheaper a b = a.power_w ≼ b.power_w

  abbrev pub HasPower : Evaluation F → Type 0
  HasPower e = e.power_w ≼ e.power_w

  by_power-Decides :
      IsOrdered F → (a b : Evaluation F) → HasPower a → HasPower b → Decides by_power Cheaper a b
  by_power-Decides ord a b ha hb = (
    λ h. ground (
      arith,
      ord.eq-eq-le a.power_w b.power_w ha hb,
      ord.lt-eq-not-le a.power_w b.power_w ha hb,
      ord.le_total a.power_w b.power_w ha hb,
    ),
    λ h. ground (
      arith,
      ord.eq-eq-le a.power_w b.power_w ha hb,
      ord.lt-eq-not-le a.power_w b.power_w ha hb,
      ord.le_total a.power_w b.power_w ha hb,
    ),
  )

  -- `best` is feasible exactly when some configuration is, and then none that is needs less power.
  pub record IsCheapest (es : List (Evaluation F)) (best : Evaluation F) : Type 0 where
    pub feasible : best.feasible ≡ any (λ e. e.feasible) es
    pub cheapest : All (Cheaper best) (keep_if (λ e. e.feasible) es)

  cheapest-below :
      IsOrdered F
      → (e : Evaluation F) (es ok : List (Evaluation F)) → All HasPower ok
      → All (Cheaper (cheapest e es ok)) ok
  unfolding cheapest
  cheapest-below ord e es [] h = tt
  cheapest-below ord e es (x ∷ xs) h =
      min_by-Below by_power Cheaper HasPower (by_power-Decides ord)
        (λ a b c. ord.le_trans a.power_w b.power_w c.power_w) (λ a g. g) x xs h.0 h.1

  cheapest-feasible :
      (e : Evaluation F) (es ok : List (Evaluation F))
      → All (λ x. x.feasible ≡ true) ok
      → (ok ≡ [] → All (λ x. x.feasible ≡ false) (e ∷ es))
      → (cheapest e es ok).feasible ≡ not (is_empty ok)
  unfolding cheapest
  cheapest-feasible e es [] h none_left =
      let h = none_left refl in min_by-All (λ x. x.feasible ≡ false) by_headroom e es h.0 h.1
  cheapest-feasible e es (x ∷ xs) h none_left =
      min_by-All (λ x. x.feasible ≡ true) by_power x xs h.0 h.1

  best_of-IsCheapest :
      IsOrdered F
      → (es : List (Evaluation F)) → All HasPower es
      → (best : Evaluation F) → best_of es ≡ some best
      → IsCheapest es best
  unfolding best_of
  best_of-IsCheapest ord [] h best e = ground arith
  best_of-IsCheapest ord (x ∷ xs) h best e =
      let ok = keep_if (λ x. x.feasible) (x ∷ xs) in
      subst (IsCheapest (x ∷ xs)) (some_injective e) (record {
        feasible =
            cheapest-feasible x xs ok (All_keep_if (λ x. x.feasible) (x ∷ xs))
              (All_dropped (λ x. x.feasible) (x ∷ xs))
            ∙ sym (any-keep_if (λ x. x.feasible) (x ∷ xs));
        cheapest = cheapest-below ord x xs ok (All-keep_if HasPower (λ x. x.feasible) (x ∷ xs) h);
      })

  -- Where floats are ordered and every evaluated power is a number: `solve` returns a feasible
  -- configuration exactly when one of those it evaluates is feasible, and then no feasible one of
  -- them needs less power.
  pub solve-IsCheapest :
      IsOrdered F
      → (s : Solver F) (rate : F) (mix : Lengths) (min_groups : ℕ) (groups : Option ℕ)
        (es : List (Evaluation F)) (best : Evaluation F)
      → evaluations s rate mix min_groups groups ≡ some es
      → All HasPower es
      → solve s rate mix min_groups groups ≡ some best
      → IsCheapest es best
  unfolding solve
  solve-IsCheapest ord s rate mix min_groups groups es best e h found =
      best_of-IsCheapest ord es h best (subst (λ o. (o >>= best_of) ≡ some best) e found)
