-- ===== src/Domain/Cluster/Capacity/Bracket.antt =====
-- The search of `Solver.capacity` (models.py) never ends on a rate that the group cannot carry.
use cana_tune_llm.Base.{
  ℕ, zero, suc, ◌≡◌, Bool, true, some, [], ◌∷◌, Float, of_nat, arith, Bool-cases, inl, inr,
  some_injective, subst,
}
use cana_tune_llm.Domain.Tiers.{ClockPoint}
use cana_tune_llm.Domain.Cluster.Mix.{Lengths, mix_of}
use cana_tune_llm.Domain.Cluster.Uniform.{Solver}
use cana_tune_llm.Domain.Cluster.Capacity.{
  doubled, narrow, bisect, largest, carries, capacity_of, capacity,
}

module _ {F : Type 0} ⦃num : Float F⦄ (feasible : F → Bool) where
  -- The lower end stays feasible, whatever the upper one is.
  bisect-lower : (k : ℕ) (b : F × F) → feasible b.0 ≡ true → feasible (bisect feasible k b).0 ≡ true
  unfolding bisect narrow
  bisect-lower zero b h = h
  bisect-lower (suc k) b h = bisect-lower k (narrow feasible b) (ground arith)

  largest-feasible : feasible (largest feasible) ≡ feasible (of_nat 0)
  unfolding largest
  largest-feasible = elim (Bool-cases (feasible (of_nat 0))) [
    | inl e ↦ rw e (bisect-lower 24 (of_nat 0, doubled feasible 30 (of_nat 1)) e)
    | inr e ↦ rw e e
  ]

module _ {F : Type 0} ⦃num : Float F⦄ where
  capacity_of-carries :
      (s : Solver F) (reduced : Lengths) (point : ClockPoint) (c : F)
      → capacity_of s reduced point ≡ some c
      → carries s reduced point c ≡ carries s reduced point (of_nat 0)
  unfolding capacity_of
  capacity_of-carries s [] point c e = ground arith
  capacity_of-carries s (x ∷ xs) point c e =
      let mix = x ∷ xs in
      subst (λ r. carries s mix point r ≡ carries s mix point (of_nat 0)) (some_injective e)
        (largest-feasible (carries s mix point))

  -- A group carries its capacity, as the solver judges a group, whenever it carries the rate zero.
  pub capacity-carries :
      (s : Solver F) (mix : Lengths) (point : ClockPoint) (c : F)
      → capacity s mix point ≡ some c
      → carries s (mix_of mix) point c ≡ carries s (mix_of mix) point (of_nat 0)
  unfolding capacity
  capacity-carries s mix point c = capacity_of-carries s (mix_of mix) point c
