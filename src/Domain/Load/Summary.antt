-- ===== src/Domain/Load/Summary.antt =====
-- src/canatune/domain/load.py: `LengthSummary`, its quantiles and `shifted`.
use cana_tune_llm.Base.{
  ℕ, ◌-◌, min, Bool, none, some, List, [], ◌∷◌, map, pos_part, length, get_elem?, any, sum_by,
  Float, of_nat, frac, max_f,
}
use cana_tune_llm.Domain.Load.{LengthStats, recent_pairs, sort_up}

pub record LengthSummary (F : Type 0) : Type 0 where
  pub samples : ℕ
  pub prompt_p50 : F
  pub prompt_p90 : F
  pub output_p50 : F
  pub output_p90 : F
  pub prompt_mean : F
  pub output_mean : F

module _ {F : Type 0} ⦃num : Float F⦄ where
  -- `_quantile`; 0 of an empty list. `max(0, round(...))` is the positive part.
  unfoldable pub quantile : List ℕ → F → F
  unfolding sort_up
  quantile values q =
      let ordered = sort_up values in
      let last = length ordered - 1 in
      let i = min last (pos_part (num.round (num.mul q (of_nat last)))) in
      elim (get_elem? ordered i) [ none ↦ of_nat 0 | some v ↦ of_nat v ]

  mean_of : List ℕ → F
  mean_of values = num.div (of_nat (sum_by (λ v. v) values)) (of_nat (length values))

  -- `LengthStats.summary`
  unfoldable pub summary : LengthStats → LengthSummary F
  unfolding quantile mean_of recent_pairs
  summary s =
      let pairs = recent_pairs s in
      let prompts = map (λ e. e.0) pairs in
      let outputs = map (λ e. e.1) pairs in
      record {
        samples = length pairs;
        prompt_p50 = quantile prompts (frac 5 10);
        prompt_p90 = quantile prompts (frac 9 10);
        output_p50 = quantile outputs (frac 5 10);
        output_p90 = quantile outputs (frac 9 10);
        prompt_mean = mean_of prompts;
        output_mean = mean_of outputs;
      }

  moved : F → F × F → Bool
  moved threshold (a, b) = num.lt threshold (num.div (num.abs (num.sub a b)) (max_f b (of_nat 1)))

  -- `LengthSummary.shifted`
  unfoldable pub shifted : LengthSummary F → LengthSummary F → F → Bool
  unfolding moved
  shifted s other threshold = any (moved threshold) (
      (s.prompt_mean, other.prompt_mean)
      ∷ (s.prompt_p90, other.prompt_p90)
      ∷ (s.output_mean, other.output_mean)
      ∷ (s.output_p90, other.output_p90)
      ∷ [])
