-- ===== src/Samples/Cluster.antt =====
-- The theorems on the cluster model's solver at a small cluster.
use cana_tune_llm.Base.{
  ◌≡◌, refl, true, Option, none, some, List, [], ◌∷◌, ℤ, pos, All, ◌+ℤ◌, ◌-ℤ◌, ◌≼◌,
}
use cana_tune_llm.Domain.Tiers.{ClockPoint}
use cana_tune_llm.Domain.Cluster.{ClusterModel}
use cana_tune_llm.Domain.Cluster.Mix.{Lengths, mix_of}
use cana_tune_llm.Domain.Cluster.Mix.Longest.{mix_of-Reaches, Reaches}
use cana_tune_llm.Domain.Cluster.Uniform.{Evaluation, Solver, uniform}
use cana_tune_llm.Domain.Cluster.Capacity.{capacity, carries}
use cana_tune_llm.Domain.Cluster.Capacity.Bracket.{capacity-carries}
use cana_tune_llm.Domain.Cluster.Evaluate.{evaluate}
use cana_tune_llm.Domain.Cluster.Evaluate.Filled.{evaluate-IsFilled, IsFilled}
use cana_tune_llm.Domain.Cluster.Solve.{evaluations, solve}
use cana_tune_llm.Domain.Cluster.Solve.Cheapest.{solve-IsCheapest, IsCheapest}
use cana_tune_llm.Domain.Cluster.Solve.Range.{solve-InRange, InRange}
use cana_tune_llm.Samples.Fixed.{fixed, fixed-IsOrdered}

abbrev pub slow : ClockPoint
slow = record { prefill_mhz = 1_000; decode_mhz = 800 }

abbrev model : ClusterModel ℤ
model = record {
  prefill = (1_000, ((0, pos 20_000) ∷ (1_000, pos 220_000) ∷ [])) ∷ [];
  residence = (0, pos 30_000) ∷ (1_000, pos 50_000) ∷ [];
  decode = (800, (pos 20_000, pos 500)) ∷ (1_200, (pos 15_000, pos 400)) ∷ [];
  power_prefill = (1_000, (pos 60_000, pos 100_000)) ∷ [];
  power_decode = (800, (pos 50_000, pos 80_000)) ∷ (1_200, (pos 60_000, pos 120_000)) ∷ [];
  park_power_w = pos 80_000;
  rho_prefill = pos 700;
  ttft_slo_ms = pos 1_000_000;
  tpot_slo_ms = pos 50_000;
  kv_bytes_per_token = pos 1_000;
  kv_gate_bytes = none;
  kv_capacity_tokens = some 100_000;
  b_star = [];
  caps = (slow, pos 2_000) ∷ [];
  predictor_coef = none;
  slack_counts = none;
  theta = pos 100;
}

abbrev pub solver : Solver ℤ
solver = record { model = model; groups = 2; costs = model.prefill; slack = none }

abbrev pub lengths : Lengths
lengths = (500, 100) ∷ (200, 50) ∷ []

-- Above 2 requests per second a verification has failed.
capped : capacity solver lengths slow ≡ some (pos 1_999)
unfolding capacity uniform ◌+ℤ◌ ◌-ℤ◌
capped = refl

capacity-carries_example :
    carries solver (mix_of lengths) slow (pos 1_999) ≡ carries solver (mix_of lengths) slow (pos 0)
capacity-carries_example = capacity-carries solver lengths slow (pos 1_999) capped

mix_of-Reaches_example : All (λ e. Reaches e.0 (mix_of lengths)) lengths
mix_of-Reaches_example = mix_of-Reaches lengths

taken : Option (Evaluation ℤ) → Evaluation ℤ
taken o = elim o [ some e ↦ e | none ↦ uniform solver (pos 0) lengths 1 slow ]

two_groups : Evaluation ℤ
unfolding taken
two_groups = taken (evaluate solver (pos 3_000) lengths 2 slow)

two_found : evaluate solver (pos 3_000) lengths 2 slow ≡ some two_groups
unfolding two_groups evaluate uniform ◌+ℤ◌ ◌-ℤ◌
two_found = refl

two_feasible : two_groups.feasible ≡ true
unfolding two_groups evaluate uniform ◌+ℤ◌ ◌-ℤ◌
two_feasible = refl

evaluate-IsFilled_example : IsFilled solver lengths 2 two_groups
evaluate-IsFilled_example =
    evaluate-IsFilled solver (pos 3_000) lengths 2 slow two_groups two_found two_feasible

listed_of : Option (List (Evaluation ℤ)) → List (Evaluation ℤ)
listed_of o = elim o [ some es ↦ es | none ↦ [] ]

all_evaluations : List (Evaluation ℤ)
unfolding listed_of
all_evaluations = listed_of (evaluations solver (pos 3_000) lengths 1 none)

all_found : evaluations solver (pos 3_000) lengths 1 none ≡ some all_evaluations
unfolding all_evaluations evaluations uniform ◌+ℤ◌ ◌-ℤ◌
all_found = refl

best : Evaluation ℤ
unfolding taken
best = taken (solve solver (pos 3_000) lengths 1 none)

best_found : solve solver (pos 3_000) lengths 1 none ≡ some best
unfolding best solve uniform ◌+ℤ◌ ◌-ℤ◌
best_found = refl

have_power : All (λ e. e.power_w ≼ e.power_w) all_evaluations
unfolding all_evaluations evaluations uniform ◌+ℤ◌ ◌-ℤ◌
have_power = (refl, (refl, (refl, (refl, tt))))

solve-IsCheapest_example : IsCheapest all_evaluations best
solve-IsCheapest_example =
    solve-IsCheapest fixed-IsOrdered solver (pos 3_000) lengths 1 none all_evaluations best
      all_found have_power best_found

solve-InRange_example : InRange solver (pos 3_000) lengths 1 2 best
solve-InRange_example = solve-InRange solver (pos 3_000) lengths 1 none best best_found
