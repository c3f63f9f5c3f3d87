-- ===== src/Samples/Domain.antt =====
-- The theorems on src/canatune/domain (admission.py, risk.py, calibration.py) at concrete counts.
use cana_tune_llm.Base.{
  ℕ, ◌+◌, ◌≤◌, ◌≡◌, refl, true, false, [], ◌∷◌, ◌⊎◌, some, All, leb_ℤ, if◌then◌else◌, ◌==◌, ℤ, pos,
  arith,
}
use cana_tune_llm.Domain.Risk.{Cell, RiskEstimate, RiskSource, RiskTable, find_cell, lighter_cells}
use cana_tune_llm.Domain.Risk.Estimate.{own, own_of, estimate}
use cana_tune_llm.Domain.Risk.Estimate.Lighter.{AreRates, AtMost, estimate-AtMost}
use cana_tune_llm.Domain.Calibration.{KneeCounts, bin_counts}
use cana_tune_llm.Domain.Calibration.Bins.{IsAscending, requests_at, violations_at, bin_counts-sum}
use cana_tune_llm.Domain.Admission.Cost.{clock_for}
use cana_tune_llm.Domain.Admission.Cost.Clocks.{listed, clock_for-nearest}
use cana_tune_llm.Domain.Admission.Slack.{
  count_at, bucket, estimate_at, is_observed, slack_cell, record_slack,
}
use cana_tune_llm.Domain.Admission.Slack.Nearest.{estimate_at-nearest, walk_down, walked_risk}
use cana_tune_llm.Domain.Admission.Slack.Records.{slack_cell-record_slack, bucket_mono, bump}
use cana_tune_llm.Samples.Fixed.{fixed, fixed-IsOrdered}
use cana_tune_llm.Samples.Setup.{slack, working}

estimate_at-nearest_example :
    (estimate_at slack 1).risk ≡ walked_risk slack (walk_down (is_observed slack) 1)
estimate_at-nearest_example = estimate_at-nearest slack 1 (omega arith)

slack_cell-record_slack_example : slack_cell (record_slack slack (pos 150_000) true) 2 ≡ (
    if bucket slack (pos 150_000) == 2 then bump true (slack_cell slack 2) else slack_cell slack 2)
slack_cell-record_slack_example = slack_cell-record_slack slack (pos 150_000) true 2

bucket_mono_example : bucket slack (pos 150_000) ≤ bucket slack (pos 250_000)
bucket_mono_example = bucket_mono fixed-IsOrdered slack (pos 150_000) (pos 250_000) refl

clock_for-nearest_example :
    let f = clock_for 1_200 (900 ∷ 1_980 ∷ []) (some 1_500) in
    (listed f (1_200 ∷ 900 ∷ 1_980 ∷ []) ≡ true)
    × (((z : ℕ) → listed z (1_200 ∷ 900 ∷ 1_980 ∷ []) ≡ true → z ≤ 1_500 → (z ≤ f) × (f ≤ 1_500))
        × ((z : ℕ) → listed z (1_200 ∷ 900 ∷ 1_980 ∷ []) ≡ true → (f ≤ 1_500) ⊎ (f ≤ z)))
clock_for-nearest_example = clock_for-nearest 1_200 (900 ∷ 1_980 ∷ []) 1_500

abbrev knees : KneeCounts
knees = record { seed = (3, (40, 2)) ∷ (1, (50, 0)) ∷ []; live = (3, (5, 4)) ∷ [] }

bin_counts-sum_example :
    IsAscending (bin_counts knees)
    × (((count_at 3 (bin_counts knees)).0 ≡ requests_at 3 knees.live + requests_at 3 knees.seed)
        × ((count_at 3 (bin_counts knees)).1
            ≡ violations_at 3 knees.live + violations_at 3 knees.seed))
bin_counts-sum_example = bin_counts-sum knees 3

abbrev at_queue : ℕ → Cell
at_queue n = record { clock = working; n_await = n; prompt = 0; d_busy = false }

-- The idle cell violates more often than the cell with a queue.
abbrev risks : RiskTable
risks = record {
  buckets = record { n_await = 0 ∷ 2 ∷ []; prompt_tokens = 500 ∷ 2_000 ∷ [] };
  min_samples = 5;
  cells =
      (at_queue 1, record { admitted = 10; violated = 1 })
      ∷ (at_queue 0, record { admitted = 10; violated = 3 })
      ∷ [];
  visits = [];
}

leb_ℤ_refl : (x : ℤ) → leb_ℤ x x ≡ true
leb_ℤ_refl x = ground arith

fixed-AreRates : AreRates ℤ
fixed-AreRates = record {
  zero_number = refl;
  rate_number = λ v a h. leb_ℤ_refl (fixed.div (fixed.of_int (pos v)) (fixed.of_int (pos a)));
}

abbrev rate : RiskEstimate ℤ
rate = record { risk = pos 100; source = RiskSource.observed; samples = 10 }

risks-own : own risks (at_queue 1) ≡ some rate
unfolding own own_of find_cell
risks-own = refl

estimate-AtMost_example :
    (leb_ℤ (pos 100) (estimate risks (at_queue 1)).risk ≡ true)
    × All
        (λ o. AtMost {F = ℤ} (estimate risks (at_queue 1)).risk (own risks o))
        (lighter_cells (at_queue 1))
estimate-AtMost_example =
    estimate-AtMost fixed-IsOrdered fixed-AreRates risks (omega arith) (at_queue 1) rate risks-own
