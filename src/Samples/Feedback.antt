-- ===== src/Samples/Feedback.antt =====
-- The theorems on the latency report (src/canatune/controller/router.py, `production_feedback`) at a
-- Router with three samples and a waiter.
use cana_tune_llm.Base.{ℕ, ◌≡◌, refl, true, [], ◌∷◌, ℤ, pos, sum_by, ◌-ℤ◌, ◌+ℤ◌}
use cana_tune_llm.Router.State.{Router, Sample}
use cana_tune_llm.Router.Report.{Query, GroupReport}
use cana_tune_llm.Router.Report.Build.{production_feedback}
use cana_tune_llm.Router.Report.Counted.{production_feedback-counted}
use cana_tune_llm.Router.Report.Severe.{production_feedback-severe}
use cana_tune_llm.Samples.Fixed.{fixed, fixed-IsOrdered}
use cana_tune_llm.Samples.Setup.{router}

abbrev sample_at : ℕ → ℕ → Sample ℤ
sample_at group ratio = record {
  ttft_time = pos 95_000;
  ttft_ratio = pos ratio;
  tpot_time = pos 0;
  tpot_ratio = pos 0;
  group = group;
  admitted = pos 90_000;
}

abbrev with_samples : Router ℤ
with_samples = record router {
  feedback = record router.feedback {
    production = (0, sample_at 1 950) ∷ (1, sample_at 0 400) ∷ (2, sample_at 1 500) ∷ [];
  };
  waiting = record router.waiting { waiting_since = (7, pos 10_000) ∷ [] };
}

abbrev query : Query ℤ
query = record {
  window_s = pos 10_000;
  min_samples = 5;
  near = pos 900;
  since = pos 0;
  admitted_since = pos 0;
}

abbrev by_place : ℕ → ℕ
by_place g = g

production_feedback-counted_example :
    let told = (production_feedback with_samples (pos 100_000) query by_place (0 ∷ 1 ∷ [])).1 in
    sum_by (λ (e : ℕ × GroupReport ℤ). e.1.samples) told.groups ≡ told.samples
production_feedback-counted_example =
    production_feedback-counted with_samples (pos 100_000) query by_place (0 ∷ 1 ∷ [])

three : (production_feedback with_samples (pos 100_000) query by_place (0 ∷ 1 ∷ [])).1.samples ≡ 3
unfolding production_feedback ◌-ℤ◌ ◌+ℤ◌
three = refl

pressured :
    (production_feedback with_samples (pos 100_000) query by_place (0 ∷ 1 ∷ [])).1.pressured_groups
    ≡ 1 ∷ []
unfolding production_feedback ◌-ℤ◌ ◌+ℤ◌
pressured = refl

-- The waiter has waited for ninety seconds.
severe : (production_feedback with_samples (pos 100_000) query by_place []).1.severe ≡ true
unfolding production_feedback ◌-ℤ◌ ◌+ℤ◌
severe = refl

production_feedback-severe_example :
    (production_feedback with_samples (pos 100_000) query by_place []).1.pressure ≡ true
production_feedback-severe_example =
    production_feedback-severe fixed-IsOrdered with_samples (pos 100_000) query by_place [] refl
      severe
