-- ===== src/Samples/Clocks.antt =====
-- The theorems on the Controller (src/canatune/controller/tier_controller.py) at two groups.
use cana_tune_llm.Base.{
  ◌-ℤ◌, max_ℤ, ℕ, ◌<◌, ◌≡◌, refl, true, false, inr, none, some, List, [], ◌∷◌, ℤ, pos, arith,
}
use cana_tune_llm.Domain.Tiers.{Tier, ClockPoint}
use cana_tune_llm.Router.State.{Ticket, Stage}
use cana_tune_llm.Router.Lifecycle.Finish.{is_clean, Outcome}
use cana_tune_llm.Controller.Clocks.{
  Control, ControllerSettings, Routing, ProductionClocks, Change, begin_with, end_tier,
}
use cana_tune_llm.Controller.Clocks.Effective.{Below, BelowOld, tier_effective, set_tier-effective}
use cana_tune_llm.Controller.Clocks.Epochs.{ClockStep, clock_steps, clock_steps-unclean}
use cana_tune_llm.Router.Candidates.{d_exhausted_count}
use cana_tune_llm.Controller.Feedback.{
  Observed, Outside, note_warning, note_pressure, note_severe, note_tick, note_exhausted, confirmed,
  emergency, mostly,
}
use cana_tune_llm.Controller.Feedback.Step.{noted, feedback_control}
use cana_tune_llm.Controller.Feedback.Step.Entry.{IsUnmoved, feedback_control-IsUnmoved}
use cana_tune_llm.Controller.Effort.{raise_groups, raise_flags}
use cana_tune_llm.Controller.Effort.Reached.{raised_at, raise_groups-raised}
use cana_tune_llm.Samples.Fixed.{fixed}
use cana_tune_llm.Samples.Setup.{router, working}

abbrev pub settings : ControllerSettings ℤ
settings = record {
  period_s = pos 1_000;
  load_window_s = pos 10_000;
  t_down_s = pos 30_000;
  min_active_groups = 1;
  stagger_s = pos 2_000;
  energy_log_period_s = pos 5_000;
  burst_window_s = pos 120_000;
  burst_bucket_s = pos 10_000;
  switch_gain = pos 20;
  feedback_window_s = pos 10_000;
  feedback_min_samples = 5;
  feedback_near_slo = pos 900;
  confirm_s = pos 2_000;
  expansion_grace_s = pos 3_000;
  solver = false;
  full_effort_routing = Routing.baseline;
  confirm_window_s = pos 10_000;
  confirm_fraction = pos 600;
  d_trigger_count = 5;
  d_trigger_window_s = pos 3_000;
  full_effort_min_s = pos 30_000;
  exit_rate_fraction = pos 800;
  production_clocks = ProductionClocks.canary;
  redirect = true;
}

abbrev pub control : Control ℤ
control = record {
  settings = settings;
  router = router;
  retry = λ i. none;
  full_effort = false;
  full_effort_since = pos 0;
  redirected_at = none;
  watch = record {
    warning_seen = 1;
    warning_at = pos 0;
    pressure_at = pos 0;
    confirm_since = none;
    severe_since = none;
    expanded_at = none;
    pressure_ticks = [];
    full_effort_rate = pos 0;
  };
}

abbrev target : ClockPoint
target = record { prefill_mhz = 1_500; decode_mhz = 600 }

-- The locks fail.
set_tier-effective_example :
    let (c1, change) = begin_with control 1 Tier.h target in
    let old = tier_effective control 1 in
    let during = tier_effective c1 1 in
    let after = tier_effective (end_tier c1 change false (pos 5_000)) 1 in
    (BelowOld during old × Below during target)
    × ((false ≡ true → after ≡ some target)
        × (false ≡ false → BelowOld after old × Below after target))
set_tier-effective_example = set_tier-effective control 1 Tier.h target false (pos 5_000) refl

abbrev change : Change
change = record { group = 1; tier = Tier.h; old = some working; target = target }

abbrev ticket : Ticket ℤ
ticket = record {
  group = 0;
  decode_group = some 1;
  cell = record { clock = working; n_await = 0; prompt = 0; d_busy = false };
  estimate = none;
  prompt_tokens = 400;
  prompt_exact = true;
  admitted_at = pos 4_000;
  wait_ms = pos 0;
  clock_epoch = 3;
  decode_epoch = 3;
  snapshot = record { n_at_p = pos 0; inflight_mb = pos 0; baseline = false };
  first_token_at = none;
  last_token_at = none;
  finished = false;
  streaming = true;
  stage = Stage.prefill;
  s_own_ms = pos 30_000;
  features = [];
  predicted_ms = none;
  overflow = none;
  slack_ms = none;
}

abbrev outcome : Outcome ℤ
outcome = record {
  served = true;
  ttft_ms = some (pos 300_000);
  tpot_ms = some (pos 20_000);
  output_tokens = 90;
}

abbrev later : List (ClockStep ℤ)
later = ClockStep.begins 1 Tier.h working ∷ ClockStep.ends change true (pos 9_000) ∷ []

clock_steps-unclean_example :
    is_clean
      (clock_steps (end_tier control change true (pos 5_000)) later).router
      ticket
      outcome
      (some false)
    ≡ false
clock_steps-unclean_example =
    clock_steps-unclean control change true (pos 5_000) later ticket outcome (some false)
      (omega arith) (omega arith) (inr refl)

abbrev no_abort : Control ℤ → Control ℤ
no_abort c = c

raise_groups-raised_example :
    (after : Control ℤ) × ((raise_groups control no_abort (λ i. false) (pos 5_000) ≡ some after)
      × ((j : ℕ) → j < 2 → raised_at after j ≡ true))
unfolding raise_flags
raise_groups-raised_example = raise_groups-raised control no_abort (λ i. false) (pos 5_000)

abbrev pressed : Observed ℤ
pressed = record {
  pressure = true;
  severe = true;
  pressured_groups = 0 ∷ [];
  rate = pos 3_000;
  demand = pos 3_000;
  capacity = pos 1_000;
}

abbrev outside : Outside ℤ
outside = record { abort = no_abort; reclaim = none; locks = λ i. true }

noted-calm :
    (emergency (noted control pressed (pos 5_000)).0 (pos 5_000) ≡ false)
    × ((noted control pressed (pos 5_000)).1 ≡ false)
    × (confirmed (noted control pressed (pos 5_000)).0 (pos 5_000) ≡ false)
unfolding noted note_warning note_pressure note_severe note_tick note_exhausted d_exhausted_count
    confirmed mostly ◌-ℤ◌ max_ℤ
noted-calm = (refl, refl, refl)

feedback_control-IsUnmoved_example :
    (after : Control ℤ) × ((feedback_control control pressed outside (pos 5_000) ≡ some after)
      × IsUnmoved control after)
feedback_control-IsUnmoved_example =
    feedback_control-IsUnmoved control pressed outside (pos 5_000) refl noted-calm.0 noted-calm.1
      noted-calm.2
