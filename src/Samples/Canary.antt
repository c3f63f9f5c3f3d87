-- ===== src/Samples/Canary.antt =====
-- The theorems on the Canary scheduler (src/canatune/controller/canary.py) and on the plan of the
-- Controller at small sites.
use cana_tune_llm.Domain.Cluster.Uniform.{uniform}
use cana_tune_llm.Domain.Risk.{range_from}
use cana_tune_llm.Base.{
  ◌≡◌, refl, true, false, none, some, [], ◌∷◌, ℤ, pos, arith, ◌==◌, if◌then◌else◌, ◌-ℤ◌, ◌+ℤ◌,
  Option,
}
use cana_tune_llm.Domain.Tiers.{GroupState, clocks}
use cana_tune_llm.Domain.Groups.{routable}
use cana_tune_llm.Domain.Load.{LengthStats}
use cana_tune_llm.Router.Settings.{ControlMode}
use cana_tune_llm.Controller.Clocks.{Control}
use cana_tune_llm.Controller.Feedback.{Observed, Outside}
use cana_tune_llm.Controller.Feedback.Step.{expand_capacity}
use cana_tune_llm.Controller.Plan.{Planner, Demand}
use cana_tune_llm.Controller.Plan.Decide.{plan, wake_up, Roll}
use cana_tune_llm.Controller.Plan.Decide.Kept.{Spares}
use cana_tune_llm.Controller.Plan.Decide.Spared.{plan-Spares}
use cana_tune_llm.Controller.Plan.Decide.Enough.{wake_up-ends}
use cana_tune_llm.Canary.Scheduler.{Scheduler, Site, Kind, Reason, Task, Why, is_running, canary}
use cana_tune_llm.Canary.Scheduler.Start.{may_start}
use cana_tune_llm.Canary.Scheduler.Start.Budget.{may_start-IsWithin, IsWithin}
use cana_tune_llm.Canary.Scheduler.Steps.Step.{Seen, step}
use cana_tune_llm.Canary.Scheduler.Runs.Moves.{Move, Run, Run-unroutable}
use cana_tune_llm.Canary.Scheduler.Serving.{Launched, IsClaimed, step-Launched}
use cana_tune_llm.Samples.Fixed.{fixed}
use cana_tune_llm.Samples.Setup.{router}
use cana_tune_llm.Samples.Clocks.{control}
use cana_tune_llm.Samples.Cluster.{solver, lengths, slow}

-- Group 1 is the Canary.
abbrev control_with : ℤ → Control ℤ
control_with flying = record control {
  router = record router {
    groups = λ i. record (router.groups i) {
      canary = i == 1;
      n_inflight = if i == 1 then flying else pos 0;
    };
  };
}

abbrev with_canary : Control ℤ
with_canary = control_with (pos 3)

abbrev planner : Planner ℤ
planner = record {
  demands = [];
  target = none;
  target_since = none;
  plan = none;
  switch_s = pos 0;
  calm_since = none;
  rejections_seen = 0;
}

abbrev scheduler : Scheduler ℤ
scheduler = record {
  s = record {
    period_s = pos 1_000;
    quiet_s = pos 60_000;
    min_interval_s = pos 600_000;
    max_duty = pos 100;
    periodic_s = pos 1_800_000;
    length_shift = pos 300;
    drift_min_samples = 200;
    drain_timeout_s = pos 30_000;
  };
  theta = pos 100;
  has_locator = true;
  t0 = pos 0;
  task = Task.never;
  claim = none;
  last_end = none;
  explore_s = pos 0;
  started_at = none;
  rejections_seen = 1;
  last_rejection_at = pos 0;
  reference = none;
  draining_since = none;
  pending = none;
  history = [];
  verified = [];
  caps = [];
}

abbrev site : Site ℤ
site = record { control = with_canary; planner = planner; scheduler = scheduler }

abbrev pub stats : LengthStats
stats = record { default = (100, 50) ∷ []; min_samples = 5; keep = 100; pairs = [] }

abbrev pub seen : Seen ℤ
seen = record {
  ending = record { lengths = stats; quiet = true; locks = λ i. true; now = pos 2_000_000 };
  demand = record { rate = pos 1_000; burst = pos 1_000; lengths = (100, 50) ∷ [] };
  solver = none;
}

starts : may_start site none seen.demand (pos 2_000_000) ≡ some (true, Why.ok)
unfolding may_start ◌-ℤ◌
starts = refl

may_start-IsWithin_example :
    (with_canary.router.control_mode ≡ ControlMode.energy)
    × IsWithin site seen.demand (pos 2_000_000)
may_start-IsWithin_example =
    may_start-IsWithin site none seen.demand (pos 2_000_000) Why.ok refl starts

-- The same site, with the Canary idle: the periodic check begins at once.
abbrev pub idle_site : Site ℤ
idle_site = record site { control = control_with (pos 0) }

owned : canary idle_site.control ≡ some 1
unfolding canary range_from
owned = refl

busy : is_running (step idle_site seen).scheduler.task ≡ true
unfolding step ◌-ℤ◌
busy = refl

Run-unroutable_example :
    (routable ((step idle_site seen).control.router.groups 1) ≡ false)
    × ((step idle_site seen).scheduler.pending ≡ none)
Run-unroutable_example =
    Run-unroutable 1 idle_site (step idle_site seen) owned refl
      (Run.next Run.start (Move.stepped seen)) busy

-- With three requests in flight the Canary is claimed and drains; then a confirmed pressure expands
-- the capacity to both groups.
claimed_site : Site ℤ
claimed_site = step site seen

abbrev pressed : Observed ℤ
pressed = record {
  pressure = true;
  severe = false;
  pressured_groups = [];
  rate = pos 2_000;
  demand = pos 2_000;
  capacity = pos 1_000;
}

abbrev outside : Outside ℤ
outside = record { abort = λ c. c; reclaim = none; locks = λ i. true }

expanded : Option (Control ℤ) → Site ℤ
unfolding claimed_site
expanded o = elim o [ none ↦ claimed_site | some c ↦ record claimed_site { control = c } ]

expanded_site : Site ℤ
unfolding expanded
expanded_site = expanded (expand_capacity claimed_site.control pressed outside (pos 2_000_000))

still_owned : canary expanded_site.control ≡ some 1
unfolding canary range_from expanded_site expand_capacity step clocks ◌-ℤ◌ ◌+ℤ◌
still_owned = refl

claimed : IsClaimed 1 expanded_site (Kind.recheck, Reason.periodic)
unfolding expanded_site expand_capacity step clocks ◌-ℤ◌ ◌+ℤ◌
claimed = record { locator = refl; idle = refl; pending = refl; active = refl }

-- Those three requests are still in flight when the experiment starts.
step-Launched_example : Launched 1 expanded_site (step expanded_site seen)
step-Launched_example =
    step-Launched 1 expanded_site seen (Kind.recheck, Reason.periodic) still_owned claimed

in_flight : (expanded_site.control.router.groups 1).n_inflight ≡ pos 3
unfolding expanded_site expand_capacity step clocks ◌-ℤ◌ ◌+ℤ◌
in_flight = refl

-- A plan at a low rate: one of the two groups of the small cluster drains.
abbrev plan_control : Control ℤ
plan_control = record control {
  router = record router {
    groups = λ i. record (router.groups i) { effective = some slow };
    tiers = record router.tiers { working = some slow };
  };
}

abbrev rested : Planner ℤ
rested = record planner {
  demands = (pos 1_990_000, pos 500) ∷ [];
  target = some (1, slow);
  target_since = some (pos 1_000_000);
}

abbrev low : Demand ℤ
low = record { rate = pos 500; burst = pos 1_000; lengths = lengths }

planned_by : Option (Control ℤ × Planner ℤ) → Control ℤ × Planner ℤ
planned_by o = elim o [ none ↦ (plan_control, rested) | some r ↦ r ]

planned : Control ℤ × Planner ℤ
unfolding planned_by
planned = planned_by (plan plan_control rested (some solver) low (λ i. true) (pos 2_000_000))

plan_found :
    plan plan_control rested (some solver) low (λ i. true) (pos 2_000_000)
    ≡ some (planned.0, planned.1)
unfolding planned plan uniform clocks ◌-ℤ◌ ◌+ℤ◌
plan_found = refl

drains : (planned.0.router.groups 0).state ≡ GroupState.draining
unfolding planned plan uniform clocks ◌-ℤ◌ ◌+ℤ◌
drains = refl

plan-Spares_example : Spares 1 plan_control planned.0
plan-Spares_example =
    plan-Spares plan_control rested (some solver) low (λ i. true) (pos 2_000_000) planned.0
      planned.1 plan_found

abbrev roll : Roll
roll = record { active = 0 ∷ 1 ∷ []; n_routable = 2 }

wake_up-ends_example :
    wake_up 3 (λ i. true) (pos 0) 4 plan_control roll
    ≡ wake_up 9 (λ i. true) (pos 0) 4 plan_control roll
wake_up-ends_example = wake_up-ends (λ i. true) (pos 0) 4 9 plan_control roll (omega arith)
