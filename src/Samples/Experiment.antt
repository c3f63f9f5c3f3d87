-- ===== src/Samples/Experiment.antt =====
-- The theorems on how an experiment of the Canary ends (src/canatune/controller/canary.py).
use cana_tune_llm.Domain.Risk.{range_from}
use cana_tune_llm.Base.{◌≡◌, refl, true, false, none, some, [], ◌∷◌, ℤ, pos, ◌-ℤ◌, ◌+ℤ◌, ◌≼◌}
use cana_tune_llm.Domain.Tiers.{GroupState, clocks}
use cana_tune_llm.Domain.Cluster.Uniform.{Evaluation, Constraint}
use cana_tune_llm.Controller.Effort.{is_exploring}
use cana_tune_llm.Canary.Scheduler.{Site, Task, canary}
use cana_tune_llm.Canary.Scheduler.Start.{unverified}
use cana_tune_llm.Canary.Scheduler.Steps.{state_of}
use cana_tune_llm.Canary.Scheduler.Steps.Ends.{Ending, Found, end_experiment}
use cana_tune_llm.Canary.Scheduler.Steps.Step.{step, reclaim}
use cana_tune_llm.Canary.Scheduler.Ended.Back.{Held, reclaim-Held, end_experiment-Back}
use cana_tune_llm.Canary.Scheduler.Ended.Confirmed.{rate_before, end_experiment-Confirms}
use cana_tune_llm.Samples.Fixed.{fixed, fixed-IsOrdered}
use cana_tune_llm.Samples.Canary.{idle_site, seen, stats}
use cana_tune_llm.Samples.Cluster.{slow}

-- An experiment that runs, on group 1, for a plan at the slow point.
abbrev plan : Evaluation ℤ
plan = record {
  n = 1;
  point = slow;
  feasible = true;
  power_w = pos 200_000;
  binding = Constraint.decode;
  use_of = [];
  rates = pos 1_500 ∷ [];
}

busy_site : Site ℤ
busy_site = record (step idle_site seen) { planner = record idle_site.planner { plan = some plan } }

abbrev ending : Ending ℤ
ending = record { lengths = stats; quiet = true; locks = λ i. true; now = pos 2_100_000 }

-- The services of the Canary do not fall idle.
abbrev stuck : Ending ℤ
stuck = record ending { quiet = false }

owned : canary busy_site.control ≡ some 1
unfolding canary range_from busy_site step clocks ◌-ℤ◌ ◌+ℤ◌
owned = refl

explores : is_exploring (state_of busy_site 1) ≡ true
unfolding busy_site step clocks ◌-ℤ◌ ◌+ℤ◌
explores = refl

calm : busy_site.control.router.full_effort ≡ false
unfolding busy_site step clocks ◌-ℤ◌ ◌+ℤ◌
calm = refl

runs : busy_site.scheduler.task ≡ Task.running false
unfolding busy_site step clocks ◌-ℤ◌ ◌+ℤ◌
runs = refl

asked : unverified busy_site seen.demand ≡ some (slow, pos 1_500)
unfolding busy_site unverified step clocks ◌-ℤ◌ ◌+ℤ◌
asked = refl

reclaim-Held_example : Held busy_site (reclaim busy_site stuck)
reclaim-Held_example = reclaim-Held 1 busy_site stuck owned explores refl

end_experiment-Back_example :
    (state_of (end_experiment busy_site ending Found.unplanned) 1 ≡ GroupState.active)
    × ((end_experiment busy_site ending Found.unplanned).scheduler.task ≡ Task.done)
end_experiment-Back_example =
    end_experiment-Back busy_site ending Found.unplanned 1 owned explores calm refl

was_number : rate_before busy_site slow ≼ rate_before busy_site slow
unfolding busy_site step clocks ◌-ℤ◌ ◌+ℤ◌
was_number = refl

end_experiment-Confirms_example :
    unverified (end_experiment busy_site ending (Found.passed slow (pos 1_500))) seen.demand ≡ none
end_experiment-Confirms_example =
    end_experiment-Confirms fixed-IsOrdered busy_site ending seen.demand slow (pos 1_500) asked runs
      refl was_number
