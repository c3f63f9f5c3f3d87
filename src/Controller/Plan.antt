-- ===== src/Controller/Plan.antt =====
-- src/canatune/controller/tier_controller.py: `demand`, `can_carry`, `_plan`, `_boost`, `_unboost` and
-- the order of `_tick`. The solver over the published model is an input, as is one reading of the
-- clock per step.
use cana_tune_llm.Base.{
  ℕ, zero, suc, ◌+◌, Bool, true, false, not, ◌&&◌, ◌||◌, Option, none, some, List, [], ◌∷◌, ◌++◌,
  map, if◌then◌else◌, ltb, ◌==◌, max, Float, of_nat, max_f, keep_if, length, ◌>>=◌, is_none,
  Compared, lexicographic, by_int, by_float, by_bool, min_by, max_by, traverse, is_empty, ℤ, pos,
  ◌+ℤ◌,
}
use cana_tune_llm.Domain.Tiers.{Tier, GroupState, ClockPoint, clocks}
use cana_tune_llm.Domain.Groups.{Group, is_active, routable}
use cana_tune_llm.Domain.Risk.{range_from, clock_eq}
use cana_tune_llm.Domain.Load.{LengthStats, recent_pairs}
use cana_tune_llm.Domain.Cluster.Mix.{Lengths}
use cana_tune_llm.Domain.Cluster.Uniform.{Evaluation, Solver}
use cana_tune_llm.Domain.Cluster.Evaluate.{evaluate}
use cana_tune_llm.Domain.Cluster.Solve.{solve}
use cana_tune_llm.Router.Settings.{Overload, ControlMode, RouterSettings}
use cana_tune_llm.Router.State.{Router}
use cana_tune_llm.Router.Arrivals.{Arrivals, offered}
use cana_tune_llm.Router.Latency.{is_best_effort}
use cana_tune_llm.Controller.Clocks.{Control, set_tier, set_state, for_groups, same_tier}
use cana_tune_llm.Controller.Effort.{wake, same_point, is_parked}
use cana_tune_llm.Controller.Feedback.{set_watch, set_mode, in_mode}
pub mod Counts
pub mod Decide
pub mod Tick

-- What `_plan` keeps from one tick to the next.
pub record Planner (F : Type 0) : Type 0 where
  -- `_demand`: (time, rate), the oldest first
  pub demands : List (F × F)
  pub target : Option (ℕ × ClockPoint)
  pub target_since : Option F
  pub plan : Option (Evaluation F)
  pub switch_s : F
  pub calm_since : Option F
  pub rejections_seen : ℕ

pub record Demand (F : Type 0) : Type 0 where
  pub rate : F
  pub burst : F
  pub lengths : Lengths

abbrev lengths_of : Option LengthStats → Lengths
lengths_of stats = elim stats [ none ↦ [] | some s ↦ recent_pairs s ]

same_target : Option (ℕ × ClockPoint) → ℕ × ClockPoint → Bool
same_target none key = false
same_target (some old) key = old.0 == key.0 && clock_eq old.1 key.1

module _ {F : Type 0} where
  -- `[g for g in self.groups if ...]`, as indices.
  abbrev pub groups_where : (Group F → Bool) → Control F → List ℕ
  groups_where p c = keep_if (λ i. p (c.router.groups i)) (range_from 0 c.router.n_groups)

  abbrev pub has_tier : Tier → Control F → ℕ → Bool
  has_tier tier c i = same_tier (c.router.groups i).tier tier

module _ {F : Type 0} ⦃num : Float F⦄ where
  -- The rate of `demand`, with the short window of a burst in the best-effort mode.
  burst_rate : Control F → Arrivals F → F → F → Arrivals F × F
  unfolding offered
  burst_rate c a now rate =
      let window = max_f c.settings.period_s (of_nat 1) in
      let (a1, recent) = offered a now window window in
      if is_best_effort c.router.settings.overload then (a1, max_f rate recent.0) else (a, rate)

  -- `demand`
  unfoldable pub demand : Control F → Arrivals F → F → Arrivals F × Demand F
  unfolding burst_rate offered
  demand c a now =
      let s = c.settings in
      let (a1, long) = offered a now s.load_window_s s.burst_bucket_s in
      let (a2, rate) = burst_rate c a1 now long.0 in
      let (a3, short) = offered a2 now s.burst_window_s s.burst_bucket_s in
      (a3, record { rate = rate; burst = short.1; lengths = lengths_of c.router.lengths })

  -- `max(rate, *(d for _, d in self._demand))`
  unfoldable pub peak_from : F → List (F × F) → F
  peak_from best [] = best
  peak_from best (d ∷ ds) = peak_from (max_f best d.1) ds

  drop_demands : F → List (F × F) → List (F × F)
  drop_demands cutoff [] = []
  drop_demands cutoff ((t, d) ∷ rest) =
      if num.lt t cutoff then drop_demands cutoff rest else (t, d) ∷ rest

  -- The demands of the last `t_down_s`, with the new one.
  unfoldable pub note_demand : Planner F → F → F → F → Planner F
  unfolding drop_demands
  note_demand p now rate t_down_s = record p {
    demands = drop_demands (num.sub now t_down_s) (p.demands ++ ((now, rate) ∷ []));
  }

  -- `max(d for _, d in self._demand)` of a nonempty record.
  peak_of : F → List (F × F) → F
  unfolding peak_from
  peak_of rate [] = rate
  peak_of rate (d ∷ ds) = peak_from d.1 ds

  feasible_at : Solver F → F → Lengths → ℕ → Option ClockPoint → Option Bool
  unfolding evaluate
  feasible_at s rate lengths n none = none
  feasible_at s rate lengths n (some point) = do
    e ← evaluate s rate lengths n point
    some e.feasible

  -- `can_carry`; `none` is an exception.
  unfoldable pub can_carry : Control F → Planner F → Option (Solver F) → Demand F → ℕ → Option Bool
  unfolding feasible_at peak_from
  can_carry c p none d n = some false
  can_carry c p (some s) d n =
      let judged =
        feasible_at s (peak_from d.rate p.demands) d.lengths n (clocks c.router.tiers Tier.h) in
      if n == 0
      then some false
      else if num.le d.rate (of_nat 0)
      then some true
      else if is_empty d.lengths
      then some false
      else judged
