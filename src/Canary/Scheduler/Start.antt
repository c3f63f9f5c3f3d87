-- ===== src/Canary/Scheduler/Start.antt =====
-- src/canatune/controller/canary.py: `trigger`, `_unverified` and `may_start`.
use cana_tune_llm.Domain.Risk.{range_from}
use cana_tune_llm.Base.{
  ℕ, ◌-◌, Bool, true, false, not, ◌&&◌, ◌||◌, Option, none, some, List, [], ◌∷◌, if◌then◌else◌, leb,
  ◌==◌, max, Float, of_nat, frac, max_f, length, ◌>>=◌, is_none, is_empty, sum_by, keep_if,
}
use cana_tune_llm.Domain.Tiers.{GroupState, ClockPoint}
use cana_tune_llm.Domain.Groups.{Group, is_active}
use cana_tune_llm.Domain.Load.{LengthStats, using_default}
use cana_tune_llm.Domain.Load.Summary.{LengthSummary, summary, shifted}
use cana_tune_llm.Domain.Cluster.Uniform.{Evaluation, Solver}
use cana_tune_llm.Router.Settings.{ControlMode, same_mode}
use cana_tune_llm.Router.State.{Router}
use cana_tune_llm.Controller.Clocks.{Control}
use cana_tune_llm.Controller.Effort.{is_exploring}
use cana_tune_llm.Controller.Plan.{Demand, groups_where, can_carry}
use cana_tune_llm.Canary.Bound.{wilson_ucb}
use cana_tune_llm.Canary.Scheduler.{
  Scheduler, Site, Kind, Reason, Why, is_never, canary, rate_at, lacks_model,
}
pub mod Budget

unfoldable pub violations : List Bool → ℕ
violations outcomes = sum_by (λ v. if v then 1 else 0) outcomes

unfoldable pub carried_by : Bool → Bool × Why
carried_by true = (true, Why.ok)
carried_by false = (false, Why.others_cannot_carry)

module _ {F : Type 0} ⦃num : Float F⦄ where
  -- `max(plan.rates, default=rate / max(plan.n, 1))`
  unfoldable pub most_rate : F → List F → F
  most_rate default [] = default
  most_rate default (r ∷ []) = r
  most_rate default (r ∷ q ∷ rest) = most_rate default (max_f r q ∷ rest)

  -- The rate that the plan gives a group.
  unfoldable pub rate_of_plan : Evaluation F → F → F
  unfolding most_rate
  rate_of_plan plan rate = most_rate (num.div rate (of_nat (max plan.n 1))) plan.rates

  unfoldable pub confirmed_rate : Option F → F
  confirmed_rate none = of_nat 0
  confirmed_rate (some r) = r

  unfoldable pub unverified_plan :
      Site F → Demand F → Option (Evaluation F) → Option (ClockPoint × F)
  unfolding rate_of_plan confirmed_rate rate_at
  unverified_plan w d none = none
  unverified_plan w d (some plan) =
      let per_group = rate_of_plan plan d.rate in
      if not plan.feasible
      then none
      else if num.le per_group (confirmed_rate (rate_at plan.point w.scheduler.verified))
      then none
      else some (plan.point, per_group)

  -- `_unverified`
  unfoldable pub unverified : Site F → Demand F → Option (ClockPoint × F)
  unfolding unverified_plan
  unverified w d = unverified_plan w d w.planner.plan

  -- Production violates more than `theta`, by a lower confidence bound.
  unfoldable pub drifts : Scheduler F → List Bool → Bool
  unfolding violations wilson_ucb
  drifts x outcomes =
      let n = length outcomes in
      let k = violations outcomes in
      let low = num.sub (of_nat 1) (wilson_ucb (n - k) n (frac 128 100)) in
      leb x.s.drift_min_samples n
      && (num.lt x.theta (num.div (of_nat k) (of_nat n)) && num.lt x.theta low)

  unfoldable pub has_shifted : Scheduler F → LengthStats → Option (LengthSummary F) → Bool
  unfolding shifted summary using_default
  has_shifted x lengths none = false
  has_shifted x lengths (some reference) =
      not (using_default lengths) && shifted (summary lengths) reference x.s.length_shift

  unfoldable pub last_or_start : Option F → F → F
  last_or_start none t0 = t0
  last_or_start (some t) t0 = t

  -- `trigger`
  unfoldable pub trigger : Site F → LengthStats → Demand F → F → Option (Kind × Reason)
  unfolding unverified drifts has_shifted last_or_start
  trigger w lengths d now =
      let x = w.scheduler in
      if is_none w.control.router.tiers.table
      then some (Kind.full, Reason.cold_start)
      else if w.control.settings.solver && lacks_model w.control
      then some (Kind.full, Reason.no_model)
      else if has_shifted x lengths x.reference
      then some (Kind.verify, Reason.length_shift)
      else if not (is_none (unverified w d))
      then some (Kind.verify, Reason.plan)
      else if drifts x w.control.router.outcomes
      then some (Kind.relocate, Reason.violation_drift)
      else if num.le x.s.periodic_s (num.sub now (last_or_start x.last_end x.t0))
      then some (Kind.recheck, Reason.periodic)
      else none

  -- `self.last_end is not None and now - self.last_end < wait`
  unfoldable pub too_soon : Option F → F → F → Bool
  too_soon none now wait = false
  too_soon (some t) now wait = num.lt (num.sub now t) wait

  unfoldable pub exploring_canary : Control F → Option ℕ → Bool
  exploring_canary c none = false
  exploring_canary c (some i) = is_exploring (c.router.groups i).state

  -- The active groups with known clocks that are not the Canary.
  unfoldable pub others : Control F → ℕ → List ℕ
  unfolding range_from
  others c own =
      keep_if
        (λ i.
          not (i == own)
          && (is_active (c.router.groups i).state && not (is_none (c.router.groups i).effective)))
        (range_from 0 c.router.n_groups)

  -- The last tests of `may_start`, with the groups that would serve; `none` is an exception of the
  -- solver.
  unfoldable pub carried : Site F → Option (Solver F) → Demand F → List ℕ → Option (Bool × Why)
  unfolding can_carry carried_by
  carried w none d rest = some (true, Why.ok)
  carried w (some s) d rest = do
    fits ← can_carry w.control w.planner (some s) d (length rest)
    some (carried_by fits)

  unfoldable pub among : Site F → Option (Solver F) → Demand F → Option ℕ → Option (Bool × Why)
  unfolding others carried
  among w s d none = some (false, Why.no_canary)
  among w s d (some own) =
      let rest = others w.control own in
      if is_empty rest then some (false, Why.no_other_active_group) else carried w s d rest

  -- The share of the time since the start that experiments took.
  unfoldable pub over_budget : Scheduler F → F → Bool
  over_budget x now =
      num.lt x.s.max_duty (num.div x.explore_s (max_f (num.sub now x.t0) (of_nat 1)))

  -- `may_start` with a published table.
  unfoldable pub may_start_warm : Site F → Option (Solver F) → Demand F → F → Option (Bool × Why)
  unfolding too_soon over_budget among canary
  may_start_warm w s d now =
      let x = w.scheduler in
      if too_soon x.last_end now x.s.min_interval_s
      then some (false, Why.min_interval)
      else if over_budget x now
      then some (false, Why.duty_budget)
      else if num.lt (num.sub now x.last_rejection_at) x.s.quiet_s
      then some (false, Why.recent_rejections)
      else among w s d (canary w.control)

  unfoldable pub may_start_cold : Scheduler F → F → Bool × Why
  unfolding too_soon
  may_start_cold x now =
      if too_soon x.last_end now x.s.quiet_s
      then (false, Why.cold_start_retry_wait)
      else (true, Why.cold_start)

  -- `may_start`
  unfoldable pub may_start : Site F → Option (Solver F) → Demand F → F → Option (Bool × Why)
  unfolding exploring_canary may_start_cold may_start_warm
  may_start w s d now =
      let c = w.control in
      let x = w.scheduler in
      if not (same_mode c.router.control_mode ControlMode.energy)
      then some (false, Why.in_mode c.router.control_mode)
      else if exploring_canary c (canary c) && not (is_never x.task)
      then some (false, Why.awaiting_drain)
      else if is_none c.router.tiers.table
      then some (may_start_cold x now)
      else may_start_warm w s d now
