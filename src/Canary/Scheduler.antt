-- ===== src/Canary/Scheduler.antt =====
-- src/canatune/controller/canary.py: the state of `CanaryScheduler`, `trigger` and `may_start`.
--
-- The demand, the solver of the published model and the length statistics, which the scheduler
-- shares with the Router, are inputs; so is one reading of the clock per call.
use cana_tune_llm.Base.{
  ℕ, suc, ◌-◌, Bool, true, false, not, ◌&&◌, ◌||◌, Option, none, some, List, [], ◌∷◌, ◌++◌, String,
  if◌then◌else◌, leb, ltb, ◌==◌, max, Float, of_nat, frac, max_f, keep_if, length, ◌>>=◌, is_none,
  is_empty, sum_by,
}
use cana_tune_llm.Domain.Tiers.{GroupState, ClockPoint, TierTable}
use cana_tune_llm.Domain.Groups.{Group, is_active}
use cana_tune_llm.Domain.Risk.{clock_eq}
use cana_tune_llm.Domain.Load.{LengthStats, using_default}
use cana_tune_llm.Domain.Load.Summary.{LengthSummary, summary, shifted}
use cana_tune_llm.Domain.Cluster.Uniform.{Evaluation, Solver}
use cana_tune_llm.Router.Settings.{ControlMode, same_mode}
use cana_tune_llm.Router.State.{Router}
use cana_tune_llm.Controller.Clocks.{Control}
use cana_tune_llm.Controller.Effort.{is_exploring}
use cana_tune_llm.Controller.Plan.{Planner, Demand, groups_where, can_carry, peak_from}
use cana_tune_llm.Controller.Plan.Tick.{pressure}
use cana_tune_llm.Canary.Bound.{wilson_ucb}
pub mod Start
pub mod Steps
pub mod Owner
pub mod Ended
pub mod Runs
pub mod Serving

pub record SchedulerSettings (F : Type 0) : Type 0 where
  pub period_s : F
  pub quiet_s : F
  pub min_interval_s : F
  pub max_duty : F
  pub periodic_s : F
  pub length_shift : F
  pub drift_min_samples : ℕ
  pub drain_timeout_s : F

pub data Kind : Type 0 where
  full relocate verify recheck : Kind

pub data Reason : Type 0 where
  cold_start no_model length_shift plan violation_drift periodic : Reason
  -- a request through the control API
  manual : String → Reason

-- `self.task`: none yet, running (and cancelled or not), or done.
pub data Task : Type 0 where
  never done : Task
  running : Bool → Task

pub data Outcome : Type 0 where
  failed verified verification_failed published aborted : Outcome

pub record Entry (F : Type 0) : Type 0 where
  pub kind : Kind
  pub reason : Reason
  pub outcome : Outcome
  pub end : F

pub record Scheduler (F : Type 0) : Type 0 where
  pub s : SchedulerSettings F
  pub theta : F
  pub has_locator : Bool
  pub t0 : F
  pub task : Task
  pub claim : Option (Kind × Reason)
  pub last_end : Option F
  pub explore_s : F
  pub started_at : Option F
  pub rejections_seen : ℕ
  pub last_rejection_at : F
  pub reference : Option (LengthSummary F)
  pub draining_since : Option F
  pub pending : Option (Kind × Reason)
  pub history : List (Entry F)
  -- point -> the highest confirmed rate of one group
  pub verified : List (ClockPoint × F)
  -- `caps` of the published cluster model, which a failed verification lowers
  pub caps : List (ClockPoint × F)

-- The scheduler with the Controller that it works for.
pub record Site (F : Type 0) : Type 0 where
  pub control : Control F
  pub planner : Planner F
  pub scheduler : Scheduler F

-- Why an experiment may start or may not.
pub data Why : Type 0 where
  in_mode : ControlMode → Why
  awaiting_drain cold_start_retry_wait cold_start min_interval duty_budget : Why
  recent_rejections no_canary no_other_active_group others_cannot_carry : Why
  ok : Why

abbrev pub is_running : Task → Bool
is_running (running cancelled) = true
is_running _ = false

abbrev pub is_never : Task → Bool
is_never never = true
is_never _ = false

unfoldable pub head_of : List ℕ → Option ℕ
head_of [] = none
head_of (i ∷ is) = some i

module _ {F : Type 0} where
  abbrev pub set_scheduler : Site F → (Scheduler F → Scheduler F) → Site F
  set_scheduler w f = record w { scheduler = f w.scheduler }

  -- `canary`: the first group that is one.
  unfoldable pub canary : Control F → Option ℕ
  unfolding head_of
  canary c = head_of (groups_where (λ g. g.canary) c)

  -- `verified.get(key)` and `verified[key] = v`, by clock point.
  unfoldable pub rate_at : ClockPoint → List (ClockPoint × F) → Option F
  rate_at point [] = none
  rate_at point ((p, r) ∷ rest) = if clock_eq p point then some r else rate_at point rest

  unfoldable pub put_rate : ClockPoint → F → List (ClockPoint × F) → List (ClockPoint × F)
  put_rate point r [] = (point, r) ∷ []
  put_rate point r ((p, q) ∷ rest) =
      if clock_eq p point then (p, r) ∷ rest else (p, q) ∷ put_rate point r rest

  -- `tiers.model_json() is None`
  abbrev pub lacks_model : Control F → Bool
  lacks_model c = elim c.router.tiers.table [
    | none ↦ true
    | some t ↦ is_none t.evidence.model_decode
  ]

  -- `_note_rejections`
  unfoldable pub note_rejections : Site F → F → Site F
  unfolding pressure
  note_rejections w now =
      let seen = pressure w.control.router in
      if seen == w.scheduler.rejections_seen
      then w
      else set_scheduler w (λ x. record x { rejections_seen = seen; last_rejection_at = now })
