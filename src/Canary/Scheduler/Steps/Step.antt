-- ===== src/Canary/Scheduler/Steps/Step.antt =====
-- src/canatune/controller/canary.py: `_begin`, `request`, `reclaim` and `step`.
use cana_tune_llm.Base.{
  ℕ, Bool, true, false, not, ◌&&◌, ◌||◌, Option, none, some, if◌then◌else◌, Float, of_nat, is_none,
  is_zero, String,
}
use cana_tune_llm.Domain.Tiers.{GroupState}
use cana_tune_llm.Domain.Groups.{is_active}
use cana_tune_llm.Domain.Cluster.Uniform.{Solver}
use cana_tune_llm.Controller.Clocks.{set_state}
use cana_tune_llm.Controller.Effort.{is_exploring}
use cana_tune_llm.Controller.Plan.{Demand}
use cana_tune_llm.Canary.Scheduler.{
  Site, Kind, Reason, Why, Task, is_running, is_never, set_scheduler, canary, note_rejections,
}
use cana_tune_llm.Canary.Scheduler.Start.{trigger, may_start}
use cana_tune_llm.Canary.Scheduler.Steps.{set_control, state_of, is_draining, release}
use cana_tune_llm.Canary.Scheduler.Steps.Ends.{Ending, Found, end_experiment, retier}

-- What a step sees besides the state.
pub record Seen (F : Type 0) : Type 0 where
  pub ending : Ending F
  pub demand : Demand F
  pub solver : Option (Solver F)

module _ {F : Type 0} ⦃num : Float F⦄ where
  unfoldable pub drain_canary : Site F → ℕ → F → Site F
  drain_canary w i now =
      if is_active (state_of w i)
      then set_scheduler (set_control w (λ c. set_state GroupState.draining c i))
          (λ x. record x { draining_since = some now })
      else w

  unfoldable pub begin_at : Site F → Kind × Reason → F → Option ℕ → Site F
  unfolding drain_canary
  begin_at w claim now none = w
  begin_at w claim now (some i) =
      if w.scheduler.has_locator
      then drain_canary (set_scheduler w (λ x. record x { pending = some claim })) i now
      else w

  -- `_begin`
  unfoldable pub begin : Site F → Kind × Reason → F → Site F
  unfolding begin_at canary
  begin w claim now = begin_at w claim now (canary w.control)

  unfoldable pub begin_if : Site F → Kind × Reason → F → Option (Bool × Why) → Site F
  unfolding begin
  begin_if w claim now (some (true, why)) = begin w claim now
  begin_if w claim now _ = w

  -- `request`: the state after it; it answers what `may_start` does, or `already_running`.
  unfoldable pub request : Site F → Kind → String → Seen F → Site F
  unfolding begin_if may_start
  request w kind reason v =
      let now = v.ending.now in
      if is_running w.scheduler.task || not (is_none w.scheduler.pending)
      then w
      else begin_if w (kind, Reason.manual reason) now (may_start w v.solver v.demand now)

  -- `reclaim` from outside the task: a running experiment is cancelled and joined first.
  unfoldable pub reclaim : Site F → Ending F → Site F × Bool
  unfolding release end_experiment
  reclaim w e =
      let cancelled = set_scheduler w (λ x. record x { task = Task.running true }) in
      if is_running w.scheduler.task
      then release (end_experiment cancelled e Found.broken) e.quiet
      else release w e.quiet

  unfoldable pub begin_triggered : Site F → Seen F → Option (Kind × Reason) → Site F
  unfolding begin_if may_start
  begin_triggered w v none = w
  begin_triggered w v (some claim) =
      begin_if w claim v.ending.now (may_start w v.solver v.demand v.ending.now)

  -- A trigger that may start becomes pending.
  unfoldable pub claim_pending : Site F → Seen F → Site F
  unfolding begin_triggered trigger
  claim_pending w v =
      if is_none w.scheduler.pending
      then begin_triggered w v (trigger w v.ending.lengths v.demand v.ending.now)
      else w

  -- The task is created.
  unfoldable pub launch : Site F → ℕ → F → Option (Kind × Reason) → Site F
  launch w i now none = w
  launch w i now (some claim) =
      set_scheduler (set_control w (λ c. set_state GroupState.exploring c i)) (λ x. record x {
        pending = none;
        claim = some claim;
        started_at = some now;
        task = Task.running false;
      })

  -- `self._draining_since or self._clock()`
  unfoldable pub since_or : Option F → F → F
  since_or none now = now
  since_or (some t) now = if num.eq t (of_nat 0) then now else t

  unfoldable pub give_up : Site F → ℕ → F → Site F
  unfolding since_or
  give_up w i now =
      let x = w.scheduler in
      if num.lt x.s.drain_timeout_s (num.sub now (since_or x.draining_since now))
      then set_scheduler (set_control w (λ c. set_state GroupState.active c i))
          (λ y. record y { pending = none })
      else w

  -- A pending experiment starts, once the Canary that drains has no request in flight.
  unfoldable pub start_pending : Site F → ℕ → F → Site F
  unfolding launch give_up
  start_pending w i now =
      let g = w.control.router.groups i in
      if is_none w.scheduler.pending
      then w
      else if is_draining g.state && not (is_zero g.n_inflight)
      then give_up w i now
      else launch w i now w.scheduler.pending

  -- A drain that had failed is tried again.
  unfoldable pub retry_drain : Site F × Bool → Seen F → ℕ → Site F
  unfolding retier
  retry_drain (w, true) v i = if w.control.router.full_effort then w else retier w v.ending i
  retry_drain (w, false) v i = w

  unfoldable pub proceed : Site F → Seen F → ℕ → Site F
  unfolding claim_pending start_pending
  proceed w v i = start_pending (claim_pending w v) i v.ending.now

  unfoldable pub step_of : Site F → Seen F → ℕ → Site F
  unfolding retry_drain release proceed
  step_of w v i =
      let (w1, back) = release w v.ending.quiet in
      if not (is_never w.scheduler.task) && is_exploring (state_of w i)
      then (if back then proceed (retry_drain (w1, back) v i) v i else w1)
      else proceed w v i

  unfoldable pub step_at : Site F → Seen F → Option ℕ → Site F
  unfolding step_of
  step_at w v none = w
  step_at w v (some i) =
      if not w.scheduler.has_locator || is_running w.scheduler.task then w else step_of w v i

  -- `step`; an exception leaves what was done before it.
  unfoldable pub step : Site F → Seen F → Site F
  unfolding step_at note_rejections canary
  step w v = let w1 = note_rejections w v.ending.now in step_at w1 v (canary w1.control)
