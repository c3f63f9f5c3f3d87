-- ===== src/Canary/Scheduler/Steps.antt =====
-- src/canatune/controller/canary.py: `abort`, `reclaim`, `request`, `_begin`, `step` and how an
-- experiment ends.
--
-- An experiment runs between the step that creates its task and the step that ends it; other steps
-- may come between. Whether both services of the Canary fall idle when asked, and whether the clock
-- locks hold, are parameters.
use cana_tune_llm.Base.{
  ℕ, Bool, true, false, not, ◌&&◌, ◌||◌, Option, none, some, List, [], ◌∷◌, ◌++◌, if◌then◌else◌,
  Float, of_nat, max_f, min_f, ◌>>=◌, is_none, is_zero,
}
use cana_tune_llm.Domain.Tiers.{Tier, GroupState, ClockPoint, TierTable}
use cana_tune_llm.Domain.Load.{LengthStats}
use cana_tune_llm.Domain.Load.Summary.{summary}
use cana_tune_llm.Domain.Cluster.Uniform.{Solver}
use cana_tune_llm.Router.State.{Router}
use cana_tune_llm.Router.Latency.{is_best_effort}
use cana_tune_llm.Controller.Clocks.{Control, modify, set_state, set_tier}
use cana_tune_llm.Controller.Effort.{is_exploring, publish}
use cana_tune_llm.Controller.Plan.{Demand}
use cana_tune_llm.Canary.Scheduler.{
  Scheduler, Site, Kind, Reason, Why, Task, Outcome, Entry, is_running, is_never, set_scheduler,
  canary, rate_at, put_rate, lacks_model, note_rejections,
}
use cana_tune_llm.Canary.Scheduler.Start.{trigger, may_start}
pub mod Ends
pub mod Step

abbrev pub is_draining : GroupState → Bool
is_draining GroupState.draining = true
is_draining _ = false

unfoldable pub cancel_task : Task → Task
cancel_task (Task.running cancelled) = Task.running true
cancel_task task = task

module _ {F : Type 0} where
  abbrev pub set_control : Site F → (Control F → Control F) → Site F
  set_control w f = record w { control = f w.control }

  abbrev pub state_of : Site F → ℕ → GroupState
  state_of w i = (w.control.router.groups i).state

  unfoldable pub undrain : Site F → Option ℕ → Site F
  undrain w none = w
  undrain w (some i) =
      if is_draining (state_of w i) then set_control w (λ c. set_state GroupState.active c i) else w

  -- The pending experiment is dropped, and its Canary serves again.
  unfoldable pub drop_pending : Site F → Option (Kind × Reason) → Site F
  unfolding undrain canary
  drop_pending w none = w
  drop_pending w (some claim) =
      undrain (set_scheduler w (λ x. record x { pending = none })) (canary w.control)

  -- `abort`, with whether an experiment was stopped.
  unfoldable pub abort : Site F → Site F × Bool
  unfolding drop_pending cancel_task
  abort w =
      let x = w.scheduler in
      let w1 = set_scheduler w (λ y. record y { task = cancel_task y.task }) in
      if is_none w.control.router.tiers.table
        && not (is_best_effort w.control.router.settings.overload)
      then (w, false)
      else (drop_pending w1 x.pending, is_running x.task || not (is_none x.pending))

  unfoldable pub release_group : Site F → ℕ → Site F
  release_group w i =
      set_control w
        (λ c. modify c i (λ g. record g { state = GroupState.active; effective = none }))

  -- `reclaim` once no task runs: the Canary serves again when both of its services are idle. Whether
  -- it returned without an exception.
  unfoldable pub released : Site F → Bool → Option ℕ → Site F × Bool
  unfolding release_group
  released w quiet none = (w, true)
  released w quiet (some i) =
      if is_exploring (state_of w i)
      then (if quiet then (release_group w i, true) else (w, false))
      else (w, true)

  unfoldable pub release : Site F → Bool → Site F × Bool
  unfolding released canary
  release w quiet =
      let w1 = set_scheduler w (λ x. record x { pending = none }) in
      released w1 quiet (canary w1.control)
