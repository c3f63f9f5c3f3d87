-- ===== src/Canary/Scheduler/Steps/Ends.antt =====
-- src/canatune/controller/canary.py: what an experiment finds, and its `finally`.
use cana_tune_llm.Base.{
  ℕ, Bool, true, false, Option, none, some, List, [], ◌∷◌, ◌++◌, if◌then◌else◌, Float, of_nat,
  max_f, min_f, is_none,
}
use cana_tune_llm.Domain.Tiers.{Tier, ClockPoint, TierTable}
use cana_tune_llm.Domain.Load.{LengthStats}
use cana_tune_llm.Domain.Load.Summary.{summary}
use cana_tune_llm.Controller.Clocks.{Control, set_tier}
use cana_tune_llm.Controller.Effort.{publish}
use cana_tune_llm.Canary.Scheduler.{
  Scheduler, Site, Kind, Reason, Task, Outcome, Entry, set_scheduler, canary, rate_at, put_rate,
  lacks_model,
}
use cana_tune_llm.Canary.Scheduler.Steps.{set_control, release}

-- What the locator comes back with: a verification window that met the target or did not, at a point
-- and a rate; no plan to verify; a new table with its capacity and the caps of its model; or an
-- exception.
pub data Found (F : Type 0) : Type 0 where
  passed short : ClockPoint → F → Found F
  unplanned broken : Found F
  table : TierTable F → Option F → List (ClockPoint × F) → Found F

-- What an end of an experiment depends on: the lengths, whether the services fall idle and the locks
-- hold, and the clock.
pub record Ending (F : Type 0) : Type 0 where
  pub lengths : LengthStats
  pub quiet : Bool
  pub locks : ℕ → Bool
  pub now : F

module _ {F : Type 0} ⦃num : Float F⦄ where
  unfoldable pub refer : Site F → Ending F → Site F
  unfolding summary
  refer w e = set_scheduler w (λ x. record x { reference = some (summary e.lengths) })

  -- `max(verified.get(key, 0.0), rate)`
  unfoldable pub confirm : ClockPoint → F → Scheduler F → Scheduler F
  unfolding rate_at put_rate
  confirm point rate x =
      let old : F = elim (rate_at point x.verified) [ none ↦ of_nat 0 | some r ↦ r ] in
      record x { verified = put_rate point (max_f old rate) x.verified }

  -- `min(caps.get(key, rate), rate)`
  unfoldable pub lower_cap : ClockPoint → F → Scheduler F → Scheduler F
  unfolding rate_at put_rate
  lower_cap point rate x =
      let old : F = elim (rate_at point x.caps) [ none ↦ rate | some r ↦ r ] in
      record x { caps = put_rate point (min_f old rate) x.caps }

  -- `if capacity:`, then the rate that the fill windows confirmed at H.
  unfoldable pub from_fill : TierTable F → Option F → List (ClockPoint × F)
  from_fill t none = []
  from_fill t (some c) = if num.eq c (of_nat 0) then [] else (t.h, c) ∷ []

  unfoldable pub published :
      Site F
      → TierTable F
      → Option F
      → List (ClockPoint × F)
      → Option (Control F)
      → Site F × Outcome
  unfolding from_fill
  published w t capacity caps none = (w, Outcome.failed)
  published w t capacity caps (some c) =
      let x = record w.scheduler { verified = from_fill t capacity; caps = caps } in
      (record w { control = c; scheduler = x }, Outcome.published)

  -- The `try` of `_experiment`, for an experiment that was not cancelled.
  unfoldable pub concluded : Site F → Ending F → Found F → Site F × Outcome
  unfolding refer confirm lower_cap published publish
  concluded w e (passed point rate) =
      (refer (set_scheduler w (confirm point rate)) e, Outcome.verified)
  concluded w e (short point rate) =
      let w1 = if lacks_model w.control then w else set_scheduler w (lower_cap point rate) in
      (refer w1 e, Outcome.verification_failed)
  concluded w e unplanned = (refer w e, Outcome.verification_failed)
  concluded w e broken = (w, Outcome.failed)
  concluded w e (table t capacity caps) =
      let w1 = refer w e in
      let w2 = set_control w1 (λ c. record c { router = record c.router { outcomes = [] } }) in
      published w2 t capacity caps (publish w2.control t e.locks e.now)

  -- `self._started_at or now`
  unfoldable pub started_or : Option F → F → F
  started_or none now = now
  started_or (some t) now = if num.eq t (of_nat 0) then now else t

  unfoldable pub entries : Option (Kind × Reason) → Outcome → F → List (Entry F)
  entries none o now = []
  entries (some claim) o now =
      record { kind = claim.0; reason = claim.1; outcome = o; end = now } ∷ []

  -- The accounting of the `finally`.
  unfoldable pub accounted : Site F → Outcome → F → Site F
  unfolding started_or entries
  accounted w o now = set_scheduler w (λ x. record x {
    explore_s = num.add x.explore_s (num.sub now (started_or x.started_at now));
    last_end = some now;
    history = x.history ++ entries x.claim o now;
    task = Task.done;
  })

  -- `await self.controller.set_tier(canary, H or MAX)`
  unfoldable pub retier : Site F → Ending F → ℕ → Site F
  unfolding set_tier
  retier w e i =
      let tier = if is_none w.control.router.tiers.table then Tier.max else Tier.h in
      elim (set_tier w.control i tier (e.locks i) e.now) [
        | none ↦ w
        | some c ↦ record w { control = c }
      ]

  unfoldable pub then_retier : Site F × Bool → Ending F → ℕ → Site F
  unfolding retier
  then_retier (w, true) e i = retier w e i
  then_retier (w, false) e i = w

  -- The Canary comes back, unless full effort will ask for it.
  unfoldable pub come_back : Site F → Ending F → Option ℕ → Site F
  unfolding then_retier release
  come_back w e none = w
  come_back w e (some i) =
      if w.control.router.full_effort then w else then_retier (release w e.quiet) e i

  unfoldable pub conclude_task : Site F → Ending F → Found F → Task → Site F × Outcome
  unfolding concluded
  conclude_task w e f (Task.running false) = concluded w e f
  conclude_task w e f (Task.running true) = (w, Outcome.aborted)
  conclude_task w e f task = (w, Outcome.failed)

  -- A running experiment ends; a cancelled one before it changes anything.
  unfoldable pub end_experiment : Site F → Ending F → Found F → Site F
  unfolding conclude_task accounted come_back canary
  end_experiment w e f =
      let (w1, o) = conclude_task w e f w.scheduler.task in
      let w2 = accounted w1 o e.now in come_back w2 e (canary w2.control)
