-- ===== src/Canary/Scheduler/Runs/Moves.antt =====
-- Runs of the Canary scheduler (canary.py): its steps, in any order and among any other steps.
use cana_tune_llm.Base.{
  ℕ, ◌≡◌, ◌∙◌, ap, Bool, true, false, not, ◌&&◌, ◌||◌, none, some, String, Float, arith, subst, sym,
  if_both, if_case,
}
use cana_tune_llm.Domain.Groups.{routable}
use cana_tune_llm.Controller.Clocks.{Control}
use cana_tune_llm.Controller.Plan.{Planner}
use cana_tune_llm.Controller.Effort.{is_exploring}
use cana_tune_llm.Canary.Scheduler.{Site, Kind, is_running, is_never, canary, note_rejections}
use cana_tune_llm.Canary.Scheduler.Owner.{SameCanary, canary-SameCanary}
use cana_tune_llm.Canary.Scheduler.Steps.{state_of, abort, release}
use cana_tune_llm.Canary.Scheduler.Ended.{Rests, Rests-trans, release-Rests, retier-Rests}
use cana_tune_llm.Canary.Scheduler.Steps.Ends.{Ending, Found, end_experiment, retier}
use cana_tune_llm.Canary.Scheduler.Steps.Step.{
  Seen, request, reclaim, claim_pending, retry_drain, proceed, step_of, step_at, step,
}
use cana_tune_llm.Canary.Scheduler.Runs.{
  IsGuarded, Rests-idle, abort-IsGuarded, end_experiment-IsGuarded, reclaim-IsGuarded,
  request-IsGuarded, claim_pending-Rests, start_pending-IsGuarded,
}

module _ {F : Type 0} ⦃num : Float F⦄ (i : ℕ) where
  proceed-IsGuarded :
      (w : Site F) (v : Seen F)
      → is_running w.scheduler.task ≡ false
      → IsGuarded i w
      → IsGuarded i (proceed w v i)
  unfolding proceed
  proceed-IsGuarded w v idle g =
      let h = claim_pending-Rests i w v in
      start_pending-IsGuarded i (claim_pending w v) v.ending.now (ap is_running h.task ∙ idle)
        (Rests-idle i w (claim_pending w v) h idle g)

  retry_drain-Rests :
      (w : Site F) (r : Site F × Bool) (v : Seen F) → Rests w r.0 → Rests w (retry_drain r v i)
  unfolding retry_drain
  retry_drain-Rests w (w1, true) v h =
      if_both (Rests w) w1.control.router.full_effort w1 (retier w1 v.ending i) h
        (Rests-trans w w1 (retier w1 v.ending i) h (retier-Rests w1 v.ending i))
  retry_drain-Rests w (w1, false) v h = h

  step_of-IsGuarded :
      (w : Site F) (v : Seen F)
      → is_running w.scheduler.task ≡ false
      → IsGuarded i w
      → IsGuarded i (step_of w v i)
  unfolding step_of
  step_of-IsGuarded w v idle g =
      let r = release w v.ending.quiet in
      let h = release-Rests w v.ending.quiet in
      let w2 = retry_drain (r.0, r.1) v i in
      let h2 = retry_drain-Rests w (r.0, r.1) v h in
      if_both (IsGuarded i) (not (is_never w.scheduler.task) && is_exploring (state_of w i)) _
        (proceed w v i)
        (if_both (IsGuarded i) r.1 (proceed w2 v i) r.0
          (proceed-IsGuarded w2 v (ap is_running h2.task ∙ idle) (Rests-idle i w w2 h2 idle g))
          (Rests-idle i w r.0 h idle g))
        (proceed-IsGuarded w v idle g)

  note_rejections-IsGuarded :
      (w : Site F) (now : F) → IsGuarded i w → IsGuarded i (note_rejections w now)
  unfolding note_rejections
  note_rejections-IsGuarded w now g =
      if_both (IsGuarded i) _ w _ g (record { owner = g.owner; guard = g.guard })

  step-IsGuarded : (w : Site F) (v : Seen F) → IsGuarded i w → IsGuarded i (step w v)
  unfolding step step_at
  step-IsGuarded w v g =
      let w1 = note_rejections w v.ending.now in
      let g1 = note_rejections-IsGuarded w v.ending.now g in
      subst (λ o. IsGuarded i (step_at w1 v o)) (sym g1.owner)
        (if_case (IsGuarded i) (not w1.scheduler.has_locator || is_running w1.scheduler.task) w1
          (step_of w1 v i) (λ _. g1) (λ idle. step_of-IsGuarded w1 v (ground arith) g1))

  -- One step: of the scheduler, of its experiment, or of the rest of the Controller, which changes no
  -- Canary and lets no group begin or end exploring.
  pub data Move (w : Site F) : Site F → Type 0 where
    stepped : (v : Seen F) → Move w (step w v)
    aborted : Move w (abort w).0
    ended : (e : Ending F) (f : Found F) → Move w (end_experiment w e f)
    reclaimed : (e : Ending F) → Move w (reclaim w e).0
    requested : (kind : Kind) (reason : String) (v : Seen F) → Move w (request w kind reason v)
    elsewhere :
        (c : Control F) (p : Planner F)
        → SameCanary w.control c
        → is_exploring (c.router.groups i).state ≡ is_exploring (state_of w i)
        → Move w (record w { control = c; planner = p })

  pub data Run (w : Site F) : Site F → Type 0 where
    start : Run w w
    next : {w1 w2 : Site F} → Run w w1 → Move w1 w2 → Run w w2

  Move-IsGuarded : (w w' : Site F) → Move w w' → IsGuarded i w → IsGuarded i w'
  Move-IsGuarded w w' (stepped v) g = step-IsGuarded w v g
  Move-IsGuarded w w' aborted g = abort-IsGuarded i w g
  Move-IsGuarded w w' (ended e f) g = end_experiment-IsGuarded i w e f g
  Move-IsGuarded w w' (reclaimed e) g = reclaim-IsGuarded i w e g
  Move-IsGuarded w w' (requested kind reason v) g = request-IsGuarded i w kind reason v g
  Move-IsGuarded w w' (elsewhere c p same exploring) g = record {
    owner = canary-SameCanary w.control c same ∙ g.owner;
    guard = let own = g.guard in ground arith;
  }

  Run-IsGuarded : (w w' : Site F) → Run w w' → IsGuarded i w → IsGuarded i w'
  Run-IsGuarded w w' start g = g
  Run-IsGuarded w w' (next {w1} r m) g = Move-IsGuarded w1 w' m (Run-IsGuarded w w1 r g)

  -- From a state in which group `i` is the Canary and no experiment runs, after any run in which the
  -- rest of the Controller changes no Canary and begins and ends no exploring: while an experiment
  -- runs, the Router cannot route to group `i`, and no second experiment is pending.
  pub Run-unroutable :
      (w w' : Site F)
      → canary w.control ≡ some i
      → is_running w.scheduler.task ≡ false
      → Run w w'
      → is_running w'.scheduler.task ≡ true
      → (routable (w'.control.router.groups i) ≡ false) × (w'.scheduler.pending ≡ none)
  Run-unroutable w w' owner idle r busy =
      let g = Run-IsGuarded w w' r (record { owner = owner; guard = ground arith }) in
      let own = g.guard in (ground arith, ground arith)
