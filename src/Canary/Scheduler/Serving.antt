-- ===== src/Canary/Scheduler/Serving.antt =====
-- A pending experiment of canary.py whose group was made active again by another step.
use cana_tune_llm.Controller.Clocks.{Control}
use cana_tune_llm.Base.{ℕ, ◌≡◌, refl, sym, ◌∙◌, ap, true, false, some, Float, arith, subst}
use cana_tune_llm.Domain.Tiers.{GroupState}
use cana_tune_llm.Canary.Scheduler.{Site, Kind, Reason, is_running, canary, note_rejections}
use cana_tune_llm.Canary.Scheduler.Steps.{state_of}
use cana_tune_llm.Canary.Scheduler.Steps.Step.{
  Seen, claim_pending, start_pending, launch, proceed, step_of, step_at, step,
}

module _ {F : Type 0} ⦃num : Float F⦄ (i : ℕ) where
  -- The experiment runs on the group, whose requests in flight are those of before.
  pub record Launched (w w' : Site F) : Type 0 where
    pub task : is_running w'.scheduler.task ≡ true
    pub state : state_of w' i ≡ GroupState.exploring
    pub flight : (w'.control.router.groups i).n_inflight ≡ (w.control.router.groups i).n_inflight

  -- The next step starts the pending experiment of an active Canary.
  pub record IsClaimed (w : Site F) (claim : Kind × Reason) : Type 0 where
    pub locator : w.scheduler.has_locator ≡ true
    pub idle : is_running w.scheduler.task ≡ false
    pub pending : w.scheduler.pending ≡ some claim
    pub active : state_of w i ≡ GroupState.active

  launch-Launched :
      (w : Site F) (now : F) (claim : Kind × Reason) → Launched w (launch w i now (some claim))
  unfolding launch
  launch-Launched w now claim = record { task = refl; state = ground arith; flight = ground arith }

  start_pending-Launched :
      (w : Site F) (now : F) (claim : Kind × Reason)
      → IsClaimed w claim
      → Launched w (start_pending w i now)
  unfolding start_pending
  start_pending-Launched w now claim h =
      let p = h.pending in
      let a = h.active in
      let goes : start_pending w i now ≡ launch w i now (some claim) = ground arith in
      subst (Launched w) (sym goes) (launch-Launched w now claim)

  proceed-Launched :
      (w : Site F) (v : Seen F) (claim : Kind × Reason)
      → IsClaimed w claim
      → Launched w (proceed w v i)
  unfolding proceed claim_pending
  proceed-Launched w v claim h =
      let p = h.pending in
      let stays : claim_pending w v ≡ w = ground arith in
      subst (λ u. Launched w (start_pending u i v.ending.now)) (sym stays)
        (start_pending-Launched w v.ending.now claim h)

  step_of-Launched :
      (w : Site F) (v : Seen F) (claim : Kind × Reason)
      → IsClaimed w claim
      → Launched w (step_of w v i)
  unfolding step_of
  step_of-Launched w v claim h =
      let a = h.active in
      let goes : step_of w v i ≡ proceed w v i = ground arith in
      subst (Launched w) (sym goes) (proceed-Launched w v claim h)

  noted-IsClaimed :
      (w : Site F) (now : F) (claim : Kind × Reason)
      → IsClaimed w claim
      → IsClaimed (note_rejections w now) claim
  unfolding note_rejections
  noted-IsClaimed w now claim h =
      let l = h.locator in
      let r = h.idle in
      let p = h.pending in
      let a = h.active in
      record {
        locator = ground arith;
        idle = ground arith;
        pending = ground arith;
        active = ground arith;
      }

  -- Where an experiment is pending while the Canary is active and no experiment runs, the next step of
  -- the scheduler starts the experiment, whatever the control mode, and the group goes to it with the
  -- production requests that it has in flight.
  pub step-Launched :
      (w : Site F) (v : Seen F) (claim : Kind × Reason)
      → canary w.control ≡ some i
      → IsClaimed w claim
      → Launched w (step w v)
  unfolding step step_at
  step-Launched w v claim owner h =
      let w1 = note_rejections w v.ending.now in
      let h1 = noted-IsClaimed w v.ending.now claim h in
      let l = h1.locator in
      let r = h1.idle in
      let same : w1.control ≡ w.control = unfold note_rejections in ground arith in
      let found : canary w1.control ≡ some i = subst (λ c. canary c ≡ some i) (sym same) owner in
      let goes : step_at w1 v (some i) ≡ step_of w1 v i = ground arith in
      let all = step_of-Launched w1 v claim h1 in
      subst (λ o. Launched w (step_at w1 v o)) (sym found)
        (subst (Launched w) (sym goes) (record {
          task = all.task;
          state = all.state;
          flight = all.flight ∙ ap (λ (c : Control F). (c.router.groups i).n_inflight) same;
        }))
