-- ===== src/Canary/Scheduler/Runs.antt =====
-- The Canary scheduler (canary.py) among the other steps of the Controller: the group of a running
-- experiment is the experiment's alone.
use cana_tune_llm.Base.{
  ℕ, ◌≡◌, refl, sym, ◌∙◌, ap, Bool, true, false, not, ◌&&◌, ◌||◌, Option, none, some, String,
  if◌then◌else◌, Float, arith, inl, inr, Bool-cases, Option-cases, subst, is_none, if_both, if_case,
  &&-eq-true,
}
use cana_tune_llm.Domain.Tiers.{GroupState, Tier}
use cana_tune_llm.Domain.Groups.{routable}
use cana_tune_llm.Controller.Clocks.{Control, set_state, set_tier}
use cana_tune_llm.Controller.Clocks.States.{set_tier-SameStates}
use cana_tune_llm.Controller.Effort.{is_exploring, publish}
use cana_tune_llm.Controller.Effort.Published.{publish-SameStates}
use cana_tune_llm.Canary.Scheduler.{
  Scheduler, Site, Kind, Reason, Why, Task, Outcome, is_running, set_scheduler, canary,
  note_rejections,
}
use cana_tune_llm.Canary.Scheduler.Owner.{
  SameCanary, Keeps, Keeps-refl, Keeps-trans, drop_pending-Keeps, release-Keeps, canary-SameCanary,
  SameStates-SameCanary, set_state-SameCanary,
}
use cana_tune_llm.Canary.Scheduler.Steps.{
  set_control, state_of, abort, undrain, drop_pending, cancel_task, release, released,
  release_group,
}
use cana_tune_llm.Canary.Scheduler.Start.{trigger, may_start}
use cana_tune_llm.Canary.Scheduler.Ended.{
  Rests, Rests-refl, Rests-trans, release-Rests, retier-Rests, Finished, end_experiment-Finished,
}
use cana_tune_llm.Canary.Scheduler.Steps.Ends.{Ending, Found, end_experiment, retier}
use cana_tune_llm.Canary.Scheduler.Steps.Step.{
  Seen, drain_canary, begin_at, begin, begin_if, request, reclaim, begin_triggered, claim_pending,
  launch, give_up, start_pending, retry_drain, proceed, step_of, step_at, step,
}
pub mod Moves

-- While an experiment runs, its group is exploring and no other experiment is pending.
abbrev pub guarded : {F : Type 0} → Site F → ℕ → Bool
guarded w i =
    if is_running w.scheduler.task
    then is_exploring (state_of w i) && is_none w.scheduler.pending
    else true

-- Group `i` is the Canary, and it is guarded.
pub record IsGuarded {F : Type 0} (i : ℕ) (w : Site F) : Type 0 where
  pub owner : canary w.control ≡ some i
  pub guard : guarded w i ≡ true

module _ {F : Type 0} (i : ℕ) where
  pub Keeps-owner :
      (w w' : Site F) → Keeps w w' → canary w.control ≡ some i → canary w'.control ≡ some i
  Keeps-owner w w' h e = canary-SameCanary w.control w'.control h ∙ e

  -- Without a running experiment there is nothing to guard.
  pub idle-IsGuarded :
      (w w' : Site F)
      → Keeps w w'
      → is_running w'.scheduler.task ≡ false
      → IsGuarded i w
      → IsGuarded i w'
  idle-IsGuarded w w' keeps idle g = record {
    owner = Keeps-owner w w' keeps g.owner;
    guard = ground arith;
  }

  drop_pending-task :
      (w : Site F) (o : Option (Kind × Reason))
      → (drop_pending w o).scheduler.task ≡ w.scheduler.task
  unfolding drop_pending undrain
  drop_pending-task w none = refl
  drop_pending-task w (some claim) = elim (Option-cases (canary w.control)) [
    | inl nobody ↦ ground arith
    | inr (k, found) ↦ ground arith
  ]

  cancelled : Site F → Site F
  cancelled w = set_scheduler w (λ y. record y { task = cancel_task y.task })

  abort-IsGuarded : (w : Site F) → IsGuarded i w → IsGuarded i (abort w).0
  unfolding abort cancel_task
  abort-IsGuarded w g =
      let x = w.scheduler in
      let w1 = set_scheduler w (λ y. record y { task = cancel_task y.task }) in
      let P = λ (r : Site F × Bool). IsGuarded i r.0 in
      if_both P _ (w, false) (drop_pending w1 x.pending, _) g
        (elim (Bool-cases (is_running x.task)) [
          | inl running ↦
              let own = g.guard in
              let nothing : x.pending ≡ none = ground arith in
              subst (λ o. IsGuarded i (drop_pending w1 o)) (sym nothing)
                (unfold drop_pending in record { owner = g.owner; guard = ground arith })
          | inr idle ↦
              let same = drop_pending-task w1 x.pending in
              idle-IsGuarded w (drop_pending w1 x.pending) (drop_pending-Keeps w1 x.pending)
                (ground arith) g
        ])

  end_experiment-IsGuarded :
      ⦃num : Float F⦄ (w : Site F) (e : Ending F) (f : Found F)
      → IsGuarded i w
      → IsGuarded i (end_experiment w e f)
  end_experiment-IsGuarded w e f g =
      let h = end_experiment-Finished w e f in
      let over = h.task in idle-IsGuarded w (end_experiment w e f) h.keeps (ap is_running over) g

  Rests-idle :
      (w w' : Site F)
      → Rests w w'
      → is_running w.scheduler.task ≡ false
      → IsGuarded i w
      → IsGuarded i w'
  Rests-idle w w' h idle = idle-IsGuarded w w' h.keeps (ap is_running h.task ∙ idle)

  reclaim-IsGuarded :
      ⦃num : Float F⦄ (w : Site F) (e : Ending F) → IsGuarded i w → IsGuarded i (reclaim w e).0
  unfolding reclaim
  reclaim-IsGuarded w e g =
      let w1 = set_scheduler w (λ x. record x { task = Task.running true }) in
      let w2 = end_experiment w1 e Found.broken in
      let h = end_experiment-Finished w1 e Found.broken in
      let r = release-Rests w2 e.quiet in
      if_case (λ (r : Site F × Bool). IsGuarded i r.0) (is_running w.scheduler.task)
        (release w2 e.quiet) (release w e.quiet)
        (λ _.
          idle-IsGuarded w (release w2 e.quiet).0
            (Keeps-trans w w2 (release w2 e.quiet).0 h.keeps r.keeps)
            (ap is_running (r.task ∙ h.task)) g)
        (λ idle. Rests-idle w (release w e.quiet).0 (release-Rests w e.quiet) idle g)

  module _ ⦃num : Float F⦄ where
    drain_canary-Rests : (w : Site F) (k : ℕ) (now : F) → Rests w (drain_canary w k now)
    unfolding drain_canary
    drain_canary-Rests w k now =
        if_both (Rests w) _ _ w
          (record { keeps = set_state-SameCanary GroupState.draining w.control k; task = refl })
          (Rests-refl w)

    begin_at-Rests :
        (w : Site F) (claim : Kind × Reason) (now : F) (o : Option ℕ)
        → Rests w (begin_at w claim now o)
    unfolding begin_at
    begin_at-Rests w claim now none = Rests-refl w
    begin_at-Rests w claim now (some k) =
        let w1 = set_scheduler w (λ x. record x { pending = some claim }) in
        let first : Rests w w1 = record { keeps = Keeps-refl w; task = refl } in
        if_both (Rests w) w.scheduler.has_locator (drain_canary w1 k now) w
          (Rests-trans w w1 (drain_canary w1 k now) first (drain_canary-Rests w1 k now))
          (Rests-refl w)

    begin_if-Rests :
        (w : Site F) (claim : Kind × Reason) (now : F) (o : Option (Bool × Why))
        → Rests w (begin_if w claim now o)
    unfolding begin_if begin
    begin_if-Rests w claim now (some (true, why)) = begin_at-Rests w claim now (canary w.control)
    begin_if-Rests w claim now (some (false, why)) = Rests-refl w
    begin_if-Rests w claim now none = Rests-refl w

    claim_pending-Rests : (w : Site F) (v : Seen F) → Rests w (claim_pending w v)
    unfolding claim_pending
    claim_pending-Rests w v =
        let found = trigger w v.ending.lengths v.demand v.ending.now in
        if_both (Rests w) (is_none w.scheduler.pending) (begin_triggered w v found) w
          (begin_triggered-Rests found) (Rests-refl w)
      where
        begin_triggered-Rests : (o : Option (Kind × Reason)) → Rests w (begin_triggered w v o)
        begin_triggered-Rests none = unfold begin_triggered in Rests-refl w
        begin_triggered-Rests (some claim) =
            unfold begin_triggered in
            begin_if-Rests w claim v.ending.now (may_start w v.solver v.demand v.ending.now)

    request-IsGuarded :
        (w : Site F) (kind : Kind) (reason : String) (v : Seen F)
        → IsGuarded i w
        → IsGuarded i (request w kind reason v)
    unfolding request
    request-IsGuarded w kind reason v g =
        let now = v.ending.now in
        let busy = is_running w.scheduler.task || not (is_none w.scheduler.pending) in
        let o = may_start w v.solver v.demand now in
        let asked = begin_if w (kind, Reason.manual reason) now o in
        if_case (IsGuarded i) busy w asked (λ _. g)
          (λ free.
            Rests-idle w asked (begin_if-Rests w (kind, Reason.manual reason) now o) (ground arith)
              g)

    give_up-Rests : (w : Site F) (k : ℕ) (now : F) → Rests w (give_up w k now)
    unfolding give_up
    give_up-Rests w k now =
        if_both (Rests w) _ _ w
          (record { keeps = set_state-SameCanary GroupState.active w.control k; task = refl })
          (Rests-refl w)

    -- A task that starts finds its group exploring and nothing pending.
    launch-IsGuarded :
        (w : Site F) (now : F) (o : Option (Kind × Reason))
        → is_running w.scheduler.task ≡ false
        → IsGuarded i w
        → IsGuarded i (launch w i now o)
    unfolding launch
    launch-IsGuarded w now none idle g = g
    launch-IsGuarded w now (some claim) idle g =
        let c = set_state GroupState.exploring w.control i in
        record {
          owner =
              canary-SameCanary w.control c (set_state-SameCanary GroupState.exploring w.control i)
              ∙ g.owner;
          guard = ground arith;
        }

    start_pending-IsGuarded :
        (w : Site F) (now : F)
        → is_running w.scheduler.task ≡ false
        → IsGuarded i w
        → IsGuarded i (start_pending w i now)
    unfolding start_pending
    start_pending-IsGuarded w now idle g =
        if_both (IsGuarded i) (is_none w.scheduler.pending) w _ g (
          if_both (IsGuarded i) _ (give_up w i now) (launch w i now w.scheduler.pending)
            (Rests-idle w (give_up w i now) (give_up-Rests w i now) idle g)
            (launch-IsGuarded w now w.scheduler.pending idle g))
