-- ===== src/Canary/Scheduler/Ended/Back.antt =====
-- Where the Canary of canary.py is after `reclaim` and after the end of an experiment.
use cana_tune_llm.Base.{
  ℕ, ◌≡◌, refl, Bool-cases, sym, ◌∙◌, ap, Bool, true, false, Option, none, some, [], Float, inl,
  inr, Option-cases, subst, if_both, if_false, arith, List, if◌then◌else◌, is_none,
}
use cana_tune_llm.Domain.Tiers.{Tier, GroupState, TierTable, ClockPoint}
use cana_tune_llm.Controller.Clocks.{Control, set_tier}
use cana_tune_llm.Controller.Clocks.States.{SameStates, SameStates-refl, set_tier-SameStates}
use cana_tune_llm.Controller.Effort.{publish, is_exploring}
use cana_tune_llm.Controller.Effort.Published.{publish-SameStates}
use cana_tune_llm.Canary.Scheduler.{Site, Task, Outcome, is_running, set_scheduler, canary}
use cana_tune_llm.Canary.Scheduler.Ended.{end_experiment-Finished}
use cana_tune_llm.Canary.Scheduler.Owner.{canary-SameCanary, SameStates-SameCanary}
use cana_tune_llm.Canary.Scheduler.Steps.{set_control, state_of, release, released, release_group}
use cana_tune_llm.Canary.Scheduler.Steps.Ends.{
  Ending, Found, concluded, conclude_task, published, accounted, retier, then_retier, come_back,
  end_experiment, refer, confirm, lower_cap,
}
use cana_tune_llm.Canary.Scheduler.Steps.Step.{reclaim}

module _ {F : Type 0} where
  -- The controller and its groups are as before, nothing runs or is pending, and the answer is no.
  pub record Held (w : Site F) (r : Site F × Bool) : Type 0 where
    pub control : r.0.control ≡ w.control
    pub answer : r.1 ≡ false
    pub idle : is_running r.0.scheduler.task ≡ false
    pub pending : r.0.scheduler.pending ≡ none

  released-busy :
      (w : Site F) (i : ℕ)
      → is_exploring (state_of w i) ≡ true
      → released w false (some i) ≡ (w, false)
  unfolding released
  released-busy w i h = ground arith

  release-busy :
      (w : Site F) (i : ℕ)
      → canary w.control ≡ some i
      → is_exploring (state_of w i) ≡ true
      → release w false ≡ (set_scheduler w (λ x. record x { pending = none }), false)
  unfolding release
  release-busy w i owner h =
      let w1 = set_scheduler w (λ x. record x { pending = none }) in
      subst (λ o. released w1 false o ≡ (w1, false)) (sym owner) (released-busy w1 i h)

  release-Held :
      (w : Site F) (i : ℕ)
      → canary w.control ≡ some i
      → is_exploring (state_of w i) ≡ true
      → is_running w.scheduler.task ≡ false
      → Held w (release w false)
  release-Held w i owner h idle =
      subst (Held w) (sym (release-busy w i owner h))
        (record { control = refl; answer = refl; idle = idle; pending = refl })

module _ {F : Type 0} ⦃num : Float F⦄ (i : ℕ) where
  come_back-Held :
      (w : Site F) (e : Ending F)
      → canary w.control ≡ some i
      → is_exploring (state_of w i) ≡ true
      → e.quiet ≡ false
      → ((come_back w e (some i)).control ≡ w.control)
        × ((come_back w e (some i)).scheduler.task ≡ w.scheduler.task)
  unfolding come_back then_retier
  come_back-Held w e owner h busy =
      let back : release w e.quiet ≡ (set_scheduler w (λ x. record x { pending = none }), false) =
        subst (λ q. release w q ≡ (set_scheduler w (λ x. record x { pending = none }), false))
          (sym busy) (release-busy w i owner h) in
      let P = λ (v : Site F). (v.control ≡ w.control) × (v.scheduler.task ≡ w.scheduler.task) in
      if_both P w.control.router.full_effort w (then_retier (release w e.quiet) e i) (refl, refl)
        (subst (λ r. P (then_retier r e i)) (sym back) (refl, refl))

  -- A cancelled experiment ends without giving the Canary back.
  cancelled-Held :
      (w : Site F) (e : Ending F) (f : Found F)
      → canary w.control ≡ some i
      → is_exploring (state_of w i) ≡ true
      → e.quiet ≡ false
      → w.scheduler.task ≡ Task.running true
      → ((end_experiment w e f).control ≡ w.control)
        × ((end_experiment w e f).scheduler.task ≡ Task.done)
  unfolding end_experiment conclude_task accounted
  cancelled-Held w e f owner h busy stopped =
      let Q = λ (v : Site F). (v.control ≡ w.control) × (v.scheduler.task ≡ Task.done) in
      let w1 = accounted w Outcome.aborted e.now in
      let last : Q (come_back w1 e (canary w.control)) =
        subst (λ o. Q (come_back w1 e o)) (sym owner) (come_back-Held w1 e owner h busy) in
      let P = λ (t : Task).
        let (v, o) = conclude_task w e f t in
        let v1 = accounted v o e.now in Q (come_back v1 e (canary v1.control)) in
      subst P (sym stopped) last

  -- Where the services of the exploring Canary do not fall idle, `reclaim` fails and leaves every
  -- group as it is, so the Canary goes on exploring; no experiment runs or is pending after it.
  pub reclaim-Held :
      (w : Site F) (e : Ending F)
      → canary w.control ≡ some i
      → is_exploring (state_of w i) ≡ true
      → e.quiet ≡ false
      → Held w (reclaim w e)
  unfolding reclaim
  reclaim-Held w e owner h busy =
      let w1 = set_scheduler w (λ x. record x { task = Task.running true }) in
      let w2 = end_experiment w1 e Found.broken in
      elim (Bool-cases (is_running w.scheduler.task)) [
        | inl on ↦
            let (same, done) = cancelled-Held w1 e Found.broken owner h busy refl in
            let held : Held w2 (release w2 false) =
              release-Held w2 i (subst (λ c. canary c ≡ some i) (sym same) owner)
                (subst (λ c. is_exploring (c.router.groups i).state ≡ true) (sym same) h)
                (ground arith) in
            let after : reclaim w e ≡ release w2 false = ground arith in
            subst (Held w) (sym after) (record {
              control = held.control ∙ same;
              answer = held.answer;
              idle = held.idle;
              pending = held.pending;
            })
        | inr off ↦
            let after : reclaim w e ≡ release w false = ground arith in
            subst (Held w) (sym after) (release-Held w i owner h off)
      ]

module _ {F : Type 0} ⦃num : Float F⦄ where
  published-SameStates :
      (w : Site F) (t : TierTable F) (capacity : Option F) (caps : List (ClockPoint × F))
      (o : Option (Control F))
      → ((c : Control F) → o ≡ some c → SameStates w.control c)
      → SameStates w.control (published w t capacity caps o).0.control
  unfolding published
  published-SameStates w t capacity caps none h = SameStates-refl w.control
  published-SameStates w t capacity caps (some c) h = h c refl

  concluded-SameStates :
      (w : Site F) (e : Ending F) (f : Found F) → SameStates w.control (concluded w e f).0.control
  unfolding concluded refer confirm lower_cap
  concluded-SameStates w e (Found.passed point rate) = SameStates-refl w.control
  concluded-SameStates w e (Found.short point rate) =
      if_both (λ (v : Site F). SameStates w.control v.control) _ w
        (set_scheduler w (lower_cap point rate)) (SameStates-refl w.control)
        (SameStates-refl w.control)
  concluded-SameStates w e Found.unplanned = SameStates-refl w.control
  concluded-SameStates w e Found.broken = SameStates-refl w.control
  concluded-SameStates w e (Found.table t capacity caps) =
      let w2 =
        set_control (refer w e) (λ c. record c { router = record c.router { outcomes = [] } }) in
      let last =
        published-SameStates w2 t capacity caps (publish w2.control t e.locks e.now)
          (publish-SameStates w2.control t e.locks e.now) in
      record {
        n_groups = last.n_groups;
        settings = last.settings;
        full_effort = last.full_effort;
        canaries = last.canaries;
        states = last.states;
      }

  conclude_task-SameStates :
      (w : Site F) (e : Ending F) (f : Found F) (t : Task)
      → SameStates w.control (conclude_task w e f t).0.control
  unfolding conclude_task
  conclude_task-SameStates w e f (Task.running false) = concluded-SameStates w e f
  conclude_task-SameStates w e f (Task.running true) = SameStates-refl w.control
  conclude_task-SameStates w e f Task.never = SameStates-refl w.control
  conclude_task-SameStates w e f Task.done = SameStates-refl w.control

  retier-SameStates :
      (w : Site F) (e : Ending F) (i : ℕ) → SameStates w.control (retier w e i).control
  unfolding retier
  retier-SameStates w e i =
      let tier = if is_none w.control.router.tiers.table then Tier.max else Tier.h in
      let after = λ (o : Option (Control F)). elim o as (λ _. Site F) [
        | none ↦ w
        | some c ↦ record w { control = c }
      ] in
      let P = λ (o : Option (Control F)). SameStates w.control (after o).control in
      elim (Option-cases (set_tier w.control i tier (e.locks i) e.now)) [
        | inl raised ↦ subst P (sym raised) (SameStates-refl w.control)
        | inr (c, found) ↦
            subst P (sym found) (set_tier-SameStates w.control i tier (e.locks i) e.now c found)
      ]

  release-active :
      (w : Site F) (i : ℕ)
      → canary w.control ≡ some i
      → is_exploring (state_of w i) ≡ true
      → ((release w true).1 ≡ true) × (state_of (release w true).0 i ≡ GroupState.active)
  unfolding release released release_group
  release-active w i owner h =
      let w1 = set_scheduler w (λ x. record x { pending = none }) in
      let P = λ (r : Site F × Bool). (r.1 ≡ true) × (state_of r.0 i ≡ GroupState.active) in
      subst (λ o. P (released w1 true o)) (sym owner) (ground arith)

  come_back-active :
      (w : Site F) (e : Ending F) (i : ℕ)
      → canary w.control ≡ some i
      → is_exploring (state_of w i) ≡ true
      → w.control.router.full_effort ≡ false
      → e.quiet ≡ true
      → state_of (come_back w e (some i)) i ≡ GroupState.active
  unfolding come_back then_retier
  come_back-active w e i owner h calm quiet =
      let (back, active) = release-active w i owner h in
      let (w1, answer) = release w true in
      let Q = λ (v : Site F). state_of v i ≡ GroupState.active in
      let last : Q (then_retier (w1, true) e i) = (retier-SameStates w1 e i).states i ∙ active in
      let mid : Q (then_retier (w1, answer) e i) =
        subst (λ b. Q (then_retier (w1, b) e i)) (sym back) last in
      let asked : Q (then_retier (release w e.quiet) e i) =
        subst (λ b. Q (then_retier (release w b) e i)) (sym quiet) mid in
      subst Q (sym (if_false w.control.router.full_effort w _ calm)) asked

  -- Outside full effort, where both services of the Canary fall idle, the end of an experiment makes
  -- the Canary active again, whatever the experiment found, whether it was cancelled and whether the
  -- clock lock holds; and its task is done.
  pub end_experiment-Back :
      (w : Site F) (e : Ending F) (f : Found F) (i : ℕ)
      → canary w.control ≡ some i
      → is_exploring (state_of w i) ≡ true
      → w.control.router.full_effort ≡ false
      → e.quiet ≡ true
      → (state_of (end_experiment w e f) i ≡ GroupState.active)
        × ((end_experiment w e f).scheduler.task ≡ Task.done)
  unfolding end_experiment accounted
  end_experiment-Back w e f i owner h calm quiet =
      let (w1, o) = conclude_task w e f w.scheduler.task in
      let same = conclude_task-SameStates w e f w.scheduler.task in
      let w2 = accounted w1 o e.now in
      let owner2 : canary w2.control ≡ some i =
        canary-SameCanary w.control w1.control (SameStates-SameCanary w.control w1.control same)
        ∙ owner in
      let Q = λ (v : Site F). state_of v i ≡ GroupState.active in
      let back : Q (come_back w2 e (some i)) =
        come_back-active w2 e i owner2 (ap is_exploring (same.states i) ∙ h)
          (same.full_effort ∙ calm) quiet in
      let task = (end_experiment-Finished w e f).task in
      (subst (λ k. Q (come_back w2 e k)) (sym owner2) back, task)
