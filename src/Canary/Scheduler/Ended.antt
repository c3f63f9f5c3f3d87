-- ===== src/Canary/Scheduler/Ended.antt =====
-- Every experiment of the Canary scheduler (canary.py) ends: after its `finally` no task runs.
use cana_tune_llm.Base.{
  ℕ, ◌≡◌, refl, Bool, true, false, Option, none, some, List, [], if◌then◌else◌, Float, inl, inr,
  Option-cases, subst, sym, is_none, if_both, ◌∙◌, arith,
}
use cana_tune_llm.Domain.Tiers.{Tier, ClockPoint, TierTable}
use cana_tune_llm.Controller.Clocks.{Control, set_tier}
use cana_tune_llm.Controller.Clocks.States.{set_tier-SameStates}
use cana_tune_llm.Controller.Effort.{publish, is_exploring}
use cana_tune_llm.Controller.Effort.Published.{publish-SameStates}
use cana_tune_llm.Canary.Scheduler.{Site, Task, set_scheduler, canary}
use cana_tune_llm.Canary.Scheduler.Owner.{
  Keeps, Keeps-refl, Keeps-trans, release-Keeps, SameCanary, SameStates-SameCanary,
  SameCanary-trans,
}
use cana_tune_llm.Canary.Scheduler.Steps.{set_control, state_of, release, released, release_group}
use cana_tune_llm.Canary.Scheduler.Steps.Ends.{
  Ending, Found, concluded, conclude_task, published, accounted, retier, then_retier, come_back,
  end_experiment, refer, confirm, lower_cap,
}
pub mod Back
pub mod Confirmed

-- A step that neither starts nor ends a task and leaves the Canary's groups alone.
pub record Rests {F : Type 0} (w w' : Site F) : Type 0 where
  pub keeps : Keeps w w'
  pub task : w'.scheduler.task ≡ w.scheduler.task

module _ {F : Type 0} where
  pub Rests-refl : (w : Site F) → Rests w w
  Rests-refl w = record { keeps = Keeps-refl w; task = refl }

  pub Rests-trans : (a b c : Site F) → Rests a b → Rests b c → Rests a c
  Rests-trans a b c h k = record {
    keeps = Keeps-trans a b c h.keeps k.keeps;
    task = k.task ∙ h.task;
  }

  released-task :
      (w : Site F) (quiet : Bool) (o : Option ℕ)
      → (released w quiet o).0.scheduler.task ≡ w.scheduler.task
  unfolding released release_group
  released-task w quiet none = refl
  released-task w quiet (some i) =
      let P = λ (r : Site F × Bool). r.0.scheduler.task ≡ w.scheduler.task in
      if_both P (is_exploring (state_of w i)) _ (w, true)
        (if_both P quiet (release_group w i, true) (w, false) refl refl) refl

  pub release-Rests : (w : Site F) (quiet : Bool) → Rests w (release w quiet).0
  unfolding release
  release-Rests w quiet = record {
    keeps = release-Keeps w quiet;
    task =
        released-task (set_scheduler w (λ x. record x { pending = none })) quiet (canary w.control);
  }

module _ {F : Type 0} ⦃num : Float F⦄ where
  published-Rests :
      (w : Site F) (t : TierTable F) (capacity : Option F) (caps : List (ClockPoint × F))
      (o : Option (Control F))
      → ((c : Control F) → o ≡ some c → SameCanary w.control c)
      → Rests w (published w t capacity caps o).0
  unfolding published
  published-Rests w t capacity caps none h = Rests-refl w
  published-Rests w t capacity caps (some c) h = record { keeps = h c refl; task = refl }

  concluded-Rests : (w : Site F) (e : Ending F) (f : Found F) → Rests w (concluded w e f).0
  unfolding concluded refer confirm lower_cap
  concluded-Rests w e (Found.passed point rate) = record { keeps = Keeps-refl w; task = refl }
  concluded-Rests w e (Found.short point rate) =
      if_both (λ (v : Site F). Rests w (refer v e)) _ w (set_scheduler w (lower_cap point rate))
        (record { keeps = Keeps-refl w; task = refl })
        (record { keeps = Keeps-refl w; task = refl })
  concluded-Rests w e Found.unplanned = record { keeps = Keeps-refl w; task = refl }
  concluded-Rests w e Found.broken = Rests-refl w
  concluded-Rests w e (Found.table t capacity caps) =
      let w2 =
        set_control (refer w e) (λ c. record c { router = record c.router { outcomes = [] } }) in
      let last = published-Rests w2 t capacity caps (publish w2.control t e.locks e.now) (λ c found.
        SameStates-SameCanary w2.control c
          (publish-SameStates w2.control t e.locks e.now c found)) in
      record {
        keeps = record { n_groups = last.keeps.n_groups; canaries = last.keeps.canaries };
        task = last.task;
      }

  conclude_task-Rests :
      (w : Site F) (e : Ending F) (f : Found F) (t : Task) → Rests w (conclude_task w e f t).0
  unfolding conclude_task
  conclude_task-Rests w e f (Task.running false) = concluded-Rests w e f
  conclude_task-Rests w e f (Task.running true) = Rests-refl w
  conclude_task-Rests w e f Task.never = Rests-refl w
  conclude_task-Rests w e f Task.done = Rests-refl w

  pub retier-Rests : (w : Site F) (e : Ending F) (i : ℕ) → Rests w (retier w e i)
  unfolding retier
  retier-Rests w e i =
      let tier = if is_none w.control.router.tiers.table then Tier.max else Tier.h in
      elim (Option-cases (set_tier w.control i tier (e.locks i) e.now)) [
        | inl raised ↦ record {
          keeps =
              subst
                (λ o. SameCanary w.control (
                  (elim o as (λ _. Site F) [
                    | none ↦ w
                    | some c ↦ record w { control = c }
                  ]).control))
                (sym raised) (Keeps-refl w);
          task = ground arith;
        }
        | inr (c, found) ↦ record {
          keeps =
              subst
                (λ o. SameCanary w.control (
                  (elim o as (λ _. Site F) [
                    | none ↦ w
                    | some c ↦ record w { control = c }
                  ]).control))
                (sym found)
                (SameStates-SameCanary w.control c
                  (set_tier-SameStates w.control i tier (e.locks i) e.now c found));
          task = ground arith;
        }
      ]

  then_retier-Rests :
      (w : Site F) (r : Site F × Bool) (e : Ending F) (i : ℕ)
      → Rests w r.0
      → Rests w (then_retier r e i)
  unfolding then_retier
  then_retier-Rests w (w1, true) e i h = Rests-trans w w1 _ h (retier-Rests w1 e i)
  then_retier-Rests w (w1, false) e i h = h

  come_back-Rests : (w : Site F) (e : Ending F) (o : Option ℕ) → Rests w (come_back w e o)
  unfolding come_back
  come_back-Rests w e none = Rests-refl w
  come_back-Rests w e (some i) =
      if_both (Rests w) w.control.router.full_effort w _ (Rests-refl w)
        (then_retier-Rests w (release w e.quiet) e i (release-Rests w e.quiet))

  -- Whatever it found, and whatever the services and the locks do.
  pub record Finished (w w' : Site F) : Type 0 where
    pub keeps : Keeps w w'
    pub task : w'.scheduler.task ≡ Task.done

  pub end_experiment-Finished :
      (w : Site F) (e : Ending F) (f : Found F) → Finished w (end_experiment w e f)
  unfolding end_experiment accounted
  end_experiment-Finished w e f =
      let (w1, o) = conclude_task w e f w.scheduler.task in
      let first = conclude_task-Rests w e f w.scheduler.task in
      let w2 = accounted w1 o e.now in
      let back = come_back-Rests w2 e (canary w2.control) in
      record {
        keeps = SameCanary-trans w.control w1.control _ first.keeps back.keeps;
        task = back.task;
      }
