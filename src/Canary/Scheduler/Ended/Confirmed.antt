-- ===== src/Canary/Scheduler/Ended/Confirmed.antt =====
-- A passed verification (`_verify` of canary.py) against the trigger that asked for it.
use cana_tune_llm.Base.{
  ℕ, ◌≡◌, refl, sym, ◌∙◌, ap, Bool, true, false, not, Option, none, some, List, [], ◌∷◌, Float, inl,
  inr, Option-cases, subst, if_both, arith, if◌then◌else◌, is_none, IsOrdered, max_f, of_nat, ◌≼◌,
}
use cana_tune_llm.Domain.Tiers.{Tier, ClockPoint}
use cana_tune_llm.Domain.Risk.{clock_eq}
use cana_tune_llm.Domain.Cluster.Uniform.{Evaluation}
use cana_tune_llm.Controller.Clocks.{Control, set_tier}
use cana_tune_llm.Controller.Plan.{Demand}
use cana_tune_llm.Canary.Scheduler.{
  Site, Task, Outcome, Scheduler, set_scheduler, canary, rate_at, put_rate,
}
use cana_tune_llm.Canary.Scheduler.Start.{unverified, unverified_plan, confirmed_rate, rate_of_plan}
use cana_tune_llm.Canary.Scheduler.Steps.{release, released, release_group, state_of}
use cana_tune_llm.Canary.Scheduler.Steps.Ends.{
  Ending, Found, concluded, conclude_task, accounted, retier, then_retier, come_back,
  end_experiment, refer, confirm,
}
use cana_tune_llm.Controller.Effort.{is_exploring}

-- What `_unverified` reads of a site.
pub record SamePlan {F : Type 0} (w w' : Site F) : Type 0 where
  pub planner : w'.planner ≡ w.planner
  pub verified : w'.scheduler.verified ≡ w.scheduler.verified

clock_eq_refl : (p : ClockPoint) → clock_eq p p ≡ true
clock_eq_refl p = ground arith

module _ {F : Type 0} where
  -- `d[key] = v`, then `d.get(key)`.
  rate_at-put_rate :
      (p : ClockPoint) (r : F) (rates : List (ClockPoint × F))
      → rate_at p (put_rate p r rates) ≡ some r
  unfolding rate_at put_rate
  rate_at-put_rate p r [] = let self = clock_eq_refl p in ground arith
  rate_at-put_rate p r ((q, v) ∷ rates) = ground (arith, rate_at-put_rate p r rates)

  SamePlan-trans : (a b c : Site F) → SamePlan a b → SamePlan b c → SamePlan a c
  SamePlan-trans a b c h k = record {
    planner = k.planner ∙ h.planner;
    verified = k.verified ∙ h.verified;
  }

  released-SamePlan : (w : Site F) (quiet : Bool) (o : Option ℕ) → SamePlan w (released w quiet o).0
  unfolding released release_group
  released-SamePlan w quiet none = record { planner = refl; verified = refl }
  released-SamePlan w quiet (some i) =
      let P = λ (r : Site F × Bool). SamePlan w r.0 in
      if_both P (is_exploring (state_of w i)) _ (w, true)
        (if_both P quiet (release_group w i, true) (w, false)
          (record { planner = refl; verified = refl }) (record { planner = refl; verified = refl }))
        (record { planner = refl; verified = refl })

module _ {F : Type 0} ⦃num : Float F⦄ where
  retier-SamePlan : (w : Site F) (e : Ending F) (i : ℕ) → SamePlan w (retier w e i)
  unfolding retier
  retier-SamePlan w e i =
      let tier = if is_none w.control.router.tiers.table then Tier.max else Tier.h in
      let after = λ (o : Option (Control F)). elim o as (λ _. Site F) [
        | none ↦ w
        | some c ↦ record w { control = c }
      ] in
      let P = λ (o : Option (Control F)). SamePlan w (after o) in
      elim (Option-cases (set_tier w.control i tier (e.locks i) e.now)) [
        | inl raised ↦ subst P (sym raised) (record { planner = refl; verified = refl })
        | inr (c, found) ↦ subst P (sym found) (record { planner = refl; verified = refl })
      ]

  then_retier-SamePlan :
      (w : Site F) (r : Site F × Bool) (e : Ending F) (i : ℕ)
      → SamePlan w r.0
      → SamePlan w (then_retier r e i)
  unfolding then_retier
  then_retier-SamePlan w (w1, true) e i h = SamePlan-trans w w1 _ h (retier-SamePlan w1 e i)
  then_retier-SamePlan w (w1, false) e i h = h

  come_back-SamePlan : (w : Site F) (e : Ending F) (o : Option ℕ) → SamePlan w (come_back w e o)
  unfolding come_back release
  come_back-SamePlan w e none = record { planner = refl; verified = refl }
  come_back-SamePlan w e (some i) =
      let w1 = set_scheduler w (λ x. record x { pending = none }) in
      let h = released-SamePlan w1 e.quiet (canary w1.control) in
      if_both (SamePlan w) w.control.router.full_effort w _
        (record { planner = refl; verified = refl })
        (then_retier-SamePlan w (release w e.quiet) e i
          (record { planner = h.planner; verified = h.verified }))

  unverified_plan-SamePlan :
      (w w' : Site F) (d : Demand F) (o : Option (Evaluation F))
      → w'.scheduler.verified ≡ w.scheduler.verified
      → unverified_plan w' d o ≡ unverified_plan w d o
  unfolding unverified_plan
  unverified_plan-SamePlan w w' d none h = refl
  unverified_plan-SamePlan w w' d (some plan) h =
      let per_group = rate_of_plan plan d.rate in
      ap
        (λ (v : List (ClockPoint × F)).
          if not plan.feasible
          then none
          else if num.le per_group (confirmed_rate (rate_at plan.point v))
          then none
          else some (plan.point, per_group))
        h

  unverified-SamePlan :
      (w w' : Site F) (d : Demand F) → SamePlan w w' → unverified w' d ≡ unverified w d
  unfolding unverified
  unverified-SamePlan w w' d h =
      ap (λ p. unverified_plan w' d p.plan) h.planner
      ∙ unverified_plan-SamePlan w w' d w.planner.plan h.verified

  -- The rate that the last verification of the point confirmed.
  abbrev pub rate_before : Site F → ClockPoint → F
  rate_before w point = confirmed_rate (rate_at point w.scheduler.verified)

  -- The plan has a point and a rate above the one that was confirmed.
  record IsNew (w : Site F) (d : Demand F) (plan : Evaluation F) (point : ClockPoint) (rate : F)
      : Type 0 where
    at : plan.point ≡ point
    per_group : rate_of_plan plan d.rate ≡ rate
    above : num.le rate (rate_before w point) ≡ false

  plan-IsNew :
      (w : Site F) (d : Demand F) (plan : Evaluation F) (point : ClockPoint) (rate : F)
      → unverified_plan w d (some plan) ≡ some (point, rate)
      → IsNew w d plan point rate
  unfolding unverified_plan
  plan-IsNew w d plan point rate e = record {
    at = ground arith;
    per_group = ground arith;
    above = ground arith;
  }

  confirm-rate :
      (x : Scheduler F) (point : ClockPoint) (rate : F)
      → rate_at point (confirm point rate x).verified
        ≡ some (max_f (confirmed_rate (rate_at point x.verified)) rate)
  unfolding confirm confirmed_rate
  confirm-rate x point rate =
      let lookup = λ (r : F). rate_at-put_rate point r x.verified in
      elim (Option-cases (rate_at point x.verified)) [
        | inl fresh ↦ let h = lookup (max_f (of_nat 0) rate) in ground (arith, h)
        | inr (old, known) ↦ let h = lookup (max_f old rate) in ground (arith, h)
      ]

  covered-plan :
      (w : Site F) (d : Demand F) (plan : Evaluation F) (rate : F)
      → rate_of_plan plan d.rate ≡ rate
      → rate_at plan.point w.scheduler.verified ≡ some rate
      → rate ≼ rate
      → unverified_plan w d (some plan) ≡ none
  unfolding unverified_plan confirmed_rate
  covered-plan w d plan rate e known number = ground arith

  confirmed-plan :
      IsOrdered F
      → (w w' : Site F) (d : Demand F) (o : Option (Evaluation F)) (point : ClockPoint) (rate : F)
      → unverified_plan w d o ≡ some (point, rate)
      → rate ≼ rate
      → rate_before w point ≼ rate_before w point
      → w'.scheduler.verified ≡ (confirm point rate w.scheduler).verified
      → unverified_plan w' d o ≡ none
  unfolding unverified_plan
  confirmed-plan ord w w' d none point rate e number old same = refl
  confirmed-plan ord w w' d (some plan) point rate e number old same =
      let h = plan-IsNew w d plan point rate e in
      let more : num.lt (rate_before w point) rate ≡ true =
        ord.lt-eq-not-le (rate_before w point) rate old number ∙ ap not h.above in
      let top : max_f (rate_before w point) rate ≡ rate = ground arith in
      let stored : rate_at point w'.scheduler.verified ≡ some rate =
        ap (rate_at point) same ∙ (confirm-rate w.scheduler point rate ∙ ap some top) in
      covered-plan w' d plan rate h.per_group
        (subst (λ p. rate_at p w'.scheduler.verified ≡ some rate) (sym h.at) stored) number

  -- Where floats are ordered and both rates are numbers: after an experiment that was not cancelled
  -- and whose verification of the plan passed, the same plan at the same demand asks for no further
  -- verification.
  pub end_experiment-Confirms :
      IsOrdered F
      → (w : Site F) (e : Ending F) (d : Demand F) (point : ClockPoint) (rate : F)
      → unverified w d ≡ some (point, rate)
      → w.scheduler.task ≡ Task.running false
      → rate ≼ rate
      → rate_before w point ≼ rate_before w point
      → unverified (end_experiment w e (Found.passed point rate)) d ≡ none
  unfolding unverified end_experiment conclude_task concluded accounted refer
  end_experiment-Confirms ord w e d point rate asked runs number old =
      let w1 = refer (set_scheduler w (confirm point rate)) e in
      let w2 = accounted w1 Outcome.verified e.now in
      let back = come_back-SamePlan w2 e (canary w2.control) in
      let plain : unverified w2 d ≡ none =
        confirmed-plan ord w w2 d w.planner.plan point rate asked number old refl in
      let after = λ (t : Task).
        let (v, o) = conclude_task w e (Found.passed point rate) t in
        let v1 = accounted v o e.now in come_back v1 e (canary v1.control) in
      subst (λ t. unverified (after t) d ≡ none) (sym runs)
        (unverified-SamePlan w2 (come_back w2 e (canary w2.control)) d back ∙ plain)
