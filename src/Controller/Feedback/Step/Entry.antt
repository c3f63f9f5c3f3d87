-- ===== src/Controller/Feedback/Step/Entry.antt =====
-- `_feedback_control` (tier_controller.py) moves no group before the pressure is confirmed.
use cana_tune_llm.Base.{
  ◌≡◌, refl, false, not, Option, some, Float, arith, sym, ap, subst, ◌∙◌, if_both, if_true,
  if_false,
}
use cana_tune_llm.Router.Settings.{ControlMode}
use cana_tune_llm.Router.Candidates.{d_exhausted_count}
use cana_tune_llm.Controller.Clocks.{Control}
use cana_tune_llm.Controller.Feedback.{
  Observed, Outside, note_warning, note_pressure, note_severe, note_tick, confirmed, emergency,
  note_exhausted, in_mode,
}
use cana_tune_llm.Controller.Feedback.Step.{
  settle, expanding, unexpanded, answer, noted, feedback_control, in_grace,
}

-- The groups, the clock epochs and the flag of full effort are as before.
pub record IsUnmoved {F : Type 0} (c c' : Control F) : Type 0 where
  pub groups : c'.router.groups ≡ c.router.groups
  pub epochs : c'.router.clock_epochs ≡ c.router.clock_epochs
  pub full_effort : c'.full_effort ≡ c.full_effort

module _ {F : Type 0} ⦃num : Float F⦄ where
  noted-IsUnmoved : (c : Control F) (o : Observed F) (now : F) → IsUnmoved c (noted c o now).0
  unfolding noted note_warning note_pressure note_severe note_tick note_exhausted d_exhausted_count
  noted-IsUnmoved c o now = record {
    groups = ground arith;
    epochs = ground arith;
    full_effort = ground arith;
  }

  settle-IsUnmoved : (c : Control F) (o : Observed F) (now : F) → IsUnmoved c (settle c o now)
  unfolding settle
  settle-IsUnmoved c o now = record {
    groups = ground arith;
    epochs = ground arith;
    full_effort = ground arith;
  }

  -- A result that leaves the groups alone.
  abbrev Settles : Control F → Option (Control F) → Type 0
  Settles c out = (after : Control F) × ((out ≡ some after) × IsUnmoved c after)

  some-Settles : (c d : Control F) → IsUnmoved c d → Settles c (some d)
  some-Settles c d h = (d, (refl, h))

  IsUnmoved-refl : (c : Control F) → IsUnmoved c c
  IsUnmoved-refl c = record { groups = refl; epochs = refl; full_effort = refl }

  expanding-Settles :
      (c : Control F) (o : Observed F) (x : Outside F) (now : F)
      → confirmed c now ≡ false
      → Settles c (expanding c o x now)
  unfolding expanding
  expanding-Settles c o x now h =
      if_both (Settles c) (in_grace c.watch.expanded_at now c.settings.expansion_grace_s) _ _
        (some-Settles c c (IsUnmoved-refl c))
        (subst (Settles c)
          (sym (if_true (not (confirmed c now)) (some (settle c o now)) _ (ap not h)))
          (some-Settles c (settle c o now) (settle-IsUnmoved c o now)))

  unexpanded-Settles :
      (c : Control F) (o : Observed F) (x : Outside F) (now : F)
      → confirmed c now ≡ false
      → Settles c (unexpanded c o x now)
  unfolding unexpanded
  unexpanded-Settles c o x now h =
      subst (Settles c) (sym (if_true (not (confirmed c now)) (some (settle c o now)) _ (ap not h)))
        (some-Settles c (settle c o now) (settle-IsUnmoved c o now))

  answer-Settles :
      (c : Control F) (o : Observed F) (x : Outside F) (now : F)
      → c.full_effort ≡ false
      → emergency c now ≡ false
      → confirmed c now ≡ false
      → Settles c (answer c o x false now)
  unfolding answer
  answer-Settles c o x now calm e h = subst (Settles c) (sym (if_false c.full_effort _ _ calm)) (
      subst (Settles c) (sym (if_false (emergency c now) _ _ e)) (
        if_both (Settles c) (in_mode ControlMode.expanding c) _ _ (expanding-Settles c o x now h)
          (unexpanded-Settles c o x now h)))

  pub feedback_control-IsUnmoved :
      (c : Control F) (o : Observed F) (x : Outside F) (now : F)
      → let (c1, exhausted) = noted c o now in
        c.full_effort ≡ false
        → emergency c1 now ≡ false
        → exhausted ≡ false
        → confirmed c1 now ≡ false
        → (after : Control F) × ((feedback_control c o x now ≡ some after) × IsUnmoved c after)
  unfolding feedback_control
  feedback_control-IsUnmoved c o x now calm e1 e2 e3 =
      let c1 = (noted c o now).0 in
      let k = noted-IsUnmoved c o now in
      let (after, (e, u)) = answer-Settles c1 o x now (k.full_effort ∙ calm) e1 e3 in
      (
        after,
        (
          ap (λ b. answer c1 o x b now) e2 ∙ e,
          record {
            groups = u.groups ∙ k.groups;
            epochs = u.epochs ∙ k.epochs;
            full_effort = u.full_effort ∙ k.full_effort;
          },
        ),
      )
