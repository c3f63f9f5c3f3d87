-- ===== src/Router/Admit/Waiters/Head.antt =====
-- Whom the best-effort `step` (router.py) admits: the head of the queue only.
use cana_tune_llm.Base.{
  ℕ, ◌≡◌, refl, Bool, true, false, Option, none, some, List, [], ◌∷◌, ◌++◌, if◌then◌else◌, Float,
  arith, sym, ap, subst, ◌∙◌, inl, inr, Bool-cases, contains, if_both, if_true, if_false,
}
use cana_tune_llm.Router.Latency.{is_best_effort}
use cana_tune_llm.Router.State.{Router}
use cana_tune_llm.Router.Tables.{apply_table, apply_table-Keeps}
use cana_tune_llm.Router.Decode.{View}
use cana_tune_llm.Router.Lifecycle.{Request}
use cana_tune_llm.Router.Candidates.{candidates, feasible_of, is_empty}
use cana_tune_llm.Router.Admit.{Leave, try_admit, admit_baseline}
use cana_tune_llm.Router.Admit.Waiters.{
  StepResult, at_head, set_waiting, refuse, leave_with, signal_once, enqueue, attempt_baseline,
  attempt, step_best, step,
}
use cana_tune_llm.Router.Admit.Waiters.Kept.{candidates-waiting}

abbrev pub is_ticket : StepResult → Bool
is_ticket (StepResult.ticket k) = true
is_ticket _ = false

abbrev pub is_reject : StepResult → Bool
is_reject StepResult.reject = true
is_reject _ = false

-- Nobody waits before `w`: it is the head of the queue, or the queue is empty.
abbrev pub IsFirst : ℕ → List ℕ → Type 0
IsFirst w [] = Unit
IsFirst w (x ∷ xs) = (x ≡ w)

appended-IsFirst : (w : ℕ) (xs : List ℕ) → at_head w (xs ++ (w ∷ [])) ≡ true → IsFirst w xs
appended-IsFirst w [] h = tt
appended-IsFirst w (x ∷ xs) h = ground arith

at_head-IsFirst : (w : ℕ) (xs : List ℕ) → at_head w xs ≡ true → IsFirst w xs
at_head-IsFirst w [] h = tt
at_head-IsFirst w (x ∷ xs) h = ground arith

module _ {F : Type 0} where
  -- An attempt gives a ticket only under `C`, and does not reject.
  abbrev GivesIf : Type 0 → Router F × StepResult → Type 0
  GivesIf C out = (is_ticket out.1 ≡ true → C) × (is_reject out.1 ≡ false)

  leave_with-GivesIf :
      (C : Type 0) (w : ℕ) (given : Router F × Option ℕ) → C → GivesIf C (leave_with w given)
  unfolding leave_with
  leave_with-GivesIf C w (r, none) c = ((λ t. c), refl)
  leave_with-GivesIf C w (r, some k) c = ((λ t. c), refl)

  head-GivesIf :
      (w : ℕ) (r : Router F) (given : Router F × Option ℕ)
      → GivesIf
          (at_head w r.waiting.queue ≡ true)
          (if at_head w r.waiting.queue then leave_with w given else (r, StepResult.wait))
  head-GivesIf w r given =
      let C = (at_head w r.waiting.queue ≡ true) in
      elim (Bool-cases (at_head w r.waiting.queue)) [
        | inl e ↦
            if_both (GivesIf C) (at_head w r.waiting.queue) _ _ (leave_with-GivesIf C w given e)
              ((λ t. e), refl)
        | inr e ↦
            subst (GivesIf C)
              (sym
                (if_false (at_head w r.waiting.queue) (leave_with w given) (r, StepResult.wait) e))
              ((λ t. ground arith), refl)
      ]

  signal_once-queue :
      (w : ℕ) (pressed : Bool) (r : Router F)
      → (signal_once w pressed r).waiting.queue ≡ r.waiting.queue
  unfolding signal_once
  signal_once-queue w pressed r = ground arith

module _ {F : Type 0} ⦃num : Float F⦄ (now : F) (view : View F) (w : ℕ) (q : Request F) where
  attempt-GivesIf :
      (r : Router F) → GivesIf (at_head w r.waiting.queue ≡ true) (attempt r now view w q)
  unfolding attempt
  attempt-GivesIf r =
      let c = candidates (apply_table r) now view q.tokens q.waited_ms in
      let e =
        candidates-waiting (apply_table r) now view q.tokens q.waited_ms
        ∙ (apply_table-Keeps r).waiting in
      let pressed = is_empty (feasible_of c.1) in
      let r2 = signal_once w pressed c.0 in
      let same = signal_once-queue w pressed c.0 ∙ ap (λ x. x.queue) e in
      let leave : Leave = record { rescue = false; backfill = false; best_effort = true } in
      let (t, k) = head-GivesIf w r2 (try_admit r2 now view q leave) in
      ((λ x. ap (at_head w) (sym same) ∙ t x), k)

  enqueue-IsFirst :
      (r : Router F)
      → at_head w (enqueue w now q.waited_ms r.waiting).queue ≡ true
      → IsFirst w r.waiting.queue
  enqueue-IsFirst r h = elim (Bool-cases (contains w r.waiting.queue)) [
    | inl e ↦ at_head-IsFirst w r.waiting.queue (ground (arith, h, e))
    | inr e ↦ appended-IsFirst w r.waiting.queue (ground (arith, h, e))
  ]

  -- In the best-effort mode a waiter is admitted only when nobody waits before it, and it is rejected
  -- exactly when it has waited `hold_max_ms`.
  pub step-head :
      (r : Router F) (draw : ℕ → ℕ × ℕ)
      → is_best_effort r.settings.overload ≡ true
      → let out = (step r now view draw w q).1 in
        (is_ticket out ≡ true → IsFirst w r.waiting.queue)
        × (is_reject out ≡ num.le r.settings.hold_max_ms q.waited_ms)
  unfolding step step_best attempt_baseline
  step-head r draw best =
      let r1 = set_waiting r (enqueue w now q.waited_ms) in
      let over = num.le r.settings.hold_max_ms q.waited_ms in
      let C = (at_head w r1.waiting.queue ≡ true) in
      let P = λ (out : Router F × StepResult).
        (is_ticket out.1 ≡ true → IsFirst w r.waiting.queue) × (is_reject out.1 ≡ over) in
      let refused : Router F × StepResult = (set_waiting r (refuse w), StepResult.reject) in
      let baseline = attempt_baseline r1 now view draw w q in
      let later = attempt r1 now view w q in
      let queued : Router F × StepResult = if r.baseline_mode then baseline else later in
      let (t, k) =
        if_both (GivesIf C) r.baseline_mode baseline later
          (head-GivesIf w r1 (admit_baseline r1 now view draw q)) (attempt-GivesIf r1) in
      subst P (sym (if_true (is_best_effort r.settings.overload) _ _ best))
        (elim (Bool-cases over) [
          | inl e ↦ subst P (sym (if_true over refused queued e)) ((λ x. ground arith), sym e)
          | inr e ↦
              subst P (sym (if_false over refused queued e))
                ((λ x. enqueue-IsFirst r (t x)), k ∙ sym e)
        ])
