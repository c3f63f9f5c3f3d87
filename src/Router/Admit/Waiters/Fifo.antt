-- ===== src/Router/Admit/Waiters/Fifo.antt =====
-- `step` (router.py) keeps the waiters in order.
use cana_tune_llm.Base.{
  ℕ, ◌≡◌, refl, Bool, true, false, not, ◌&&◌, ◌||◌, Float, sym, ap, subst, ◌∙◌, inl, inr,
  Bool-cases, contains, remove_one, remove_one-IsDistinct, append-IsDistinct, if_both,
}
use cana_tune_llm.Router.Latency.{is_best_effort}
use cana_tune_llm.Router.State.{Router, Waiting}
use cana_tune_llm.Router.Tables.{apply_table, apply_table-Keeps}
use cana_tune_llm.Router.Decode.{View}
use cana_tune_llm.Router.Routes.{open_admission}
use cana_tune_llm.Router.Lifecycle.{Request}
use cana_tune_llm.Router.Candidates.{candidates, feasible_of, is_empty}
use cana_tune_llm.Router.Admit.{Leave, try_admit, admit_baseline}
use cana_tune_llm.Router.Admit.Waiters.{
  at_head, set_waiting, signal_once, enqueue, attempt_baseline, attempt, step_best, note_holder,
  step_serve, step, is_serve, serves_doomed,
}
use cana_tune_llm.Router.Admit.Waiters.Kept.{
  candidates-waiting, try_admit-waiting, admit_baseline-waiting,
}
use cana_tune_llm.Router.Admit.Waiters.Settled.{
  IsOrderly, IsSettled, remove_one-absent, remove_one-appended, joined-IsOrderly, IsSettled-from,
  wait-IsSettled, refuse-IsSettled, leave_with-IsSettled, conclude-IsSettled, signal_once-IsOrderly,
}

module _ {F : Type 0} ⦃num : Float F⦄ (w : ℕ) (now : F) where
  enqueue-IsOrderly :
      (waited : F) (s : Waiting F) → IsOrderly s → IsOrderly (enqueue w now waited s)
  enqueue-IsOrderly waited s h = elim (Bool-cases (contains w s.queue)) [
    | inl e ↦ rw e h
    | inr e ↦ rw e (record {
      queue = append-IsDistinct s.queue w h.queue e;
      holding = h.holding;
      fresh = h.fresh;
      signalled = h.signalled;
    })
  ]

  enqueue-others :
      (waited : F) (s : Waiting F)
      → remove_one w (enqueue w now waited s).queue ≡ remove_one w s.queue
  enqueue-others waited s = elim (Bool-cases (contains w s.queue)) [
    | inl e ↦ rw e refl
    | inr e ↦ rw e (remove_one-appended w s.queue e ∙ sym (remove_one-absent w s.queue e))
  ]

  attempt_baseline-IsSettled :
      (r : Router F) (view : View F) (draw : ℕ → ℕ × ℕ) (q : Request F)
      → IsOrderly r.waiting
      → IsSettled w r.waiting (attempt_baseline r now view draw w q)
  unfolding attempt_baseline
  attempt_baseline-IsSettled r view draw q h =
      if_both (IsSettled w r.waiting) (at_head w r.waiting.queue) _ _
        (leave_with-IsSettled w r.waiting (admit_baseline r now view draw q)
          (admit_baseline-waiting r now view draw q) h)
        (wait-IsSettled w r.waiting r refl h)

  attempt-IsSettled :
      (r : Router F) (view : View F) (q : Request F)
      → IsOrderly r.waiting
      → IsSettled w r.waiting (attempt r now view w q)
  unfolding attempt
  attempt-IsSettled r view q h =
      let c = candidates (apply_table r) now view q.tokens q.waited_ms in
      let e =
        candidates-waiting (apply_table r) now view q.tokens q.waited_ms
        ∙ (apply_table-Keeps r).waiting in
      let pressed = is_empty (feasible_of c.1) in
      let r2 = signal_once w pressed c.0 in
      let (h2, same) = signal_once-IsOrderly w pressed c.0 (subst IsOrderly (sym e) h) in
      let k = same ∙ ap (λ x. x.queue) e in
      let leave : Leave = record { rescue = false; backfill = false; best_effort = true } in
      IsSettled-from w r.waiting r2.waiting _ (ap (remove_one w) k) (
        if_both (IsSettled w r2.waiting) (at_head w r2.waiting.queue) _ _
          (leave_with-IsSettled w r2.waiting (try_admit r2 now view q leave)
            (try_admit-waiting r2 now view q leave) h2)
          (wait-IsSettled w r2.waiting r2 refl h2))

  step_best-IsSettled :
      (r : Router F) (view : View F) (draw : ℕ → ℕ × ℕ) (q : Request F)
      → IsOrderly r.waiting
      → IsSettled w r.waiting (step_best r now view draw w q)
  unfolding step_best
  step_best-IsSettled r view draw q h =
      let r1 = set_waiting r (enqueue w now q.waited_ms) in
      let h1 = enqueue-IsOrderly q.waited_ms r.waiting h in
      let e = enqueue-others q.waited_ms r.waiting in
      let P = IsSettled w r.waiting in
      if_both P (num.le r.settings.hold_max_ms q.waited_ms) _ _
        (refuse-IsSettled w r.waiting r refl h)
        (if_both P r.baseline_mode _ _
          (IsSettled-from w r.waiting r1.waiting _ e (attempt_baseline-IsSettled r1 view draw q h1))
          (IsSettled-from w r.waiting r1.waiting _ e (attempt-IsSettled r1 view q h1)))

  note_holder-IsOrderly :
      (serve past : Bool) (r : Router F) (q : Request F) (s : Waiting F)
      → IsOrderly s
      → IsOrderly (note_holder serve past r now w q s)
        × ((note_holder serve past r now w q s).queue ≡ s.queue)
  unfolding note_holder
  note_holder-IsOrderly true true r q s h = elim (Bool-cases (contains w s.holding)) [
    | inl e ↦ rw e (h, refl)
    | inr e ↦ rw e (
      record {
        queue = h.queue;
        holding = append-IsDistinct s.holding w h.holding e;
        fresh = remove_one-IsDistinct w s.fresh h.fresh;
        signalled = h.signalled;
      },
      refl,
    )
  ]
  note_holder-IsOrderly true false r q s h = (joined-IsOrderly w s h, refl)
  note_holder-IsOrderly false false r q s h = (joined-IsOrderly w s h, refl)
  note_holder-IsOrderly false true r q s h = (h, refl)

  step_serve-IsSettled :
      (r : Router F) (view : View F) (q : Request F)
      → IsOrderly r.waiting
      → IsSettled w r.waiting (step_serve r now view w q)
  unfolding step_serve
  step_serve-IsSettled r0 view q h =
      let r = apply_table r0 in
      let e = (apply_table-Keeps r0).waiting in
      let budget = num.add q.waited_ms r.settings.retry_period_ms in
      let serve = is_serve r.settings.overload && not (open_admission r) in
      let past = num.lt r.settings.max_wait_ms budget in
      let (h1, same) = note_holder-IsOrderly serve past r q r.waiting (subst IsOrderly (sym e) h) in
      let s1 = note_holder serve past r now w q r.waiting in
      let r1 = set_waiting r (note_holder serve past r now w q) in
      let holder = serve && past in
      let head = holder && (is_empty s1.fresh && serves_doomed r.settings.doomed now w s1) in
      let leave : Leave = record { rescue = holder; backfill = head; best_effort = false } in
      IsSettled-from w r0.waiting s1 _ (ap (remove_one w) (same ∙ ap (λ x. x.queue) e)) (
        conclude-IsSettled (past && (not serve || num.lt r.settings.hold_max_ms budget)) w s1
          (try_admit r1 now view q leave) (try_admit-waiting r1 now view q leave) h1)

  -- From a Router whose lists of waiters have no duplicates, an attempt of a waiter keeps them so,
  -- keeps the other waiters in their order in the queue, and takes the waiter out of every list and
  -- map when it ends its wait with a ticket or a rejection.
  pub step-IsSettled :
      (r : Router F) (view : View F) (draw : ℕ → ℕ × ℕ) (q : Request F)
      → IsOrderly r.waiting
      → IsSettled w r.waiting (step r now view draw w q)
  unfolding step
  step-IsSettled r view draw q h =
      if_both (IsSettled w r.waiting) (is_best_effort r.settings.overload) _ _
        (step_best-IsSettled r view draw q h) (step_serve-IsSettled r view q h)
