-- ===== src/Router/Admit/Waiters/Kept.antt =====
-- Admission (`try_admit`, `_admit_baseline`, `_issue` of router.py) leaves the waiters alone.
use cana_tune_llm.Base.{ℕ, ◌≡◌, refl, not, Option, none, some, Float, arith, ◌∙◌, if_both, [], ◌∷◌}
use cana_tune_llm.Router.State.{Router, OverflowKind}
use cana_tune_llm.Router.Tables.{apply_table, apply_table-Keeps}
use cana_tune_llm.Router.Decode.{View}
use cana_tune_llm.Router.Lifecycle.{Offer, Request, issue}
use cana_tune_llm.Router.Candidates.{
  Assessment, candidates, note_d_exhausted, feasible_of, is_empty,
}
use cana_tune_llm.Router.Choose.{choose, after_choice}
use cana_tune_llm.Router.Admit.{
  Leave, Usable, with_overflow, is_dispatch, issue_choice, issue_spare, issue_overflow,
  beyond_feasible, try_admit, issue_baseline, admit_baseline,
}

module _ {F : Type 0} ⦃num : Float F⦄ where
  issue-waiting :
      (r : Router F) (now : F) (o : Offer F) (q : Request F) → (issue r now o q).waiting ≡ r.waiting
  unfolding issue
  issue-waiting r now o q = let e = (apply_table-Keeps r).waiting in ground (arith, e)

  pub candidates-waiting :
      (r : Router F) (now : F) (view : View F) (tokens : ℕ) (waited : F)
      → (candidates r now view tokens waited).0.waiting ≡ r.waiting
  unfolding candidates note_d_exhausted
  candidates-waiting r now view tokens waited = ground arith

  after_choice-waiting : (r : Router F) (a : Assessment F) → (after_choice r a).waiting ≡ r.waiting
  unfolding after_choice
  after_choice-waiting r a = ground arith

  issue_choice-waiting :
      (r : Router F) (now : F) (q : Request F) (kind : Option OverflowKind)
      (o : Option (Assessment F))
      → (issue_choice r now q kind o).0.waiting ≡ r.waiting
  unfolding issue_choice
  issue_choice-waiting r now q kind none = refl
  issue_choice-waiting r now q kind (some a) = issue-waiting _ now _ q ∙ after_choice-waiting r a

  issue_spare-waiting :
      (r : Router F) (now : F) (view : View F) (q : Request F)
      → (issue_spare r now view q).0.waiting ≡ r.waiting
  unfolding issue_spare
  issue_spare-waiting r now view q =
      issue_choice-waiting _ now q _ _ ∙ candidates-waiting r now view _ _

  issue_overflow-waiting :
      (r : Router F) (now : F) (view : View F) (q : Request F) (leave : Leave) (a : Assessment F)
      → (issue_overflow r now view q leave a).0.waiting ≡ r.waiting
  unfolding issue_overflow
  issue_overflow-waiting r now view q leave a =
      let P = λ (x : Router F × Option ℕ). x.0.waiting ≡ r.waiting in
      let h = λ (kind : OverflowKind).
        issue_choice-waiting r now q (some kind) (choose r now (with_overflow a ∷ [])) in
      if_both P leave.best_effort _ _ (h OverflowKind.best_effort) (
        if_both P (num.le (num.add q.waited_ms a.predicted) r.settings.ttft_slo_ms) _ _
          (h OverflowKind.rescue)
          (if_both P (not leave.backfill) _ _ refl (
            if_both P (is_dispatch r.settings.doomed) _ _ (h OverflowKind.doomed)
              (issue_spare-waiting r now view q))))

  beyond-waiting :
      (r : Router F) (now : F) (view : View F) (q : Request F) (leave : Leave)
      (o : Option (Assessment F))
      → (beyond_feasible r now view q leave o).0.waiting ≡ r.waiting
  unfolding beyond_feasible
  beyond-waiting r now view q leave none = refl
  beyond-waiting r now view q leave (some a) =
      let e = issue_overflow-waiting r now view q leave a in ground (arith, e)

  pub try_admit-waiting :
      (r : Router F) (now : F) (view : View F) (q : Request F) (leave : Leave)
      → (try_admit r now view q leave).0.waiting ≡ r.waiting
  unfolding try_admit
  try_admit-waiting r now view q leave =
      let c = candidates (apply_table r) now view q.tokens q.waited_ms in
      let e =
        candidates-waiting (apply_table r) now view q.tokens q.waited_ms
        ∙ (apply_table-Keeps r).waiting in
      if_both (λ (x : Router F × Option ℕ). x.0.waiting ≡ r.waiting) (is_empty (feasible_of c.1)) _
        _ (beyond-waiting c.0 now view q leave _ ∙ e) (issue_choice-waiting c.0 now q none _ ∙ e)

  issue_baseline-waiting :
      (r : Router F) (now : F) (q : Request F) (o : Option Usable)
      → (issue_baseline r now q o).0.waiting ≡ r.waiting
  unfolding issue_baseline
  issue_baseline-waiting r now q none = refl
  issue_baseline-waiting r now q (some u) = issue-waiting _ now _ q ∙ (apply_table-Keeps _).waiting

  pub admit_baseline-waiting :
      (r : Router F) (now : F) (view : View F) (draw : ℕ → ℕ × ℕ) (q : Request F)
      → (admit_baseline r now view draw q).0.waiting ≡ r.waiting
  unfolding admit_baseline
  admit_baseline-waiting r now view draw q = issue_baseline-waiting r now q _
