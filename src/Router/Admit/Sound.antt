-- ===== src/Router/Admit/Sound.antt =====
-- What `try_admit` (router.py) may issue a ticket for without rescue or best effort.
use cana_tune_llm.Base.{
  ℕ, ◌≡◌, refl, false, ◌||◌, ◌⊎◌, inl, inr, Option, none, some, Float, arith, sym, subst, if_both,
  if_false,
}
use cana_tune_llm.Router.State.{Router}
use cana_tune_llm.Router.Tables.{apply_table}
use cana_tune_llm.Router.Decode.{View}
use cana_tune_llm.Router.Routes.{open_admission}
use cana_tune_llm.Router.Lifecycle.{Request, issue}
use cana_tune_llm.Router.Candidates.{Assessment, candidates, feasible_of, is_empty}
use cana_tune_llm.Router.Candidates.Safety.{IsSound, candidates-IsSound}
use cana_tune_llm.Router.Choose.{choose, after_choice}
use cana_tune_llm.Router.Choose.Member.{OnSome, choose-All}
use cana_tune_llm.Router.Admit.{
  Leave, offer_of, issue_choice, issue_overflow, beyond_feasible, try_admit,
}

module _ {F : Type 0} ⦃num : Float F⦄ (r : Router F) (now : F) (view : View F) (q : Request F) where
  -- The Router with the table in force, and after the pass over the routes.
  abbrev pub passed : Router F
  passed = (candidates (apply_table r) now view q.tokens q.waited_ms).0

  -- Either no ticket, or the ticket of a route that `candidates` found sound.
  abbrev pub IssuesSound : Router F × Option ℕ → Type 0
  IssuesSound out =
      (out.1 ≡ none)
      ⊎ ((a : Assessment F) × (IsSound (apply_table r) view q.tokens q.waited_ms a
            × (out.0 ≡ issue (after_choice passed a) now (offer_of a a.estimate none) q)))

  issue_choice-IssuesSound :
      (o : Option (Assessment F))
      → OnSome (IsSound (apply_table r) view q.tokens q.waited_ms) o
      → IssuesSound (issue_choice passed now q none o)
  unfolding issue_choice
  issue_choice-IssuesSound none h = inl refl
  issue_choice-IssuesSound (some a) h = inr (a, (h, refl))

  beyond_feasible-IssuesSound :
      (leave : Leave) (o : Option (Assessment F))
      → leave.rescue ≡ false
      → leave.best_effort ≡ false
      → IssuesSound (beyond_feasible passed now view q leave o)
  unfolding beyond_feasible
  beyond_feasible-IssuesSound leave none h k = inl refl
  beyond_feasible-IssuesSound leave (some a) h k =
      let none_left : (leave.rescue || leave.best_effort) ≡ false = ground (arith, h, k) in
      subst IssuesSound
        (sym (
          if_false (leave.rescue || leave.best_effort) (issue_overflow passed now view q leave a)
            (passed, none) none_left))
        (inl refl)

  -- Past the cold start, an attempt without rescue and best effort issues a ticket only for a route whose
  -- groups are routable and whose D and risk passed every check of `candidates`, and what it issues is
  -- that route's reservation.
  pub try_admit-IssuesSound :
      (leave : Leave)
      → leave.rescue ≡ false
      → leave.best_effort ≡ false
      → open_admission (apply_table r) ≡ false
      → IssuesSound (try_admit r now view q leave)
  unfolding try_admit
  try_admit-IssuesSound leave h k shut =
      let found = (candidates (apply_table r) now view q.tokens q.waited_ms).1 in
      let sound = candidates-IsSound (apply_table r) view q.tokens q.waited_ms now shut in
      if_both IssuesSound (is_empty (feasible_of found)) _ _
        (beyond_feasible-IssuesSound leave _ h k)
        (issue_choice-IssuesSound (choose passed now (feasible_of found)) (
          choose-All passed now (IsSound (apply_table r) view q.tokens q.waited_ms)
            (feasible_of found) sound))
