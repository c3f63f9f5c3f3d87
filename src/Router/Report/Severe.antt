-- ===== src/Router/Report/Severe.antt =====
-- Severe latency is pressure, in the report of `production_feedback` (router.py).
use cana_tune_llm.Base.{ℕ, ◌≡◌, true, List, Option, Float, of_nat, max_f, ◌≼◌, IsOrdered, arith}
use cana_tune_llm.Router.State.{Router}
use cana_tune_llm.Router.Report.{Query, Live}
use cana_tune_llm.Router.Report.Build.{report, evidence, production_feedback}

module _ {F : Type 0} ⦃num : Float F⦄ where
  report-severe :
      IsOrdered F
      → (r : Router F) (x : Query F) (rank : ℕ → ℕ) (found : List (ℕ × F)) (live : Live F)
        (wait : F) (tpot : F × Option ℕ)
      → x.near ≼ of_nat 2
      → (report r x rank found live wait tpot).severe ≡ true
      → (report r x rank found live wait tpot).pressure ≡ true
  unfolding report
  report-severe ord r x rank found live wait tpot low e =
      let near = ord.le_trans x.near (of_nat 2) (max_f live.ratio wait) low e in ground arith

  -- Where floats are ordered and a ratio of 2 is near the SLO: a report of severe latency is also one
  -- of pressure.
  pub production_feedback-severe :
      IsOrdered F
      → (r : Router F) (now : F) (x : Query F) (rank : ℕ → ℕ) (order : List ℕ) → x.near ≼ of_nat 2
      → (production_feedback r now x rank order).1.severe ≡ true
      → (production_feedback r now x rank order).1.pressure ≡ true
  unfolding production_feedback
  production_feedback-severe ord r now x rank order low e =
      let v = evidence r now x order in
      report-severe ord v.router x rank v.found v.live v.wait v.tpot low e
