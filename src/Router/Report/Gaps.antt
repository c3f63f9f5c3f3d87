-- ===== src/Router/Report/Gaps.antt =====
-- src/canatune/controller/router.py: `tpot_window`, the worst window of token gaps. `order` lists the
-- groups in the order in which their windows were made.
use cana_tune_llm.Base.{
  ℕ, suc, ◌-◌, ◌-ℤ◌, ℤ, leb_ℤ, pos, negsuc, Option, none, some, List, [], ◌∷◌, map, if◌then◌else◌,
  ltb, Float, of_nat, length, get_elem?, by_float, sort_by,
}
use cana_tune_llm.Router.State.{Router}
use cana_tune_llm.Router.Latency.{trim_gaps}

-- `ordered[i]`, where a negative index counts from the end.
index_of : ℤ → ℕ → ℕ
index_of (pos i) n = i
index_of (negsuc i) n = n - suc i

module _ {F : Type 0} ⦃num : Float F⦄ where
  -- The quantile of the token gaps of a window.
  gap_quantile : F → List (F × F) → F
  unfolding sort_by index_of
  gap_quantile q gaps =
      let ordered = sort_by by_float (map (λ e. e.1) gaps) in
      let n = length ordered in
      let last = pos n -ℤ pos 1 in
      let at = num.ceil (num.mul q (of_nat n)) -ℤ pos 1 in
      let i = if leb_ℤ last at then last else at in
      elim (get_elem? ordered (index_of i n)) [ none ↦ of_nat 0 | some ms ↦ ms ]

  -- One group of the loop of `tpot_window`.
  worse_gap : Router F → F × Option ℕ → ℕ → F × Option ℕ
  unfolding gap_quantile
  worse_gap r (worst, group) d =
      let s = r.settings in
      let gaps = r.feedback.gaps d in
      let ratio = num.div (gap_quantile s.tpot_window_quantile gaps) s.tpot_slo_ms in
      if ltb (length gaps) s.tpot_window_min_gaps
      then (worst, group)
      else if num.lt worst ratio
      then (ratio, some d)
      else (worst, group)

  worst_gap : Router F → F × Option ℕ → List ℕ → F × Option ℕ
  unfolding worse_gap
  worst_gap r best [] = best
  worst_gap r best (d ∷ ds) = worst_gap r (worse_gap r best d) ds

  trimmed : Router F → F → Router F
  unfolding trim_gaps
  trimmed r now =
      let cutoff = num.sub now r.settings.tpot_window_s in
      let f = r.feedback in
      record r { feedback = record f { gaps = λ d. trim_gaps cutoff (f.gaps d) } }

  -- `tpot_window`
  unfoldable pub tpot_window : Router F → F → List ℕ → Router F × (F × Option ℕ)
  unfolding worst_gap trimmed
  tpot_window r now order = let r1 = trimmed r now in (r1, worst_gap r1 (of_nat 0, none) order)
