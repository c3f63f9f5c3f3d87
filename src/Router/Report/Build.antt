-- ===== src/Router/Report/Build.antt =====
-- src/canatune/controller/router.py: `production_feedback`.
use cana_tune_llm.Base.{
  ℕ, Bool, not, ◌&&◌, ◌||◌, Option, none, some, List, [], ◌∷◌, ◌++◌, map, if◌then◌else◌, leb, ◌==◌,
  Float, of_nat, max_f, length, get_key, keep_if, contains,
}
use cana_tune_llm.Router.State.{Router, Sample}
use cana_tune_llm.Router.Latency.{by_gap}
use cana_tune_llm.Router.Report.{GroupReport, Report, Query, Live, sorted_names}
use cana_tune_llm.Router.Report.Gaps.{tpot_window}
use cana_tune_llm.Router.Report.Unfinished.{live_of, wait_ratio}

pub record Evidence (F : Type 0) : Type 0 where
  pub router : Router F
  pub found : List (ℕ × F)
  pub live : Live F
  pub wait : F
  pub tpot : F × Option ℕ

module _ {F : Type 0} where
  -- `per.get(name, [])`
  unfoldable pub ratios_of : ℕ → List (ℕ × F) → List F
  ratios_of g found = map (λ e. e.1) (keep_if (λ e. e.0 == g) found)

module _ {F : Type 0} ⦃num : Float F⦄ where
  -- Samples older than the window are forgotten.
  recent_samples : F → List (ℕ × Sample F) → List (ℕ × Sample F)
  recent_samples oldest samples =
      keep_if (λ e. num.le oldest (max_f e.1.ttft_time e.1.tpot_time)) samples

  -- The ratios that count, each with its group.
  unfoldable pub judged : F → F → List (ℕ × Sample F) → List (ℕ × F)
  judged cutoff admitted_since [] = []
  judged cutoff admitted_since ((k, s) ∷ rest) =
      let ttft = if num.le cutoff s.ttft_time then s.ttft_ratio else of_nat 0 in
      let tpot = if num.le cutoff s.tpot_time then s.tpot_ratio else of_nat 0 in
      if num.lt (max_f s.ttft_time s.tpot_time) cutoff || num.lt s.admitted admitted_since
      then judged cutoff admitted_since rest
      else (s.group, max_f ttft tpot) ∷ judged cutoff admitted_since rest

  -- `sum(r >= near for r in ratios) / len(ratios) if ratios else 0.0`
  near_share : F → List F → F
  near_share near [] = of_nat 0
  near_share near (x ∷ xs) =
      num.div (of_nat (length (keep_if (num.le near) (x ∷ xs)))) (of_nat (length (x ∷ xs)))

  unfoldable pub group_report : F → List (ℕ × F) → List (ℕ × F) → ℕ → GroupReport F
  unfolding near_share ratios_of
  group_report near found live g =
      let values = ratios_of g found in
      record {
        samples = length values;
        near_fraction = near_share near values;
        live_ratio = elim (get_key g live) [ none ↦ of_nat 0 | some x ↦ x ];
      }

  -- Where the pressure of the cluster comes from.
  is_pressured : F → ℕ × GroupReport F → Bool
  is_pressured near e = num.lt (of_nat 0) e.1.near_fraction || num.le near e.1.live_ratio

  -- The group of the worst window joins, where that window is beyond the SLO.
  with_window : F × Option ℕ → List ℕ → List ℕ
  with_window (q, none) names = names
  with_window (q, some g) names =
      if num.le (of_nat 1) q && not (contains g names) then names ++ (g ∷ []) else names

  pressured_from : F → F × Option ℕ → List (ℕ × GroupReport F) → List ℕ
  unfolding is_pressured with_window
  pressured_from near tpot groups =
      with_window tpot (map (λ e. e.0) (keep_if (is_pressured near) groups))

  window_of : Router F → F → List ℕ → Router F × (F × Option ℕ)
  unfolding tpot_window
  window_of r now order =
      if by_gap r.settings.tpot_feedback then (r, (of_nat 0, none)) else tpot_window r now order

  -- The report from what was found.
  unfoldable pub report :
      Router F → Query F → (ℕ → ℕ) → List (ℕ × F) → Live F → F → F × Option ℕ → Report F
  unfolding near_share group_report pressured_from sorted_names
  report r x rank found live wait tpot =
      let s = r.settings in
      let fraction = near_share x.near (map (λ e. e.1) found) in
      let seen = map (λ e. e.0) found ++ map (λ e. e.0) live.by_group in
      let groups =
        map (λ g. (g, group_report x.near found live.by_group g)) (sorted_names rank seen) in
      let many = leb x.min_samples (length found) && num.lt s.theta fraction in
      let worst = max_f live.ratio wait in
      record {
        samples = length found;
        near_fraction = fraction;
        live_ratio = live.ratio;
        wait_ratio = wait;
        tpot_window_ratio = tpot.0;
        tpot_window_group = tpot.1;
        stall_ratio = live.stall;
        pressure =
            many
            || (num.le x.near worst
                || (num.le (of_nat 1) tpot.0 || num.le s.tpot_stall_factor live.stall));
        severe = num.le (of_nat 2) worst;
        groups = groups;
        pressured_groups = pressured_from x.near tpot groups;
      }

  -- What the Router knows of the latency, before the report.
  unfoldable pub evidence : Router F → F → Query F → List ℕ → Evidence F
  unfolding recent_samples judged live_of wait_ratio window_of
  evidence r now x order =
      let oldest = num.sub now x.window_s in
      let kept = recent_samples oldest r.feedback.production in
      let r1 : Router F = record r { feedback = record r.feedback { production = kept } } in
      let (r2, live) = live_of r1 now x.admitted_since in
      let (r3, tpot) = window_of r2 now order in
      record {
        router = r3;
        found = judged (max_f oldest x.since) x.admitted_since kept;
        live = live;
        wait = wait_ratio r2 now;
        tpot = tpot;
      }

  -- `production_feedback`
  unfoldable pub production_feedback :
      Router F → F → Query F → (ℕ → ℕ) → List ℕ → Router F × Report F
  unfolding evidence report
  production_feedback r now x rank order =
      let v = evidence r now x order in
      (v.router, report v.router x rank v.found v.live v.wait v.tpot)
