-- ===== src/Router/Report/Counted.antt =====
-- The report of `production_feedback` (router.py) counts every sample in one group.
use cana_tune_llm.Base.{
  ℕ, ◌+◌, ◌≡◌, refl, ◌∙◌, true, not, List, [], ◌∷◌, ◌++◌, map, if◌then◌else◌, ◌==◌, length, sum_by,
  contains, arith, by_nat, insert_by, Compared, Float, All, All_imp, Option,
}
use cana_tune_llm.Router.State.{Router}
use cana_tune_llm.Router.Report.{add_name, sorted_names, Query, Live, GroupReport}
use cana_tune_llm.Router.Report.Build.{
  ratios_of, group_report, report, evidence, production_feedback,
}

-- How often a name is in a list.
occurrences : ℕ → List ℕ → ℕ
occurrences g [] = 0
occurrences g (h ∷ hs) = (if h == g then 1 else 0) + occurrences g hs

occurrences-insert_by :
    (f : ℕ → ℕ → Compared) (g h : ℕ) (names : List ℕ)
    → occurrences g (insert_by f h names) ≡ (if h == g then 1 else 0) + occurrences g names
unfolding insert_by occurrences
occurrences-insert_by f g h [] = omega arith
occurrences-insert_by f g h (x ∷ xs) = ground (arith, occurrences-insert_by f g h xs)

contains-occurrences : (g : ℕ) (names : List ℕ) → contains g names ≡ not (occurrences g names == 0)
unfolding occurrences
contains-occurrences g [] = refl
contains-occurrences g (x ∷ xs) = ground (arith, contains-occurrences g xs)

-- In the sorted names each name stands once.
occurrences-sorted_names :
    (rank : ℕ → ℕ) (g : ℕ) (names : List ℕ)
    → occurrences g (sorted_names rank names) ≡ (if contains g names then 1 else 0)
unfolding sorted_names add_name occurrences
occurrences-sorted_names rank g [] = refl
occurrences-sorted_names rank g (x ∷ xs) =
    let rest = sorted_names rank xs in
    let own = occurrences-sorted_names rank g xs in
    let new = occurrences-insert_by (λ i j. by_nat (rank i) (rank j)) g x rest in
    let first = occurrences-sorted_names rank x xs in
    let there = contains-occurrences x rest in ground arith

contains-front :
    (g : ℕ) (front back : List ℕ) → contains g front ≡ true → contains g (front ++ back) ≡ true
contains-front g [] back h = ground arith
contains-front g (x ∷ xs) back h = ground (arith, contains-front g xs back)

module _ {F : Type 0} where
  length-ratios_of :
      (g h : ℕ) (x : F) (found : List (ℕ × F))
      → length (ratios_of g ((h, x) ∷ found))
        ≡ (if h == g then 1 else 0) + length (ratios_of g found)
  unfolding ratios_of
  length-ratios_of g h x found = ground arith

  sum_by-occurrences :
      (h : ℕ) (x : F) (found : List (ℕ × F)) (names : List ℕ)
      → sum_by (λ g. length (ratios_of g ((h, x) ∷ found))) names
        ≡ occurrences h names + sum_by (λ g. length (ratios_of g found)) names
  unfolding occurrences
  sum_by-occurrences h x found [] = refl
  sum_by-occurrences h x found (g ∷ names) =
      let one = length-ratios_of g h x found in
      let rest = sum_by-occurrences h x found names in ground arith

  sum_by-none :
      (names : List ℕ) (found : List (ℕ × F))
      → found ≡ []
      → sum_by (λ g. length (ratios_of g found)) names ≡ 0
  unfolding ratios_of
  sum_by-none [] found e = refl
  sum_by-none (g ∷ names) found e = ground (arith, sum_by-none names found e)

  -- Names that hold each group of a sample once count each sample once.
  sum_by-samples :
      (names : List ℕ) (found : List (ℕ × F))
      → All (λ e. occurrences e.0 names ≡ 1) found
      → sum_by (λ g. length (ratios_of g found)) names ≡ length found
  sum_by-samples names [] h = sum_by-none names [] refl
  sum_by-samples names ((g, x) ∷ found) (one, h) =
      let step = sum_by-occurrences g x found names in
      let rest = sum_by-samples names found h in omega arith

  groups-All :
      (found : List (ℕ × F)) (gs : List ℕ)
      → ((g : ℕ) → contains g (map (λ e. e.0) found) ≡ true → contains g gs ≡ true)
      → All (λ e. contains e.0 gs ≡ true) found
  groups-All [] gs h = tt
  groups-All ((g, x) ∷ found) gs h =
      (h g (ground arith), groups-All found gs (λ j here. h j (ground arith)))

module _ {F : Type 0} ⦃num : Float F⦄ where
  sum_by-reports :
      (near : F) (found live : List (ℕ × F)) (names : List ℕ)
      → sum_by
          (λ (e : ℕ × GroupReport F). e.1.samples)
          (map (λ g. (g, group_report near found live g)) names)
        ≡ sum_by (λ g. length (ratios_of g found)) names
  unfolding group_report
  sum_by-reports near found live [] = refl
  sum_by-reports near found live (g ∷ names) =
      let rest = sum_by-reports near found live names in omega arith

  -- The same of a report made from what was found.
  pub report-counted :
      (r : Router F) (x : Query F) (rank : ℕ → ℕ) (found : List (ℕ × F)) (live : Live F) (wait : F)
      (tpot : F × Option ℕ)
      → let told = report r x rank found live wait tpot in
        sum_by (λ (e : ℕ × GroupReport F). e.1.samples) told.groups ≡ told.samples
  unfolding report
  report-counted r x rank found live wait tpot =
      let own = map (λ e. e.0) found in
      let others = map (λ e. e.0) live.by_group in
      let names = sorted_names rank (own ++ others) in
      let within = groups-All found (own ++ others) (λ g here. contains-front g own others here) in
      let once : All (λ e. occurrences e.0 names ≡ 1) found =
        All_imp (λ e. contains e.0 (own ++ others) ≡ true) (λ e. occurrences e.0 names ≡ 1) found
          (λ e here. let n = occurrences-sorted_names rank e.0 (own ++ others) in ground arith)
          within in
      sum_by-reports x.near found live.by_group names ∙ sum_by-samples names found once

  -- In the report of `production_feedback` the samples of the groups add up to all samples, whatever
  -- the names of the groups and whatever requests are unfinished or wait.
  pub production_feedback-counted :
      (r : Router F) (now : F) (x : Query F) (rank : ℕ → ℕ) (order : List ℕ)
      → let told = (production_feedback r now x rank order).1 in
        sum_by (λ (e : ℕ × GroupReport F). e.1.samples) told.groups ≡ told.samples
  unfolding production_feedback
  production_feedback-counted r now x rank order =
      let v = evidence r now x order in report-counted v.router x rank v.found v.live v.wait v.tpot
