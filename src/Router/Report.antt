-- ===== src/Router/Report.antt =====
-- src/canatune/controller/router.py: what `production_feedback` tells the Controller of the latency in
-- production: the report, its arguments, and the sorted names of the groups.
--
-- `rank` is the place of a group's name among the sorted names.
use cana_tune_llm.Base.{
  ℕ, suc, ◌-◌, ◌-ℤ◌, ℤ, leb_ℤ, pos, negsuc, Bool, true, false, not, ◌&&◌, ◌||◌, Option, none, some,
  List, [], ◌∷◌, ◌++◌, map, if◌then◌else◌, leb, ltb, ◌==◌, Float, of_nat, max_f, length, get_elem?,
  get_key, put_key, keep_if, any, contains, is_none, is_empty, Compared, by_nat, by_float,
  insert_by, sort_by,
}
use cana_tune_llm.Router.Settings.{TpotFeedback}
use cana_tune_llm.Router.State.{Router, Ticket, Sample, Stage, Feedback}
use cana_tune_llm.Router.Tables.{apply_table, ttft_ratio}
use cana_tune_llm.Router.Latency.{by_gap, is_best_effort, trim_gaps}
pub mod Gaps
pub mod Unfinished
pub mod Build
pub mod Counted
pub mod Severe

pub record GroupReport (F : Type 0) : Type 0 where
  pub samples : ℕ
  pub near_fraction : F
  pub live_ratio : F

pub record Report (F : Type 0) : Type 0 where
  pub samples : ℕ
  pub near_fraction : F
  pub live_ratio : F
  pub wait_ratio : F
  pub tpot_window_ratio : F
  pub tpot_window_group : Option ℕ
  pub stall_ratio : F
  pub pressure : Bool
  pub severe : Bool
  pub groups : List (ℕ × GroupReport F)
  pub pressured_groups : List ℕ

-- The arguments of `production_feedback`.
pub record Query (F : Type 0) : Type 0 where
  pub window_s : F
  pub min_samples : ℕ
  pub near : F
  pub since : F
  pub admitted_since : F

-- What the unfinished requests show: the worst ratio, the worst stall, and the worst by group.
pub record Live (F : Type 0) : Type 0 where
  pub ratio : F
  pub stall : F
  pub by_group : List (ℕ × F)

abbrev pub is_prefill : Stage → Bool
is_prefill Stage.prefill = true
is_prefill _ = false

-- A name joins the sorted names once.
unfoldable pub add_name : (ℕ → ℕ) → ℕ → List ℕ → List ℕ
unfolding insert_by
add_name rank g names =
    if contains g names then names else insert_by (λ i j. by_nat (rank i) (rank j)) g names

-- `sorted(set(names))`
unfoldable pub sorted_names : (ℕ → ℕ) → List ℕ → List ℕ
unfolding add_name
sorted_names rank [] = []
sorted_names rank (g ∷ gs) = add_name rank g (sorted_names rank gs)
