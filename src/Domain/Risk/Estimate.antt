-- ===== src/Domain/Risk/Estimate.antt =====
-- src/canatune/domain/risk.py: `RiskTable._estimate` and the methods that read the cells.
use cana_tune_llm.Base.{
  ℕ, ◌+◌, ◌-◌, Bool, ◌&&◌, Option, none, some, List, [], ◌∷◌, if◌then◌else◌, leb, ◌==◌, Float,
  of_nat, max_f, min_f, length, any,
}
use cana_tune_llm.Domain.Tiers.{ClockPoint}
use cana_tune_llm.Domain.Risk.{
  Cell, CellStats, RiskEstimate, RiskSource, RiskTable, clock_eq, find_cell, visit_cell, range_from,
  cells_over, lighter_cells, heavier_cells, heavier_d,
}
pub mod Lighter

abbrev add_cell : CellStats → Option CellStats → CellStats
add_cell t none = t
add_cell t (some s) = record {
  admitted = t.admitted + s.admitted;
  violated = t.violated + s.violated;
}

-- The counts of one region, sparse cells included.
pooled_counts : RiskTable → CellStats → List Cell → CellStats
unfolding find_cell
pooled_counts table sum [] = sum
pooled_counts table sum (c ∷ cs) = pooled_counts table (add_cell sum (find_cell c table.cells)) cs

module _ {F : Type 0} ⦃num : Float F⦄ where
  abbrev pub observed : CellStats → Option F
  observed s =
      if s.admitted == 0 then none else some (num.div (of_nat s.violated) (of_nat s.admitted))

  abbrev pub observed_or_zero : CellStats → F
  observed_or_zero s = elim (observed s) [ none ↦ of_nat 0 | some r ↦ r ]

  unfoldable pub own_of : ℕ → Option CellStats → Option (RiskEstimate F)
  own_of min_samples none = none
  own_of min_samples (some s) =
      if leb min_samples s.admitted
      then some
          (record { risk = observed_or_zero s; source = RiskSource.observed; samples = s.admitted })
      else none

  -- `RiskTable._own`
  unfoldable pub own : RiskTable → Cell → Option (RiskEstimate F)
  unfolding own_of
  own table c = own_of table.min_samples (find_cell c table.cells)

  abbrev pub raise_to : Option (RiskEstimate F) → F → F
  raise_to none lower = lower
  raise_to (some e) lower = max_f lower e.risk

  -- The loop of the lower bound: the largest risk of the well-sampled cells.
  unfoldable pub lower_over : RiskTable → F → List Cell → F
  lower_over table lower [] = lower
  lower_over table lower (c ∷ cs) = lower_over table (raise_to (own table c) lower) cs

  abbrev pub meet : Option F → F → F
  meet none r = r
  meet (some u) r = min_f u r

  -- The loop of the upper bound: the least risk of the well-sampled cells.
  unfoldable pub upper_over : RiskTable → Option F → List Cell → Option F
  upper_over table upper [] = upper
  upper_over table upper (c ∷ cs) =
      upper_over table (elim (own table c) [ none ↦ upper | some e ↦ some (meet upper e.risk) ]) cs

  abbrev tighten : F → Option F → RiskSource → Option F × RiskSource
  tighten pooled none source = (some pooled, RiskSource.pooled_bound)
  tighten pooled (some u) source =
      if num.lt pooled u then (some pooled, RiskSource.pooled_bound) else (some u, source)

  -- One region of `_estimate`: the pooled rate replaces a looser bound.
  pool : RiskTable → List Cell → Option F × RiskSource → Option F × RiskSource
  unfolding pooled_counts
  pool table region (upper, source) =
      let sum = pooled_counts table (record { admitted = 0; violated = 0 }) region in
      if leb table.min_samples sum.admitted
      then tighten (num.div (of_nat sum.violated) (of_nat sum.admitted)) upper source
      else (upper, source)

  -- The bound of a sparse cell and where it comes from.
  sparse_bound : RiskTable → Cell → Option F × RiskSource
  unfolding pool upper_over
  sparse_bound table c =
      let n_rows = length table.buckets.n_await + 1 in
      let n_cols = length table.buckets.prompt_tokens + 1 in
      let rows =
        cells_over c.clock (heavier_d c.d_busy) (c.n_await ∷ [])
          (range_from c.prompt (n_cols - c.prompt)) in
      let cols =
        cells_over c.clock (heavier_d c.d_busy) (range_from c.n_await (n_rows - c.n_await))
          (c.prompt ∷ []) in
      pool table cols (
        pool table rows
          (upper_over table none (heavier_cells table.buckets c), RiskSource.heavier_bound))

  unsafe : F
  unsafe = of_nat 1

  bounded_estimate : F → Option F × RiskSource → RiskEstimate F
  unfolding unsafe
  bounded_estimate lower (none, source) = record {
    risk = unsafe;
    source = RiskSource.unknown;
    samples = 0;
  }
  bounded_estimate lower (some upper, source) = record {
    risk = max_f upper lower;
    source = source;
    samples = 0;
  }

  -- A well-sampled cell has its own rate, any other its bound.
  from_own : F → Option F × RiskSource → Option (RiskEstimate F) → RiskEstimate F
  unfolding bounded_estimate
  from_own lower bound (some e) = record e { risk = max_f e.risk lower }
  from_own lower bound none = bounded_estimate lower bound

  -- `RiskTable._estimate`
  unfoldable pub estimate : RiskTable → Cell → RiskEstimate F
  unfolding lower_over own lighter_cells sparse_bound from_own
  estimate table c =
      let lower = lower_over table (of_nat 0) (lighter_cells c) in
      from_own lower (sparse_bound table c) (own table c)

  -- `RiskTable.lookup`: the visit is counted before the estimate.
  unfoldable pub lookup : RiskTable → Cell → RiskTable × RiskEstimate F
  unfolding visit_cell estimate
  lookup table c =
      let visited = record table { visits = visit_cell c table.visits } in
      (visited, estimate visited c)

  -- `RiskTable.clock_usable`
  unfoldable pub clock_usable : RiskTable → ClockPoint → F → Bool
  clock_usable table clock theta =
      any
        (λ e.
          clock_eq e.0.clock clock
          && (leb table.min_samples e.1.admitted && num.le (observed_or_zero e.1) theta))
        table.cells
