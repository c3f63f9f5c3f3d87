-- ===== src/Domain/Risk.antt =====
-- src/canatune/domain/risk.py: the online risk table.
use cana_tune_llm.Base.{
  ℕ, zero, suc, ◌+◌, ◌-◌, Bool, true, false, not, ◌&&◌, Option, none, some, List, [], ◌∷◌, ◌++◌,
  if◌then◌else◌, ◌==◌, ltb_ℤ, ℤ, pos, length, keep_if,
}
use cana_tune_llm.Domain.Tiers.{ClockPoint}
pub mod Estimate
pub mod Ranges
pub mod Persisted

-- Upper bucket edges, in increasing order.
pub record Buckets : Type 0 where
  pub n_await : List ℕ
  pub prompt_tokens : List ℕ

-- `bisect.bisect_left` on increasing edges: how many of the first edges are below the value.
unfoldable pub bucket_index : List ℕ → ℤ → ℕ
bucket_index [] value = 0
bucket_index (e ∷ edges) value = if ltb_ℤ (pos e) value then suc (bucket_index edges value) else 0

-- `Cell`, with the clock point in place of its key.
pub record Cell : Type 0 where
  pub clock : ClockPoint
  pub n_await : ℕ
  pub prompt : ℕ
  pub d_busy : Bool

abbrev pub bool_eq : Bool → Bool → Bool
bool_eq true b = b
bool_eq false b = not b

abbrev pub clock_eq : ClockPoint → ClockPoint → Bool
clock_eq a b = a.prefill_mhz == b.prefill_mhz && a.decode_mhz == b.decode_mhz

abbrev pub cell_eq : Cell → Cell → Bool
cell_eq a b =
    clock_eq a.clock b.clock
    && (a.n_await == b.n_await && (a.prompt == b.prompt && bool_eq a.d_busy b.d_busy))

pub record CellStats : Type 0 where
  pub admitted : ℕ
  pub violated : ℕ

pub data RiskSource : Type 0 where
  observed heavier_bound pooled_bound unknown : RiskSource
  slack_observed slack_bounded slack_unknown : RiskSource
  overflow : RiskSource

pub record RiskEstimate (F : Type 0) : Type 0 where
  pub risk : F
  pub source : RiskSource
  pub samples : ℕ

pub record RiskTable : Type 0 where
  pub buckets : Buckets
  pub min_samples : ℕ
  pub cells : List (Cell × CellStats)
  pub visits : List (Cell × ℕ)

-- `RiskTable.cell`
unfoldable pub cell : RiskTable → ClockPoint → ℤ → ℕ → Bool → Cell
cell table clock n_await prompt_tokens d_busy = record {
  clock = clock;
  n_await = bucket_index table.buckets.n_await n_await;
  prompt = bucket_index table.buckets.prompt_tokens (pos prompt_tokens);
  d_busy = d_busy;
}

-- `self._cells.get(cell)`
unfoldable pub find_cell : {V : Type 0} → Cell → List (Cell × V) → Option V
find_cell c [] = none
find_cell c ((k, s) ∷ rest) = if cell_eq k c then some s else find_cell c rest

abbrev pub add_outcome : Bool → CellStats → CellStats
add_outcome violated s = record s {
  admitted = s.admitted + 1;
  violated = s.violated + (if violated then 1 else 0);
}

-- `setdefault` and the two increments of `record`.
unfoldable pub record_cell : Cell → Bool → List (Cell × CellStats) → List (Cell × CellStats)
record_cell c violated [] = (c, add_outcome violated (record { admitted = 0; violated = 0 })) ∷ []
record_cell c violated ((k, s) ∷ rest) =
    if cell_eq k c then (k, add_outcome violated s) ∷ rest else (k, s) ∷ record_cell c violated rest

unfoldable pub record_outcome : RiskTable → Cell → Bool → RiskTable
unfolding record_cell
record_outcome table c violated = record table { cells = record_cell c violated table.cells }

-- `self._visits[cell] = self._visits.get(cell, 0) + 1`
unfoldable pub visit_cell : Cell → List (Cell × ℕ) → List (Cell × ℕ)
visit_cell c [] = (c, 1) ∷ []
visit_cell c ((k, n) ∷ rest) = if cell_eq k c then (k, n + 1) ∷ rest else (k, n) ∷ visit_cell c rest

-- `range(start, start + count)`
unfoldable pub range_from : ℕ → ℕ → List ℕ
range_from start zero = []
range_from start (suc count) = start ∷ range_from (start + 1) count

-- The cells of a clock over queue buckets and prompt buckets, the innermost loop over the prompts.
cells_row : ClockPoint → Bool → ℕ → List ℕ → List Cell
cells_row clock d i [] = []
cells_row clock d i (j ∷ js) =
    record { clock = clock; n_await = i; prompt = j; d_busy = d } ∷ cells_row clock d i js

cells_at : ClockPoint → Bool → List ℕ → List ℕ → List Cell
unfolding cells_row
cells_at clock d [] js = []
cells_at clock d (i ∷ is) js = cells_row clock d i js ++ cells_at clock d is js

unfoldable pub cells_over : ClockPoint → List Bool → List ℕ → List ℕ → List Cell
unfolding cells_at
cells_over clock [] is js = []
cells_over clock (d ∷ ds) is js = cells_at clock d is js ++ cells_over clock ds is js

abbrev pub lighter_d : Bool → List Bool
lighter_d true = false ∷ true ∷ []
lighter_d false = false ∷ []

abbrev pub heavier_d : Bool → List Bool
heavier_d true = true ∷ []
heavier_d false = false ∷ true ∷ []

-- The cells no heavier, and no lighter, than `c`, without `c` itself.
unfoldable pub lighter_cells : Cell → List Cell
unfolding cells_over range_from
lighter_cells c =
    keep_if (λ o. not (cell_eq o c))
      (cells_over c.clock (lighter_d c.d_busy) (range_from 0 (c.n_await + 1))
        (range_from 0 (c.prompt + 1)))

unfoldable pub heavier_cells : Buckets → Cell → List Cell
unfolding cells_over range_from
heavier_cells b c =
    keep_if (λ o. not (cell_eq o c))
      (cells_over c.clock (heavier_d c.d_busy)
        (range_from c.n_await (length b.n_await + 1 - c.n_await))
        (range_from c.prompt (length b.prompt_tokens + 1 - c.prompt)))
