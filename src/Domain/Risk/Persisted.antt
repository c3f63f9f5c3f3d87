-- ===== src/Domain/Risk/Persisted.antt =====
-- src/canatune/domain/risk.py: `to_json`, `load` and `exploration_candidates` of the risk table.
--
-- A payload has cells where the JSON text has their keys; `before` is the order of the keys. The
-- identity of a configuration is any value with a test of equality.
use cana_tune_llm.Base.{
  ℕ, ◌≡◌, Bool, true, false, not, ◌&&◌, Option, none, some, List, [], ◌∷◌, if◌then◌else◌, ◌==◌, leb,
  Float, frac, is_none, Compared, lexicographic, by_nat, by_bool, sort_by,
}
use cana_tune_llm.Domain.Risk.{
  Buckets, Cell, CellStats, RiskTable, RiskEstimate, RiskSource, cell_eq, find_cell,
}
use cana_tune_llm.Domain.Risk.Estimate.{estimate}
pub mod Merged
pub mod Loaded
pub mod Queue

abbrev pub schema_version : ℕ
schema_version = 1

-- What `to_json` returns.
pub record Payload (I : Type 0) : Type 0 where
  pub version : ℕ
  pub identity : I
  pub edges : Buckets
  pub cells : List (Cell × CellStats)
  pub visits : List (Cell × ℕ)

-- The ways in which `load` refuses a file.
pub data Refusal : Type 0 where
  unsupported_schema other_configuration other_buckets : Refusal

pub data LoadResult : Type 0 where
  refused : Refusal → LoadResult
  loaded : RiskTable → LoadResult

unfoldable pub to_json : {I : Type 0} → (Cell → Cell → Compared) → I → RiskTable → Payload I
unfolding sort_by
to_json before identity t = record {
  version = schema_version;
  identity = identity;
  edges = t.buckets;
  cells = sort_by (λ a b. before a.0 b.0) t.cells;
  visits = t.visits;
}

same_edges : List ℕ → List ℕ → Bool
same_edges [] [] = true
same_edges (a ∷ xs) (b ∷ ys) = a == b && same_edges xs ys
same_edges _ _ = false

unfoldable pub same_buckets : Buckets → Buckets → Bool
unfolding same_edges
same_buckets a b = same_edges a.n_await b.n_await && same_edges a.prompt_tokens b.prompt_tokens

module _ {V : Type 0} where
  -- `d[cell] = v`
  unfoldable pub put_cell : Cell → V → List (Cell × V) → List (Cell × V)
  put_cell c v [] = (c, v) ∷ []
  put_cell c v ((k, w) ∷ rest) = if cell_eq k c then (k, v) ∷ rest else (k, w) ∷ put_cell c v rest

  -- The loops of `load`.
  unfoldable pub put_all : List (Cell × V) → List (Cell × V) → List (Cell × V)
  unfolding put_cell
  put_all [] entries = entries
  put_all ((c, v) ∷ rest) entries = put_all rest (put_cell c v entries)

-- `load`: the counts of the file replace those of the same cells.
unfoldable pub load : {I : Type 0} → (I → I → Bool) → I → Payload I → RiskTable → LoadResult
unfolding put_all same_buckets
load same identity f t =
    if not (f.version == schema_version)
    then LoadResult.refused Refusal.unsupported_schema
    else if not (same f.identity identity)
    then LoadResult.refused Refusal.other_configuration
    else if not (same_buckets f.edges t.buckets)
    then LoadResult.refused Refusal.other_buckets
    else LoadResult.loaded
        (record t { cells = put_all f.cells t.cells; visits = put_all f.visits t.visits })

-- One entry of the exploration queue of the Canary.
pub record Candidate (F : Type 0) : Type 0 where
  pub cell : Cell
  pub visits : ℕ
  pub samples : ℕ
  pub risk : F
  pub source : RiskSource
  pub near_boundary : Bool

-- Enough samples of its own.
abbrev pub is_sampled : ℕ → Option CellStats → Bool
is_sampled least none = false
is_sampled least (some s) = leb least s.admitted

samples_of : Option CellStats → ℕ
samples_of none = 0
samples_of (some s) = s.admitted

module _ {F : Type 0} ⦃num : Float F⦄ where
  candidate_of : RiskTable → F → Cell → ℕ → Candidate F
  unfolding estimate samples_of find_cell
  candidate_of t theta c visits =
      let e = estimate t c in
      record {
        cell = c;
        visits = visits;
        samples = samples_of (find_cell c t.cells);
        risk = e.risk;
        source = e.source;
        near_boundary = num.le (num.abs (num.sub e.risk theta)) (frac 1 10);
      }

  unsampled : RiskTable → F → List (Cell × ℕ) → List (Candidate F)
  unfolding candidate_of find_cell
  unsampled t theta [] = []
  unsampled t theta ((c, visits) ∷ rest) =
      if is_sampled t.min_samples (find_cell c t.cells)
      then unsampled t theta rest
      else candidate_of t theta c visits ∷ unsampled t theta rest

  -- `key=lambda item: (-item["visits"], not item["near_boundary"])`
  abbrev pub by_visits : Candidate F → Candidate F → Compared
  by_visits a b =
      lexicographic (by_nat b.visits a.visits) (by_bool (not a.near_boundary) (not b.near_boundary))

  unfoldable pub exploration_candidates : RiskTable → F → List (Candidate F)
  unfolding unsampled sort_by
  exploration_candidates t theta = sort_by by_visits (unsampled t theta t.visits)
