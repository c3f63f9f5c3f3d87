-- ===== src/Samples/Persisted.antt =====
-- The theorems on the saved risk table (src/canatune/domain/risk.py) at a table of two cells.
use cana_tune_llm.Base.{refl, [], ◌∷◌, ℕ, pos, by_nat, Bool, false, Compared, All, IsSorted, ◌==◌}
use cana_tune_llm.Domain.Risk.{Cell, RiskTable, find_cell}
use cana_tune_llm.Domain.Risk.Persisted.{
  Payload, to_json, load, by_visits, exploration_candidates, schema_version,
}
use cana_tune_llm.Domain.Risk.Persisted.Loaded.{IsRestored, Answers, load-Answers, load-to_json}
use cana_tune_llm.Domain.Risk.Persisted.Queue.{LacksSamples, exploration_candidates-IsSorted}
use cana_tune_llm.Samples.Fixed.{fixed}
use cana_tune_llm.Samples.Setup.{working}

abbrev at_queue : ℕ → Cell
at_queue n = record { clock = working; n_await = n; prompt = 0; d_busy = false }

abbrev measured : RiskTable
measured = record {
  buckets = record { n_await = 0 ∷ 2 ∷ []; prompt_tokens = 500 ∷ 2_000 ∷ [] };
  min_samples = 5;
  cells =
      (at_queue 2, record { admitted = 10; violated = 3 })
      ∷ (at_queue 0, record { admitted = 4; violated = 1 })
      ∷ [];
  visits = (at_queue 0, 7) ∷ (at_queue 2, 9) ∷ (at_queue 1, 12) ∷ [];
}

abbrev empty : RiskTable
empty = record measured { cells = []; visits = [] }

-- The keys in the order of the queues.
abbrev by_queue : Cell → Cell → Compared
by_queue a b = by_nat a.n_await b.n_await

abbrev same_number : ℕ → ℕ → Bool
same_number a b = a == b

load-to_json_example : IsRestored measured (load same_number 8 (to_json by_queue 8 measured) empty)
unfolding find_cell
load-to_json_example =
    load-to_json same_number 8 by_queue measured empty refl refl refl refl (refl, (refl, tt))
      (refl, (refl, (refl, tt)))

-- A file of another configuration.
abbrev foreign : Payload ℕ
foreign = record {
  version = schema_version;
  identity = 9;
  edges = measured.buckets;
  cells = measured.cells;
  visits = [];
}

load-Answers_example : Answers same_number 8 foreign measured (load same_number 8 foreign measured)
unfolding find_cell
load-Answers_example = load-Answers same_number 8 foreign measured (refl, (refl, tt)) tt

exploration_candidates-IsSorted_example :
    All (LacksSamples measured) (exploration_candidates measured (pos 500))
    × IsSorted by_visits (exploration_candidates measured (pos 500))
exploration_candidates-IsSorted_example = exploration_candidates-IsSorted measured (pos 500)
