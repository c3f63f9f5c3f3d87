-- ===== src/Domain/Calibration.antt =====
-- src/canatune/domain/calibration.py: the KV gate, the P slot cap and the counts behind them.
use cana_tune_llm.Base.{
  ℕ, ◌+◌, ◌-◌, min, Bool, Option, none, some, [], ◌∷◌, ◌++◌, if◌then◌else◌, leb, ltb, ◌==◌, ℤ, pos,
  negsuc, Float, of_nat, max_f,
}
use cana_tune_llm.Domain.Admission.Slack.{Counts, count_outcome, wilson_ucb}
pub mod Bins

abbrev kv_gate_bins : ℕ
kv_gate_bins = 10

abbrev p_slot_bins : ℕ
p_slot_bins = 32

-- max(0, min(last, x))
unfoldable pub clamp_bin : ℕ → ℤ → ℕ
clamp_bin last (pos n) = min last n
clamp_bin last (negsuc n) = 0

-- `[requests, violations]` per bin: the Canary's seed and what production recorded.
pub record KneeCounts : Type 0 where
  pub seed : Counts
  pub live : Counts

-- `KneeCounts.record`
unfoldable pub record_bin : KneeCounts → ℕ → Bool → KneeCounts
unfolding count_outcome
record_bin k b violated = record k { live = count_outcome b violated k.live }

-- One live bin added to the counts, which stay sorted by bin.
add_bin : ℕ × (ℕ × ℕ) → Counts → Counts
add_bin (b, c) [] = (b, c) ∷ []
add_bin (b, c) ((k, d) ∷ rest) =
    if b == k
    then (k, (d.0 + c.0, d.1 + c.1)) ∷ rest
    else if ltb b k
    then (b, c) ∷ (k, d) ∷ rest
    else (k, d) ∷ add_bin (b, c) rest

add_bins : Counts → Counts → Counts
unfolding add_bin
add_bins [] m = m
add_bins (e ∷ rest) m = add_bins rest (add_bin e m)

-- `KneeCounts.counts`, sorted by bin.
unfoldable pub bin_counts : KneeCounts → Counts
unfolding add_bins
bin_counts k = add_bins k.live (add_bins k.seed [])

-- Bins merged upwards until the block holds `min_samples` requests.
pub record Block : Type 0 where
  pub n : ℕ
  pub k : ℕ
  pub bins : Counts

unfoldable pub merge_block : ℕ → Block → Counts → Block
merge_block min_samples block [] = block
merge_block min_samples block (e ∷ rest) =
    let more : Block = record {
      n = block.n + e.1.0;
      k = block.k + e.1.1;
      bins = block.bins ++ (e ∷ []);
    } in
    let merged = merge_block min_samples more rest in
    if leb min_samples more.n then more else merged

module _ {F : Type 0} ⦃num : Float F⦄ where
  unfoldable pub kv_gate_bin : F → F → ℕ
  unfolding clamp_bin
  kv_gate_bin inflight_bytes buffer_bytes =
      clamp_bin (kv_gate_bins - 1)
        (num.trunc (num.mul (num.div inflight_bytes buffer_bytes) (of_nat kv_gate_bins)))

  unfoldable pub gate_of_bin : ℕ → F
  gate_of_bin b =
      max_f (num.div (of_nat 1) (of_nat kv_gate_bins)) (num.div (of_nat b) (of_nat kv_gate_bins))

  -- The first bin of the block whose own rate is above the floor, else `b`.
  first_above : F → ℕ → Counts → ℕ
  first_above floor b [] = b
  first_above floor b ((c, counts) ∷ rest) =
      if num.lt (num.mul floor (of_nat counts.0)) (of_nat counts.1)
      then c
      else first_above floor b rest

  head_rate : ℕ → ℕ → F
  head_rate n k = if n == 0 then of_nat 0 else num.div (of_nat k) (of_nat n)

  -- The loop of `knee`, with the counts of the bins below.
  knee_from : F → ℕ → ℕ → ℕ → Counts → Option ℕ
  unfolding merge_block first_above head_rate wilson_ucb
  knee_from theta min_samples head_n head_k [] = none
  knee_from theta min_samples head_n head_k ((b, c) ∷ rest) =
      let block = merge_block min_samples (record { n = 0; k = 0; bins = [] }) ((b, c) ∷ rest) in
      let lower = num.sub (of_nat 1) (wilson_ucb (block.n - block.k) block.n) in
      let floor = max_f theta (head_rate head_n head_k) in
      let higher = knee_from theta min_samples (head_n + c.0) (head_k + c.1) rest in
      if ltb block.n min_samples
      then none
      else if num.lt floor lower
      then some (first_above floor b block.bins)
      else higher

  knee_of : F → ℕ → Counts → Option ℕ
  unfolding knee_from
  knee_of theta min_samples [] = none
  knee_of theta min_samples ((b, c) ∷ rest) = knee_from theta min_samples c.0 c.1 rest

  -- `KneeCounts.knee`
  unfoldable pub knee : KneeCounts → F → ℕ → Option ℕ
  unfolding knee_of bin_counts
  knee k theta min_samples = knee_of theta min_samples (bin_counts k)

-- `p_slot_bin`
unfoldable pub p_slot_bin : ℤ → ℕ
unfolding clamp_bin
p_slot_bin at_prefill = clamp_bin (p_slot_bins - 1) at_prefill
