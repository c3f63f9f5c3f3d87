-- ===== src/Domain/Tiers.antt =====
-- src/canatune/domain/groups.py: tiers, clock points, the published table and the shared state.
use cana_tune_llm.Base.{ℕ, min, Bool, Option, none, some, List, Float, of_nat}

pub data Tier : Type 0 where
  park l h max : Tier

pub data GroupState : Type 0 where
  park active draining exploring : GroupState

pub record ClockPoint : Type 0 where
  pub prefill_mhz : ℕ
  pub decode_mhz : ℕ

-- The more conservative of two points.
unfoldable pub slower : ClockPoint → ClockPoint → ClockPoint
slower a b = record {
  prefill_mhz = min a.prefill_mhz b.prefill_mhz;
  decode_mhz = min a.decode_mhz b.decode_mhz;
}

-- The coefficients [alpha, beta, gamma, r95] of the length model at one D clock.
pub record LengthCoef (F : Type 0) : Type 0 where
  pub alpha : F
  pub beta : F
  pub gamma : F
  pub r95 : F

-- `evidence["admission"]`: what the Router takes from the Canary's calibration.
pub record AdmissionEvidence (F : Type 0) : Type 0 where
  pub predictor_coef : List F
  pub slack_counts : List (ℕ × (ℕ × ℕ))
  pub kv_gate_fraction : Option F
  pub p_slot_cap : Option ℕ
  pub kv_gate_bins : Option (List (ℕ × (ℕ × ℕ)))
  pub p_slot_bins : Option (List (ℕ × (ℕ × ℕ)))

-- The keys of `TierTable.evidence` that the modelled code reads.
pub record Evidence (F : Type 0) : Type 0 where
  pub prefill_ms_by_clock : List (ℕ × List (ℕ × F))
  -- `alpha_fit.prefill_ms_by_length` of older tables
  pub prefill_ms_by_length : List (ℕ × F)
  pub idle_ttft_ms : List (ℕ × F)
  pub admission : Option (AdmissionEvidence F)
  -- `model["decode"]`: alpha and delta per D clock
  pub model_decode : Option (List (ℕ × (F × F)))

pub record TierTable (F : Type 0) : Type 0 where
  pub park : ClockPoint
  pub h : ClockPoint
  pub capacity_h : F
  pub alpha_tokens : F
  pub l : Option ClockPoint
  pub capacity_l : Option F
  pub tau_up : Option F
  pub tau_down : Option F
  pub decode_max_running : Option ℕ
  pub decode_kv_limit : Option F
  pub decode_wall : Bool
  pub decode_length : List (ℕ × LengthCoef F)
  pub decode_kv_tokens : Option ℕ
  pub published_at : F
  pub evidence : Evidence F

-- `TierTable.clocks`; `none` is the `KeyError` of a table without an L tier.
unfoldable pub table_clocks : {F : Type 0} → TierTable F → Tier → ClockPoint → Option ClockPoint
table_clocks table Tier.max max_point = some max_point
table_clocks table Tier.park max_point = some table.park
table_clocks table Tier.l max_point = table.l
table_clocks table Tier.h max_point = some table.h

-- `TierTable.capacity`
unfoldable pub table_capacity : {F : Type 0} → TierTable F → Tier → F
table_capacity table Tier.l = elim table.capacity_l [ some c ↦ c | none ↦ table.capacity_h ]
table_capacity table _ = table.capacity_h

pub record TierState (F : Type 0) : Type 0 where
  pub max_point : ClockPoint
  pub table : Option (TierTable F)
  pub working : Option ClockPoint

-- `TierState.alpha_tokens`
unfoldable pub alpha_tokens : {F : Type 0} ⦃num : Float F⦄ → TierState F → F
alpha_tokens tiers = elim tiers.table [ none ↦ of_nat 0 | some t ↦ t.alpha_tokens ]

-- The clocks of a tier once a table is in force: the working point takes H's place.
published_clocks :
    {F : Type 0} → Option ClockPoint → TierTable F → Tier → ClockPoint → Option ClockPoint
unfolding table_clocks
published_clocks (some point) table Tier.h max_point = some point
published_clocks _ table tier max_point = table_clocks table tier max_point

-- `TierState.clocks`
unfoldable pub clocks : {F : Type 0} → TierState F → Tier → Option ClockPoint
unfolding published_clocks
clocks tiers Tier.max = some tiers.max_point
clocks tiers tier = elim tiers.table [
  | none ↦ some tiers.max_point
  | some table ↦ published_clocks tiers.working table tier tiers.max_point
]
