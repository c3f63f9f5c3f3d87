-- ===== src/Domain/Cluster.antt =====
-- src/canatune/domain/models.py: `ClusterModel`, and what the solver reads off it at one clock.
use cana_tune_llm.Base.{
  ℕ, Bool, true, false, not, Option, none, some, List, [], ◌∷◌, ◌++◌, map, if◌then◌else◌, leb, ltb,
  ◌==◌, Float, of_nat, frac, keep_if, any, or_zero, is_none, String, max_f, min_f, get_elem?,
  length,
}
use cana_tune_llm.Domain.Tiers.{ClockPoint}
use cana_tune_llm.Domain.Risk.{clock_eq}
use cana_tune_llm.Domain.Load.{sort_up}
use cana_tune_llm.Domain.Admission.Cost.{Points, interpolate, cost_book, greatest_or, least}
use cana_tune_llm.Domain.Admission.Slack.{Counts}
pub mod Mix
pub mod Uniform
pub mod Capacity
pub mod Evaluate
pub mod Solve
pub mod Fits

-- Per clock two numbers: [alpha, delta] of a decode fit, or [idle W, dynamic W].
abbrev pub Pairs : Type 0 → Type 0
Pairs F = List (ℕ × (F × F))

pub record ClusterModel (F : Type 0) : Type 0 where
  -- P clock -> {prompt tokens: ms}
  pub prefill : List (ℕ × Points F)
  pub residence : Points F
  pub decode : Pairs F
  pub power_prefill : Pairs F
  pub power_decode : Pairs F
  pub park_power_w : F
  pub rho_prefill : F
  pub ttft_slo_ms : F
  pub tpot_slo_ms : F
  pub kv_bytes_per_token : F
  pub kv_gate_bytes : Option F
  pub kv_capacity_tokens : Option ℕ
  pub b_star : List (ℕ × ℕ)
  -- point -> verified rate cap
  pub caps : List (ClockPoint × F)
  pub predictor_coef : Option (List F)
  pub slack_counts : Option Counts
  pub theta : F

has_clock {ℓ} : {A : Type ℓ} → List (ℕ × A) → ℕ → Bool
has_clock table f = any (λ e. e.0 == f) table

pairs_with : List ℕ → ℕ → List ClockPoint
pairs_with [] p = []
pairs_with (d ∷ ds) p = record { prefill_mhz = p; decode_mhz = d } ∷ pairs_with ds p

all_points : List ℕ → List ℕ → List ClockPoint
unfolding pairs_with
all_points [] ds = []
all_points (p ∷ ps) ds = pairs_with ds p ++ all_points ps ds

module _ {F : Type 0} where
  -- `ClusterModel.points`
  unfoldable pub points : ClusterModel F → List ClockPoint
  unfolding has_clock all_points sort_up
  points m =
      let p = keep_if (has_clock m.power_prefill) (map (λ e. e.0) m.prefill) in
      let d = keep_if (has_clock m.power_decode) (map (λ e. e.0) m.decode) in
      all_points (sort_up p) (sort_up d)

  -- `caps.get(point.key())`
  unfoldable pub cap_at : List (ClockPoint × F) → ClockPoint → Option F
  cap_at [] point = none
  cap_at ((p, c) ∷ caps) point = if clock_eq p point then some c else cap_at caps point

  firsts : Pairs F → Points F
  firsts fits = map (λ e. (e.0, e.1.0)) fits

  seconds : Pairs F → Points F
  seconds fits = map (λ e. (e.0, e.1.1)) fits

b_star_of : List (ℕ × ℕ) → ℕ → Option ℕ
b_star_of [] f = none
b_star_of ((k, b) ∷ rest) f = if k == f then some b else b_star_of rest f

-- `_b_star`: of the nearest measured clock at or below, else of the least.
unfoldable pub b_star_at : List (ℕ × ℕ) → ℕ → Option ℕ
unfolding b_star_of greatest_or least
b_star_at [] f = none
b_star_at ((k, b) ∷ rest) f =
    let clocks = map (λ e. e.0) rest in
    b_star_of ((k, b) ∷ rest) (greatest_or (least k clocks) (keep_if (λ c. leb c f) (k ∷ clocks)))

module _ {F : Type 0} ⦃num : Float F⦄ where
  -- `_decode`: [alpha, delta] between the measured D clocks.
  unfoldable pub decode_at : ClusterModel F → ℕ → F × F
  unfolding firsts seconds interpolate
  decode_at m f =
      (or_zero (interpolate (firsts m.decode) f), or_zero (interpolate (seconds m.decode) f))

  -- `_power`
  unfoldable pub power_at : Pairs F → ℕ → F → F
  unfolding firsts seconds interpolate
  power_at table f util =
      let idle = or_zero (interpolate (firsts table) f) in
      let dyn = or_zero (interpolate (seconds table) f) in num.add idle (num.mul dyn util)
