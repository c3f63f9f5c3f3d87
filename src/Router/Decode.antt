-- ===== src/Router/Decode.antt =====
-- src/canatune/controller/router.py: what one D can still take (`_decode_state`, `_decode_risk`,
-- `_kv_projected_over`); models.py: `decode_coef`, `decode_tpot`.
use cana_tune_llm.Base.{
  ℕ, suc, Bool, false, not, ◌&&◌, Option, none, some, List, [], ◌∷◌, map, if◌then◌else◌, leb, ◌==◌,
  ◌+ℤ◌, is_zero, Float, of_nat, max_f, keep_if, or_zero,
}
use cana_tune_llm.Domain.Tiers.{TierTable, LengthCoef}
use cana_tune_llm.Domain.Groups.{Group}
use cana_tune_llm.Domain.Admission.Cost.{least, greatest_or}
use cana_tune_llm.Router.Latency.{is_best_effort}
use cana_tune_llm.Router.State.{Router}

-- A fresh `/metrics` snapshot of one D.
pub record DSnapshot (F : Type 0) : Type 0 where
  pub running : Option F
  pub waiting : Option F
  pub kv_usage : Option F

-- What the Router sees outside its own state: `telemetry.fresh` of each group's D, if telemetry is
-- configured, and the value of `_output_mean()`.
pub record View (F : Type 0) : Type 0 where
  pub telemetry : Option (ℕ → Option (DSnapshot F))
  pub output_mean : F

-- Why a D cannot take one more request.
pub data Blocked : Type 0 where
  decode_snapshot_stale decode_concurrency_wall decode_kv_wall : Blocked

pub data DecodeRisk : Type 0 where
  decode_kv decode_tpot : DecodeRisk

abbrev kv_tokens_or_zero : Option ℕ → ℕ
kv_tokens_or_zero none = 0
kv_tokens_or_zero (some n) = n

coef_at : {F : Type 0} → ℕ → List (ℕ × LengthCoef F) → Option (LengthCoef F)
coef_at f [] = none
coef_at f ((k, c) ∷ rest) = if k == f then some c else coef_at f rest

-- `decode_coef`: the nearest measured clock at or below `mhz`, else the lowest one.
unfoldable pub decode_coef : {F : Type 0} → List (ℕ × LengthCoef F) → ℕ → Option (LengthCoef F)
unfolding coef_at least greatest_or
decode_coef [] mhz = none
decode_coef ((f, c) ∷ rest) mhz =
    let clocks = map (λ e. e.0) rest in
    let chosen = greatest_or (least f clocks) (keep_if (λ k. leb k mhz) (f ∷ clocks)) in
    coef_at chosen ((f, c) ∷ rest)

module _ {F : Type 0} ⦃num : Float F⦄ where
  -- `decode_tpot`
  unfoldable pub decode_tpot_bound : LengthCoef F → F → F → F
  decode_tpot_bound c running kv_tokens =
      num.add (num.add (num.add c.alpha (num.mul c.beta running)) (num.mul c.gamma kv_tokens)) c.r95

  -- Beyond the calibrated admission ceiling of the legacy policies.
  concurrency_wall : Router F → Group F → F → F → Option (TierTable F) → Bool
  concurrency_wall r g running waiting none = false
  concurrency_wall r g running waiting (some table) = elim table.decode_max_running [
    | none ↦ false
    | some b ↦
        let load = max_f (num.add running waiting) (num.of_int (g.n_await +ℤ g.n_decoding)) in
        not (is_best_effort r.settings.overload) && num.lt (of_nat b) (num.add load (of_nat 1))
  ]

  kv_over : Option F → Option F → Bool
  kv_over (some limit) (some kv) = num.lt limit kv
  kv_over _ _ = false

  kv_wall : Option (TierTable F) → Option F → Bool
  unfolding kv_over
  kv_wall none kv = false
  kv_wall (some table) kv = kv_over table.decode_kv_limit kv

  -- The checks of `_decode_state` on known numbers.
  decode_checks : Router F → Group F → F → F → Option F → Bool × Option Blocked
  unfolding concurrency_wall kv_wall
  decode_checks r g running waiting kv =
      let busy =
        num.le (of_nat r.settings.d_busy_min_running) (max_f running (num.of_int g.n_decoding)) in
      if concurrency_wall r g running waiting r.tiers.table
      then (busy, some Blocked.decode_concurrency_wall)
      else if kv_wall r.tiers.table kv
      then (busy, some Blocked.decode_kv_wall)
      else (busy, none)

  state_of : Router F → Group F → Option (Option (DSnapshot F)) → Bool × Option Blocked
  unfolding decode_checks
  state_of r g none = decode_checks r g (of_nat 0) (of_nat 0) none
  state_of r g (some none) = (false, some Blocked.decode_snapshot_stale)
  state_of r g (some (some s)) =
      decode_checks r g (or_zero s.running) (or_zero s.waiting) s.kv_usage

  -- `telemetry.fresh` of the D, if there is telemetry.
  abbrev pub fresh : View F → ℕ → Option (Option (DSnapshot F))
  fresh view d = elim view.telemetry [ none ↦ none | some t ↦ some (t d) ]

  abbrev pub snapshot_of : Option (Option (DSnapshot F)) → Option (DSnapshot F)
  snapshot_of none = none
  snapshot_of (some s) = s

  -- `_decode_state` of the D of group `d`.
  unfoldable pub decode_state : Router F → View F → ℕ → Bool × Option Blocked
  unfolding state_of
  decode_state r view d = state_of r (r.groups d) (fresh view d)

  -- The wall of the projection: `kv_projection_limit or decode_kv_limit`.
  projection_wall : Option F → Option F → Option F
  projection_wall none limit = limit
  projection_wall (some x) limit = if num.eq x (of_nat 0) then limit else some x

  -- The projected KV is beyond the wall, with the snapshot's numbers.
  projected_over : Router F → F → Group F → ℕ → ℕ → F → F → F → Bool
  projected_over r output g tokens kv_tokens wall on_d kv_usage =
      let s = r.settings in
      let empty = num.eq on_d (of_nat 0) && (is_zero g.n_await && is_zero g.n_decoding) in
      let held = num.add (num.mul kv_usage (of_nat kv_tokens)) (num.of_int g.t_await) in
      let on_way = num.mul (num.of_int g.n_await) output in
      let growth =
        if s.kv_growth
        then num.add (num.div (num.mul on_d output) (of_nat 2)) on_way
        else of_nat 0 in
      let total = num.add (num.add (num.add held growth) (of_nat tokens)) output in
      if empty && s.kv_projection_hard
      then false
      else num.lt (num.mul wall (of_nat kv_tokens)) total

  abbrev on_d_of : DSnapshot F → F
  on_d_of s = num.add (or_zero s.running) (or_zero s.waiting)

  projection : Router F → F → Group F → ℕ → Option ℕ → Option F → Option (DSnapshot F) → Bool
  unfolding projected_over
  projection r output g tokens (some (suc kv_tokens)) (some wall) (some s) = elim s.kv_usage [
    | none ↦ false
    | some kv ↦ projected_over r output g tokens (suc kv_tokens) wall (on_d_of s) kv
  ]
  projection r output g tokens _ _ _ = false

  -- `_kv_projected_over`
  unfoldable pub kv_projected_over :
      Router F → View F → ℕ → ℕ → TierTable F → Option (DSnapshot F) → Bool
  unfolding projection projection_wall
  kv_projected_over r view d tokens table snapshot =
      projection r view.output_mean (r.groups d) tokens table.decode_kv_tokens
        (projection_wall r.settings.kv_projection_limit table.decode_kv_limit) snapshot

  -- `_decode_risk` past its guards: the TPOT bound and the reason to warn.
  risk_at :
      Router F
      → View F
      → ℕ
      → ℕ
      → TierTable F
      → LengthCoef F
      → DSnapshot F
      → F
      → F × Option DecodeRisk
  unfolding kv_projected_over decode_tpot_bound
  risk_at r view d tokens table coef s kv =
      let g = r.groups d in
      let output = view.output_mean in
      let decoding = max_f (num.of_int g.n_decoding) (on_d_of s) in
      let running = num.add (num.add decoding (num.of_int g.n_await)) (of_nat 1) in
      let held =
        num.add (num.mul kv (of_nat (kv_tokens_or_zero table.decode_kv_tokens)))
          (num.of_int g.t_await) in
      let context = num.add (num.add held (of_nat tokens)) (num.div output (of_nat 2)) in
      let tpot = decode_tpot_bound coef running context in
      let over = kv_projected_over r view d tokens table (some s) in
      if over
      then (tpot, some DecodeRisk.decode_kv)
      else if num.lt r.settings.tpot_slo_ms tpot
      then (tpot, some DecodeRisk.decode_tpot)
      else (tpot, none)

  risk_of :
      Router F
      → View F
      → ℕ
      → ℕ
      → TierTable F
      → Option (LengthCoef F)
      → Option (DSnapshot F)
      → Option F × Option DecodeRisk
  unfolding risk_at
  risk_of r view d tokens table (some coef) (some s) = elim s.kv_usage [
    | none ↦ (none, none)
    | some kv ↦ let (tpot, risk) = risk_at r view d tokens table coef s kv in (some tpot, risk)
  ]
  risk_of r view d tokens table _ _ = (none, none)

  -- `_decode_risk` of the D at clock `mhz`: the entry of `_tpot_by_group` and the reason to warn.
  unfoldable pub decode_risk :
      Router F → View F → ℕ → ℕ → ℕ → TierTable F → Option F × Option DecodeRisk
  unfolding risk_of decode_coef
  decode_risk r view d mhz tokens table =
      risk_of r view d tokens table (decode_coef table.decode_length mhz)
        (snapshot_of (fresh view d))
