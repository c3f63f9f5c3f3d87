-- ===== src/Router/Candidates.antt =====
-- src/canatune/controller/router.py: `candidates`.
use cana_tune_llm.Base.{
  ℕ, ◌+◌, Bool, true, false, not, ◌&&◌, ◌||◌, Option, none, some, List, [], ◌∷◌, ◌++◌,
  if◌then◌else◌, leb, ltb, ◌==◌, ℤ, pos, ◌+ℤ◌, ltb_ℤ, Float, of_nat, max_f, frac, keep_if, any,
  length, is_none, or_zero,
}
use cana_tune_llm.Domain.Tiers.{TierTable, ClockPoint, Evidence}
use cana_tune_llm.Domain.Groups.{Group}
use cana_tune_llm.Domain.Risk.{Cell, RiskEstimate, RiskSource, RiskTable, cell}
use cana_tune_llm.Domain.Risk.Estimate.{lookup}
use cana_tune_llm.Domain.Admission.Cost.{Points, interpolate}
use cana_tune_llm.Domain.Admission.Slack.{SlackEstimate, SlackSource, estimate}
use cana_tune_llm.Router.Settings.{Admission}
use cana_tune_llm.Router.Latency.{is_best_effort}
use cana_tune_llm.Router.State.{Router}
use cana_tune_llm.Router.Tables.{cost_at, predict_route, kv_blocked}
use cana_tune_llm.Router.Decode.{
  View, Blocked, DecodeRisk, DSnapshot, decode_state, decode_risk, fresh, snapshot_of,
}
use cana_tune_llm.Router.Routes.{Route, routes, clock_of, open_admission}
pub mod Safety

-- What one pass of `candidates` finds out about a route: the entries of `_slack_by_group`,
-- `_tpot_by_group`, `_d_unsafe` and `_within_limits`, and whether the route is feasible.
pub record Assessment (F : Type 0) : Type 0 where
  pub route : Route
  pub cell : Cell
  pub d_busy : Bool
  pub features : List F
  pub predicted : F
  pub slack : Option (SlackEstimate F)
  pub tpot : Option F
  pub d_safe : Bool
  pub d_unsafe : Bool
  pub within : Bool
  pub feasible : Bool
  pub estimate : Option (RiskEstimate F)

abbrev slack_source : SlackSource → RiskSource
slack_source SlackSource.observed = RiskSource.slack_observed
slack_source SlackSource.bounded = RiskSource.slack_bounded
slack_source SlackSource.unknown = RiskSource.slack_unknown

abbrev pub is_slack : Admission → Bool
is_slack Admission.slack = true
is_slack Admission.cells = false

abbrev is_decode_kv : Option DecodeRisk → Bool
is_decode_kv (some DecodeRisk.decode_kv) = true
is_decode_kv _ = false

abbrev pub is_empty {ℓ} : {A : Type ℓ} → List A → Bool
is_empty [] = true
is_empty (x ∷ xs) = false

module _ {F : Type 0} where
  -- `tier_table.decode_length` is published.
  abbrev pub length_model : Option (TierTable F) → Bool
  length_model none = false
  length_model (some table) = not (is_empty table.decode_length)

  max_running : Option (TierTable F) → Option ℕ
  max_running none = none
  max_running (some table) = table.decode_max_running

  model_of : Option (TierTable F) → Option (List (ℕ × (F × F)))
  model_of none = none
  model_of (some table) = table.evidence.model_decode

alphas : {F : Type 0} → List (ℕ × (F × F)) → Points F
alphas [] = []
alphas ((f, (alpha, delta)) ∷ rest) = (f, alpha) ∷ alphas rest

deltas : {F : Type 0} → List (ℕ × (F × F)) → Points F
deltas [] = []
deltas ((f, (alpha, delta)) ∷ rest) = (f, delta) ∷ deltas rest

-- The D-side checks of one route.
pub record DCheck (F : Type 0) : Type 0 where
  pub d_busy : Bool
  pub blocked : Option Blocked
  pub full_kv : Bool
  pub tpot : Option F
  pub risk : Option DecodeRisk

module _ {F : Type 0} ⦃num : Float F⦄ where
  -- The length-model check where it applies.
  risk_if :
      Bool → Option (TierTable F) → Router F → View F → Route → ℕ → Option F × Option DecodeRisk
  unfolding decode_risk
  risk_if true (some table) r view route tokens =
      decode_risk r view route.d route.d_point.decode_mhz tokens table
  risk_if _ _ r view route tokens = (none, none)

  -- The entry of `decode_checked` for the D of a route.
  unfoldable pub decode_checked : Router F → View F → Route → ℕ → DCheck F
  unfolding risk_if
  decode_checked r view route tokens =
      let (d_busy, blocked) = decode_state r view route.d in
      let applies =
        is_best_effort r.settings.overload && (length_model r.tiers.table && is_none blocked) in
      let (tpot, risk) = risk_if applies r.tiers.table r view route tokens in
      record {
        d_busy = d_busy;
        blocked = blocked;
        full_kv = kv_blocked r (r.groups route.d) tokens && is_slack r.settings.admission;
        tpot = tpot;
        risk = risk;
      }

  -- The sequences that D runs or queues, telemetry or reservations.
  d_load : Router F → View F → ℕ → F
  d_load r view d = elim (snapshot_of (fresh view d)) [
    | none ↦ max_f (num.of_int (r.groups d).n_decoding) (of_nat 0)
    | some s ↦
        max_f (num.of_int (r.groups d).n_decoding) (num.add (or_zero s.running) (or_zero s.waiting))
  ]

  over_count : Router F → View F → ℕ → Option ℕ → Bool
  unfolding d_load
  over_count r view d none = false
  over_count r view d (some b) = num.lt (of_nat b) (num.add (d_load r view d) (of_nat 1))

  -- The count model of older tables: alpha + delta * sequences.
  over_model : Router F → Route → Option (List (ℕ × (F × F))) → Bool
  unfolding alphas deltas
  over_model r route none = false
  over_model r route (some model) =
      let g = r.groups route.d in
      let f = route.d_point.decode_mhz in
      let alpha = or_zero (interpolate (alphas model) f) in
      let delta = or_zero (interpolate (deltas model) f) in
      let sequences = num.of_int (g.n_await +ℤ g.n_decoding +ℤ pos 1) in
      num.lt r.settings.tpot_slo_ms (num.add alpha (num.mul delta sequences))

  -- In best effort: D's own latency is predicted beyond the SLO, which warns and does not refuse.
  unfoldable pub warns : Router F → View F → Route → DCheck F → Bool
  unfolding over_count over_model max_running model_of
  warns r view route c =
      is_best_effort r.settings.overload
      && (if length_model r.tiers.table
          then not (is_none c.risk)
          else over_count r view route.d (max_running r.tiers.table)
            || over_model r route (model_of r.tiers.table))

  -- The risk test of a route that D can take: by predicted slack, or by the cell's risk.
  unfoldable pub by_slack : Router F → F → Assessment F → Assessment F
  by_slack r waited_ms a =
      let slack =
        estimate r.slack (num.sub (num.sub r.settings.ttft_slo_ms waited_ms) a.predicted) in
      if num.le slack.risk r.settings.theta
      then record a {
        slack = some slack;
        feasible = true;
        estimate = some (record {
          risk = slack.risk;
          source = slack_source slack.source;
          samples = slack.samples;
        });
      }
      else record a { slack = some slack }

  unfoldable pub by_cell : Router F → RiskTable → Assessment F → RiskTable × Assessment F
  by_cell r table a =
      let (visited, e) = lookup table a.cell in
      if num.le e.risk r.settings.theta
      then (visited, record a { feasible = true; estimate = some e })
      else (visited, a)

  unfoldable pub by_risk : Router F → F → RiskTable → Assessment F → RiskTable × Assessment F
  unfolding by_slack by_cell
  by_risk r waited_ms table a =
      if is_slack r.settings.admission then (table, by_slack r waited_ms a) else by_cell r table a

  -- The loop body past the D-side checks.
  unfoldable pub judge :
      Router F → View F → F → RiskTable → Route → DCheck F → Assessment F → RiskTable × Assessment F
  unfolding warns by_risk
  judge r view waited_ms table route c a =
      let within = record a { within = true; d_unsafe = not (is_none c.risk) } in
      if not (is_none c.blocked)
      then (table, a)
      else if is_decode_kv c.risk && r.settings.kv_projection_hard
      then (table, a)
      else if c.full_kv
      then (table, a)
      else if warns r view route c
      then (table, within)
      else by_risk r waited_ms table within

  -- What is known of a route before any check.
  unfoldable pub blank : Router F → RiskTable → Route → ℕ → Bool → Assessment F
  blank r table route tokens d_busy =
      let gp = r.groups route.p in
      let gd = r.groups route.d in
      let s_own = cost_at r (some route.p_point.prefill_mhz) tokens in
      let (x, predicted) = predict_route r s_own gp gd in
      record {
        route = route;
        cell = cell table (clock_of route) gd.n_await tokens d_busy;
        d_busy = d_busy;
        features = x;
        predicted = predicted;
        slack = none;
        tpot = none;
        d_safe = false;
        d_unsafe = false;
        within = false;
        feasible = false;
        estimate = none;
      }

  -- The body of the loop for one route.
  unfoldable pub assess : Router F → View F → ℕ → F → RiskTable → Route → RiskTable × Assessment F
  unfolding blank
  assess r view tokens waited_ms table route =
      let c = decode_checked r view route tokens in
      let safe = is_none c.blocked && (not c.full_kv && is_none c.risk) in
      if open_admission r
      then (
        table,
        record (blank r table route tokens (ltb_ℤ (pos 0) (r.groups route.d).n_decoding)) {
          feasible = true;
        },
      )
      else judge r view waited_ms table route c
          (record (blank r table route tokens c.d_busy) { tpot = c.tpot; d_safe = safe })

  -- The loop over the routes.
  unfoldable pub assess_all :
      Router F → View F → ℕ → F → RiskTable → List Route → RiskTable × List (Assessment F)
  assess_all r view tokens waited_ms table [] = (table, [])
  assess_all r view tokens waited_ms table (route ∷ rest) =
      let (table1, a) = assess r view tokens waited_ms table route in
      let (table2, found) = assess_all r view tokens waited_ms table1 rest in (table2, a ∷ found)

  recent_mark : F → List F → Bool
  recent_mark now [] = false
  recent_mark now (t ∷ []) = num.lt (num.sub now t) (frac 2 10)
  recent_mark now (t ∷ u ∷ rest) = recent_mark now (u ∷ rest)

  -- `_note_d_exhausted`
  unfoldable pub note_d_exhausted : Router F → F → Router F
  unfolding recent_mark
  note_d_exhausted r now =
      if recent_mark now r.d_exhausted
      then r
      else record r { d_exhausted = r.d_exhausted ++ (now ∷ []) }

  drop_marks : F → List F → List F
  drop_marks cutoff [] = []
  drop_marks cutoff (t ∷ rest) = if num.lt t cutoff then drop_marks cutoff rest else t ∷ rest

  -- `d_exhausted_count`
  unfoldable pub d_exhausted_count : Router F → F → F → Router F × ℕ
  unfolding drop_marks
  d_exhausted_count r now window_s =
      let kept = drop_marks (num.sub now (max_f window_s (of_nat 60))) r.d_exhausted in
      (
        record r { d_exhausted = kept },
        length (keep_if (λ t. num.le (num.sub now window_s) t) kept),
      )

  -- `candidates`: the Router with the visits and the marks, and every route's assessment.
  unfoldable pub candidates : Router F → F → View F → ℕ → F → Router F × List (Assessment F)
  candidates r now view tokens waited_ms =
      let (table, found) = assess_all r view tokens waited_ms r.table (routes r) in
      let r' = record r { table = table } in
      let exhausted =
        not (is_empty found) && (not (open_admission r) && not (any (λ a. a.d_safe) found)) in
      (if exhausted then note_d_exhausted r' now else r', found)

  -- The list that `candidates` returns, and `_within_limits`.
  abbrev pub feasible_of : List (Assessment F) → List (Assessment F)
  feasible_of = keep_if (λ a. a.feasible)

  abbrev pub within_of : List (Assessment F) → List (Assessment F)
  within_of = keep_if (λ a. a.within)
