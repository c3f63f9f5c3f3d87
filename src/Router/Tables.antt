-- ===== src/Router/Tables.antt =====
-- src/canatune/controller/router.py: what the Router takes from the published tier table.
use cana_tune_llm.Base.{
  ℕ, Bool, true, false, not, ◌&&◌, Option, none, some, List, [], ◌∷◌, if◌then◌else◌, Float, of_nat,
  max_f, ◌≡◌, refl, ◌∙◌, inl, inr, Bool-cases,
}
use cana_tune_llm.Domain.Tiers.{ClockPoint, TierTable, Evidence, AdmissionEvidence}
use cana_tune_llm.Domain.Groups.{Group}
use cana_tune_llm.Domain.Calibration.{KneeCounts}
use cana_tune_llm.Domain.Admission.Cost.{Points, cost_book, for_clock, prefill_cost, interpolate}
use cana_tune_llm.Domain.Admission.Predictor.{features, predict, set_prior}
use cana_tune_llm.Domain.Admission.Slack.{Counts, set_seed, safe_slack}
use cana_tune_llm.Router.State.{Router, Ticket}

-- Whether a nonempty list of bins was published.
bins_of : Option Counts → Option KneeCounts
bins_of (some (b ∷ bins)) = some (record { seed = b ∷ bins; live = [] })
bins_of _ = none

-- The top clock's table of older tier tables, where no clock has its own.
with_old_table : {F : Type 0} → ClockPoint → List (ℕ × Points F) → Points F → List (ℕ × Points F)
with_old_table top [] (p ∷ old) = (top.prefill_mhz, p ∷ old) ∷ []
with_old_table top tables old = tables

abbrev pub prefill_mhz_of : Option ClockPoint → Option ℕ
prefill_mhz_of none = none
prefill_mhz_of (some p) = some p.prefill_mhz

-- The groups, the tickets, the settings and the waiters of two states of the Router agree.
pub record Keeps {F : Type 0} (r r' : Router F) : Type 0 where
  pub groups : r'.groups ≡ r.groups
  pub tickets : r'.tickets ≡ r.tickets
  pub settings : r'.settings ≡ r.settings
  pub waiting : r'.waiting ≡ r.waiting

module _ {F : Type 0} where
  pub Keeps-refl : (r : Router F) → Keeps r r
  Keeps-refl r = record { groups = refl; tickets = refl; settings = refl; waiting = refl }

  pub Keeps-trans : {r s t : Router F} → Keeps r s → Keeps s t → Keeps r t
  Keeps-trans h k = record {
    groups = k.groups ∙ h.groups;
    tickets = k.tickets ∙ h.tickets;
    settings = k.settings ∙ h.settings;
    waiting = k.waiting ∙ h.waiting;
  }

module _ {F : Type 0} ⦃num : Float F⦄ where
  -- `_cost_book`
  costs_of : ClockPoint → Option (Evidence F) → List (ℕ × Points F)
  unfolding with_old_table cost_book
  costs_of top none = []
  costs_of top (some e) =
      cost_book (with_old_table top e.prefill_ms_by_clock e.prefill_ms_by_length)

  -- `float(x or 1.0)`
  or_one : Option F → F
  or_one none = of_nat 1
  or_one (some x) = if num.eq x (of_nat 0) then of_nat 1 else x

  has_buffer : Option F → Bool
  has_buffer none = false
  has_buffer (some b) = not (num.eq b (of_nat 0))

  -- The admission parameters that the Canary calibrated.
  adopt_admission : Router F → Option (AdmissionEvidence F) → Router F
  unfolding or_one has_buffer bins_of set_prior set_seed
  adopt_admission r none = r
  adopt_admission r (some a) = record r {
    predictor = set_prior r.predictor a.predictor_coef;
    slack = set_seed r.slack a.slack_counts;
    kv_fraction = or_one a.kv_gate_fraction;
    p_slot_cap = a.p_slot_cap;
    kv_knee = if has_buffer r.settings.kv_buffer_bytes then bins_of a.kv_gate_bins else none;
    slot_knee = bins_of a.p_slot_bins;
  }

  evidence_of : Option (TierTable F) → Option (Evidence F)
  evidence_of none = none
  evidence_of (some t) = some t.evidence

  same_key : Option F → Option F → Bool
  same_key none none = true
  same_key (some x) (some y) = num.eq x y
  same_key _ _ = false

  key_of : Option (TierTable F) → Option F
  key_of none = none
  key_of (some t) = some t.published_at

  idle_of : Option (Evidence F) → Points F
  idle_of none = []
  idle_of (some e) = e.idle_ttft_ms

  admission_of : Option (Evidence F) → Option (AdmissionEvidence F)
  admission_of none = none
  admission_of (some e) = e.admission

  -- `_apply_table`
  unfoldable pub apply_table : Router F → Router F
  unfolding costs_of adopt_admission evidence_of same_key key_of idle_of admission_of
  apply_table r =
      let key = key_of r.tiers.table in
      let evidence = evidence_of r.tiers.table in
      if same_key key r.applied_key
      then r
      else adopt_admission
          (record r {
            applied_key = key;
            costs = costs_of r.tiers.max_point evidence;
            idle_ttft = idle_of evidence;
          })
          (admission_of evidence)

  adopt_admission-Keeps :
      (r : Router F) (a : Option (AdmissionEvidence F)) → Keeps r (adopt_admission r a)
  unfolding adopt_admission
  adopt_admission-Keeps r none = Keeps-refl r
  adopt_admission-Keeps r (some a) = record {
    groups = refl;
    tickets = refl;
    settings = refl;
    waiting = refl;
  }

  pub apply_table-Keeps : (r : Router F) → Keeps r (apply_table r)
  unfolding apply_table
  apply_table-Keeps r = elim (Bool-cases (same_key (key_of r.tiers.table) r.applied_key)) [
    | inl e ↦ rw e (Keeps-refl r)
    | inr e ↦
        let k = adopt_admission-Keeps _ (admission_of (evidence_of r.tiers.table)) in
        rw e (record {
          groups = k.groups;
          tickets = k.tickets;
          settings = k.settings;
          waiting = k.waiting;
        })
  ]

  -- `prefill_cost(mhz)(tokens)`, after `_apply_table`.
  unfoldable pub cost_at : Router F → Option ℕ → ℕ → F
  unfolding for_clock prefill_cost
  cost_at r mhz tokens = prefill_cost (for_clock r.costs mhz) tokens

  idle_or_zero : Option F → F
  idle_or_zero none = of_nat 0
  idle_or_zero (some x) = x

  -- `deadline_ms`, after `_apply_table`.
  unfoldable pub deadline_ms : Router F → ℕ → F
  unfolding idle_or_zero interpolate
  deadline_ms r tokens =
      max_f (of_nat 0)
        (num.sub r.settings.ttft_slo_ms (idle_or_zero (interpolate r.idle_ttft tokens)))

  last_edge : List F → F
  last_edge [] = of_nat 0
  last_edge (e ∷ []) = e
  last_edge (e ∷ d ∷ rest) = last_edge (d ∷ rest)

  -- `backfill_slack_ms`
  unfoldable pub backfill_slack_ms : Router F → F
  unfolding last_edge safe_slack
  backfill_slack_ms r = elim r.settings.backfill_slack_ms [
    | some x ↦ x
    | none ↦ elim (safe_slack r.slack (num.div r.settings.theta (of_nat 2))) [
      | some x ↦ max_f (of_nat 0) x
      | none ↦ last_edge r.slack.edges
    ]
  ]

  -- `_predict`: the features and the TTFT from the P of one group and the D of another.
  unfoldable pub predict_route : Router F → F → Group F → Group F → List F × F
  unfolding features predict
  predict_route r s_own p d =
      let x = features s_own p.pending_ms d.inflight_bytes d.n_decoding in
      (x, predict r.predictor x)

  -- `_kv_blocked`
  unfoldable pub kv_blocked : Router F → Group F → ℕ → Bool
  kv_blocked r g tokens = elim r.settings.kv_buffer_bytes [
    | none ↦ false
    | some buffer ↦
        let gate = num.mul r.kv_fraction buffer in
        let more = num.mul (of_nat tokens) r.settings.kv_bytes_per_token in
        if num.le gate g.inflight_bytes
        then true
        else num.lt (of_nat 0) g.inflight_bytes && num.lt gate (num.add g.inflight_bytes more)
  ]

  -- `_actionable_ttft`, after `_apply_table`.
  unfoldable pub actionable_ttft : Router F → ℕ → Bool
  unfolding interpolate
  actionable_ttft r tokens = elim (interpolate r.idle_ttft tokens) [
    | none ↦ true
    | some idle ↦ num.lt idle r.settings.ttft_slo_ms
  ]

  -- `_intrinsically_near`, after `_apply_table`.
  unfoldable pub intrinsically_near : Router F → Ticket F → Bool
  unfolding interpolate cost_at
  intrinsically_near r t = elim (interpolate r.idle_ttft t.prompt_tokens) [
    | none ↦ false
    | some idle ↦
        let at_clock = num.add (num.sub idle (cost_at r none t.prompt_tokens)) t.s_own_ms in
        num.le (num.mul r.settings.near_slo r.settings.ttft_slo_ms) at_clock
  ]

  -- `_ttft_ratio`, after `_apply_table`.
  unfoldable pub ttft_ratio : Router F → Ticket F → F → F
  unfolding actionable_ttft intrinsically_near
  ttft_ratio r t ttft_ms =
      let ratio = num.div ttft_ms r.settings.ttft_slo_ms in
      if not (actionable_ttft r t.prompt_tokens)
      then of_nat 0
      else if intrinsically_near r t
      then num.mul ratio r.settings.near_slo
      else ratio
