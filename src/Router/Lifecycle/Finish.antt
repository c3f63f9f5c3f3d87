-- ===== src/Router/Lifecycle/Finish.antt =====
-- src/canatune/controller/router.py: `finish` and `_update_knees`.
use cana_tune_llm.Base.{
  ℕ, Bool, true, false, not, ◌&&◌, ◌||◌, Option, none, some, List, ◌∷◌, if◌then◌else◌, ◌==◌, Float,
  of_nat, max_f, is_none, get_key, drop_key, max, ◌≡◌, refl, inl, inr, Bool-cases, arith, if_true,
  if_false, sym, subst,
}
use cana_tune_llm.Domain.Calibration.{
  KneeCounts, record_bin, kv_gate_bin, gate_of_bin, p_slot_bin, knee,
}
use cana_tune_llm.Domain.Load.{LengthStats, record_length}
use cana_tune_llm.Domain.Risk.{record_outcome}
use cana_tune_llm.Domain.Admission.Predictor.{record_sample, push_bounded}
use cana_tune_llm.Domain.Admission.Slack.{record_slack}
use cana_tune_llm.Router.Settings.{TpotFeedback}
use cana_tune_llm.Router.State.{Router, Ticket, Stage, Sample, dgroup, modify_group, set_ticket}
use cana_tune_llm.Router.Latency.{observe_latency, observe_latency-Keeps}
use cana_tune_llm.Router.Tables.{Keeps, Keeps-refl, Keeps-trans}
use cana_tune_llm.Router.Lifecycle.{leave_await, leave_flight, leave_stage}
pub mod Kept

-- What is known of a request when it ends.
pub record Outcome (F : Type 0) : Type 0 where
  pub served : Bool
  pub ttft_ms : Option F
  pub tpot_ms : Option F
  pub output_tokens : ℕ

abbrev by_window : TpotFeedback → Bool
by_window TpotFeedback.window = true
by_window TpotFeedback.gap = false

abbrev cap_after : Option ℕ → Option ℕ
cap_after none = none
cap_after (some b) = some (max 1 b)

module _ {F : Type 0} ⦃num : Float F⦄ where
  over_slo : Option F → F → Bool
  over_slo none slo = false
  over_slo (some tpot) slo = num.lt slo tpot

  -- risk.py `is_violation`
  unfoldable pub is_violation : Option F → Option F → F → F → Option Bool
  unfolding over_slo
  is_violation none tpot ttft_slo tpot_slo = none
  is_violation (some ttft) tpot ttft_slo tpot_slo =
      if not (num.is_finite ttft)
      then none
      else if num.le ttft_slo ttft
      then some true
      else some (over_slo tpot tpot_slo)

  abbrev pub leave_other : Option ℕ → Router F → Router F
  leave_other none r = r
  leave_other (some d) r = modify_group r d leave_flight

  -- The reservation is released: the counters, and the ticket's last stage.
  unfoldable pub release : Router F → ℕ → Ticket F → Router F
  unfolding leave_stage
  release r k t =
      let r1 =
        if is_none t.first_token_at
        then modify_group r (dgroup t) (leave_await t.prompt_tokens)
        else r in
      let r2 = leave_stage t.stage t r1 in
      let r3 = modify_group r2 t.group leave_flight in
      let r4 = leave_other t.decode_group r3 in
      set_ticket r4 k (record t { stage = Stage.done; finished = true })

  abbrev has_tpot_time : Option (Sample F) → Bool
  has_tpot_time none = false
  has_tpot_time (some s) = not (num.eq s.tpot_time num.neg_inf)

  -- The request's latency joins the feedback, or its sample leaves with a failed request.
  unfoldable pub note_latency : Router F → F → ℕ → Ticket F → Outcome F → Router F
  unfolding observe_latency
  note_latency r now k t o =
      let recent = has_tpot_time (get_key k r.feedback.production) in
      let tpot = if by_window r.settings.tpot_feedback || recent then none else o.tpot_ms in
      let f = r.feedback in
      if o.served
      then observe_latency r now k t o.ttft_ms tpot
      else record r { feedback = record f { production = drop_key k f.production } }

  -- `table_skip`: whether the request is a clean sample.
  abbrev pub is_clean : Router F → Ticket F → Outcome F → Option Bool → Bool
  is_clean r t o violated =
      o.served
      && (not (is_none violated)
          && (t.prompt_exact
              && (r.clock_epochs t.group == t.clock_epoch
                  && r.clock_epochs (dgroup t) == t.decode_epoch)))

  -- The share of the receive buffer that goes with the knee.
  gate_after : Option ℕ → F
  gate_after none = of_nat 1
  gate_after (some b) = gate_of_bin b

  abbrev usable_buffer : Option F → Bool
  usable_buffer none = false
  usable_buffer (some b) = not (num.eq b (of_nat 0))

  update_gate : Option KneeCounts → Option F → Ticket F → Bool → Router F → Router F
  unfolding gate_after kv_gate_bin record_bin knee
  update_gate (some k) (some buffer) t violated r =
      let inflight = num.mul t.snapshot.inflight_mb (of_nat 1_000_000) in
      let k' = record_bin k (kv_gate_bin inflight buffer) violated in
      if usable_buffer (some buffer)
      then record r {
        kv_knee = some k';
        kv_fraction = gate_after (knee k' r.settings.theta r.table.min_samples);
      }
      else r
  update_gate _ _ t violated r = r

  update_slots : Option KneeCounts → Ticket F → Bool → Router F → Router F
  unfolding p_slot_bin record_bin knee
  update_slots none t violated r = r
  update_slots (some k) t violated r =
      let k' = record_bin k (p_slot_bin t.snapshot.n_at_p) violated in
      record r {
        slot_knee = some k';
        p_slot_cap = cap_after (knee k' r.settings.theta r.table.min_samples);
      }

  -- `_update_knees`
  unfoldable pub update_knees : Router F → Ticket F → Bool → Router F
  unfolding update_gate update_slots
  update_knees r t violated =
      if not r.settings.knee_update || t.snapshot.baseline
      then r
      else update_slots r.slot_knee t violated
          (update_gate r.kv_knee r.settings.kv_buffer_bytes t violated r)

  -- The slack and the TTFT model learn from a request that was admitted on a prediction.
  learn_slack : List F → Option F → Option F → F → Bool → Router F → Router F
  unfolding record_slack record_sample
  learn_slack (x ∷ xs) (some slack) (some ttft) wait_ms violated r = record r {
    slack = record_slack r.slack slack violated;
    predictor = record_sample r.predictor (x ∷ xs) (max_f (of_nat 0) (num.sub ttft wait_ms));
  }
  learn_slack _ _ _ wait_ms violated r = r

  -- What a clean sample teaches.
  unfoldable pub learn : Router F → Ticket F → Outcome F → Bool → Router F
  unfolding record_outcome push_bounded learn_slack update_knees
  learn r t o violated =
      let r1 = record r { table = record_outcome r.table t.cell violated } in
      let risk_admitted = not (is_none t.estimate) && is_none t.overflow in
      let r2 =
        if risk_admitted
        then record r1 { outcomes = push_bounded 500 r1.outcomes violated }
        else r1 in
      update_knees (learn_slack t.features t.slack_ms o.ttft_ms t.wait_ms violated r2) t violated

  unfoldable pub learn_if : Bool → Option Bool → Ticket F → Outcome F → Router F → Router F
  unfolding learn
  learn_if true (some violated) t o r = learn r t o violated
  learn_if _ _ t o r = r

  unfoldable pub note_lengths : Bool → Option LengthStats → ℕ → ℕ → Router F → Router F
  unfolding record_length
  note_lengths true (some l) prompt output r = record r {
    lengths = some (record_length l prompt output);
  }
  note_lengths _ _ prompt output r = r

  -- `violated`
  abbrev pub verdict : Router F → Outcome F → Option Bool
  verdict r o = is_violation o.ttft_ms o.tpot_ms r.settings.ttft_slo_ms r.settings.tpot_slo_ms

  -- `finish` past its guard: the reservation is released before anything is learnt.
  unfoldable pub close : Router F → F → ℕ → Ticket F → Outcome F → Router F
  close r now k t o =
      let r1 = note_latency (release r k t) now k t o in
      let r2 = learn_if (is_clean r1 t o (verdict r o)) (verdict r o) t o r1 in
      note_lengths o.served r2.lengths t.prompt_tokens o.output_tokens r2

  -- `finish` for the ticket `t` of id `k`.
  unfoldable pub finish : Router F → F → ℕ → Ticket F → Outcome F → Router F
  finish r now k t o = if t.finished then r else close r now k t o
