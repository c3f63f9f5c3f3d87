-- ===== src/Router/Latency.antt =====
-- src/canatune/controller/router.py: the production latency that requests leave behind.
use cana_tune_llm.Base.{
  ℕ, Bool, true, false, not, ◌||◌, Option, none, some, List, [], ◌∷◌, ◌++◌, if◌then◌else◌, Float,
  of_nat, frac, max_f, get_key, put_key, refl, inl, inr, Bool-cases,
}
use cana_tune_llm.Router.Settings.{Overload, TpotFeedback}
use cana_tune_llm.Router.State.{Router, Ticket, Sample, dgroup, update, set_ticket}
use cana_tune_llm.Router.Tables.{
  apply_table, ttft_ratio, Keeps, Keeps-refl, Keeps-trans, apply_table-Keeps,
}

abbrev pub by_gap : TpotFeedback → Bool
by_gap TpotFeedback.gap = true
by_gap TpotFeedback.window = false

abbrev pub is_best_effort : Overload → Bool
is_best_effort Overload.best_effort = true
is_best_effort _ = false

module _ {F : Type 0} ⦃num : Float F⦄ where
  no_sample : Ticket F → Sample F
  no_sample t = record {
    ttft_time = num.neg_inf;
    ttft_ratio = of_nat 0;
    tpot_time = num.neg_inf;
    tpot_ratio = of_nat 0;
    group = t.group;
    admitted = t.admitted_at;
  }

  abbrev or_now : F → Option F → F
  or_now now none = now
  or_now now (some x) = x

  -- The TTFT belongs to the time of the first token.
  with_ttft : Router F → F → Ticket F → Option F → Sample F → Sample F
  unfolding ttft_ratio
  with_ttft r now t none s = s
  with_ttft r now t (some ttft_ms) s = record s {
    ttft_time = or_now now t.first_token_at;
    ttft_ratio = ttft_ratio r t ttft_ms;
  }

  with_tpot : Router F → F → Option F → Sample F → Sample F
  with_tpot r now none s = s
  with_tpot r now (some tpot_ms) s = record s {
    tpot_time = now;
    tpot_ratio = num.div tpot_ms r.settings.tpot_slo_ms;
  }

  -- The tables are read, and brought up to date, only where there is a TTFT.
  for_ttft : Option F → Router F → Router F
  unfolding apply_table
  for_ttft none r = r
  for_ttft (some x) r = apply_table r

  sample_of : Option (Sample F) → Ticket F → Sample F
  unfolding no_sample
  sample_of none t = no_sample t
  sample_of (some s) t = record s { group = t.group; admitted = t.admitted_at }

  -- `observe_latency` for the ticket `t` of id `k`.
  unfoldable pub observe_latency : Router F → F → ℕ → Ticket F → Option F → Option F → Router F
  unfolding with_ttft with_tpot for_ttft sample_of
  observe_latency r now k t ttft_ms tpot_ms =
      if not (is_best_effort r.settings.overload)
      then r
      else let r' = for_ttft ttft_ms r in
        let old = sample_of (get_key k r.feedback.production) t in
        let s = with_tpot r' now tpot_ms (with_ttft r' now t ttft_ms old) in
        let near = num.le (frac 9 10) (max_f s.ttft_ratio s.tpot_ratio) in
        let f = r.feedback in
        record r' {
          feedback = record f {
            production = put_key k s f.production;
            pressure_event = f.pressure_event || near;
          };
        }

  for_ttft-Keeps : (o : Option F) (r : Router F) → Keeps r (for_ttft o r)
  unfolding for_ttft
  for_ttft-Keeps none r = Keeps-refl r
  for_ttft-Keeps (some x) r = apply_table-Keeps r

  pub observe_latency-Keeps :
      (r : Router F) (now : F) (k : ℕ) (t : Ticket F) (ttft tpot : Option F)
      → Keeps r (observe_latency r now k t ttft tpot)
  unfolding observe_latency
  observe_latency-Keeps r now k t ttft tpot =
      elim (Bool-cases (is_best_effort r.settings.overload)) [
        | inl e ↦
            let h = for_ttft-Keeps ttft r in
            rw e (record {
              groups = h.groups;
              tickets = h.tickets;
              settings = h.settings;
              waiting = h.waiting;
            })
        | inr e ↦ rw e (Keeps-refl r)
      ]

  -- Gaps older than the window leave at the front.
  unfoldable pub trim_gaps : F → List (F × F) → List (F × F)
  trim_gaps cutoff [] = []
  trim_gaps cutoff ((t, ms) ∷ rest) =
      if num.lt t cutoff then trim_gaps cutoff rest else (t, ms) ∷ rest

  -- The token gap joins the window of its D, and a stall wakes the Controller.
  unfoldable pub join_window : Router F → F → Ticket F → Option F → Router F
  unfolding trim_gaps
  join_window r now t none = r
  join_window r now t (some tpot_ms) =
      let s = r.settings in
      let d = dgroup t in
      let f = r.feedback in
      let kept = trim_gaps (num.sub now s.tpot_window_s) (f.gaps d ++ ((now, tpot_ms) ∷ [])) in
      let stall = num.le (num.mul s.tpot_stall_factor s.tpot_slo_ms) tpot_ms in
      record r {
        feedback = record f {
          gaps = update f.gaps d kept;
          pressure_event = f.pressure_event || stall;
        };
      }

  -- The TTFT of a request whose first token came.
  unfoldable pub known_ttft : Ticket F → Option F
  known_ttft t = elim t.first_token_at [
    | none ↦ none
    | some first ↦ some (num.add (num.mul (num.sub first t.admitted_at) (of_nat 1000)) t.wait_ms)
  ]

  -- `token_progress` for the ticket `t` of id `k`.
  unfoldable pub token_progress : Router F → F → ℕ → Ticket F → Option F → Router F
  token_progress r now k t tpot_ms =
      let t' = record t { last_token_at = some now } in
      let r' = set_ticket r k t' in
      if by_gap r.settings.tpot_feedback
      then observe_latency r' now k t' (known_ttft t') tpot_ms
      else observe_latency (join_window r' now t' tpot_ms) now k t' (known_ttft t') none

  join_window-Keeps :
      (r : Router F) (now : F) (t : Ticket F) (gap : Option F) → Keeps r (join_window r now t gap)
  unfolding join_window
  join_window-Keeps r now t none = Keeps-refl r
  join_window-Keeps r now t (some x) = record {
    groups = refl;
    tickets = refl;
    settings = refl;
    waiting = refl;
  }

  abbrev pub after_token : F → Ticket F → Ticket F
  after_token now t = record t { last_token_at = some now }

  -- A token changes the time of the last one, and what the feedback knows.
  pub token_progress-Keeps :
      (r : Router F) (now : F) (k : ℕ) (t : Ticket F) (tpot : Option F)
      → Keeps (set_ticket r k (after_token now t)) (token_progress r now k t tpot)
  unfolding token_progress
  token_progress-Keeps r now k t tpot =
      let t' = after_token now t in
      let r' = set_ticket r k t' in
      elim (Bool-cases (by_gap r.settings.tpot_feedback)) [
        | inl e ↦ rw e (observe_latency-Keeps r' now k t' (known_ttft t') tpot)
        | inr e ↦ rw e (
            Keeps-trans (join_window-Keeps r' now t' tpot)
              (observe_latency-Keeps (join_window r' now t' tpot) now k t' (known_ttft t') none))
      ]
