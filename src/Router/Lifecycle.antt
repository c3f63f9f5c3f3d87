-- ===== src/Router/Lifecycle.antt =====
-- src/canatune/controller/router.py: the stages of an admitted request, from its reservation
-- (`_issue`) over `prefill_done` and `first_token` to `finish`.
use cana_tune_llm.Base.{
  ℕ, ◌+◌, Bool, true, false, not, ◌&&◌, ◌||◌, Option, none, some, List, [], ◌∷◌, ◌++◌,
  if◌then◌else◌, ◌==◌, ℤ, pos, ◌+ℤ◌, ◌-ℤ◌, Float, of_nat, max_f, get_elem?, is_none,
}
use cana_tune_llm.Domain.Groups.{Group, record_admission}
use cana_tune_llm.Domain.Risk.{Cell, RiskEstimate}
use cana_tune_llm.Router.State.{
  Router, Ticket, Stage, Snapshot, Overflows, OverflowKind, dgroup, modify_group, set_ticket,
}
use cana_tune_llm.Router.Tables.{apply_table, cost_at, prefill_mhz_of}
pub mod Finish
pub mod Accounting
pub mod Runs

-- The route of a request with what `candidates` found out about it.
pub record Offer (F : Type 0) : Type 0 where
  pub p : ℕ
  pub d : ℕ
  pub cell : Cell
  pub estimate : Option (RiskEstimate F)
  pub features : List F
  pub predicted : Option F
  pub kind : Option OverflowKind

-- One admitted request: its tokens, whether they are exact, and the wait so far.
pub record Request (F : Type 0) : Type 0 where
  pub tokens : ℕ
  pub exact : Bool
  pub waited_ms : F

abbrev pub is_prefill : Stage → Bool
is_prefill Stage.prefill = true
is_prefill _ = false

abbrev count_overflow : Option OverflowKind → Overflows → Overflows
count_overflow none o = o
count_overflow (some OverflowKind.rescue) o = record o { rescue = o.rescue + 1 }
count_overflow (some OverflowKind.doomed) o = record o { doomed = o.doomed + 1 }
count_overflow (some OverflowKind.backfill) o = record o { backfill = o.backfill + 1 }
count_overflow (some OverflowKind.best_effort) o = record o { best_effort = o.best_effort + 1 }

module _ {F : Type 0} ⦃num : Float F⦄ where
  -- The counters that a reservation moves: at the P, at the D, and in flight.
  abbrev pub enter_p : F → Group F → Group F
  enter_p s_own g = record g { n_at_p = g.n_at_p +ℤ pos 1; pending_ms = num.add g.pending_ms s_own }

  abbrev pub enter_await : ℕ → Group F → Group F
  enter_await tokens g = record g {
    n_await = g.n_await +ℤ pos 1;
    t_await = g.t_await +ℤ pos tokens;
  }

  abbrev pub enter_flight : Group F → Group F
  enter_flight g = record g { n_inflight = g.n_inflight +ℤ pos 1 }

  abbrev pub leave_await : ℕ → Group F → Group F
  leave_await tokens g = record g {
    n_await = g.n_await -ℤ pos 1;
    t_await = g.t_await -ℤ pos tokens;
  }

  abbrev pub leave_flight : Group F → Group F
  leave_flight g = record g { n_inflight = g.n_inflight -ℤ pos 1 }

  abbrev pub leave_p : F → Group F → Group F
  leave_p s_own g = record g {
    n_at_p = g.n_at_p -ℤ pos 1;
    pending_ms = max_f (of_nat 0) (num.sub g.pending_ms s_own);
  }

  abbrev pub leave_transfer : F → Group F → Group F
  leave_transfer kv g = record g { inflight_bytes = max_f (of_nat 0) (num.sub g.inflight_bytes kv) }

  abbrev pub leave_decode : Group F → Group F
  leave_decode g = record g { n_decoding = g.n_decoding -ℤ pos 1 }

  abbrev slack_left : Router F → F → Option F → Option F
  slack_left r waited none = none
  slack_left r waited (some predicted) =
      some (num.sub (num.sub r.settings.ttft_slo_ms waited) predicted)

  -- The ticket that `_issue` writes.
  abbrev pub new_ticket : Router F → F → Offer F → Request F → F → Ticket F
  new_ticket r now o q s_own = record {
    group = o.p;
    decode_group = if o.d == o.p then none else some o.d;
    cell = o.cell;
    estimate = o.estimate;
    prompt_tokens = q.tokens;
    prompt_exact = q.exact;
    admitted_at = now;
    wait_ms = q.waited_ms;
    clock_epoch = r.clock_epochs o.p;
    decode_epoch = r.clock_epochs o.d;
    snapshot = record {
      n_at_p = (r.groups o.p).n_at_p;
      inflight_mb = num.round_1 (num.div (r.groups o.d).inflight_bytes (of_nat 1_000_000));
      baseline = r.baseline_mode;
    };
    first_token_at = none;
    last_token_at = none;
    finished = false;
    streaming = true;
    stage = Stage.prefill;
    s_own_ms = s_own;
    features = o.features;
    predicted_ms = o.predicted;
    overflow = o.kind;
    slack_ms = slack_left r q.waited_ms o.predicted;
  }

  -- `_issue`: the reservation, and the ticket as the newest one.
  unfoldable pub issue : Router F → F → Offer F → Request F → Router F
  unfolding record_admission
  issue r now o q =
      let r0 = apply_table r in
      let s_own = cost_at r0 (prefill_mhz_of (r0.groups o.p).effective) q.tokens in
      let t = new_ticket r0 now o q s_own in
      let r1 = modify_group r0 o.p (enter_p s_own) in
      let r2 = modify_group r1 o.d (enter_await q.tokens) in
      let r3 = modify_group r2 o.p enter_flight in
      let r4 = if o.d == o.p then r3 else modify_group r3 o.d enter_flight in
      let r5 =
        modify_group r4 o.p (λ g. record_admission g now q.tokens r.settings.load_window_s) in
      record r5 {
        tickets = r5.tickets ++ (t ∷ []);
        admitted = r5.admitted + 1;
        overflows = count_overflow o.kind r5.overflows;
      }

  -- `_kv_bytes`
  abbrev pub kv_bytes : Router F → Ticket F → F
  kv_bytes r t = num.mul (of_nat t.prompt_tokens) r.settings.kv_bytes_per_token

  -- `_leave_stage`, by the stage of the ticket.
  unfoldable pub leave_stage : Stage → Ticket F → Router F → Router F
  leave_stage Stage.prefill t r = modify_group r t.group (leave_p t.s_own_ms)
  leave_stage Stage.transfer t r = modify_group r (dgroup t) (leave_transfer (kv_bytes r t))
  leave_stage Stage.decode t r = modify_group r (dgroup t) leave_decode
  leave_stage Stage.done t r = r

  -- `prefill_done` for the ticket `t` of id `k`.
  unfoldable pub prefill_done : Router F → ℕ → Ticket F → Router F
  unfolding leave_stage
  prefill_done r k t =
      if t.finished || not (is_prefill t.stage)
      then r
      else let r1 = leave_stage t.stage t r in
        let r2 = set_ticket r1 k (record t { stage = Stage.transfer }) in
        modify_group r2 (dgroup t)
          (λ g. record g { inflight_bytes = num.add g.inflight_bytes (kv_bytes r t) })

  -- `first_token` for the ticket `t` of id `k`.
  unfoldable pub first_token : Router F → F → ℕ → Ticket F → Router F
  unfolding leave_stage
  first_token r now k t =
      if not (is_none t.first_token_at) || t.finished
      then r
      else let r1 = modify_group r (dgroup t) (leave_await t.prompt_tokens) in
        let r2 = leave_stage t.stage t r1 in
        let t' = record t {
          first_token_at = some now;
          last_token_at = some now;
          stage = Stage.decode;
        } in
        modify_group (set_ticket r2 k t') (dgroup t)
          (λ g. record g { n_decoding = g.n_decoding +ℤ pos 1 })
