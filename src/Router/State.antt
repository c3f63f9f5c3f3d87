-- ===== src/Router/State.antt =====
-- src/canatune/controller/router.py: `Ticket` and the state of `CanaTuneRouter`.
--
-- Groups and tickets are objects that are shared and changed in place: a group is its position in
-- `self.groups`, a ticket its position among the tickets issued so far (its id less one).
use cana_tune_llm.Base.{ℕ, Bool, Option, none, some, List, if◌then◌else◌, ◌==◌, ℤ, set}
use cana_tune_llm.Domain.Tiers.{TierState}
use cana_tune_llm.Domain.Groups.{Group}
use cana_tune_llm.Domain.Risk.{Cell, RiskEstimate, RiskTable}
use cana_tune_llm.Domain.Admission.Cost.{Points}
use cana_tune_llm.Domain.Admission.Predictor.{Predictor}
use cana_tune_llm.Domain.Calibration.{KneeCounts}
use cana_tune_llm.Domain.Load.{LengthStats}
use cana_tune_llm.Domain.Admission.Slack.{SlackRisk}
use cana_tune_llm.Router.Settings.{RouterSettings, ControlMode}

pub data Stage : Type 0 where
  prefill transfer decode done : Stage

-- How a request beyond the feasible groups was admitted: the keys of `overflows`.
pub data OverflowKind : Type 0 where
  rescue doomed backfill best_effort : OverflowKind

-- The entries of `Ticket.snapshot` that the code reads again; the others go to the log.
pub record Snapshot (F : Type 0) : Type 0 where
  pub n_at_p : ℤ
  pub inflight_mb : F
  pub baseline : Bool

pub record Ticket (F : Type 0) : Type 0 where
  pub group : ℕ
  pub decode_group : Option ℕ
  pub cell : Cell
  pub estimate : Option (RiskEstimate F)
  pub prompt_tokens : ℕ
  pub prompt_exact : Bool
  pub admitted_at : F
  pub wait_ms : F
  pub clock_epoch : ℕ
  pub decode_epoch : ℕ
  pub snapshot : Snapshot F
  pub first_token_at : Option F
  pub last_token_at : Option F
  pub finished : Bool
  pub streaming : Bool
  pub stage : Stage
  pub s_own_ms : F
  pub features : List F
  pub predicted_ms : Option F
  pub overflow : Option OverflowKind
  pub slack_ms : Option F

-- `Ticket.dgroup`
abbrev pub dgroup : {F : Type 0} → Ticket F → ℕ
dgroup t = elim t.decode_group [ none ↦ t.group | some d ↦ d ]

pub record Overflows : Type 0 where
  pub rescue : ℕ
  pub doomed : ℕ
  pub backfill : ℕ
  pub best_effort : ℕ

-- The waiters: ids of requests that have no ticket yet.
pub record Waiting (F : Type 0) : Type 0 where
  -- serve: waiters past max_wait, in arrival order, and when each loses its SLO
  pub holding : List ℕ
  pub expires : List (ℕ × F)
  pub held : ℕ
  pub fresh : List ℕ
  -- best_effort: the FIFO queue, and since when each waits
  pub queue : List ℕ
  pub waiting_since : List (ℕ × F)
  pub signalled : List ℕ
  pub risk_signals : ℕ
  pub rejections : ℕ

-- One entry of `_production`: the latest TTFT and TPOT ratios and their times, with the entry of
-- `_production_meta`: the group and the admission time.
pub record Sample (F : Type 0) : Type 0 where
  pub ttft_time : F
  pub ttft_ratio : F
  pub tpot_time : F
  pub tpot_ratio : F
  pub group : ℕ
  pub admitted : F

pub record Feedback (F : Type 0) : Type 0 where
  -- ticket -> its one sample
  pub production : List (ℕ × Sample F)
  -- group -> recent token gaps (time, ms) of its D
  pub gaps : ℕ → List (F × F)
  pub pressure_event : Bool

pub record Router (F : Type 0) : Type 0 where
  pub settings : RouterSettings F
  pub n_groups : ℕ
  pub groups : ℕ → Group F
  pub tiers : TierState F
  pub clock_epochs : ℕ → ℕ
  pub table : RiskTable
  pub slack : SlackRisk F
  pub predictor : Predictor F
  pub costs : List (ℕ × Points F)
  pub idle_ttft : Points F
  pub applied_key : Option F
  pub kv_fraction : F
  pub p_slot_cap : Option ℕ
  pub kv_knee : Option KneeCounts
  pub slot_knee : Option KneeCounts
  pub tickets : List (Ticket F)
  pub admitted : ℕ
  pub overflows : Overflows
  pub outcomes : List Bool
  pub lengths : Option LengthStats
  pub waiting : Waiting F
  pub feedback : Feedback F
  pub group_rr : ℕ
  pub rr : ℕ
  pub full_effort : Bool
  pub baseline_mode : Bool
  pub control_mode : ControlMode
  pub cooled : ℕ → F
  -- marks: no D was safe for one more request
  pub d_exhausted : List F

-- An object written back under its reference.
abbrev pub update {ℓ} : {A : Type ℓ} → (ℕ → A) → ℕ → A → ℕ → A
update h i a j = if i == j then a else h j

abbrev pub modify_group : {F : Type 0} → Router F → ℕ → (Group F → Group F) → Router F
modify_group r i f = record r { groups = update r.groups i (f (r.groups i)) }

abbrev pub set_ticket : {F : Type 0} → Router F → ℕ → Ticket F → Router F
set_ticket r k t = record r { tickets = set r.tickets k t }
