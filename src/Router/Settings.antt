-- ===== src/Router/Settings.antt =====
-- src/canatune/controller/router.py: `RouterSettings`, with a data type for each set of strings.
use cana_tune_llm.Base.{ℕ, Bool, true, false, Option, List}

pub data Admission : Type 0 where
  slack cells : Admission

pub data Overload : Type 0 where
  reject serve best_effort : Overload

pub data Doomed : Type 0 where
  backfill dispatch : Doomed

pub data Pairing : Type 0 where
  fixed dynamic : Pairing

pub data ControlMode : Type 0 where
  energy warning confirming expanding full_effort : ControlMode

pub data DChoice : Type 0 where
  concentrate balance : DChoice

pub data PChoice : Type 0 where
  balance same concentrate : PChoice

pub data GroupChoice : Type 0 where
  concentrate round_robin fill : GroupChoice

pub data TpotFeedback : Type 0 where
  window gap : TpotFeedback

abbrev pub same_mode : ControlMode → ControlMode → Bool
same_mode ControlMode.energy ControlMode.energy = true
same_mode ControlMode.warning ControlMode.warning = true
same_mode ControlMode.confirming ControlMode.confirming = true
same_mode ControlMode.expanding ControlMode.expanding = true
same_mode ControlMode.full_effort ControlMode.full_effort = true
same_mode _ _ = false

pub record RouterSettings (F : Type 0) : Type 0 where
  pub theta : F
  pub ttft_slo_ms : F
  pub tpot_slo_ms : F
  pub max_wait_ms : F
  pub retry_period_ms : F
  pub snapshot_max_age_s : F
  pub d_busy_min_running : ℕ
  pub load_window_s : F
  pub chars_per_token : F
  pub admission : Admission
  pub kv_bytes_per_token : F
  pub kv_buffer_bytes : Option F
  pub overload : Overload
  pub doomed : Doomed
  pub backfill_slack_ms : Option F
  pub hold_max_ms : F
  pub pairing : Pairing
  pub kv_growth : Bool
  pub kv_projection_hard : Bool
  pub kv_projection_limit : Option F
  pub d_balance_modes : List ControlMode
  pub d_choice : DChoice
  pub p_choice : PChoice
  pub group_choice : GroupChoice
  pub fill_p2c_groups : ℕ
  pub near_slo : F
  pub knee_update : Bool
  pub tpot_feedback : TpotFeedback
  pub tpot_window_s : F
  pub tpot_window_quantile : F
  pub tpot_window_min_gaps : ℕ
  pub tpot_stall_factor : F
