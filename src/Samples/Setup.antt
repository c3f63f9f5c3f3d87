-- ===== src/Samples/Setup.antt =====
-- A Router of two groups, after the defaults of src/canatune/controller/router.py.
use cana_tune_llm.Base.{true, false, none, some, [], ◌∷◌, ℤ, pos}
use cana_tune_llm.Domain.Tiers.{Tier, GroupState, ClockPoint, TierTable}
use cana_tune_llm.Domain.Groups.{Group}
use cana_tune_llm.Domain.Risk.{RiskTable}
use cana_tune_llm.Domain.Admission.Slack.{SlackRisk}
use cana_tune_llm.Router.Settings.{
  RouterSettings, Admission, Overload, Doomed, Pairing, ControlMode, DChoice, PChoice, GroupChoice,
  TpotFeedback,
}
use cana_tune_llm.Router.State.{Router}
use cana_tune_llm.Samples.Fixed.{fixed}

abbrev pub settings : RouterSettings ℤ
settings = record {
  theta = pos 500;
  ttft_slo_ms = pos 500_000;
  tpot_slo_ms = pos 50_000;
  max_wait_ms = pos 100_000;
  retry_period_ms = pos 10_000;
  snapshot_max_age_s = pos 2_000;
  d_busy_min_running = 1;
  load_window_s = pos 10_000;
  chars_per_token = pos 4_000;
  admission = Admission.slack;
  kv_bytes_per_token = pos 1_000;
  kv_buffer_bytes = none;
  overload = Overload.best_effort;
  doomed = Doomed.backfill;
  backfill_slack_ms = none;
  hold_max_ms = pos 60_000_000;
  pairing = Pairing.fixed;
  kv_growth = true;
  kv_projection_hard = false;
  kv_projection_limit = none;
  d_balance_modes = [];
  d_choice = DChoice.concentrate;
  p_choice = PChoice.balance;
  group_choice = GroupChoice.fill;
  fill_p2c_groups = 2;
  near_slo = pos 900;
  knee_update = false;
  tpot_feedback = TpotFeedback.gap;
  tpot_window_s = pos 1_000;
  tpot_window_quantile = pos 900;
  tpot_window_min_gaps = 5;
  tpot_stall_factor = pos 3_000;
}

abbrev top : ClockPoint
top = record { prefill_mhz = 1_980; decode_mhz = 1_980 }

abbrev pub working : ClockPoint
working = record { prefill_mhz = 1_200; decode_mhz = 900 }

abbrev idle_group : Group ℤ
idle_group = record {
  name = "g";
  prefill = "p";
  decode = "d";
  canary = false;
  state = GroupState.active;
  tier = Tier.h;
  effective = some working;
  n_await = pos 0;
  t_await = pos 0;
  n_inflight = pos 0;
  n_at_p = pos 0;
  pending_ms = pos 0;
  inflight_bytes = pos 0;
  n_decoding = pos 0;
  admissions = [];
}

abbrev pub slack : SlackRisk ℤ
slack = record {
  edges = pos 0 ∷ pos 100_000 ∷ pos 200_000 ∷ [];
  min_samples = 2;
  counts = (2, (20, 0)) ∷ (3, (1, 1)) ∷ [];
  seed = (3, (40, 0)) ∷ [];
}

abbrev no_risks : RiskTable
no_risks = record {
  buckets = record { n_await = 0 ∷ 2 ∷ []; prompt_tokens = 500 ∷ 2_000 ∷ [] };
  min_samples = 5;
  cells = [];
  visits = [];
}

abbrev table : TierTable ℤ
table = record {
  park = record { prefill_mhz = 300; decode_mhz = 300 };
  h = working;
  capacity_h = pos 100_000;
  alpha_tokens = pos 100_000;
  l = none;
  capacity_l = none;
  tau_up = none;
  tau_down = none;
  decode_max_running = none;
  decode_kv_limit = none;
  decode_wall = false;
  decode_length = [];
  decode_kv_tokens = none;
  published_at = pos 1_000;
  evidence = record {
    prefill_ms_by_clock = [];
    prefill_ms_by_length = [];
    idle_ttft_ms = [];
    admission = none;
    model_decode = none;
  };
}

-- Two idle groups at the working point, with a table in force.
abbrev pub router : Router ℤ
router = record {
  settings = settings;
  n_groups = 2;
  groups = λ i. idle_group;
  tiers = record { max_point = top; table = some table; working = none };
  clock_epochs = λ i. 3;
  table = no_risks;
  slack = slack;
  predictor = record {
    has_prior = true;
    prior = [];
    coef = pos 10_000 ∷ pos 1_000 ∷ pos 1_000 ∷ pos 0 ∷ pos 0 ∷ [];
    samples = [];
    window = 100;
    refit_every = 10;
    ridge = pos 1_000;
    clip_ms = pos 10_000;
    since_fit = 0;
  };
  costs = [];
  idle_ttft = [];
  applied_key = some (pos 1_000);
  kv_fraction = pos 1_000;
  p_slot_cap = none;
  kv_knee = none;
  slot_knee = none;
  tickets = [];
  admitted = 0;
  overflows = record { rescue = 0; doomed = 0; backfill = 0; best_effort = 0 };
  outcomes = [];
  lengths = none;
  waiting = record {
    holding = [];
    expires = [];
    held = 0;
    fresh = [];
    queue = 7 ∷ 9 ∷ [];
    waiting_since = [];
    signalled = 9 ∷ [];
    risk_signals = 1;
    rejections = 0;
  };
  feedback = record { production = []; gaps = λ i. []; pressure_event = false };
  group_rr = 0;
  rr = 0;
  full_effort = false;
  baseline_mode = false;
  control_mode = ControlMode.energy;
  cooled = λ i. pos 0;
  d_exhausted = [];
}
