-- ===== src/Domain/Cluster/Uniform.antt =====
-- src/canatune/domain/models.py: `Solver._uniform`, one request rate on equally loaded groups.
use cana_tune_llm.Base.{
  ℕ, ◌+◌, max, Bool, true, false, not, ◌&&◌, Option, none, some, List, [], ◌∷◌, ◌++◌, map,
  if◌then◌else◌, ◌==◌, pos, ◌-ℤ◌, Float, of_nat, min_f, sum_f, or_zero, length, sum_by, Compared,
  by_float, max_by,
}
use cana_tune_llm.Domain.Tiers.{ClockPoint}
use cana_tune_llm.Domain.Admission.Cost.{Points, prefill_cost, for_clock, interpolate, greatest}
use cana_tune_llm.Domain.Admission.Slack.{SlackRisk, estimate}
use cana_tune_llm.Domain.Admission.Predictor.{dot}
use cana_tune_llm.Domain.Cluster.{ClusterModel, cap_at, decode_at, b_star_at, power_at}
use cana_tune_llm.Domain.Cluster.Mix.{Lengths}

pub data Constraint : Type 0 where
  prefill decode kv ttft cap : Constraint

-- `use`: each constraint's load over its limit, in the order in which they are computed.
abbrev pub Use : Type 0 → Type 0
Use F = List (Constraint × F)

pub record Evaluation (F : Type 0) : Type 0 where
  pub n : ℕ
  pub point : ClockPoint
  pub feasible : Bool
  pub power_w : F
  pub binding : Constraint
  pub use_of : Use F
  pub rates : List F

-- `Solver`; the costs and the slack risk are derived from the model once.
pub record Solver (F : Type 0) : Type 0 where
  pub model : ClusterModel F
  pub groups : ℕ
  pub costs : List (ℕ × Points F)
  pub slack : Option (SlackRisk F)

abbrev pub is_cap : Constraint → Bool
is_cap Constraint.cap = true
is_cap _ = false

-- What `_uniform` computes of one group before the constraints.
pub record Flow (F : Type 0) : Type 0 where
  pub r : F
  pub rho : F
  pub alpha : F
  pub delta : F
  pub running : F
  pub inflight : F

unfoldable pub longest : Lengths → ℕ
unfolding greatest
longest [] = 0
longest (e ∷ mix) = greatest e.0 (map (λ x. x.0) mix)

module _ {F : Type 0} ⦃num : Float F⦄ where
  -- `max(use, key=use.get)`
  abbrev pub by_use : Constraint × F → Constraint × F → Compared
  by_use a b = by_float a.1 b.1

  mean : (ℕ × ℕ → F) → Lengths → F
  mean f mix = num.div (sum_f (map f mix)) (of_nat (length mix))

  mean_ℕ : (ℕ × ℕ → ℕ) → Lengths → F
  mean_ℕ f mix = num.div (of_nat (sum_by f mix)) (of_nat (length mix))

  -- `x / limit if limit > 0 else math.inf`
  ratio : F → F → F
  ratio x limit = if num.lt (of_nat 0) limit then num.div x limit else num.inf

  unfoldable pub flow : Solver F → F → Lengths → ClockPoint → Flow F
  unfolding mean mean_ℕ decode_at for_clock prefill_cost interpolate
  flow s r mix point =
      let m = s.model in
      let cost = prefill_cost (for_clock s.costs (some point.prefill_mhz)) in
      let (alpha, delta) = decode_at m point.decode_mhz in
      let load = num.div (num.mul r (mean_ℕ (λ e. e.1) mix)) (of_nat 1_000) in
      let busy = num.mul load delta in
      let kept : ℕ × ℕ → F = λ e.
        num.mul (num.mul (of_nat e.0) m.kv_bytes_per_token)
          (or_zero (interpolate m.residence e.0)) in
      record {
        r = r;
        rho = num.div (num.mul r (mean (λ e. cost e.0) mix)) (of_nat 1_000);
        alpha = alpha;
        delta = delta;
        running =
            if num.le (of_nat 1) busy
            then num.inf
            else num.div (num.mul load alpha) (num.sub (of_nat 1) busy);
        inflight = num.div (num.mul r (mean kept mix)) (of_nat 1_000);
      }

  -- The mean violation risk of the mix at the steady-state means of the predictor's features.
  mix_risk : Solver F → Flow F → Lengths → ClockPoint → List F → SlackRisk F → F
  unfolding mean dot estimate for_clock prefill_cost
  mix_risk s w mix point coef slack =
      let cost = prefill_cost (for_clock s.costs (some point.prefill_mhz)) in
      let mean_s2 = mean (λ e. num.mul (cost e.0) (cost e.0)) mix in
      let idle = num.mul (of_nat 2) (num.sub (of_nat 1) w.rho) in
      let pending = num.div (num.mul (num.div w.r (of_nat 1_000)) mean_s2) idle in
      let risk : ℕ × ℕ → F = λ e.
        let x =
          of_nat 1
          ∷ cost e.0
          ∷ pending
          ∷ num.div w.inflight (of_nat 1_000_000_000)
          ∷ w.running
          ∷ [] in
        (estimate slack (num.sub s.model.ttft_slo_ms (dot (of_nat 0) coef x))).risk in
      mean risk mix

  prefill_use :
      Solver F → Flow F → Lengths → ClockPoint → Option (List F) → Option (SlackRisk F) → F
  unfolding mix_risk ratio
  prefill_use s w mix point (some coef) (some slack) =
      if num.le (of_nat 1) w.rho
      then num.inf
      else if not (num.is_finite w.running)
      then num.inf
      else ratio (mix_risk s w mix point coef slack) s.model.theta
  prefill_use s w mix point _ _ = ratio w.rho s.model.rho_prefill

  -- `if tokens:`, then the limit it sets.
  kv_limit : F → Option ℕ → List F
  kv_limit mean_ctx none = []
  kv_limit mean_ctx (some tokens) =
      if tokens == 0 then [] else num.div (of_nat tokens) mean_ctx ∷ []

  wall_limit : Option ℕ → List F
  wall_limit none = []
  wall_limit (some b) = if b == 0 then [] else of_nat b ∷ []

  tpot_limit : ClusterModel F → Flow F → List F
  tpot_limit m w =
      if num.lt (of_nat 0) w.delta then num.div (num.sub m.tpot_slo_ms w.alpha) w.delta ∷ [] else []

  -- `min(limits) if limits else math.inf`
  least_limit : List F → F
  least_limit [] = num.inf
  least_limit (x ∷ []) = x
  least_limit (x ∷ y ∷ xs) = least_limit (min_f x y ∷ xs)

  decode_use : Solver F → Flow F → Lengths → ClockPoint → F
  unfolding mean_ℕ kv_limit wall_limit tpot_limit least_limit b_star_at ratio
  decode_use s w mix point =
      let m = s.model in
      let limits =
        kv_limit (mean_ℕ (λ e. e.0 + e.1) mix) m.kv_capacity_tokens
        ++ (wall_limit (b_star_at m.b_star point.decode_mhz) ++ tpot_limit m w) in
      ratio w.running (least_limit limits)

  kv_use : Flow F → Option F → Use F
  kv_use w none = []
  kv_use w (some gate) =
      if num.eq gate (of_nat 0) then [] else (Constraint.kv, num.div w.inflight gate) ∷ []

  ttft_use : Solver F → Lengths → ClockPoint → F
  unfolding longest for_clock prefill_cost interpolate
  ttft_use s mix point =
      let top = longest mix in
      let cost = prefill_cost (for_clock s.costs (some point.prefill_mhz)) top in
      num.div (num.add cost (or_zero (interpolate s.model.residence top))) s.model.ttft_slo_ms

  cap_use : F → Option F → Use F
  unfolding ratio
  cap_use r none = []
  cap_use r (some c) = (Constraint.cap, ratio r c) ∷ []

  unfoldable pub uses : Solver F → Flow F → Lengths → ClockPoint → Use F
  unfolding prefill_use decode_use kv_use ttft_use cap_use cap_at
  uses s w mix point =
      (Constraint.prefill, prefill_use s w mix point s.model.predictor_coef s.slack)
      ∷ (Constraint.decode, decode_use s w mix point)
      ∷ (kv_use w s.model.kv_gate_bytes
          ++ ((Constraint.ttft, ttft_use s mix point) ∷ cap_use w.r (cap_at s.model.caps point)))

  -- One constraint holds: a cap is strict, the others are not.
  abbrev pub holds : Constraint × F → Bool
  holds e = if is_cap e.0 then num.lt e.1 (of_nat 1) else num.le e.1 (of_nat 1)

  unfoldable pub all_hold : Use F → Bool
  all_hold [] = true
  all_hold (e ∷ rest) = holds e && all_hold rest

  unfoldable pub binding_of : Use F → Constraint
  unfolding max_by
  binding_of [] = Constraint.prefill
  binding_of (e ∷ rest) = (max_by by_use e rest).0

  -- `k * park_power_w` of `self.groups - n` parked groups.
  abbrev pub parked_power : Solver F → ℕ → F
  parked_power s n = num.mul (num.of_int (pos s.groups -ℤ pos n)) s.model.park_power_w

  -- `_uniform` on a mix that `_mix` has reduced and that is not empty.
  unfoldable pub uniform : Solver F → F → Lengths → ℕ → ClockPoint → Evaluation F
  unfolding flow uses all_hold binding_of power_at
  uniform s rate mix n point =
      let w = flow s (num.div rate (of_nat (max n 1))) mix point in
      let m = s.model in
      let u = uses s w mix point in
      let busy = if num.is_finite w.running then min_f (of_nat 1) w.running else of_nat 1 in
      let p = power_at m.power_prefill point.prefill_mhz (min_f w.rho (of_nat 1)) in
      let d = power_at m.power_decode point.decode_mhz busy in
      record {
        n = n;
        point = point;
        feasible = all_hold u;
        power_w = num.add (num.mul (of_nat n) (num.add p d)) (parked_power s n);
        binding = binding_of u;
        use_of = u;
        rates = [];
      }
