-- ===== src/Controller/Plan/Tick.antt =====
-- src/canatune/controller/tier_controller.py: `_boost`, `_unboost` and `_tick`.
use cana_tune_llm.Base.{
  ℕ, Bool, true, false, not, ◌&&◌, ◌||◌, Option, none, some, List, [], ◌∷◌, if◌then◌else◌, ltb,
  Float, keep_if, ◌>>=◌, is_none, ◌+◌, Compared, lexicographic, by_int, by_float, min_by, max_by,
}
use cana_tune_llm.Domain.Tiers.{Tier}
use cana_tune_llm.Domain.Groups.{is_active}
use cana_tune_llm.Domain.Cluster.Uniform.{Solver}
use cana_tune_llm.Router.Settings.{ControlMode}
use cana_tune_llm.Router.State.{Router}
use cana_tune_llm.Router.Arrivals.{Arrivals}
use cana_tune_llm.Router.Latency.{is_best_effort}
use cana_tune_llm.Controller.Clocks.{Control, set_tier, retry_locks, finish_draining}
use cana_tune_llm.Controller.Effort.{wake}
use cana_tune_llm.Controller.Feedback.{Observed, Outside, set_watch, in_mode}
use cana_tune_llm.Controller.Feedback.Step.{feedback_control}
use cana_tune_llm.Controller.Plan.{Planner, groups_where, has_tier, demand}
use cana_tune_llm.Controller.Plan.Decide.{plan}

-- `CanaTuneRouter.pressure`: what the current configuration could not serve.
unfoldable pub pressure : {F : Type 0} → Router F → ℕ
pressure r =
    let w = r.waiting in
    let o = r.overflows in
    w.rejections + (o.rescue + o.doomed + o.backfill + o.best_effort) + w.held + w.risk_signals

-- What a tick finds outside: `x` for the feedback loop, the solver of the published model, the
-- Canary's answer to pressure with its effect, and the clock before and after the feedback loop.
pub record Tick (F : Type 0) : Type 0 where
  pub observed : Observed F
  pub outside : Outside F
  pub solver : Option (Solver F)
  pub on_pressure : Option (Control F → Control F × Bool)
  pub now : F
  pub later : F

-- The Controller, what it plans with, and the arrivals that it reads.
pub record Whole (F : Type 0) : Type 0 where
  pub control : Control F
  pub planner : Planner F
  pub arrivals : Arrivals F

module _ {F : Type 0} ⦃num : Float F⦄ where
  by_load : Control F → ℕ → ℕ → Compared
  by_load c i j =
      let a = c.router.groups i in
      let b = c.router.groups j in
      lexicographic (by_int a.n_inflight b.n_inflight) (by_float a.pending_ms b.pending_ms)

  boost_of : Control F → List ℕ → (ℕ → Bool) → F → Option (Control F)
  unfolding by_load max_by set_tier
  boost_of c [] ok now = some c
  boost_of c (i ∷ is) ok now = let g = max_by (by_load c) i is in set_tier c g Tier.max (ok g) now

  -- `_boost`: the most loaded group at H to MAX.
  unfoldable pub boost : Control F → List ℕ → (ℕ → Bool) → F → Option (Control F)
  unfolding boost_of
  boost c active ok now = boost_of c (keep_if (has_tier Tier.h c) active) ok now

  lower_least : Control F → Planner F → ℕ → List ℕ → (ℕ → Bool) → F → Option (Control F × Planner F)
  unfolding by_load min_by set_tier
  lower_least c p i is ok now = do
    let g = min_by (by_load c) i is
    c1 ← set_tier c g Tier.h (ok g) now
    some (c1, record p { calm_since = some now })

  calm_for :
      Control F
      → Planner F
      → Option F
      → ℕ
      → List ℕ
      → (ℕ → Bool)
      → F
      → Option (Control F × Planner F)
  unfolding lower_least
  calm_for c p none i is ok now = some (c, record p { calm_since = some now })
  calm_for c p (some t) i is ok now =
      if num.lt (num.sub now t) c.settings.t_down_s
      then some (c, p)
      else lower_least c p i is ok now

  unboost_of : Control F → Planner F → List ℕ → (ℕ → Bool) → F → Option (Control F × Planner F)
  unfolding calm_for
  unboost_of c p [] ok now = some (c, record p { calm_since = none })
  unboost_of c p (i ∷ is) ok now = calm_for c p p.calm_since i is ok now

  -- `_unboost`: one group at MAX back to H after `t_down_s` without pressure.
  unfoldable pub unboost :
      Control F → Planner F → List ℕ → (ℕ → Bool) → F → Option (Control F × Planner F)
  unfolding unboost_of
  unboost c p active ok now = unboost_of c p (keep_if (has_tier Tier.max c) active) ok now

  planned : Whole F → Tick F → F → Option (Whole F)
  unfolding demand plan
  planned w t now = elim t.solver [
    | none ↦ some w
    | some s ↦
        let (a, d) = demand w.control w.arrivals now in
        elim (plan w.control w.planner (some s) d t.outside.locks now) [
          | none ↦ none
          | some (c, p) ↦ some (record { control = c; planner = p; arrivals = a })
        ]
  ]

  with_control : Whole F → Option (Control F) → Option (Whole F)
  with_control w none = none
  with_control w (some c) = some (record w { control = c })

  plan_if : Bool → Whole F → Tick F → F → Option (Whole F)
  unfolding planned
  plan_if true w t now = planned w t now
  plan_if false w t now = some w

  settled_mode : Control F → Bool
  settled_mode c =
      in_mode ControlMode.energy c
      || (in_mode ControlMode.warning c || in_mode ControlMode.confirming c)

  -- `_tick` in the best-effort mode.
  unfoldable pub tick_best : Whole F → Tick F → Option (Whole F)
  unfolding feedback_control retry_locks plan_if with_control settled_mode finish_draining
  tick_best w t = do
    c1 ← feedback_control w.control t.observed t.outside t.now
    c2 ← retry_locks c1 t.outside.locks t.later
    let w2 = record w { control = c2 }
    w3 ← plan_if (not (is_none c2.router.tiers.table) && settled_mode c2) w2 t t.later
    if is_none c2.router.tiers.table
        then some w3
        else with_control w3 (finish_draining w3.control t.outside.locks t.later)

  relieved : Whole F → Tick F → List ℕ → Option (Control F × Bool) → Option (Whole F)
  unfolding boost with_control
  relieved w t active none = with_control w (boost w.control active t.outside.locks t.now)
  relieved w t active (some (c, true)) = some (record w { control = c })
  relieved w t active (some (c, false)) = with_control w (boost c active t.outside.locks t.now)

  answered : Tick F → Control F → Option (Control F × Bool)
  answered t c = elim t.on_pressure [ none ↦ none | some f ↦ some (f c) ]

  after_wake : Whole F → Tick F → List ℕ → Option (Control F × Option ℕ) → Option (Whole F)
  unfolding relieved answered
  after_wake w t active none = none
  after_wake w t active (some (c, some i)) = some (record w { control = c })
  after_wake w t active (some (c, none)) =
      relieved (record w { control = c }) t active (answered t c)

  -- Pressure wakes a parked group, else asks the Canary back, else raises a group to MAX.
  pressed : Whole F → Tick F → List ℕ → Option (Whole F)
  unfolding after_wake wake
  pressed w t active =
      let p = record w.planner { calm_since = none } in
      let c = set_watch w.control (λ x. record x { pressure_at = t.now }) in
      let w1 : Whole F = record w { planner = p; control = c } in
      after_wake w1 t active (wake c t.outside.locks t.now)

  with_both : Whole F → Option (Control F × Planner F) → Option (Whole F)
  with_both w none = none
  with_both w (some (c, p)) = some (record w { control = c; planner = p })

  -- `_tick` outside the best-effort mode, from the table on.
  decided : Whole F → Tick F → Option (Whole F)
  unfolding pressed unboost with_both planned finish_draining with_control
  decided w t = do
    let seen = pressure w.control.router
    let grew = ltb w.planner.rejections_seen seen
    let w1 = record w { planner = record w.planner { rejections_seen = seen } }
    let active = groups_where (λ g. is_active g.state) w.control
    w2 ←
        (if grew
          then pressed w1 t active
          else with_both w1 (unboost w1.control w1.planner active t.outside.locks t.now))
    w3 ← planned w2 t t.now
    with_control w3 (finish_draining w3.control t.outside.locks t.now)

  -- `_tick`; `none` is an exception, which `run` logs.
  unfoldable pub tick : Whole F → Tick F → Option (Whole F)
  unfolding tick_best decided retry_locks
  tick w t = if is_best_effort w.control.router.settings.overload then tick_best w t else do
    c1 ← retry_locks w.control t.outside.locks t.now
    if is_none c1.router.tiers.table
        then some (record w { control = c1 })
        else decided (record w { control = c1 }) t
