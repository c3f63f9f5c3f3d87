-- ===== src/Controller/Clocks.antt =====
-- src/canatune/controller/tier_controller.py: `ControllerSettings`, `set_tier`, `_retry_locks`,
-- `wake`, `start` and `_finish_draining`.
--
-- `set_tier` waits for the clock locks of P and D: it is the step before them and the step after
-- them, and other steps may come between. Whether the locks held is a parameter.
use cana_tune_llm.Base.{
  ℕ, suc, ◌+◌, Bool, true, false, not, ◌&&◌, Option, none, some, List, [], ◌∷◌, if◌then◌else◌, ◌==◌,
  is_zero, Float, of_nat, min_f,
}
use cana_tune_llm.Domain.Tiers.{Tier, GroupState, ClockPoint, clocks, slower}
use cana_tune_llm.Domain.Groups.{Group}
use cana_tune_llm.Domain.Risk.{range_from}
use cana_tune_llm.Router.State.{Router, update, modify_group}
pub mod Epochs
pub mod Effective
pub mod Raised
pub mod States

pub data Routing : Type 0 where
  baseline cantune : Routing

pub data ProductionClocks : Type 0 where
  canary max : ProductionClocks

pub record ControllerSettings (F : Type 0) : Type 0 where
  pub period_s : F
  pub load_window_s : F
  pub t_down_s : F
  pub min_active_groups : ℕ
  pub stagger_s : F
  pub energy_log_period_s : F
  pub burst_window_s : F
  pub burst_bucket_s : F
  pub switch_gain : F
  pub feedback_window_s : F
  pub feedback_min_samples : ℕ
  pub feedback_near_slo : F
  pub confirm_s : F
  pub expansion_grace_s : F
  pub solver : Bool
  pub full_effort_routing : Routing
  pub confirm_window_s : F
  pub confirm_fraction : F
  pub d_trigger_count : ℕ
  pub d_trigger_window_s : F
  pub full_effort_min_s : F
  pub exit_rate_fraction : F
  pub production_clocks : ProductionClocks
  pub redirect : Bool

-- What the Controller remembers of the production latency.
pub record Watch (F : Type 0) : Type 0 where
  pub warning_seen : ℕ
  pub warning_at : F
  pub pressure_at : F
  pub confirm_since : Option F
  pub severe_since : Option F
  pub expanded_at : Option F
  pub pressure_ticks : List (F × Bool)
  pub full_effort_rate : F

-- The state of the Controller that the modelled steps read and change, with the Router it drives.
pub record Control (F : Type 0) : Type 0 where
  pub settings : ControllerSettings F
  pub router : Router F
  -- groups whose last clock lock failed: next retry time, and the delay
  pub retry : ℕ → Option (F × F)
  pub full_effort : Bool
  pub full_effort_since : F
  pub redirected_at : Option F
  pub watch : Watch F

-- A clock change under way.
pub record Change : Type 0 where
  pub group : ℕ
  pub tier : Tier
  pub old : Option ClockPoint
  pub target : ClockPoint

abbrev pub same_tier : Tier → Tier → Bool
same_tier Tier.park Tier.park = true
same_tier Tier.l Tier.l = true
same_tier Tier.h Tier.h = true
same_tier Tier.max Tier.max = true
same_tier _ _ = false

abbrev pub is_park : Tier → Bool
is_park tier = same_tier tier Tier.park

-- `None` without an old point, else the more conservative one.
abbrev pub conservative : Option ClockPoint → ClockPoint → Option ClockPoint
conservative none target = none
conservative (some old) target = some (slower old target)

-- The tier whose clocks are locked: with `production_clocks` max, H has MAX clocks.
abbrev locked_tier : ProductionClocks → Tier → Tier
locked_tier ProductionClocks.max Tier.h = Tier.max
locked_tier _ tier = tier

-- The point after the locks: the target, or on a failure the conservative one.
abbrev pub reached : Bool → Option ClockPoint → Option ClockPoint → ClockPoint → Option ClockPoint
reached true old point target = some target
reached false none point target = point
reached false (some old) point target = some (slower old target)

abbrev is_draining : GroupState → Bool
is_draining GroupState.draining = true
is_draining _ = false

abbrev takes_locks : GroupState → Bool
takes_locks GroupState.active = true
takes_locks GroupState.park = true
takes_locks _ = false

module _ {F : Type 0} where
  abbrev pub modify : Control F → ℕ → (Group F → Group F) → Control F
  modify c i f = record c { router = modify_group c.router i f }

  abbrev pub bump_epoch : Control F → ℕ → Control F
  bump_epoch c i = record c {
    router = record c.router {
      clock_epochs = update c.router.clock_epochs i (c.router.clock_epochs i + 1);
    };
  }

  abbrev pub set_state : GroupState → Control F → ℕ → Control F
  set_state state c i = modify c i (λ g. record g { state = state })

  -- `set_tier` up to the locks.
  unfoldable pub begin_with : Control F → ℕ → Tier → ClockPoint → Control F × Change
  begin_with c i tier target =
      let old = (c.router.groups i).effective in
      let c1 = bump_epoch (modify c i (λ g. record g { tier = tier })) i in
      let point = if is_park tier then none else conservative old target in
      (
        modify c1 i (λ g. record g { effective = point }),
        record { group = i; tier = tier; old = old; target = target },
      )

module _ {F : Type 0} ⦃num : Float F⦄ where
  delay_before : Control F → Option (F × F) → F
  delay_before c none = num.div c.settings.period_s (of_nat 2)
  delay_before c (some (due, delay)) = delay

  -- The retry entry after the locks: none, or after a delay that doubles up to `t_down_s`.
  note_retry : Control F → F → Bool → ℕ → Control F
  unfolding delay_before
  note_retry c now true i = record c { retry = update c.retry i none }
  note_retry c now false i =
      let delay = min_f (num.mul (of_nat 2) (delay_before c (c.retry i))) c.settings.t_down_s in
      record c { retry = update c.retry i (some (num.add now delay, delay)) }

  -- `set_tier` from the locks on.
  unfoldable pub end_tier : Control F → Change → Bool → F → Control F
  unfolding note_retry
  end_tier c change ok now =
      let i = change.group in
      let current = same_tier (c.router.groups i).tier change.tier in
      let c1 = if current then note_retry c now ok i else c in
      let c2 =
        if not (is_park change.tier) && current
        then modify c1 i
            (λ g. record g { effective = reached ok change.old g.effective change.target })
        else c1 in
      bump_epoch c2 i

  set_with : Control F → ℕ → Tier → Bool → F → Option ClockPoint → Option (Control F)
  unfolding begin_with end_tier
  set_with c i tier ok now none = none
  set_with c i tier ok now (some target) =
      let (c1, change) = begin_with c i tier target in some (end_tier c1 change ok now)

  -- `set_tier` where nothing comes between; `none` is the `KeyError` of a table without the tier.
  unfoldable pub set_tier : Control F → ℕ → Tier → Bool → F → Option (Control F)
  unfolding set_with
  set_tier c i tier ok now =
      set_with c i tier ok now
        (clocks c.router.tiers (locked_tier c.settings.production_clocks tier))

  -- `_finish_draining` for one group; `ok` says whether the locks hold.
  finish_one : (ℕ → Bool) → F → Control F → ℕ → Option (Control F)
  unfolding set_tier
  finish_one ok now c i =
      let g = c.router.groups i in
      if is_draining g.state && is_zero g.n_inflight
      then set_tier (set_state GroupState.park c i) i Tier.park (ok i) now
      else some c

  -- A loop over groups that stops at an exception.
  abbrev pub for_groups :
      (Control F → ℕ → Option (Control F)) → List ℕ → Control F → Option (Control F)
  for_groups f [] c = some c
  for_groups f (i ∷ is) c = elim (f c i) [ none ↦ none | some c1 ↦ for_groups f is c1 ]

  unfoldable pub finish_draining : Control F → (ℕ → Bool) → F → Option (Control F)
  unfolding finish_one range_from
  finish_draining c ok now = for_groups (finish_one ok now) (range_from 0 c.router.n_groups) c

  retry_due : Option (F × F) → F → Bool
  retry_due none now = false
  retry_due (some (due, delay)) now = not (num.lt now due)

  retry_one : (ℕ → Bool) → F → Control F → ℕ → Option (Control F)
  unfolding retry_due set_tier
  retry_one ok now c i =
      if not (retry_due (c.retry i) now)
      then some c
      else if takes_locks (c.router.groups i).state
      then set_tier c i (c.router.groups i).tier (ok i) now
      else some (record c { retry = update c.retry i none })

  -- `_retry_locks`
  unfoldable pub retry_locks : Control F → (ℕ → Bool) → F → Option (Control F)
  unfolding retry_one range_from
  retry_locks c ok now = for_groups (retry_one ok now) (range_from 0 c.router.n_groups) c
