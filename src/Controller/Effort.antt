-- ===== src/Controller/Effort.antt =====
-- src/canatune/controller/tier_controller.py: `start`, `publish`, `wake` and `_enter_full_effort`.
-- The callbacks of the Canary scheduler are parameters.
use cana_tune_llm.Base.{
  ℕ, ◌+◌, Bool, true, false, not, ◌&&◌, ◌||◌, Option, none, some, List, [], ◌∷◌, ◌++◌,
  if◌then◌else◌, ◌==◌, Float, keep_if, is_none,
}
use cana_tune_llm.Domain.Tiers.{Tier, GroupState, ClockPoint, TierTable, clocks}
use cana_tune_llm.Domain.Groups.{Group, is_active}
use cana_tune_llm.Domain.Risk.{range_from}
use cana_tune_llm.Router.Settings.{ControlMode}
use cana_tune_llm.Router.State.{Router}
use cana_tune_llm.Controller.Clocks.{Control, Routing, set_tier, set_state, for_groups, same_tier}
pub mod Reached
pub mod Woken
pub mod Published

abbrev pub is_exploring : GroupState → Bool
is_exploring GroupState.exploring = true
is_exploring _ = false

abbrev pub is_parked : GroupState → Bool
is_parked GroupState.park = true
is_parked _ = false

abbrev is_baseline : Routing → Bool
is_baseline Routing.baseline = true
is_baseline Routing.cantune = false

abbrev pub same_point : Option ClockPoint → Option ClockPoint → Bool
same_point none none = true
same_point (some p) (some q) = (p.prefill_mhz == q.prefill_mhz) && (p.decode_mhz == q.decode_mhz)
same_point _ _ = false

module _ {F : Type 0} ⦃num : Float F⦄ where
  -- Production groups first, each part in its order.
  unfoldable pub production_first : Control F → List ℕ → List ℕ
  production_first c is =
      keep_if (λ i. not (c.router.groups i).canary) is
      ++ keep_if (λ i. (c.router.groups i).canary) is

  start_one : Bool → (ℕ → Bool) → F → Control F → ℕ → Option (Control F)
  unfolding set_tier
  start_one cold ok now c i =
      if (c.router.groups i).canary && cold
      then some (set_state GroupState.exploring c i)
      else set_tier (set_state GroupState.active c i) i (if cold then Tier.max else Tier.h) (ok i)
          now

  -- `start`
  unfoldable pub start : Control F → (ℕ → Bool) → F → Option (Control F)
  unfolding start_one production_first range_from
  start c ok now =
      for_groups (start_one (is_none c.router.tiers.table) ok now)
        (production_first c (range_from 0 c.router.n_groups)) c

  publish_one : (ℕ → Bool) → F → Control F → ℕ → Option (Control F)
  unfolding set_tier
  publish_one ok now c i =
      let tier = if c.full_effort then Tier.max else Tier.h in
      let g = c.router.groups i in
      if is_active g.state && not (same_point g.effective (clocks c.router.tiers tier))
      then set_tier c i tier (ok i) now
      else some c

  -- `publish`
  unfoldable pub publish : Control F → TierTable F → (ℕ → Bool) → F → Option (Control F)
  unfolding publish_one range_from
  publish c table ok now =
      let tiers = record c.router.tiers { table = some table; working = none } in
      let c1 : Control F = record c { router = record c.router { tiers = tiers } } in
      for_groups (publish_one ok now) (range_from 0 c.router.n_groups) c1

  wake_first : Control F → (ℕ → Bool) → F → List ℕ → Option (Control F × Option ℕ)
  unfolding set_tier
  wake_first c ok now [] = some (c, none)
  wake_first c ok now (i ∷ is) =
      elim (set_tier (set_state GroupState.active c i) i Tier.h (ok i) now) [
        | none ↦ none
        | some c1 ↦ some (c1, some i)
      ]

  -- `wake`: the first parked group, production first.
  unfoldable pub wake : Control F → (ℕ → Bool) → F → Option (Control F × Option ℕ)
  unfolding wake_first production_first range_from
  wake c ok now =
      let parked =
        keep_if (λ i. is_parked (c.router.groups i).state) (range_from 0 c.router.n_groups) in
      wake_first c ok now (production_first c parked)

  -- The flags of `_enter_full_effort`, set once.
  unfoldable pub raise_flags : Control F → F → Control F
  raise_flags c now =
      let r = record c.router { control_mode = ControlMode.full_effort } in
      let c1 : Control F = record c { router = r; redirected_at = none } in
      if c.full_effort then c1 else record c1 {
        full_effort = true;
        full_effort_since = now;
        router = record r {
          full_effort = true;
          baseline_mode = is_baseline c.settings.full_effort_routing;
        };
      }

  pub raise_one : (ℕ → Bool) → F → Control F → ℕ → Option (Control F)
  raise_one ok now c i =
      let c1 = set_state GroupState.active c i in
      let raised = set_tier c1 i Tier.max (ok i) now in
      if is_exploring (c.router.groups i).state
      then some c
      else if same_tier (c.router.groups i).tier Tier.max
      then some c1
      else raised

  -- A Canary that came back is raised too.
  reclaim_one : (ℕ → Bool) → F → Control F → ℕ → Option (Control F)
  unfolding set_tier
  reclaim_one ok now c i =
      let g = c.router.groups i in
      if g.canary && (is_active g.state && (not (same_tier g.tier Tier.max) || is_none g.effective))
      then set_tier c i Tier.max (ok i) now
      else some c

  -- `reclaim_canary`, if it is set: the Control after it, or nothing where it raises.
  reclaimed :
      Option (Control F → Option (Control F)) → (ℕ → Bool) → F → Control F → Option (Control F)
  unfolding reclaim_one range_from
  reclaimed none ok now c = some c
  reclaimed (some reclaim) ok now c = elim (reclaim c) [
    | none ↦ some c
    | some c1 ↦ for_groups (reclaim_one ok now) (range_from 0 c1.router.n_groups) c1
  ]

  then_reclaimed :
      Option (Control F → Option (Control F))
      → (ℕ → Bool)
      → F
      → Option (Control F)
      → Option (Control F)
  unfolding reclaimed
  then_reclaimed reclaim ok now none = none
  then_reclaimed reclaim ok now (some c) = reclaimed reclaim ok now c

  -- `_enter_full_effort` up to the return of the Canary; `abort` is the effect of `on_pressure`, once
  -- per entry.
  unfoldable pub raise_groups :
      Control F → (Control F → Control F) → (ℕ → Bool) → F → Option (Control F)
  unfolding range_from
  raise_groups c abort ok now =
      let c1 = raise_flags c now in
      let c2 = if c.full_effort then c1 else abort c1 in
      for_groups (raise_one ok now) (range_from 0 c2.router.n_groups) c2

  -- `_enter_full_effort`
  unfoldable pub enter_full_effort :
      Control F
      → (Control F → Control F)
      → Option (Control F → Option (Control F))
      → (ℕ → Bool)
      → F
      → Option (Control F)
  unfolding then_reclaimed
  enter_full_effort c abort reclaim ok now =
      then_reclaimed reclaim ok now (raise_groups c abort ok now)
