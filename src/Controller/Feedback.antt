-- ===== src/Controller/Feedback.antt =====
-- src/canatune/controller/tier_controller.py: `_feedback_control`, `_redirect` and `_expand_capacity`.
-- What `production_feedback` reports and the offered rates are inputs; one step reads the clock once.
use cana_tune_llm.Base.{
  ℕ, suc, ◌+◌, Bool, true, false, not, ◌&&◌, ◌||◌, Option, none, some, List, [], ◌∷◌, ◌++◌,
  if◌then◌else◌, ◌==◌, leb, min, max, ℤ, pos, pos_part, max_ℤ, leb_ℤ, is_zero, Float, of_nat, frac,
  max_f, keep_if, any, length, contains, is_none,
}
use cana_tune_llm.Domain.Tiers.{Tier, GroupState}
use cana_tune_llm.Domain.Groups.{Group, is_active, routable}
use cana_tune_llm.Domain.Risk.{range_from}
use cana_tune_llm.Router.Settings.{ControlMode, GroupChoice, same_mode}
use cana_tune_llm.Router.State.{Router}
use cana_tune_llm.Router.Candidates.{d_exhausted_count}
use cana_tune_llm.Router.Choose.{cool, is_cooled}
use cana_tune_llm.Controller.Clocks.{
  Control, Watch, ControllerSettings, set_tier, set_state, for_groups,
}
use cana_tune_llm.Controller.Effort.{is_exploring, production_first, enter_full_effort}
pub mod Step

-- What one tick sees: the entries of `production_feedback` that decide, the offered rate over the load
-- window, and the demand and the capacity of one group for an expansion.
pub record Observed (F : Type 0) : Type 0 where
  pub pressure : Bool
  pub severe : Bool
  pub pressured_groups : List ℕ
  pub rate : F
  pub demand : F
  pub capacity : F

-- The callbacks of the Canary scheduler, and whether the locks of a group hold.
pub record Outside (F : Type 0) : Type 0 where
  pub abort : Control F → Control F
  pub reclaim : Option (Control F → Option (Control F))
  pub locks : ℕ → Bool

module _ {F : Type 0} where
  abbrev pub set_watch : Control F → (Watch F → Watch F) → Control F
  set_watch c f = record c { watch = f c.watch }

  -- `_mode`
  abbrev pub set_mode : ControlMode → Control F → Control F
  set_mode mode c = record c { router = record c.router { control_mode = mode } }

  abbrev pub in_mode : ControlMode → Control F → Bool
  in_mode mode c = same_mode c.router.control_mode mode

  -- A new risk signal of the Router is a warning.
  unfoldable pub note_warning : Control F → F → Control F
  note_warning c now =
      let signals = c.router.waiting.risk_signals in
      let c1 = set_watch c (λ w. record w { warning_seen = signals }) in
      let c2 = set_watch c1 (λ w. record w { warning_at = now }) in
      if signals == c.watch.warning_seen
      then c1
      else if in_mode ControlMode.energy c
      then set_mode ControlMode.warning c2
      else c2

  abbrev since : Option F → F → Option F
  since none now = some now
  since (some t) now = some t

  -- Pressure starts the confirmation, and a tick without it ends it.
  unfoldable pub note_pressure : Control F → F → Bool → Control F
  note_pressure c now false = set_watch c (λ w. record w { confirm_since = none })
  note_pressure c now true =
      let c1 =
        set_watch c
          (λ w. record w { pressure_at = now; confirm_since = since w.confirm_since now }) in
      if in_mode ControlMode.energy c || in_mode ControlMode.warning c
      then set_mode ControlMode.confirming c1
      else c1

  unfoldable pub note_severe : Control F → F → Bool → Control F
  note_severe c now true = set_watch c (λ w. record w { severe_since = since w.severe_since now })
  note_severe c now false = set_watch c (λ w. record w { severe_since = none })

module _ {F : Type 0} ⦃num : Float F⦄ where
  drop_ticks : F → List (F × Bool) → List (F × Bool)
  drop_ticks cutoff [] = []
  drop_ticks cutoff ((t, p) ∷ rest) =
      if num.lt t cutoff then drop_ticks cutoff rest else (t, p) ∷ rest

  unfoldable pub note_tick : Control F → F → Bool → Control F
  unfolding drop_ticks
  note_tick c now pressure =
      let cutoff = num.sub now c.settings.confirm_window_s in
      set_watch c (λ w. record w {
        pressure_ticks = drop_ticks cutoff (w.pressure_ticks ++ ((now, pressure) ∷ []));
      })

  -- Pressure in most ticks of the window.
  unfoldable pub mostly : Control F → Bool
  mostly c =
      let s = c.settings in
      let ticks = c.watch.pressure_ticks in
      let pressed = keep_if (λ e. e.1) ticks in
      let expected = num.trunc (num.div (num.mul (frac 1 2) s.confirm_window_s) s.period_s) in
      leb_ℤ (max_ℤ (pos 3) expected) (pos (length ticks))
      && num.le (num.mul s.confirm_fraction (of_nat (length ticks))) (of_nat (length pressed))

  -- Whether `confirm_s` have passed since a time, if there is one.
  abbrev pub lasted : Option F → F → F → Bool
  lasted none now span = false
  lasted (some t) now span = num.le span (num.sub now t)

  unfoldable pub confirmed : Control F → F → Bool
  unfolding mostly
  confirmed c now = lasted c.watch.confirm_since now c.settings.confirm_s || mostly c

  abbrev pub emergency : Control F → F → Bool
  emergency c now = lasted c.watch.severe_since now c.settings.confirm_s

  -- The D capacity trigger.
  unfoldable pub note_exhausted : Control F → F → Control F × Bool
  note_exhausted c now =
      let (r, marks) = d_exhausted_count c.router now c.settings.d_trigger_window_s in
      let c1 : Control F = record c { router = r } in
      if leb c.settings.d_trigger_count marks
      then (set_watch c1 (λ w. record w { pressure_at = now }), true)
      else (c1, false)

  -- `_enter_full_effort`, which notes the offered rate at the entry.
  unfoldable pub enter : Control F → Observed F → Outside F → F → Option (Control F)
  enter c o x now =
      let c1 = set_watch c (λ w. record w { full_effort_rate = o.rate }) in
      enter_full_effort (if c.full_effort then c else c1) x.abort x.reclaim x.locks now

  recover_one : (ℕ → Bool) → F → Control F → ℕ → Option (Control F)
  unfolding set_tier
  recover_one ok now c i =
      if is_active (c.router.groups i).state && not (is_none c.router.tiers.table)
      then set_tier c i Tier.h (ok i) now
      else some c

  abbrev busy_cold : Control F → Bool
  busy_cold c =
      is_none c.router.tiers.table
      && any (λ i. not (is_zero (c.router.groups i).n_inflight)) (range_from 0 c.router.n_groups)

  -- Whether full effort has to go on.
  unfoldable pub must_stay : Control F → Observed F → F → Bool
  unfolding range_from
  must_stay c o now =
      let s = c.settings in
      o.pressure
      || (num.lt (num.sub now c.watch.pressure_at) s.t_down_s
          || (num.lt (num.sub now c.full_effort_since) s.full_effort_min_s
              || (num.lt (num.mul s.exit_rate_fraction c.watch.full_effort_rate) o.rate
                  || (any (λ i. is_exploring (c.router.groups i).state)
                        (range_from 0 c.router.n_groups)
                      || busy_cold c))))

  lower_flags : Control F → Control F
  lower_flags c = record c {
    full_effort = false;
    redirected_at = none;
    router = record c.router { full_effort = false; baseline_mode = false };
    watch = record c.watch { expanded_at = none };
  }

  unfoldable pub leave : Control F → Outside F → F → Option (Control F)
  unfolding lower_flags recover_one range_from
  leave c x now =
      let c1 = lower_flags c in
      elim (for_groups (recover_one x.locks now) (range_from 0 c1.router.n_groups) c1) [
        | none ↦ none
        | some c2 ↦ some (set_mode ControlMode.energy c2)
      ]

  unfoldable pub stay_or_leave :
      Option (Control F) → Observed F → Outside F → F → Option (Control F)
  unfolding must_stay leave
  stay_or_leave none o x now = none
  stay_or_leave (some c) o x now = if must_stay c o now then some c else leave c x now
