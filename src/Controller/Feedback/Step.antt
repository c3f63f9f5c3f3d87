-- ===== src/Controller/Feedback/Step.antt =====
-- src/canatune/controller/tier_controller.py: the answers of `_feedback_control` to the pressure it
-- has noted, with `_redirect` and `_expand_capacity`.
use cana_tune_llm.Base.{
  ℕ, ◌+◌, Bool, true, false, not, ◌&&◌, ◌||◌, Option, none, some, List, [], ◌∷◌, if◌then◌else◌, leb,
  min, max, pos_part, Float, of_nat, max_f, keep_if, any, length, contains, is_none,
}
use cana_tune_llm.Domain.Tiers.{Tier, GroupState}
use cana_tune_llm.Domain.Groups.{Group, is_active, routable}
use cana_tune_llm.Domain.Risk.{range_from}
use cana_tune_llm.Router.Settings.{ControlMode}
use cana_tune_llm.Router.State.{Router}
use cana_tune_llm.Router.Candidates.{is_empty}
use cana_tune_llm.Router.Choose.{cool, is_cooled}
use cana_tune_llm.Router.Admit.{is_fill}
use cana_tune_llm.Controller.Clocks.{Control, set_tier, set_state}
use cana_tune_llm.Controller.Effort.{is_exploring, production_first}
use cana_tune_llm.Controller.Feedback.{
  Observed, Outside, set_watch, set_mode, in_mode, note_warning, note_pressure, note_severe,
  note_tick, confirmed, emergency, lasted, note_exhausted, enter, stay_or_leave,
}
pub mod Entry

module _ {F : Type 0} ⦃num : Float F⦄ where
  pub cool_all : Router F → List ℕ → F → Router F
  unfolding cool
  cool_all r [] until = r
  cool_all r (g ∷ gs) until = cool_all (cool r g until) gs until

  -- Expanding by a redirect from now on.
  abbrev redirected : Control F → F → Control F
  redirected c now = set_mode ControlMode.expanding (record c {
    redirected_at = some now;
    watch = record c.watch { expanded_at = some now; confirm_since = none };
  })

  -- `_redirect`: the Controller afterwards, and whether the pressure was answered this way.
  unfoldable pub redirect : Control F → Observed F → F → Control F × Bool
  unfolding cool_all is_cooled range_from
  redirect c o now =
      let all = range_from 0 c.router.n_groups in
      let pressured = keep_if (λ i. contains i o.pressured_groups) all in
      let r = cool_all c.router pressured (num.add now c.settings.feedback_window_s) in
      let c1 : Control F = record c { router = r } in
      let room = any (λ i. routable (r.groups i) && not (is_cooled r now i)) all in
      if not c.settings.redirect || not (is_fill c.router.settings.group_choice)
      then (c, false)
      else if is_empty pressured
      then (c, false)
      else if room
      then (redirected c1 now, true)
      else (c1, false)

  expand_from : (ℕ → Bool) → F → ℕ → ℕ → Control F → List ℕ → Option (Control F)
  unfolding set_tier
  expand_from ok now needed active c [] = some c
  expand_from ok now needed active c (i ∷ is) =
      let tier = if is_none c.router.tiers.table then Tier.max else Tier.h in
      let skip = expand_from ok now needed active c is in
      let rest : Option (Control F) =
        elim (set_tier (set_state GroupState.active c i) i tier (ok i) now) [
          | none ↦ none
          | some c1 ↦
              expand_from ok now needed
                (if routable (c1.router.groups i) then active + 1 else active) c1 is
        ] in
      if leb needed active then some c else if routable (c.router.groups i) then skip else rest

  -- `_expand_capacity`
  unfoldable pub expand_capacity : Control F → Observed F → Outside F → F → Option (Control F)
  unfolding expand_from production_first range_from
  expand_capacity c o x now =
      let all = range_from 0 c.router.n_groups in
      let active = length (keep_if (λ i. routable (c.router.groups i)) all) in
      let available =
        production_first c (keep_if (λ i. not (is_exploring (c.router.groups i).state)) all) in
      let wanted =
        if num.lt (of_nat 0) o.capacity
        then pos_part (num.ceil (num.div o.demand o.capacity))
        else active + 1 in
      expand_from x.locks now (min (length available) (max (active + 1) wanted)) active c available

  then_expanded : Option (Control F) → F → Option (Control F)
  then_expanded none now = none
  then_expanded (some c) now =
      some (set_watch c (λ w. record w { expanded_at = some now; confirm_since = none }))

  -- Some group is neither active nor the Canary's.
  abbrev spare_group : Control F → Bool
  spare_group c =
      any
        (λ i.
          not (is_active (c.router.groups i).state) && not (is_exploring (c.router.groups i).state))
        (range_from 0 c.router.n_groups)

  quiet_after : Control F → F
  quiet_after c =
      if in_mode ControlMode.warning c || in_mode ControlMode.confirming c
      then max_f c.watch.pressure_at c.watch.warning_at
      else c.watch.pressure_at

  -- Back to energy mode after `t_down_s` without pressure.
  settle : Control F → Observed F → F → Control F
  unfolding quiet_after
  settle c o now =
      if not o.pressure && num.le c.settings.t_down_s (num.sub now (quiet_after c))
      then set_mode ControlMode.energy
          (record c { redirected_at = none; watch = record c.watch { expanded_at = none } })
      else c

  in_grace : Option F → F → F → Bool
  in_grace none now span = true
  in_grace (some t) now span = num.lt (num.sub now t) span

  -- In the expanding mode: the grace, then another redirect where the last answer was one, then MAX.
  expanding : Control F → Observed F → Outside F → F → Option (Control F)
  unfolding redirect settle in_grace
  expanding c o x now =
      let again = not (is_none c.redirected_at) in
      let (c1, answered) = redirect c o now in
      if in_grace c.watch.expanded_at now c.settings.expansion_grace_s
      then some c
      else if not (confirmed c now)
      then some (settle c o now)
      else if again && answered
      then some c1
      else enter (if again then c1 else c) o x now

  -- Otherwise: where every group serves, a redirect or MAX, else more groups.
  unexpanded : Control F → Observed F → Outside F → F → Option (Control F)
  unfolding redirect settle expand_capacity then_expanded range_from
  unexpanded c o x now =
      let (c1, answered) = redirect c o now in
      if not (confirmed c now)
      then some (settle c o now)
      else if spare_group c
      then then_expanded (expand_capacity (set_mode ControlMode.expanding c) o x now) now
      else if answered
      then some c1
      else enter c1 o x now

  -- The answer after everything was noted.
  pub answer : Control F → Observed F → Outside F → Bool → F → Option (Control F)
  unfolding expanding unexpanded
  answer c o x exhausted now =
      if c.full_effort
      then stay_or_leave (enter c o x now) o x now
      else if emergency c now
      then enter c o x now
      else if exhausted
      then enter c o x now
      else if in_mode ControlMode.expanding c
      then expanding c o x now
      else unexpanded c o x now

  -- Everything that a tick notes before it answers.
  unfoldable pub noted : Control F → Observed F → F → Control F × Bool
  noted c o now =
      note_exhausted
        (note_severe (note_tick (note_pressure (note_warning c now) now o.pressure) now o.pressure)
          now o.severe)
        now

  -- `_feedback_control`
  unfoldable pub feedback_control : Control F → Observed F → Outside F → F → Option (Control F)
  unfolding answer noted
  feedback_control c o x now = let (c1, exhausted) = noted c o now in answer c1 o x exhausted now
