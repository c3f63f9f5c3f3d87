-- ===== src/Controller/Plan/Decide.antt =====
-- src/canatune/controller/tier_controller.py: `_plan`, from what it looks at to what it changes.
use cana_tune_llm.Base.{
  ℕ, zero, suc, ◌+◌, Bool, true, false, not, ◌&&◌, ◌||◌, Option, none, some, List, [], ◌∷◌, ◌++◌,
  if◌then◌else◌, ltb, ◌==◌, max, Float, of_nat, max_f, length, ◌>>=◌, is_none, is_empty, Compared,
  lexicographic, by_int, by_float, by_bool, min_by,
}
use cana_tune_llm.Domain.Tiers.{Tier, GroupState, ClockPoint, clocks}
use cana_tune_llm.Domain.Groups.{Group, is_active, routable}
use cana_tune_llm.Domain.Risk.{clock_eq}
use cana_tune_llm.Domain.Cluster.Uniform.{Evaluation, Solver}
use cana_tune_llm.Domain.Cluster.Evaluate.{evaluate}
use cana_tune_llm.Domain.Cluster.Solve.{solve}
use cana_tune_llm.Router.Settings.{ControlMode}
use cana_tune_llm.Router.Latency.{is_best_effort}
use cana_tune_llm.Controller.Clocks.{Control, set_tier, set_state, for_groups}
use cana_tune_llm.Controller.Effort.{wake, same_point, is_parked}
use cana_tune_llm.Controller.Feedback.{set_watch, set_mode, in_mode}
use cana_tune_llm.Controller.Plan.{
  Planner, Demand, groups_where, has_tier, note_demand, peak_of, same_target,
}
pub mod Kept
pub mod Spared
pub mod Enough

-- What `_plan` knows when it decides.
pub record Outlook (F : Type 0) : Type 0 where
  pub point : ClockPoint
  pub n_routable : ℕ
  pub current : Evaluation F
  pub target : Evaluation F
  pub held : Bool
  pub calm : Bool
  pub gain : Bool

-- The active groups and how many of them are routable, as the loop counts them.
pub record Roll : Type 0 where
  pub active : List ℕ
  pub n_routable : ℕ

module _ {F : Type 0} ⦃num : Float F⦄ where
  note_target : Planner F → Evaluation F → F → Planner F
  unfolding same_target
  note_target p target now =
      let key : ℕ × ClockPoint = (target.n, target.point) in
      let p1 = record p { plan = some target } in
      if same_target p.target key
      then p1
      else record p1 { target = some key; target_since = some now }

  held_since : Option F → F → F → Bool
  held_since none now t_down_s = num.le t_down_s (num.sub now now)
  held_since (some t) now t_down_s = num.le t_down_s (num.sub now t)

  -- The saving is worth the switch.
  saves : Control F → Planner F → F → F → Bool
  saves c p current target =
      let s = c.settings in
      let saved = num.sub current target in
      num.lt (num.mul s.switch_gain current) saved
      && num.lt (num.mul (num.mul (of_nat 2) p.switch_s) (max_f current target))
          (num.mul saved s.t_down_s)

  is_serving : Group F → Bool
  is_serving g = is_active g.state || is_parked g.state

  -- The first half of `_plan`; `none` is an exception.
  unfoldable pub look :
      Control F → Planner F → Solver F → Demand F → F → ClockPoint → Option (Planner F × Outlook F)
  unfolding note_demand peak_of note_target held_since saves is_serving evaluate solve
  look c p s d now point = do
    let n_routable = length (groups_where routable c)
    let p1 = note_demand p now d.rate c.settings.t_down_s
    current ← evaluate s d.rate d.lengths (max n_routable 1) point
    target ←
        solve s (peak_of d.rate p1.demands) d.lengths c.settings.min_active_groups
          (some (length (groups_where is_serving c)))
    let p2 = note_target p1 target now
    some (
      p2,
      record {
        point = point;
        n_routable = n_routable;
        current = current;
        target = target;
        held = held_since p2.target_since now c.settings.t_down_s;
        calm = num.le c.settings.t_down_s (num.sub now c.watch.pressure_at);
        gain = saves c p current.power_w target.power_w;
      },
    )

  -- The model sees more demand than the configuration carries, or faster clocks.
  unfoldable pub overloaded : Outlook F → Bool
  overloaded o =
      not o.target.feasible
      || (not o.current.feasible
          || (ltb o.n_routable o.target.n
              || (ltb o.point.prefill_mhz o.target.point.prefill_mhz
                  || ltb o.point.decode_mhz o.target.point.decode_mhz)))

  -- The warning of the best-effort mode.
  unfoldable pub warn : Control F → F → Control F
  warn c now =
      let w = c.router.waiting in
      let signalled = record w { risk_signals = w.risk_signals + 1 } in
      let f = record c.router.feedback { pressure_event = true } in
      let c1 : Control F = record c {
        router = record c.router { waiting = signalled; feedback = f };
      } in
      if in_mode ControlMode.energy c
      then set_mode ControlMode.warning (set_watch c1 (λ x. record x { warning_at = now }))
      else c

  retarget_one : ClockPoint → (ℕ → Bool) → F → Control F → ℕ → Option (Control F)
  unfolding set_tier
  retarget_one point ok now c i =
      let g = c.router.groups i in
      if has_tier Tier.h c i && not (same_point g.effective (some point))
      then set_tier c i Tier.h (ok i) now
      else some c

  set_working : Control F → ClockPoint → Control F
  set_working c point = record c {
    router = record c.router { tiers = record c.router.tiers { working = some point } };
  }

  -- A new working point, and its clocks on the active groups at H.
  unfoldable pub retarget : Control F → Outlook F → List ℕ → (ℕ → Bool) → F → Option (Control F)
  unfolding retarget_one set_working
  retarget c o active ok now =
      if clock_eq o.target.point o.point
      then some c
      else for_groups (retarget_one o.target.point ok now) active (set_working c o.target.point)

  add_woken : Control F → ℕ → Roll → Roll
  add_woken c i r = record {
    active = r.active ++ (i ∷ []);
    n_routable = if is_none (c.router.groups i).effective then r.n_routable else r.n_routable + 1;
  }

  -- `while len(routable) < target.n`, with so many passes at most.
  unfoldable pub wake_up : ℕ → (ℕ → Bool) → F → ℕ → Control F → Roll → Option (Control F × Roll)
  unfolding add_woken wake
  wake_up zero ok now n c r = some (c, r)
  wake_up (suc k) ok now n c r = elim (ltb r.n_routable n) [
    | false ↦ some (c, r)
    | true ↦ elim (wake c ok now) [
      | none ↦ none
      | some (c1, woken) ↦ elim woken [
        | none ↦ some (c1, r)
        | some i ↦ wake_up k ok now n c1 (add_woken c1 i r)
      ]
    ]
  ]

  victim_key : Control F → ℕ → ℕ → Compared
  victim_key c i j =
      let a = c.router.groups i in
      let b = c.router.groups j in
      lexicographic (by_bool (not a.canary) (not b.canary))
        (lexicographic (by_int a.n_inflight b.n_inflight) (by_float a.pending_ms b.pending_ms))

  drain_one : Control F → List ℕ → Option (Control F)
  unfolding min_by victim_key
  drain_one c [] = none
  drain_one c (i ∷ is) = some (set_state GroupState.draining c (min_by (victim_key c) i is))

  -- One group drains where more serve than the target and the least number ask for.
  unfoldable pub drain : Control F → ℕ → Roll → Option (Control F)
  unfolding drain_one
  drain c n r = elim (ltb (max n c.settings.min_active_groups) r.n_routable) [
    | true ↦ drain_one c r.active
    | false ↦ some c
  ]

  -- From the log record on.
  unfoldable pub reconfigure : Control F → Outlook F → (ℕ → Bool) → F → Option (Control F)
  unfolding retarget wake_up drain
  reconfigure c o ok now = do
    let active = groups_where (λ g. is_active g.state) c
    c1 ← retarget c o active ok now
    r ←
        wake_up (c.router.n_groups + 1) ok now o.target.n c1
          (record { active = active; n_routable = o.n_routable })
    drain r.0 o.target.n r.1

  is_current : Outlook F → Bool
  is_current o = o.target.n == o.n_routable && clock_eq o.target.point o.point

  -- The second half of `_plan`.
  unfoldable pub act : Control F → Outlook F → (ℕ → Bool) → F → Option (Control F)
  unfolding overloaded warn reconfigure is_current
  act c o ok now =
      if is_best_effort c.router.settings.overload && overloaded o
      then some (warn c now)
      else if is_current o
      then some c
      else if not o.current.feasible || (o.held && (o.calm && o.gain))
      then reconfigure c o ok now
      else some c

  plan_at :
      Control F
      → Planner F
      → Solver F
      → Demand F
      → (ℕ → Bool)
      → F
      → Option ClockPoint
      → Option (Control F × Planner F)
  unfolding look act
  plan_at c p s d ok now none = none
  plan_at c p s d ok now (some point) = do
    seen ← look c p s d now point
    c1 ← act c seen.1 ok now
    some (c1, seen.0)

  -- `_plan`
  unfoldable pub plan :
      Control F
      → Planner F
      → Option (Solver F)
      → Demand F
      → (ℕ → Bool)
      → F
      → Option (Control F × Planner F)
  unfolding plan_at
  plan c p none d ok now = some (c, p)
  plan c p (some s) d ok now =
      if is_empty d.lengths
      then some (c, p)
      else plan_at c p s d ok now (clocks c.router.tiers Tier.h)
