-- ===== src/Controller/Plan/Decide/Spared.antt =====
-- `_plan` (tier_controller.py) as a whole: groups only move forward and enough of them stay active.
use cana_tune_llm.Base.{
  ℕ, ◌+◌, ◌≤◌, ◌≡◌, refl, Bool, true, not, ◌&&◌, ◌||◌, Option, none, some, List, [], ◌∷◌, ◌==◌, ltb,
  max, Float, All, All_keep_if, arith, inl, inr, Bool-cases, Option-cases, subst, some_injective,
  length, min_by, min_by-All, is_empty,
}
use cana_tune_llm.Domain.Tiers.{Tier, GroupState, ClockPoint, clocks}
use cana_tune_llm.Domain.Groups.{is_active, routable}
use cana_tune_llm.Domain.Risk.{clock_eq, range_from}
use cana_tune_llm.Domain.Cluster.Uniform.{Solver}
use cana_tune_llm.Router.Latency.{is_best_effort}
use cana_tune_llm.Controller.Clocks.{Control, set_state}
use cana_tune_llm.Controller.Clocks.States.{
  SameStates, SameStates-refl, set_tier-SameStates, for_groups-SameStates,
}
use cana_tune_llm.Controller.Effort.{same_point}
use cana_tune_llm.Controller.Effort.Woken.{active_at}
use cana_tune_llm.Controller.Plan.{Planner, Demand, groups_where, has_tier}
use cana_tune_llm.Controller.Plan.Counts.{count_mono, count_drop}
use cana_tune_llm.Controller.Plan.Decide.{
  Outlook, Roll, overloaded, warn, retarget_one, set_working, retarget, wake_up, victim_key,
  drain_one, drain, reconfigure, is_current, act, look, plan_at, plan,
}
use cana_tune_llm.Controller.Plan.Decide.Kept.{
  Spares, IsRoll, active_count, SameStates-Spares, Spares-trans, SameStates-IsRoll, wake_up-Spares,
}

module _ {F : Type 0} ⦃num : Float F⦄ where
  retarget_one-SameStates :
      (point : ClockPoint) (ok : ℕ → Bool) (now : F) (c : Control F) (i : ℕ) (after : Control F)
      → retarget_one point ok now c i ≡ some after
      → SameStates c after
  unfolding retarget_one
  retarget_one-SameStates point ok now c i after e =
      let moves =
        has_tier Tier.h c i && not (same_point (c.router.groups i).effective (some point)) in
      elim (Bool-cases moves) [
        | inl moved ↦ set_tier-SameStates c i Tier.h (ok i) now after (ground arith)
        | inr still ↦ subst (SameStates c) (some_injective (ground arith)) (SameStates-refl c)
      ]

  retarget-SameStates :
      (c : Control F) (o : Outlook F) (active : List ℕ) (ok : ℕ → Bool) (now : F)
      (after : Control F)
      → retarget c o active ok now ≡ some after
      → SameStates c after
  unfolding retarget set_working
  retarget-SameStates c o active ok now after e =
      elim (Bool-cases (clock_eq o.target.point o.point)) [
        | inl same ↦ subst (SameStates c) (some_injective (ground arith)) (SameStates-refl c)
        | inr new ↦
            let c1 = set_working c o.target.point in
            let loop =
              for_groups-SameStates (retarget_one o.target.point ok now)
                (retarget_one-SameStates o.target.point ok now) active c1 after (ground arith) in
            record {
              n_groups = loop.n_groups;
              settings = loop.settings;
              full_effort = loop.full_effort;
              canaries = loop.canaries;
              states = loop.states;
            }
      ]

  drained-Spares :
      (c : Control F) (i least : ℕ)
      → active_at c i ≡ true
      → least + 1 ≤ active_count c
      → Spares least c (set_state GroupState.draining c i)
  drained-Spares c i least on enough = record {
    n_groups = refl;
    settings = refl;
    forward = λ j. elim (Bool-cases (i == j)) [
      | inl e ↦
          let at : i ≡ j = ground arith in
          let on' = subst (λ k. active_at c k ≡ true) at on in (ground arith, ground arith)
      | inr e ↦ (ground arith, ground arith)
    ];
    enough =
        let after = set_state GroupState.draining c i in
        let le =
          count_drop (active_at c) (active_at after) i 0 c.router.n_groups (λ j ne. ground arith) in
        omega (arith, le, enough);
  }

  drain_one-Spares :
      (c : Control F) (is : List ℕ) (least : ℕ) (after : Control F)
      → All (λ i. active_at c i ≡ true) is
      → least + 1 ≤ active_count c
      → drain_one c is ≡ some after
      → Spares least c after
  unfolding drain_one
  drain_one-Spares c [] least after all enough e = ground arith
  drain_one-Spares c (i ∷ is) least after all enough e = subst (Spares least c) (some_injective e) (
      drained-Spares c (min_by (victim_key c) i is) least
        (min_by-All (λ j. active_at c j ≡ true) (victim_key c) i is all.0 all.1) enough)

  drain-Spares :
      (c : Control F) (n : ℕ) (r : Roll) (after : Control F)
      → IsRoll c r
      → drain c n r ≡ some after
      → Spares c.settings.min_active_groups c after
  unfolding drain
  drain-Spares c n r after roll e =
      let least = c.settings.min_active_groups in
      elim (Bool-cases (ltb (max n least) r.n_routable)) [
        | inl more ↦
            drain_one-Spares c r.active least after roll.listed
              (let k = roll.counted in ground (arith, k)) (ground arith)
        | inr stop ↦
            subst (Spares least c) (some_injective (ground arith))
              (SameStates-Spares least c c (SameStates-refl c))
      ]

  reconfigure-Spares :
      (c : Control F) (o : Outlook F) (ok : ℕ → Bool) (now : F) (after : Control F)
      → o.n_routable ≤ active_count c
      → reconfigure c o ok now ≡ some after
      → Spares c.settings.min_active_groups c after
  unfolding reconfigure
  reconfigure-Spares c o ok now after counted e =
      let least = c.settings.min_active_groups in
      let active = groups_where (λ g. is_active g.state) c in
      let roll : Roll = record { active = active; n_routable = o.n_routable } in
      elim (Option-cases (retarget c o active ok now)) [
        | inl raised ↦ ground arith
        | inr (c1, moved) ↦
            let same = retarget-SameStates c o active ok now c1 moved in
            let start : IsRoll c roll = record {
              counted = counted;
              listed = All_keep_if (active_at c) (range_from 0 c.router.n_groups);
            } in
            elim (Option-cases (wake_up (c.router.n_groups + 1) ok now o.target.n c1 roll)) [
              | inl raised ↦ ground arith
              | inr ((c2, r2), woken) ↦
                  let (spares, roll2) =
                    wake_up-Spares least (c.router.n_groups + 1) ok now o.target.n c1 roll c2 r2
                      (SameStates-IsRoll c c1 roll same start) woken in
                  let last : drain c2 o.target.n r2 ≡ some after = ground arith in
                  let upto =
                    Spares-trans least c c1 c2 (SameStates-Spares least c c1 same) spares in
                  Spares-trans least c c2 after upto (
                    subst (λ s. Spares s.min_active_groups c2 after) upto.settings
                      (drain-Spares c2 o.target.n r2 after roll2 last))
            ]
      ]

  warn-SameStates : (c : Control F) (now : F) → SameStates c (warn c now)
  unfolding warn
  warn-SameStates c now = record {
    n_groups = ground arith;
    settings = ground arith;
    full_effort = ground arith;
    canaries = λ j. ground arith;
    states = λ j. ground arith;
  }

  act-Spares :
      (c : Control F) (o : Outlook F) (ok : ℕ → Bool) (now : F) (after : Control F)
      → o.n_routable ≤ active_count c
      → act c o ok now ≡ some after
      → Spares c.settings.min_active_groups c after
  unfolding act
  act-Spares c o ok now after counted e =
      let least = c.settings.min_active_groups in
      let stays : (d : Control F) → SameStates c d → some d ≡ some after → Spares least c after =
        λ d h q. subst (Spares least c) (some_injective q) (SameStates-Spares least c d h) in
      elim (Bool-cases (is_best_effort c.router.settings.overload && overloaded o)) [
        | inl over ↦ stays (warn c now) (warn-SameStates c now) (ground arith)
        | inr fits ↦ elim (Bool-cases (is_current o)) [
          | inl current ↦ stays c (SameStates-refl c) (ground arith)
          | inr new ↦ elim (Bool-cases (not o.current.feasible || (o.held && (o.calm && o.gain)))) [
            | inl due ↦ reconfigure-Spares c o ok now after counted (ground arith)
            | inr wait ↦ stays c (SameStates-refl c) (ground arith)
          ]
        ]
      ]

  look-counted :
      (c : Control F) (p : Planner F) (s : Solver F) (d : Demand F) (now : F) (point : ClockPoint)
      → (p' : Planner F) (o : Outlook F) → look c p s d now point ≡ some (p', o)
      → o.n_routable ≤ active_count c
  unfolding look
  look-counted c p s d now point p' o e =
      let le =
        count_mono (λ i. routable (c.router.groups i)) (active_at c) 0 c.router.n_groups
          (λ j on. ground arith) in
      let same : length (groups_where routable c) ≡ o.n_routable = ground arith in
      omega (arith, le, same)

  plan_at-Spares :
      (c : Control F) (p : Planner F) (s : Solver F) (d : Demand F) (ok : ℕ → Bool) (now : F)
      → (point : Option ClockPoint) (c' : Control F) (p' : Planner F)
      → plan_at c p s d ok now point ≡ some (c', p')
      → Spares c.settings.min_active_groups c c'
  unfolding plan_at
  plan_at-Spares c p s d ok now none c' p' e = ground arith
  plan_at-Spares c p s d ok now (some point) c' p' e =
      elim (Option-cases (look c p s d now point)) [
        | inl raised ↦ ground arith
        | inr ((p1, o), seen) ↦ elim (Option-cases (act c o ok now)) [
          | inl raised ↦ ground arith
          | inr (c1, done) ↦
              let same : c1 ≡ c' = ground arith in
              subst (Spares c.settings.min_active_groups c) same
                (act-Spares c o ok now c1 (look-counted c p s d now point p1 o seen) done)
        ]
      ]

  pub plan-Spares :
      (c : Control F) (p : Planner F) (s : Option (Solver F)) (d : Demand F) (ok : ℕ → Bool)
      (now : F)
      → (c' : Control F) (p' : Planner F) → plan c p s d ok now ≡ some (c', p')
      → Spares c.settings.min_active_groups c c'
  unfolding plan
  plan-Spares c p none d ok now c' p' e =
      let same : c ≡ c' = ground arith in
      let least = c.settings.min_active_groups in
      subst (Spares least c) same (SameStates-Spares least c c (SameStates-refl c))
  plan-Spares c p (some s) d ok now c' p' e = elim (Bool-cases (is_empty d.lengths)) [
    | inl blind ↦
        let same : c ≡ c' = ground arith in
        let least = c.settings.min_active_groups in
        subst (Spares least c) same (SameStates-Spares least c c (SameStates-refl c))
    | inr seeing ↦ plan_at-Spares c p s d ok now (clocks c.router.tiers Tier.h) c' p' (ground arith)
  ]
