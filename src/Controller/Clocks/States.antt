-- ===== src/Controller/Clocks/States.antt =====
-- Locking clocks (`set_tier` of tier_controller.py) leaves the states of the groups alone.
use cana_tune_llm.Domain.Groups.{Group}
use cana_tune_llm.Base.{
  ℕ, ◌≡◌, refl, Bool, Option, none, some, List, [], ◌∷◌, Float, arith, inl, inr, Option-cases,
  subst, ◌∙◌, some_injective, true, false, not, ◌&&◌, if◌then◌else◌, if_both,
}
use cana_tune_llm.Domain.Tiers.{Tier, ClockPoint, clocks}
use cana_tune_llm.Controller.Clocks.{
  Control, set_tier, set_with, begin_with, end_tier, note_retry, locked_tier, for_groups, modify,
  bump_epoch, Change, is_park, same_tier, reached, conservative,
}

-- Every group is in the state that it was in.
pub record SameStates {F : Type 0} (c c' : Control F) : Type 0 where
  pub n_groups : c'.router.n_groups ≡ c.router.n_groups
  pub settings : c'.settings ≡ c.settings
  pub full_effort : c'.router.full_effort ≡ c.router.full_effort
  pub canaries : (j : ℕ) → (c'.router.groups j).canary ≡ (c.router.groups j).canary
  pub states : (j : ℕ) → (c'.router.groups j).state ≡ (c.router.groups j).state

module _ {F : Type 0} where
  pub SameStates-refl : (c : Control F) → SameStates c c
  SameStates-refl c = record {
    n_groups = refl;
    settings = refl;
    full_effort = refl;
    canaries = λ j. refl;
    states = λ j. refl;
  }

  pub SameStates-trans : (a b c : Control F) → SameStates a b → SameStates b c → SameStates a c
  SameStates-trans a b c h k = record {
    n_groups = k.n_groups ∙ h.n_groups;
    settings = k.settings ∙ h.settings;
    full_effort = k.full_effort ∙ h.full_effort;
    canaries = λ j. k.canaries j ∙ h.canaries j;
    states = λ j. k.states j ∙ h.states j;
  }

module _ {F : Type 0} ⦃num : Float F⦄ where
  effective-SameStates :
      (c : Control F) (i : ℕ) (point : Group F → Option ClockPoint)
      → SameStates c (modify c i (λ g. record g { effective = point g }))
  effective-SameStates c i point = record {
    n_groups = refl;
    settings = refl;
    full_effort = refl;
    canaries = λ j. ground arith;
    states = λ j. ground arith;
  }

  tier-SameStates :
      (c : Control F) (i : ℕ) (tier : Tier)
      → SameStates c (modify c i (λ g. record g { tier = tier }))
  tier-SameStates c i tier = record {
    n_groups = refl;
    settings = refl;
    full_effort = refl;
    canaries = λ j. ground arith;
    states = λ j. ground arith;
  }

  bump_epoch-SameStates : (c : Control F) (i : ℕ) → SameStates c (bump_epoch c i)
  bump_epoch-SameStates c i = record {
    n_groups = refl;
    settings = refl;
    full_effort = refl;
    canaries = λ j. refl;
    states = λ j. refl;
  }

  begin_with-SameStates :
      (c : Control F) (i : ℕ) (tier : Tier) (target : ClockPoint)
      → SameStates c (begin_with c i tier target).0
  unfolding begin_with
  begin_with-SameStates c i tier target =
      let c1 = modify c i (λ g. record g { tier = tier }) in
      let c2 = bump_epoch c1 i in
      let old = (c.router.groups i).effective in
      let point = if is_park tier then none else conservative old target in
      SameStates-trans c c2 _
        (SameStates-trans c c1 c2 (tier-SameStates c i tier) (bump_epoch-SameStates c1 i))
        (effective-SameStates c2 i (λ g. point))

  note_retry-SameStates :
      (c : Control F) (now : F) (ok : Bool) (i : ℕ) → SameStates c (note_retry c now ok i)
  unfolding note_retry
  note_retry-SameStates c now true i = record {
    n_groups = refl;
    settings = refl;
    full_effort = refl;
    canaries = λ j. refl;
    states = λ j. refl;
  }
  note_retry-SameStates c now false i = record {
    n_groups = refl;
    settings = refl;
    full_effort = refl;
    canaries = λ j. refl;
    states = λ j. refl;
  }

  end_tier-SameStates :
      (c : Control F) (change : Change) (ok : Bool) (now : F)
      → SameStates c (end_tier c change ok now)
  unfolding end_tier
  end_tier-SameStates c change ok now =
      let i = change.group in
      let current = same_tier (c.router.groups i).tier change.tier in
      let noted = note_retry c now ok i in
      let c1 = if current then noted else c in
      let first =
        if_both (SameStates c) current noted c (note_retry-SameStates c now ok i)
          (SameStates-refl c) in
      let moved =
        modify c1 i
          (λ g. record g { effective = reached ok change.old g.effective change.target }) in
      let cond = not (is_park change.tier) && current in
      let c2 = if cond then moved else c1 in
      let second =
        if_both (SameStates c1) cond moved c1
          (effective-SameStates c1 i (λ g. reached ok change.old g.effective change.target))
          (SameStates-refl c1) in
      SameStates-trans c c2 (bump_epoch c2 i) (SameStates-trans c c1 c2 first second)
        (bump_epoch-SameStates c2 i)

  set_with-SameStates :
      (c : Control F) (i : ℕ) (tier : Tier) (ok : Bool) (now : F) (target : Option ClockPoint)
      → (after : Control F) → set_with c i tier ok now target ≡ some after
      → SameStates c after
  unfolding set_with
  set_with-SameStates c i tier ok now none after e = ground arith
  set_with-SameStates c i tier ok now (some target) after e =
      let (c1, change) = begin_with c i tier target in
      subst (SameStates c) (some_injective e) (
        SameStates-trans c c1 (end_tier c1 change ok now) (begin_with-SameStates c i tier target)
          (end_tier-SameStates c1 change ok now))

  -- Locking clocks changes no state.
  pub set_tier-SameStates :
      (c : Control F) (i : ℕ) (tier : Tier) (ok : Bool) (now : F) (after : Control F)
      → set_tier c i tier ok now ≡ some after
      → SameStates c after
  unfolding set_tier
  set_tier-SameStates c i tier ok now after =
      set_with-SameStates c i tier ok now
        (clocks c.router.tiers (locked_tier c.settings.production_clocks tier)) after

  -- A loop over groups whose step changes no state.
  pub for_groups-SameStates :
      (f : Control F → ℕ → Option (Control F))
      → ((c : Control F) (i : ℕ) (after : Control F) → f c i ≡ some after → SameStates c after)
      → (is : List ℕ) (c after : Control F) → for_groups f is c ≡ some after
      → SameStates c after
  for_groups-SameStates f step [] c after e =
      subst (SameStates c) (some_injective e) (SameStates-refl c)
  for_groups-SameStates f step (i ∷ is) c after e = elim (Option-cases (f c i)) [
    | inl raised ↦ ground arith
    | inr (c1, found) ↦
        let rest : for_groups f is c1 ≡ some after = ground arith in
        SameStates-trans c c1 after (step c i c1 found)
          (for_groups-SameStates f step is c1 after rest)
  ]
