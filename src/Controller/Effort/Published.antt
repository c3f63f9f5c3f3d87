-- ===== src/Controller/Effort/Published.antt =====
-- Publishing a table (`publish` of tier_controller.py) changes no state.
use cana_tune_llm.Base.{
  ℕ, ◌≡◌, Bool, not, ◌&&◌, none, some, if◌then◌else◌, Float, arith, inl, inr, Bool-cases, subst,
  some_injective,
}
use cana_tune_llm.Domain.Tiers.{Tier, TierTable, clocks}
use cana_tune_llm.Domain.Groups.{is_active}
use cana_tune_llm.Domain.Risk.{range_from}
use cana_tune_llm.Controller.Clocks.{Control}
use cana_tune_llm.Controller.Clocks.States.{
  SameStates, SameStates-refl, set_tier-SameStates, for_groups-SameStates,
}
use cana_tune_llm.Controller.Effort.{publish_one, publish, same_point}

module _ {F : Type 0} ⦃num : Float F⦄ where
  publish_one-SameStates :
      (ok : ℕ → Bool) (now : F) (c : Control F) (i : ℕ) (after : Control F)
      → publish_one ok now c i ≡ some after
      → SameStates c after
  unfolding publish_one
  publish_one-SameStates ok now c i after e =
      let tier = if c.full_effort then Tier.max else Tier.h in
      let g = c.router.groups i in
      let moves = is_active g.state && not (same_point g.effective (clocks c.router.tiers tier)) in
      elim (Bool-cases moves) [
        | inl moved ↦ set_tier-SameStates c i tier (ok i) now after (ground arith)
        | inr still ↦ subst (SameStates c) (some_injective (ground arith)) (SameStates-refl c)
      ]

  pub publish-SameStates :
      (c : Control F) (t : TierTable F) (ok : ℕ → Bool) (now : F) (after : Control F)
      → publish c t ok now ≡ some after
      → SameStates c after
  unfolding publish
  publish-SameStates c t ok now after e =
      let tiers = record c.router.tiers { table = some t; working = none } in
      let c1 : Control F = record c { router = record c.router { tiers = tiers } } in
      let loop =
        for_groups-SameStates (publish_one ok now) (publish_one-SameStates ok now)
          (range_from 0 c.router.n_groups) c1 after e in
      record {
        n_groups = loop.n_groups;
        settings = loop.settings;
        full_effort = loop.full_effort;
        canaries = loop.canaries;
        states = loop.states;
      }
