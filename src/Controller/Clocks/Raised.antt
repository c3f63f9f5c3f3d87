-- ===== src/Controller/Clocks/Raised.antt =====
-- `set_tier` (tier_controller.py) to MAX always succeeds and touches one group.
use cana_tune_llm.Base.{ℕ, ◌≡◌, Bool, false, some, ◌==◌, Float, arith}
use cana_tune_llm.Domain.Tiers.{Tier, clocks}
use cana_tune_llm.Controller.Clocks.{Control, set_tier, set_with, begin_with, end_tier, note_retry}

module _ {F : Type 0} ⦃num : Float F⦄ (ok : Bool) (now : F) where
  -- The change of one group to MAX.
  pub record ToMax (c : Control F) (i : ℕ) : Type 0 where
    pub after : Control F
    pub result : set_tier c i Tier.max ok now ≡ some after
    pub tier : (after.router.groups i).tier ≡ Tier.max
    pub state : (after.router.groups i).state ≡ (c.router.groups i).state
    pub others : (j : ℕ) → (i == j) ≡ false → after.router.groups j ≡ c.router.groups j

  pub set_tier-ToMax : (c : Control F) (i : ℕ) → ToMax c i
  unfolding set_tier set_with clocks begin_with end_tier note_retry
  set_tier-ToMax c i =
      let target = c.router.tiers.max_point in
      let (c1, change) = begin_with c i Tier.max target in
      record {
        after = end_tier c1 change ok now;
        result = ground arith;
        tier = ground arith;
        state = ground arith;
        others = λ j h. ground arith;
      }
