-- ===== src/Controller/Clocks/Effective.antt =====
-- The clocks that the Router sees while `set_tier` (tier_controller.py) locks a group.
use cana_tune_llm.Base.{
  ℕ, ◌≤◌, ◌≡◌, refl, Bool, true, false, Option, none, some, Float, arith, sym, ap, subst, ◌∙◌,
}
use cana_tune_llm.Domain.Tiers.{Tier, ClockPoint, slower}
use cana_tune_llm.Controller.Clocks.{
  Control, same_tier, is_park, conservative, begin_with, end_tier, note_retry, reached,
}

-- Both clocks of the point, if there is one, are at most those of the limit.
abbrev pub Below : Option ClockPoint → ClockPoint → Type 0
Below none limit = Unit
Below (some p) limit = (p.prefill_mhz ≤ limit.prefill_mhz) × (p.decode_mhz ≤ limit.decode_mhz)

abbrev pub BelowOld : Option ClockPoint → Option ClockPoint → Type 0
BelowOld point none = (point ≡ none)
BelowOld point (some old) = Below point old

conservative-Below :
    (old : Option ClockPoint) (target : ClockPoint)
    → BelowOld (conservative old target) old × Below (conservative old target) target
unfolding slower
conservative-Below none target = (refl, tt)
conservative-Below (some old) target = (ground arith, ground arith)

abbrev pub tier_effective : {F : Type 0} → Control F → ℕ → Option ClockPoint
tier_effective c i = (c.router.groups i).effective

same_tier_refl : (tier : Tier) → same_tier tier tier ≡ true
same_tier_refl tier = ground arith

reached_failed :
    (old : Option ClockPoint) (target : ClockPoint)
    → reached false old (conservative old target) target ≡ conservative old target
reached_failed none target = refl
reached_failed (some old) target = refl

module _ {F : Type 0} ⦃num : Float F⦄ (c : Control F) (i : ℕ) (tier : Tier)
    (target : ClockPoint) where
  begin_with-effective :
      is_park tier ≡ false
      → tier_effective (begin_with c i tier target).0 i ≡ conservative (tier_effective c i) target
  unfolding begin_with
  begin_with-effective moving = ground arith

  end_tier-effective :
      (ok : Bool) (now : F)
      → is_park tier ≡ false
      → let (c1, change) = begin_with c i tier target in
        tier_effective (end_tier c1 change ok now) i
        ≡ reached ok (tier_effective c i) (conservative (tier_effective c i) target) target
  unfolding begin_with end_tier note_retry
  end_tier-effective ok now moving = let same = same_tier_refl tier in ground arith

  -- For a tier other than Park, while the locks are under way the Router sees no clock above the
  -- old point or the target; once they hold it sees the target, and when one fails still no clock
  -- above either (and none after Park).
  pub set_tier-effective :
      (ok : Bool) (now : F)
      → is_park tier ≡ false
      → let (c1, change) = begin_with c i tier target in
        let old = tier_effective c i in
        let during = tier_effective c1 i in
        let after = tier_effective (end_tier c1 change ok now) i in
        (BelowOld during old × Below during target)
        × ((ok ≡ true → after ≡ some target)
            × (ok ≡ false → BelowOld after old × Below after target))
  set_tier-effective ok now moving =
      let (c1, change) = begin_with c i tier target in
      let old = tier_effective c i in
      let P = λ (point : Option ClockPoint). BelowOld point old × Below point target in
      let k = conservative-Below old target in
      let e = end_tier-effective ok now moving in
      let after = tier_effective (end_tier c1 change ok now) i in
      (
        subst P (sym (begin_with-effective moving)) k,
        (
          (λ t. e ∙ ap (λ b. reached b old (conservative old target) target) t),
          λ f.
              let e' = e ∙ ap (λ b. reached b old (conservative old target) target) f in
              subst P (sym (e' ∙ reached_failed old target)) k,
        ),
      )
