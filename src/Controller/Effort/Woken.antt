-- ===== src/Controller/Effort/Woken.antt =====
-- What `wake` (tier_controller.py) does to the states of the groups.
use cana_tune_llm.Base.{
  ℕ, ◌<◌, ◌≡◌, Bool, true, false, not, none, some, List, [], ◌∷◌, ◌==◌, Float, All, All-append,
  All-keep_if, All_keep_if, keep_if, arith, inl, inr, Option-cases, subst, All_and,
}
use cana_tune_llm.Domain.Tiers.{Tier, GroupState}
use cana_tune_llm.Domain.Groups.{is_active}
use cana_tune_llm.Domain.Risk.{range_from}
use cana_tune_llm.Domain.Risk.Ranges.{range-All_below}
use cana_tune_llm.Controller.Clocks.{Control, set_tier, set_state}
use cana_tune_llm.Controller.Clocks.States.{set_tier-SameStates}
use cana_tune_llm.Controller.Effort.{is_parked, production_first, wake_first, wake}

abbrev pub parked_at : {F : Type 0} → Control F → ℕ → Bool
parked_at c i = is_parked (c.router.groups i).state

abbrev pub active_at : {F : Type 0} → Control F → ℕ → Bool
active_at c i = is_active (c.router.groups i).state

-- A parked group that exists is active now, and no other group changed its state.
pub record Wakes {F : Type 0} (c after : Control F) (i : ℕ) : Type 0 where
  pub n_groups : after.router.n_groups ≡ c.router.n_groups
  pub settings : after.settings ≡ c.settings
  pub known : i < c.router.n_groups
  pub parked : parked_at c i ≡ true
  pub state : (after.router.groups i).state ≡ GroupState.active
  pub others :
      (j : ℕ) → (i == j) ≡ false → (after.router.groups j).state ≡ (c.router.groups j).state

module _ {F : Type 0} ⦃num : Float F⦄ where
  abbrev IsCandidate : Control F → ℕ → Type 0
  IsCandidate c i = (i < c.router.n_groups) × (parked_at c i ≡ true)

  candidates-All :
      (c : Control F)
      → All
          (IsCandidate c)
          (production_first c (keep_if (parked_at c) (range_from 0 c.router.n_groups)))
  unfolding production_first
  candidates-All c =
      let n = c.router.n_groups in
      let parked = keep_if (parked_at c) (range_from 0 n) in
      let all =
        All_and (λ i. i < n) (λ i. parked_at c i ≡ true) parked
          (All-keep_if (λ i. i < n) (parked_at c) (range_from 0 n) (range-All_below n))
          (All_keep_if (parked_at c) (range_from 0 n)) in
      All-append (IsCandidate c) (keep_if (λ i. not (c.router.groups i).canary) parked)
        (keep_if (λ i. (c.router.groups i).canary) parked)
        (All-keep_if (IsCandidate c) (λ i. not (c.router.groups i).canary) parked all)
        (All-keep_if (IsCandidate c) (λ i. (c.router.groups i).canary) parked all)

  wake_first-Wakes :
      (c : Control F) (ok : ℕ → Bool) (now : F) (is : List ℕ) (after : Control F) (i : ℕ)
      → All (IsCandidate c) is
      → wake_first c ok now is ≡ some (after, some i)
      → Wakes c after i
  unfolding wake_first
  wake_first-Wakes c ok now [] after i all e = ground arith
  wake_first-Wakes c ok now (k ∷ is) after i all e =
      let c1 = set_state GroupState.active c k in
      elim (Option-cases (set_tier c1 k Tier.h (ok k) now)) [
        | inl raised ↦ ground arith
        | inr (c2, found) ↦
            let same = set_tier-SameStates c1 k Tier.h (ok k) now c2 found in
            let at : k ≡ i = ground arith in
            let to : c2 ≡ after = ground arith in
            subst (λ (x : Control F). Wakes c x i) to
              (subst (Wakes c c2) at (record {
                n_groups = same.n_groups;
                settings = same.settings;
                known = all.0.0;
                parked = all.0.1;
                state = let s = same.states k in ground (arith, s);
                others = λ j ne. let s = same.states j in ground (arith, s);
              }))
      ]

  -- What is woken was parked.
  pub wake-Wakes :
      (c : Control F) (ok : ℕ → Bool) (now : F) (after : Control F) (i : ℕ)
      → wake c ok now ≡ some (after, some i)
      → Wakes c after i
  unfolding wake
  wake-Wakes c ok now after i =
      wake_first-Wakes c ok now
        (production_first c (keep_if (parked_at c) (range_from 0 c.router.n_groups))) after i
        (candidates-All c)

  wake_first-none :
      (c : Control F) (ok : ℕ → Bool) (now : F) (is : List ℕ) (after : Control F)
      → wake_first c ok now is ≡ some (after, none)
      → after ≡ c
  unfolding wake_first
  wake_first-none c ok now [] after e = ground arith
  wake_first-none c ok now (k ∷ is) after e = ground arith

  -- Where no group is parked, nothing changes.
  pub wake-none :
      (c : Control F) (ok : ℕ → Bool) (now : F) (after : Control F)
      → wake c ok now ≡ some (after, none)
      → after ≡ c
  unfolding wake
  wake-none c ok now after =
      wake_first-none c ok now
        (production_first c (keep_if (parked_at c) (range_from 0 c.router.n_groups))) after
