-- ===== src/Canary/Scheduler/Owner.antt =====
-- Which group is the Canary's (canary.py), through the steps of the scheduler and the Controller.
use cana_tune_llm.Base.{
  ℕ, ◌≡◌, refl, ◌∙◌, ap, Bool, true, false, Option, none, some, List, [], ◌∷◌, keep_if, arith,
  if_both,
}
use cana_tune_llm.Domain.Tiers.{GroupState}
use cana_tune_llm.Domain.Risk.{range_from}
use cana_tune_llm.Controller.Clocks.{Control, set_state}
use cana_tune_llm.Controller.Clocks.States.{SameStates}
use cana_tune_llm.Controller.Effort.{is_exploring}
use cana_tune_llm.Canary.Scheduler.{Site, Kind, Reason, set_scheduler, canary, head_of}
use cana_tune_llm.Canary.Scheduler.Steps.{
  set_control, state_of, release, released, release_group, undrain, drop_pending,
}

-- The same groups are the Canary's.
pub record SameCanary {F : Type 0} (c c' : Control F) : Type 0 where
  pub n_groups : c'.router.n_groups ≡ c.router.n_groups
  pub canaries : (j : ℕ) → (c'.router.groups j).canary ≡ (c.router.groups j).canary

keep_if_agree : (p q : ℕ → Bool) (is : List ℕ) → ((j : ℕ) → p j ≡ q j) → keep_if p is ≡ keep_if q is
keep_if_agree p q [] h = refl
keep_if_agree p q (i ∷ is) h =
    let own = h i in let rest = keep_if_agree p q is h in ground (arith, own, rest)

module _ {F : Type 0} where
  pub SameCanary-refl : (c : Control F) → SameCanary c c
  SameCanary-refl c = record { n_groups = refl; canaries = λ j. refl }

  pub SameCanary-trans : (a b c : Control F) → SameCanary a b → SameCanary b c → SameCanary a c
  SameCanary-trans a b c h k = record {
    n_groups = k.n_groups ∙ h.n_groups;
    canaries = λ j. k.canaries j ∙ h.canaries j;
  }

  pub SameStates-SameCanary : (c c' : Control F) → SameStates c c' → SameCanary c c'
  SameStates-SameCanary c c' h = record { n_groups = h.n_groups; canaries = h.canaries }

  pub set_state-SameCanary :
      (state : GroupState) (c : Control F) (i : ℕ) → SameCanary c (set_state state c i)
  set_state-SameCanary state c i = record { n_groups = refl; canaries = λ j. ground arith }

  pub canary-SameCanary : (c c' : Control F) → SameCanary c c' → canary c' ≡ canary c
  unfolding canary
  canary-SameCanary c c' h =
      let p = λ (j : ℕ). (c.router.groups j).canary in
      let p' = λ (j : ℕ). (c'.router.groups j).canary in
      ap (λ (n : ℕ). head_of (keep_if p' (range_from 0 n))) h.n_groups
      ∙ ap head_of (keep_if_agree p' p (range_from 0 c.router.n_groups) h.canaries)

module _ {F : Type 0} where
  -- A step of the scheduler that leaves the Canary's groups alone.
  abbrev pub Keeps : Site F → Site F → Type 0
  Keeps w w' = SameCanary w.control w'.control

  pub Keeps-refl : (w : Site F) → Keeps w w
  Keeps-refl w = SameCanary-refl w.control

  pub Keeps-trans : (a b c : Site F) → Keeps a b → Keeps b c → Keeps a c
  Keeps-trans a b c h k = SameCanary-trans a.control b.control c.control h k

  undrain-Keeps : (w : Site F) (o : Option ℕ) → Keeps w (undrain w o)
  unfolding undrain
  undrain-Keeps w none = Keeps-refl w
  undrain-Keeps w (some i) =
      if_both (Keeps w) _ (set_control w (λ c. set_state GroupState.active c i)) w
        (set_state-SameCanary GroupState.active w.control i) (Keeps-refl w)

  pub drop_pending-Keeps :
      (w : Site F) (claim : Option (Kind × Reason)) → Keeps w (drop_pending w claim)
  unfolding drop_pending
  drop_pending-Keeps w none = Keeps-refl w
  drop_pending-Keeps w (some claim) =
      undrain-Keeps (set_scheduler w (λ x. record x { pending = none })) (canary w.control)

  release_group-Keeps : (w : Site F) (i : ℕ) → Keeps w (release_group w i)
  unfolding release_group
  release_group-Keeps w i = record { n_groups = refl; canaries = λ j. ground arith }

  released-Keeps : (w : Site F) (quiet : Bool) (o : Option ℕ) → Keeps w (released w quiet o).0
  unfolding released
  released-Keeps w quiet none = Keeps-refl w
  released-Keeps w quiet (some i) =
      let P = λ (r : Site F × Bool). Keeps w r.0 in
      if_both P (is_exploring (state_of w i)) _ (w, true)
        (if_both P quiet (release_group w i, true) (w, false) (release_group-Keeps w i)
          (Keeps-refl w))
        (Keeps-refl w)

  pub release-Keeps : (w : Site F) (quiet : Bool) → Keeps w (release w quiet).0
  unfolding release
  release-Keeps w quiet =
      released-Keeps (set_scheduler w (λ x. record x { pending = none })) quiet (canary w.control)
