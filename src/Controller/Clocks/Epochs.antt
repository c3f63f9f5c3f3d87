-- ===== src/Controller/Clocks/Epochs.antt =====
-- The epochs of `set_tier` (tier_controller.py) and the tickets that `finish` (router.py) learns from.
use cana_tune_llm.Base.{
  ℕ, ◌+◌, ◌≤◌, ◌≡◌, Bool, false, ◌⊎◌, inl, inr, Option, List, [], ◌∷◌, if◌then◌else◌, ◌==◌, Float,
  arith,
}
use cana_tune_llm.Domain.Tiers.{Tier, ClockPoint}
use cana_tune_llm.Router.State.{Ticket, dgroup}
use cana_tune_llm.Router.Lifecycle.Finish.{Outcome, is_clean}
use cana_tune_llm.Controller.Clocks.{Control, Change, begin_with, end_tier, note_retry}

-- One half of a clock change.
pub data ClockStep (F : Type 0) : Type 0 where
  begins : ℕ → Tier → ClockPoint → ClockStep F
  ends : Change → Bool → F → ClockStep F

module _ {F : Type 0} ⦃num : Float F⦄ where
  abbrev pub clock_step : Control F → ClockStep F → Control F
  clock_step c (ClockStep.begins i tier target) = (begin_with c i tier target).0
  clock_step c (ClockStep.ends change ok now) = end_tier c change ok now

  abbrev pub clock_steps : Control F → List (ClockStep F) → Control F
  clock_steps c [] = c
  clock_steps c (s ∷ rest) = clock_steps (clock_step c s) rest

  abbrev epoch : Control F → ℕ → ℕ
  epoch c g = c.router.clock_epochs g

  end_tier-epoch :
      (c : Control F) (change : Change) (ok : Bool) (now : F) (g : ℕ)
      → epoch (end_tier c change ok now) g
        ≡ (if change.group == g then epoch c g + 1 else epoch c g)
  unfolding end_tier note_retry
  end_tier-epoch c change ok now g = ground arith

  clock_step-epoch :
      (c : Control F) (s : ClockStep F) (g : ℕ) → epoch c g ≤ epoch (clock_step c s) g
  unfolding begin_with
  clock_step-epoch c (ClockStep.begins i tier target) g = ground arith
  clock_step-epoch c (ClockStep.ends change ok now) g =
      let e = end_tier-epoch c change ok now g in ground (arith, e)

  clock_steps-epoch :
      (c : Control F) (ss : List (ClockStep F)) (g : ℕ) → epoch c g ≤ epoch (clock_steps c ss) g
  clock_steps-epoch c [] g = omega arith
  clock_steps-epoch c (s ∷ rest) g =
      omega (arith, clock_step-epoch c s g, clock_steps-epoch (clock_step c s) rest g)

  -- A ticket taken at the present epochs of its groups or earlier is no clean sample once a clock
  -- change of its P or its D has ended, whatever clock changes follow, even back to the same clocks.
  pub clock_steps-unclean :
      (c : Control F) (change : Change) (ok : Bool) (now : F) (later : List (ClockStep F))
      (t : Ticket F) (o : Outcome F) (violated : Option Bool)
      → t.clock_epoch ≤ c.router.clock_epochs t.group
      → t.decode_epoch ≤ c.router.clock_epochs (dgroup t)
      → (change.group ≡ t.group) ⊎ (change.group ≡ dgroup t)
      → is_clean (clock_steps (end_tier c change ok now) later).router t o violated ≡ false
  clock_steps-unclean c change ok now later t o violated hp hd moved =
      let c1 = end_tier c change ok now in
      let p0 = end_tier-epoch c change ok now t.group in
      let p1 = clock_steps-epoch c1 later t.group in
      let d0 = end_tier-epoch c change ok now (dgroup t) in
      let d1 = clock_steps-epoch c1 later (dgroup t) in
      elim moved [ inl e ↦ ground arith | inr e ↦ ground arith ]
