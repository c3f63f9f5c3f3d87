-- ===== src/Controller/Plan/Decide/Enough.antt =====
-- The waking loop of `_plan` (tier_controller.py) ends within the passes that the model allows it.
use cana_tune_llm.Base.{
  ℕ, zero, suc, ◌+◌, ◌≤◌, ◌<◌, ◌≡◌, refl, sym, Bool, Float, arith, inl, inr, Option-cases, subst,
  keep_if, List, [], ◌∷◌, length,
}
use cana_tune_llm.Domain.Risk.{range_from}
use cana_tune_llm.Controller.Clocks.{Control}
use cana_tune_llm.Controller.Effort.{wake}
use cana_tune_llm.Controller.Effort.Woken.{Wakes, wake-Wakes, parked_at}
use cana_tune_llm.Controller.Plan.Counts.{count, count_gain}
use cana_tune_llm.Controller.Plan.Decide.{Roll, add_woken, wake_up}

abbrev parked_count : {F : Type 0} → Control F → ℕ
parked_count c = count (parked_at c) 0 c.router.n_groups

Wakes-parked_count :
    {F : Type 0} (c after : Control F) (i : ℕ)
    → Wakes c after i
    → parked_count c ≡ parked_count after + 1
Wakes-parked_count c after i w =
    let gain =
      count_gain (parked_at after) (parked_at c) i 0 c.router.n_groups
        (λ j ne. let s = w.others j ne in ground (arith, s)) (let s = w.state in ground (arith, s))
        w.parked (omega arith) (let k = w.known in omega (arith, k)) in
    subst (λ m. parked_count c ≡ count (parked_at after) 0 m + 1) (sym w.n_groups) gain

length-keep_if : (p : ℕ → Bool) (is : List ℕ) → length (keep_if p is) ≤ length is
length-keep_if p [] = omega arith
length-keep_if p (i ∷ is) = ground (arith, length-keep_if p is)

length-range : (start m : ℕ) → length (range_from start m) ≡ m
unfolding range_from
length-range start zero = refl
length-range start (suc m) = omega (arith, length-range (start + 1) m)

module _ {F : Type 0} ⦃num : Float F⦄ (ok : ℕ → Bool) (now : F) (n : ℕ) where
  -- With more passes than parked groups, their number does not matter.
  wake_up-enough :
      (k m : ℕ) (c : Control F) (r : Roll)
      → parked_count c < k
      → parked_count c < m
      → wake_up k ok now n c r ≡ wake_up m ok now n c r
  unfolding wake_up
  wake_up-enough zero m c r h h' = absurd (omega (arith, h))
  wake_up-enough (suc k) zero c r h h' = absurd (omega (arith, h'))
  wake_up-enough (suc k) (suc m) c r h h' = elim (Option-cases (wake c ok now)) [
    | inl raised ↦ ground arith
    | inr ((c1, woken), found) ↦ elim (Option-cases woken) [
      | inl nobody ↦ ground arith
      | inr (i, someone) ↦
          let w = wake-Wakes c ok now c1 i (ground arith) in
          let fewer = Wakes-parked_count c c1 i w in
          let rest =
            wake_up-enough k m c1 (add_woken c1 i r) (omega (arith, h, fewer))
              (omega (arith, h', fewer)) in
          ground (arith, rest)
    ]
  ]

  parked_count-le : (c : Control F) → parked_count c ≤ c.router.n_groups
  parked_count-le c =
      let le = length-keep_if (parked_at c) (range_from 0 c.router.n_groups) in
      omega (arith, le, length-range 0 c.router.n_groups)

  pub wake_up-ends :
      (m : ℕ) (c : Control F) (r : Roll)
      → c.router.n_groups < m
      → wake_up (c.router.n_groups + 1) ok now n c r ≡ wake_up m ok now n c r
  wake_up-ends m c r h =
      let le = parked_count-le c in
      wake_up-enough (c.router.n_groups + 1) m c r (omega (arith, le)) (omega (arith, le, h))
