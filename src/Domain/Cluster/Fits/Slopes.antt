-- ===== src/Domain/Cluster/Fits/Slopes.antt =====
-- The slopes that `fit_decode` (models.py) finds.
use cana_tune_llm.Base.{
  ℕ, zero, suc, ◌/◌, ◌≡◌, refl, ◌||◌, Option, none, some, List, [], ◌∷◌, map, ◌==◌, Float, of_nat,
  ◌≼◌, All, All-append, arith, if_case, any, is_empty, subst, length, get_elem?, sort_by,
  sort_by-All, by_float,
}
use cana_tune_llm.Domain.Cluster.{Pairs}
use cana_tune_llm.Domain.Cluster.Fits.{
  fit_line, own_fit, own_fits, median, shared_fit, shared_fits, with_shared, fit_decode,
}

All-get_elem? :
    {A : Type 0} (P : A → Type 0) (xs : List A) (i : ℕ) (x : A)
    → All P xs
    → get_elem? xs i ≡ some x
    → P x
All-get_elem? P [] i x h e = ground arith
All-get_elem? P (y ∷ ys) zero x h e = subst P (ground arith) h.0
All-get_elem? P (y ∷ ys) (suc i) x h e = All-get_elem? P ys i x h.1 e

module _ {F : Type 0} ⦃num : Float F⦄ where
  -- More sequences never make a step faster.
  abbrev pub IsUp : ℕ × (F × F) → Type 0
  IsUp e = of_nat 0 ≼ e.1.1

  own_fit-IsUp : (f : ℕ) (o : Option (F × F)) → All IsUp (own_fit f o)
  unfolding own_fit
  own_fit-IsUp f none = tt
  own_fit-IsUp f (some (alpha, delta)) =
      if_case (All IsUp) (num.le (of_nat 0) delta) ((f, (alpha, delta)) ∷ []) [] (λ up. (up, tt))
        (λ _. tt)

  own_fits-IsUp : (points : List (ℕ × List (F × F))) → All IsUp (own_fits points)
  unfolding own_fits
  own_fits-IsUp [] = tt
  own_fits-IsUp ((f, pts) ∷ rest) =
      All-append IsUp (own_fit f (fit_line pts)) (own_fits rest) (own_fit-IsUp f (fit_line pts))
        (own_fits-IsUp rest)

  slopes-IsUp : (fits : Pairs F) → All IsUp fits → All (λ d. of_nat 0 ≼ d) (map (λ e. e.1.1) fits)
  slopes-IsUp [] h = tt
  slopes-IsUp (e ∷ fits) h = (h.0, slopes-IsUp fits h.1)

  median-All : (P : F → Type 0) (xs : List F) (x : F) → All P xs → median xs ≡ some x → P x
  unfolding median
  median-All P xs x h e =
      All-get_elem? P (sort_by by_float xs) (length xs / 2) x (sort_by-All P by_float xs h) e

  shared_fits-IsUp :
      (fits : Pairs F) (delta : F) (points : List (ℕ × List (F × F)))
      → of_nat 0 ≼ delta
      → All IsUp (shared_fits fits delta points)
  unfolding shared_fits shared_fit
  shared_fits-IsUp fits delta [] up = tt
  shared_fits-IsUp fits delta ((f, pts) ∷ rest) up =
      let more = shared_fits-IsUp fits delta rest up in
      if_case (All IsUp) (any (λ e. e.0 == f) fits || is_empty pts) (shared_fits fits delta rest)
        ((f, shared_fit f pts delta) ∷ shared_fits fits delta rest) (λ _. more) (λ _. (up, more))

  with_shared-IsUp :
      (fits : Pairs F) (points : List (ℕ × List (F × F))) (o : Option F)
      → All IsUp fits
      → ((delta : F) → o ≡ some delta → of_nat 0 ≼ delta)
      → All IsUp (with_shared fits points o)
  unfolding with_shared
  with_shared-IsUp fits points none own h = own
  with_shared-IsUp fits points (some delta) own h =
      All-append IsUp fits (shared_fits fits delta points) own
        (shared_fits-IsUp fits delta points (h delta refl))

  -- Whatever the windows measured, no clock is fitted with a slope below zero.
  pub fit_decode-IsUp : (points : List (ℕ × List (F × F))) → All IsUp (fit_decode points)
  unfolding fit_decode
  fit_decode-IsUp points =
      let fits = own_fits points in
      let slopes = map (λ e. e.1.1) fits in
      with_shared-IsUp fits points (median slopes) (own_fits-IsUp points) (λ delta e.
        median-All (λ d. of_nat 0 ≼ d) slopes delta (slopes-IsUp fits (own_fits-IsUp points)) e)
