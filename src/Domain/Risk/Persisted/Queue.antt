-- ===== src/Domain/Risk/Persisted/Queue.antt =====
-- The exploration queue of the risk table (`exploration_candidates` of risk.py).
use cana_tune_llm.Base.{
  ℕ, ◌≡◌, false, List, [], ◌∷◌, Float, arith, All, if_case, sort_by-All, sort_by-IsSorted, IsSorted,
  IsWeak, IsTotal,
}
use cana_tune_llm.Domain.Risk.{Cell, RiskTable, find_cell}
use cana_tune_llm.Domain.Risk.Persisted.{
  Candidate, is_sampled, candidate_of, unsampled, by_visits, exploration_candidates,
}

module _ {F : Type 0} ⦃num : Float F⦄ where
  by_visits-IsWeak : IsWeak (by_visits {F = F})
  by_visits-IsWeak a b c h k = ground arith

  by_visits-IsTotal : IsTotal (by_visits {F = F})
  by_visits-IsTotal a b h = ground arith

  -- The table has too few samples of its own for the cell.
  abbrev pub LacksSamples : RiskTable → Candidate F → Type 0
  LacksSamples t e = is_sampled t.min_samples (find_cell e.cell t.cells) ≡ false

  unsampled-LacksSamples :
      (t : RiskTable) (theta : F) (visits : List (Cell × ℕ))
      → All (LacksSamples t) (unsampled t theta visits)
  unfolding unsampled candidate_of
  unsampled-LacksSamples t theta [] = tt
  unsampled-LacksSamples t theta ((c, n) ∷ rest) =
      let more = unsampled-LacksSamples t theta rest in
      if_case (All (LacksSamples t)) (is_sampled t.min_samples (find_cell c t.cells)) _
        (candidate_of t theta c n ∷ unsampled t theta rest) (λ _. more) (λ few. (few, more))

  pub exploration_candidates-IsSorted :
      (t : RiskTable) (theta : F)
      → All (LacksSamples t) (exploration_candidates t theta)
        × IsSorted by_visits (exploration_candidates t theta)
  unfolding exploration_candidates
  exploration_candidates-IsSorted t theta =
      let found = unsampled t theta t.visits in
      (
        sort_by-All (LacksSamples t) by_visits found (unsampled-LacksSamples t theta t.visits),
        sort_by-IsSorted by_visits by_visits-IsWeak by_visits-IsTotal found,
      )
