-- ===== src/Domain/Risk/Estimate/Lighter.antt =====
-- `RiskTable._estimate` (risk.py): a cell is at least as risky as any lighter one.
use cana_tune_llm.Base.{
  ℕ, ◌≤◌, ◌≡◌, true, inl, inr, Option, none, some, List, [], ◌∷◌, leb, pos, Float, IsOrdered, ◌≼◌,
  of_nat, max_f, All, arith, sym, subst, Bool-cases,
}
use cana_tune_llm.Domain.Risk.{Cell, CellStats, RiskEstimate, RiskTable, find_cell, lighter_cells}
use cana_tune_llm.Domain.Risk.Estimate.{
  own_of, own, raise_to, lower_over, from_own, sparse_bound, estimate,
}

-- Zero is a number, and so is a rate of counts: it is `<=` itself.
pub record AreRates (F : Type 0) ⦃num : Float F⦄ : Type 0 where
  pub zero_number : num.le (num.of_int (pos 0)) (num.of_int (pos 0)) ≡ true
  pub rate_number :
      (v a : ℕ)
      → 1 ≤ a
      → let rate = num.div (num.of_int (pos v)) (num.of_int (pos a)) in num.le rate rate ≡ true

module _ {F : Type 0} ⦃num : Float F⦄ where
  -- The risk of the cell, if it is well sampled, is at most `x`.
  abbrev pub AtMost : F → Option (RiskEstimate F) → Type 0
  AtMost x none = Unit
  AtMost x (some e) = e.risk ≼ x

  abbrev Known : Option (RiskEstimate F) → Type 0
  Known none = Unit
  Known (some e) = e.risk ≼ e.risk

  own_of-Known : (rates : AreRates F) (m : ℕ) (o : Option CellStats) → 1 ≤ m → Known (own_of m o)
  unfolding own_of
  own_of-Known rates m none h = tt
  own_of-Known rates m (some s) h = elim (Bool-cases (leb m s.admitted)) [
    | inl e ↦
        let n : 1 ≤ s.admitted = ground arith in
        let q = rates.rate_number s.violated s.admitted n in ground (arith, q)
    | inr e ↦ ground arith
  ]

  module _ (laws : IsOrdered F) where
    max_f-ge : (x y : F) → x ≼ x → y ≼ y → (x ≼ max_f x y) × (y ≼ max_f x y)
    max_f-ge x y h k =
        let e = laws.lt-eq-not-le x y h k in
        elim (Bool-cases (num.lt x y)) [
          | inl t ↦ elim (laws.le_total x y h k) [ inl up ↦ ground arith | inr down ↦ ground arith ]
          | inr f ↦ ground arith
        ]

    AtMost-trans : (x y : F) (o : Option (RiskEstimate F)) → x ≼ y → AtMost x o → AtMost y o
    AtMost-trans x y none h a = tt
    AtMost-trans x y (some e) h a = laws.le_trans e.risk x y a h

    raise_to-ge :
        (o : Option (RiskEstimate F)) (lower : F)
        → Known o
        → lower ≼ lower
        → (lower ≼ raise_to o lower) × AtMost (raise_to o lower) o
    raise_to-ge none lower k h = (h, tt)
    raise_to-ge (some e) lower k h = max_f-ge lower e.risk h k

    module _ (rates : AreRates F) (table : RiskTable) (sampled : 1 ≤ table.min_samples) where
      own-Known : (c : Cell) → Known (own table c)
      unfolding own
      own-Known c = own_of-Known rates table.min_samples (find_cell c table.cells) sampled

      lower_over-ge :
          (lower : F) (cs : List Cell)
          → lower ≼ lower
          → (lower ≼ lower_over table lower cs)
            × All (λ o. AtMost (lower_over table lower cs) (own table o)) cs
      unfolding lower_over
      lower_over-ge lower [] h = (h, tt)
      lower_over-ge lower (c ∷ cs) h =
          let next = raise_to (own table c) lower in
          let (up, own_up) = raise_to-ge (own table c) lower (own-Known c) h in
          let (low, all) = lower_over-ge next cs (laws.refl_of_le lower next up).1 in
          (
            laws.le_trans lower next (lower_over table next cs) up low,
            (AtMost-trans next (lower_over table next cs) (own table c) low own_up, all),
          )

      All-AtMost-trans :
          (x y : F) (cs : List Cell)
          → x ≼ y
          → All (λ o. AtMost x (own table o)) cs
          → All (λ o. AtMost y (own table o)) cs
      All-AtMost-trans x y [] h a = tt
      All-AtMost-trans x y (c ∷ cs) h a =
          (AtMost-trans x y (own table c) h a.0, All-AtMost-trans x y cs h a.1)

      pub estimate-AtMost :
          (c : Cell) (e : RiskEstimate F)
          → own table c ≡ some e
          → (e.risk ≼ (estimate table c).risk)
            × All (λ o. AtMost (estimate table c).risk (own table o)) (lighter_cells c)
      unfolding estimate from_own
      estimate-AtMost c e h =
          let cells = lighter_cells c in
          let lower : F = lower_over table (of_nat 0) cells in
          let bound = sparse_bound table c in
          let (low, all) = lower_over-ge (of_nat 0) cells rates.zero_number in
          let (own_up, lower_up) =
            max_f-ge e.risk lower (subst Known h (own-Known c))
              (laws.refl_of_le (of_nat 0) lower low).1 in
          subst
            (λ o.
              (e.risk ≼ (from_own lower bound o).risk)
              × All (λ q. AtMost (from_own lower bound o).risk (own table q)) cells)
            (sym h) (own_up, All-AtMost-trans lower (max_f e.risk lower) cells lower_up all)
