-- ===== src/Controller/Effort/Reached.antt =====
-- Full effort (`_enter_full_effort` of tier_controller.py) reaches every group.
use cana_tune_llm.Base.{
  ℕ, zero, suc, ◌+◌, ◌≤◌, ◌<◌, ◌≡◌, refl, Bool, true, ◌&&◌, ◌||◌, some, List, [], ◌∷◌,
  if◌then◌else◌, ◌==◌, Float, arith, inl, inr, Bool-cases, contains,
}
use cana_tune_llm.Domain.Tiers.{Tier, GroupState}
use cana_tune_llm.Domain.Groups.{Group, is_active}
use cana_tune_llm.Domain.Risk.{range_from}
use cana_tune_llm.Controller.Clocks.{Control, set_state, for_groups, same_tier}
use cana_tune_llm.Controller.Clocks.Raised.{set_tier-ToMax}
use cana_tune_llm.Controller.Effort.{is_exploring, raise_flags, raise_one, raise_groups}

-- The group serves at MAX, or the Canary's experiment owns it.
abbrev pub is_raised : {F : Type 0} → Group F → Bool
is_raised g = is_exploring g.state || (is_active g.state && same_tier g.tier Tier.max)

abbrev pub raised_at : {F : Type 0} → Control F → ℕ → Bool
raised_at c i = is_raised (c.router.groups i)

contains-range :
    (j start n : ℕ) → start ≤ j → j < start + n → contains j (range_from start n) ≡ true
unfolding range_from
contains-range j start zero h k = ground arith
contains-range j start (suc n) h k = elim (Bool-cases (start == j)) [
  | inl e ↦ ground arith
  | inr e ↦
      let rest = contains-range j (start + 1) n (ground arith) (ground arith) in
      ground (arith, rest)
]

module _ {F : Type 0} ⦃num : Float F⦄ (ok : ℕ → Bool) (now : F) where
  -- Raising one group succeeds, raises it and lowers no other.
  record Raises (c : Control F) (i : ℕ) : Type 0 where
    after : Control F
    result : raise_one ok now c i ≡ some after
    raised : raised_at after i ≡ true
    kept : (j : ℕ) → raised_at c j ≡ true → raised_at after j ≡ true

  raise_one-Raises : (c : Control F) (i : ℕ) → Raises c i
  unfolding raise_one
  raise_one-Raises c i =
      let g = c.router.groups i in
      let c1 = set_state GroupState.active c i in
      let m = set_tier-ToMax (ok i) now c1 i in
      elim (Bool-cases (is_exploring g.state)) [
        | inl e ↦ record {
          after = c;
          result = ground arith;
          raised = ground arith;
          kept = λ j h. h;
        }
        | inr e ↦ elim (Bool-cases (same_tier g.tier Tier.max)) [
          | inl k ↦ record {
            after = c1;
            result = ground arith;
            raised = ground arith;
            kept = λ j h. ground arith;
          }
          | inr k ↦ record {
            after = m.after;
            result = let q = m.result in ground (arith, q);
            raised = let q = m.tier in let u = m.state in ground (arith, q, u);
            kept = λ j h.
                let q = m.tier in
                let u = m.state in
                elim (Bool-cases (i == j)) [
                  | inl w ↦ ground (arith, q, u)
                  | inr w ↦ let o = m.others j w in ground (arith, o)
                ];
          }
        ]
      ]

  -- The loop succeeds and raises every group of the list.
  record RaisesAll (is : List ℕ) (c : Control F) : Type 0 where
    after : Control F
    result : for_groups (raise_one ok now) is c ≡ some after
    raised : (j : ℕ) → contains j is ≡ true → raised_at after j ≡ true
    kept : (j : ℕ) → raised_at c j ≡ true → raised_at after j ≡ true

  for_groups-RaisesAll : (is : List ℕ) (c : Control F) → RaisesAll is c
  for_groups-RaisesAll [] c = record {
    after = c;
    result = refl;
    raised = λ j h. ground arith;
    kept = λ j h. h;
  }
  for_groups-RaisesAll (i ∷ is) c =
      let m = raise_one-Raises c i in
      let rest = for_groups-RaisesAll is m.after in
      record {
        after = rest.after;
        result = let q = m.result in let u = rest.result in ground (arith, q, u);
        raised = λ j h. elim (Bool-cases (i == j)) [
          | inl w ↦ rest.kept j (let u = m.raised in ground (arith, u))
          | inr w ↦ rest.raised j (ground arith)
        ];
        kept = λ j h. rest.kept j (m.kept j h);
      }

-- The part of entering full effort that comes before the return of the Canary never fails, whatever
-- the locks and the pressure callback do, and leaves every group active at tier MAX unless the
-- Canary owns it as exploring.
pub raise_groups-raised :
    {F : Type 0} ⦃num : Float F⦄ (c : Control F) (abort : Control F → Control F) (ok : ℕ → Bool)
    (now : F)
    → let start = if c.full_effort then raise_flags c now else abort (raise_flags c now) in
      (after : Control F) × ((raise_groups c abort ok now ≡ some after)
        × ((j : ℕ) → j < start.router.n_groups → raised_at after j ≡ true))
unfolding raise_groups
raise_groups-raised c abort ok now =
    let start = if c.full_effort then raise_flags c now else abort (raise_flags c now) in
    let all = for_groups-RaisesAll ok now (range_from 0 start.router.n_groups) start in
    (
      all.after,
      (
        all.result,
        λ j h.
            all.raised j
              (contains-range j 0 start.router.n_groups (omega arith) (omega (arith, h))),
      ),
    )
