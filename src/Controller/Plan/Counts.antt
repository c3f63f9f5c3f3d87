-- ===== src/Controller/Plan/Counts.antt =====
-- How many of the groups (tier_controller.py) are in a state.
use cana_tune_llm.Base.{
  ℕ, zero, suc, ◌+◌, ◌≤◌, ◌<◌, ◌≡◌, refl, Bool, true, false, arith, inl, inr, Bool-cases, ◌==◌,
  length, keep_if, subst,
}
use cana_tune_llm.Domain.Risk.{range_from}

-- How many of the indices from `start` on, `n` of them, pass the test.
abbrev pub count : (ℕ → Bool) → ℕ → ℕ → ℕ
count p start n = length (keep_if p (range_from start n))

abbrev pub AgreeBut : ℕ → (ℕ → Bool) → (ℕ → Bool) → Type 0
AgreeBut i p q = (j : ℕ) → (i == j) ≡ false → p j ≡ q j

pub count_mono :
    (p q : ℕ → Bool) (start n : ℕ)
    → ((j : ℕ) → p j ≡ true → q j ≡ true)
    → count p start n ≤ count q start n
unfolding range_from
count_mono p q start zero h = omega arith
count_mono p q start (suc n) h =
    let rest = count_mono p q (start + 1) n h in let own = h start in ground (arith, rest, own)

count_above :
    (p q : ℕ → Bool) (i start n : ℕ)
    → i < start
    → AgreeBut i p q
    → count p start n ≡ count q start n
unfolding range_from
count_above p q i start zero h agree = refl
count_above p q i start (suc n) h agree =
    let rest = count_above p q i (start + 1) n (omega (arith, h)) agree in
    let own = agree start (ground arith) in ground (arith, rest, own)

-- One index can change the count by one only.
pub count_drop :
    (p q : ℕ → Bool) (i start n : ℕ) → AgreeBut i p q → count p start n ≤ count q start n + 1
unfolding range_from
count_drop p q i start zero agree = omega arith
count_drop p q i start (suc n) agree = elim (Bool-cases (i == start)) [
  | inl e ↦ let rest = count_above p q i (start + 1) n (ground arith) agree in ground (arith, rest)
  | inr e ↦
      let rest = count_drop p q i (start + 1) n agree in
      let own = agree start e in ground (arith, rest, own)
]

-- An index of the range that begins to pass raises the count by one.
pub count_gain :
    (p q : ℕ → Bool) (i start n : ℕ)
    → AgreeBut i p q
    → p i ≡ false
    → q i ≡ true
    → start ≤ i
    → i < start + n
    → count q start n ≡ count p start n + 1
unfolding range_from
count_gain p q i start zero agree off on low high = absurd (omega (arith, low, high))
count_gain p q i start (suc n) agree off on low high = elim (Bool-cases (i == start)) [
  | inl e ↦
      let rest = count_above p q i (start + 1) n (ground arith) agree in
      let at : i ≡ start = ground arith in
      let off' = subst (λ k. p k ≡ false) at off in
      let on' = subst (λ k. q k ≡ true) at on in ground (arith, rest)
  | inr e ↦
      let rest = count_gain p q i (start + 1) n agree off on (ground arith) (ground arith) in
      let own = agree start e in ground (arith, rest, own)
]
