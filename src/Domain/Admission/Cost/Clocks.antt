-- ===== src/Domain/Admission/Cost/Clocks.antt =====
-- The measured clock whose cost `CostBook.for_clock` (admission.py) takes.
use cana_tune_llm.Base.{
  ℕ, min, max, ◌≤◌, ◌≡◌, refl, Bool, true, false, ◌⊎◌, inl, inr, some, List, [], ◌∷◌, if◌then◌else◌,
  leb, ◌==◌, keep_if, any, arith, sym, subst,
}
use cana_tune_llm.Domain.Admission.Cost.{greatest, least, greatest_or, clock_for}

abbrev pub listed : ℕ → List ℕ → Bool
listed x xs = any (λ y. y == x) xs

greatest-listed : (x : ℕ) (xs : List ℕ) → listed (greatest x xs) (x ∷ xs) ≡ true
unfolding greatest
greatest-listed x [] = ground arith
greatest-listed x (y ∷ ys) = ground (arith, greatest-listed (max x y) ys)

least-listed : (x : ℕ) (xs : List ℕ) → listed (least x xs) (x ∷ xs) ≡ true
unfolding least
least-listed x [] = ground arith
least-listed x (y ∷ ys) = ground (arith, least-listed (min x y) ys)

greatest-ge : (x : ℕ) (xs : List ℕ) → x ≤ greatest x xs
unfolding greatest
greatest-ge x [] = omega arith
greatest-ge x (y ∷ ys) = omega (arith, greatest-ge (max x y) ys)

greatest-ge_listed : (x : ℕ) (xs : List ℕ) (z : ℕ) → listed z (x ∷ xs) ≡ true → z ≤ greatest x xs
unfolding greatest
greatest-ge_listed x [] z h = ground arith
greatest-ge_listed x (y ∷ ys) z h =
    ground (arith, greatest-ge (max x y) ys, greatest-ge_listed (max x y) ys z)

listed-keep_if :
    (p : ℕ → Bool) (z : ℕ) (xs : List ℕ)
    → listed z (keep_if p xs) ≡ (if p z then listed z xs else false)
listed-keep_if p z [] = ground arith
listed-keep_if p z (x ∷ xs) = ground (arith, listed-keep_if p z xs)

least-le_listed : (x : ℕ) (xs : List ℕ) (z : ℕ) → listed z (x ∷ xs) ≡ true → least x xs ≤ z
unfolding least
least-le_listed x [] z h = ground arith
least-le_listed x (y ∷ ys) z h =
    ground (arith, least-le_listed (min x y) ys z, least-le_listed (min x y) ys (min x y))

greatest_or-cases :
    (d : ℕ) (ys : List ℕ)
    → ((greatest_or d ys ≡ d) × ((z : ℕ) → listed z ys ≡ false))
      ⊎ ((listed (greatest_or d ys) ys ≡ true)
          × ((z : ℕ) → listed z ys ≡ true → z ≤ greatest_or d ys))
unfolding greatest_or
greatest_or-cases d [] = inl (refl, λ z. refl)
greatest_or-cases d (y ∷ ys) = inr (greatest-listed y ys, greatest-ge_listed y ys)

-- Of the measured clocks `x ∷ xs`, `for_clock` takes one; it is at or below `mhz` and not below any
-- other such clock where there is one, and else it is the least of all.
pub clock_for-nearest :
    (x : ℕ) (xs : List ℕ) (mhz : ℕ)
    → let f = clock_for x xs (some mhz) in
      (listed f (x ∷ xs) ≡ true)
      × (((z : ℕ) → listed z (x ∷ xs) ≡ true → z ≤ mhz → (z ≤ f) × (f ≤ mhz))
          × ((z : ℕ) → listed z (x ∷ xs) ≡ true → (f ≤ mhz) ⊎ (f ≤ z)))
unfolding clock_for
clock_for-nearest x xs mhz =
    let p = λ (f : ℕ). leb f mhz in
    let kept = keep_if p (x ∷ xs) in
    let d = least x xs in
    let f = greatest_or d kept in
    let k = listed-keep_if p f (x ∷ xs) in
    elim (greatest_or-cases d kept) [
      | inl (e, absent) ↦ (
        subst (λ y. listed y (x ∷ xs) ≡ true) (sym e) (least-listed x xs),
        (
          λ z h q. let a = absent z in let b = listed-keep_if p z (x ∷ xs) in ground arith,
          λ z h. inr (omega (arith, e, least-le_listed x xs z h)),
        ),
      )
      | inr (found, top) ↦
          let here : listed f (x ∷ xs) ≡ true = ground arith in
          let low : f ≤ mhz = ground arith in
          (
            here,
            (
              λ z h q.
                  let b = listed-keep_if p z (x ∷ xs) in
                  let t : listed z kept ≡ true = ground arith in (top z t, low),
              λ z h. inl low,
            ),
          )
    ]
