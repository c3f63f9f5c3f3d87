-- ===== src/Domain/Calibration/Bins.antt =====
-- `KneeCounts.counts` (calibration.py) against sums over what was recorded.
use cana_tune_llm.Base.{
  ℕ, ◌+◌, ◌<◌, ◌≡◌, refl, [], ◌∷◌, if◌then◌else◌, ltb, ◌==◌, All, arith, Bool-cases, inl, inr,
  sum_by, if_case,
}
use cana_tune_llm.Domain.Admission.Slack.{Counts, count_at}
use cana_tune_llm.Domain.Calibration.{KneeCounts, add_bin, add_bins, bin_counts}

-- What the entries of one bin add up to: requests, and violations.
abbrev pub requests_at : ℕ → Counts → ℕ
requests_at j m = sum_by (λ e. if e.0 == j then e.1.0 else 0) m

abbrev pub violations_at : ℕ → Counts → ℕ
violations_at j m = sum_by (λ e. if e.0 == j then e.1.1 else 0) m

requests_at-add_bin :
    (j b : ℕ) (c : ℕ × ℕ) (m : Counts)
    → requests_at j (add_bin (b, c) m) ≡ requests_at j m + (if b == j then c.0 else 0)
unfolding add_bin
requests_at-add_bin j b c [] = ground arith
requests_at-add_bin j b c ((k, d) ∷ rest) = ground (arith, requests_at-add_bin j b c rest)

violations_at-add_bin :
    (j b : ℕ) (c : ℕ × ℕ) (m : Counts)
    → violations_at j (add_bin (b, c) m) ≡ violations_at j m + (if b == j then c.1 else 0)
unfolding add_bin
violations_at-add_bin j b c [] = ground arith
violations_at-add_bin j b c ((k, d) ∷ rest) = ground (arith, violations_at-add_bin j b c rest)

at-add_bins :
    (j : ℕ) (xs m : Counts)
    → (requests_at j (add_bins xs m) ≡ requests_at j xs + requests_at j m)
      × (violations_at j (add_bins xs m) ≡ violations_at j xs + violations_at j m)
unfolding add_bins
at-add_bins j [] m = (omega arith, omega arith)
at-add_bins j ((b, c) ∷ rest) m =
    let (h, k) = at-add_bins j rest (add_bin (b, c) m) in
    (
      ground (arith, h, requests_at-add_bin j b c m),
      ground (arith, k, violations_at-add_bin j b c m),
    )

-- The bins are strictly increasing.
abbrev pub IsAscending : Counts → Type 0
IsAscending [] = Unit
IsAscending (e ∷ m) = All (λ d. e.0 < d.0) m × IsAscending m

add_bin-All :
    (n b : ℕ) (c : ℕ × ℕ) (m : Counts)
    → n < b
    → All (λ d. n < d.0) m
    → All (λ d. n < d.0) (add_bin (b, c) m)
unfolding add_bin
add_bin-All n b c [] h a = (h, tt)
add_bin-All n b c ((k, d) ∷ rest) h a = ground (arith, add_bin-All n b c rest h a.1)

All-below : (n k : ℕ) (m : Counts) → n < k → All (λ d. k < d.0) m → All (λ d. n < d.0) m
All-below n k [] h a = tt
All-below n k (e ∷ m) h a = (omega (arith, h, a.0), All-below n k m h a.1)

add_bin-IsAscending :
    (b : ℕ) (c : ℕ × ℕ) (m : Counts) → IsAscending m → IsAscending (add_bin (b, c) m)
unfolding add_bin
add_bin-IsAscending b c [] s = (tt, tt)
add_bin-IsAscending b c ((k, d) ∷ rest) s =
    if_case IsAscending (b == k) _ _ (λ e. (s.0, s.1))
      (λ e.
        if_case IsAscending (ltb b k) _ _
          (λ l. let h : b < k = ground arith in ((h, All-below b k rest h s.0), s))
          (λ g.
            let h : k < b = ground arith in
            (add_bin-All k b c rest h s.0, add_bin-IsAscending b c rest s.1)))

add_bins-IsAscending : (xs m : Counts) → IsAscending m → IsAscending (add_bins xs m)
unfolding add_bins
add_bins-IsAscending [] m s = s
add_bins-IsAscending ((b, c) ∷ rest) m s =
    add_bins-IsAscending rest (add_bin (b, c) m) (add_bin-IsAscending b c m s)

sum_of_larger :
    (j : ℕ) (m : Counts) → All (λ d. j < d.0) m → (requests_at j m ≡ 0) × (violations_at j m ≡ 0)
sum_of_larger j [] a = (refl, refl)
sum_of_larger j (e ∷ m) a = let (h, k) = sum_of_larger j m a.1 in (ground arith, ground arith)

count_at-ascending :
    (j : ℕ) (m : Counts)
    → IsAscending m
    → ((count_at j m).0 ≡ requests_at j m) × ((count_at j m).1 ≡ violations_at j m)
unfolding count_at
count_at-ascending j [] s = (refl, refl)
count_at-ascending j ((k, c) ∷ m) s = elim (Bool-cases (k == j)) [
  | inl e ↦
      let same : k ≡ j = ground arith in
      let (h, i) = sum_of_larger k m s.0 in (ground arith, ground arith)
  | inr e ↦ let (h, i) = count_at-ascending j m s.1 in (ground arith, ground arith)
]

-- The counts of every bin are the sums over the seed and over what production recorded, with the bins
-- in increasing order.
pub bin_counts-sum :
    (k : KneeCounts) (j : ℕ)
    → IsAscending (bin_counts k)
      × (((count_at j (bin_counts k)).0 ≡ requests_at j k.live + requests_at j k.seed)
          × ((count_at j (bin_counts k)).1 ≡ violations_at j k.live + violations_at j k.seed))
unfolding bin_counts
bin_counts-sum k j =
    let seeded = add_bins k.seed [] in
    let asc = add_bins-IsAscending k.live seeded (add_bins-IsAscending k.seed [] tt) in
    let (n, v) = count_at-ascending j (add_bins k.live seeded) asc in
    let (n1, v1) = at-add_bins j k.live seeded in
    let (n0, v0) = at-add_bins j k.seed [] in (asc, (omega arith, omega arith))
