-- ===== src/Router/Arrivals/Counted.antt =====
-- `offered` (router.py) counts every arrival of the window in one bucket.
use cana_tune_llm.Base.{
  ℕ, zero, suc, ◌+◌, ◌≤◌, ◌<◌, ◌≡◌, refl, List, [], ◌∷◌, length, Float, arith, sum_by,
}
use cana_tune_llm.Router.Arrivals.{count_up, zeros, bucket_of, bucket_counts}

abbrev pub total : List ℕ → ℕ
total cs = sum_by (λ c. c) cs

count_up-total :
    (i : ℕ) (cs : List ℕ)
    → i < length cs
    → (total (count_up i cs) ≡ total cs + 1) × (length (count_up i cs) ≡ length cs)
unfolding count_up
count_up-total i [] h = ground arith
count_up-total zero (c ∷ cs) h = (ground arith, ground arith)
count_up-total (suc i) (c ∷ cs) h =
    let (t, n) = count_up-total i cs (ground arith) in (ground arith, ground arith)

zeros-total : (n : ℕ) → (total (zeros n) ≡ 0) × (length (zeros n) ≡ n)
unfolding zeros
zeros-total zero = (refl, refl)
zeros-total (suc n) = let (t, k) = zeros-total n in (ground arith, ground arith)

module _ {F : Type 0} ⦃num : Float F⦄ (buckets : ℕ) (now bucket_s : F)
    (some_bucket : 1 ≤ buckets) where
  bucket_counts-total :
      (ts : List F) (cs : List ℕ)
      → length cs ≡ buckets
      → (total (bucket_counts buckets now bucket_s ts cs) ≡ total cs + length ts)
        × (length (bucket_counts buckets now bucket_s ts cs) ≡ buckets)
  unfolding bucket_counts bucket_of
  bucket_counts-total [] cs h = (omega arith, h)
  bucket_counts-total (t ∷ ts) cs h =
      let i = bucket_of buckets now bucket_s t in
      let (up, same) = count_up-total i cs (omega (arith, h, some_bucket)) in
      let (sum, size) = bucket_counts-total ts (count_up i cs) (omega (arith, same, h)) in
      (omega (arith, sum, up), size)

  -- With at least one bucket, whatever the clocks of the callers, each arrival of the window is
  -- counted in exactly one of the buckets: no index is out of range, and the counts add up to the
  -- number of arrivals.
  pub bucket_counts-all :
      (ts : List F)
      → let counts = bucket_counts buckets now bucket_s ts (zeros buckets) in
        (total counts ≡ length ts) × (length counts ≡ buckets)
  bucket_counts-all ts =
      let (none_yet, size) = zeros-total buckets in
      let (sum, same) = bucket_counts-total ts (zeros buckets) size in
      (omega (arith, sum, none_yet), same)
