-- ===== src/Router/Arrivals.antt =====
-- src/canatune/controller/router.py: `new_waiter` and `offered`, the record of arrivals. Unlike the
-- rest of the Router's state it is read by the Controller only.
use cana_tune_llm.Base.{
  ℕ, zero, suc, ◌+◌, ◌-◌, min, max, Bool, Option, none, some, List, [], ◌∷◌, ◌++◌, map,
  if◌then◌else◌, ℤ, pos, pos_part, length, get_elem?, Float, of_nat, frac, max_f, keep_if,
}
pub mod Counted

pub record Arrivals (F : Type 0) : Type 0 where
  pub times : List F
  pub keep_s : F
  pub next_waiter : ℕ

-- `new_waiter`
unfoldable pub new_waiter : {F : Type 0} → Arrivals F → F → Arrivals F × ℕ
new_waiter a now =
    (record a { times = a.times ++ (now ∷ []); next_waiter = a.next_waiter + 1 }, a.next_waiter)

-- `counts[i] += 1`
unfoldable pub count_up : ℕ → List ℕ → List ℕ
count_up i [] = []
count_up zero (c ∷ cs) = (c + 1) ∷ cs
count_up (suc i) (c ∷ cs) = c ∷ count_up i cs

-- `[0] * n`
unfoldable pub zeros : ℕ → List ℕ
zeros zero = []
zeros (suc n) = 0 ∷ zeros n

module _ {F : Type 0} ⦃num : Float F⦄ where
  -- The arrivals that are kept.
  unfoldable pub drop_old : F → List F → List F
  drop_old cutoff [] = []
  drop_old cutoff (t ∷ rest) = if num.lt t cutoff then drop_old cutoff rest else t ∷ rest

  -- The bucket of an arrival; one after `now` is in the newest.
  unfoldable pub bucket_of : ℕ → F → F → F → ℕ
  bucket_of buckets now bucket_s t =
      min (buckets - 1) (pos_part (num.floor_div (num.sub now t) bucket_s))

  unfoldable pub bucket_counts : ℕ → F → F → List F → List ℕ → List ℕ
  unfolding bucket_of count_up
  bucket_counts buckets now bucket_s [] counts = counts
  bucket_counts buckets now bucket_s (t ∷ ts) counts =
      bucket_counts buckets now bucket_s ts (count_up (bucket_of buckets now bucket_s t) counts)

  insert_f : F → List F → List F
  insert_f x [] = x ∷ []
  insert_f x (y ∷ ys) = if num.lt y x then y ∷ insert_f x ys else x ∷ y ∷ ys

  sort_f : List F → List F
  unfolding insert_f
  sort_f [] = []
  sort_f (x ∷ xs) = insert_f x (sort_f xs)

  -- The 90th percentile; the list has an element.
  p90_of : List F → F
  p90_of rates =
      let i =
        min (length rates - 1)
          (pos_part (num.trunc (num.mul (frac 9 10) (of_nat (length rates))))) in
      elim (get_elem? rates i) [ none ↦ of_nat 0 | some r ↦ r ]

  -- The rate over the window, and the burst factor.
  rates_of : F → F → F → List F → F × F
  unfolding bucket_counts zeros sort_f p90_of
  rates_of now window_s bucket_s [] = (of_nat 0, of_nat 1)
  rates_of now window_s bucket_s (t ∷ ts) =
      let times = t ∷ ts in
      let rate = num.div (of_nat (length times)) window_s in
      let buckets = max 1 (pos_part (num.floor_div window_s bucket_s)) in
      let counts = bucket_counts buckets now bucket_s times (zeros buckets) in
      let rates = sort_f (map (λ c. num.div (of_nat c) bucket_s) counts) in
      (rate, max_f (of_nat 1) (num.div (p90_of rates) rate))

  -- `offered`: the record without the old arrivals, the rate and the burst factor.
  unfoldable pub offered : Arrivals F → F → F → F → Arrivals F × (F × F)
  unfolding drop_old rates_of
  offered a now window_s bucket_s =
      let kept = drop_old (num.sub now a.keep_s) a.times in
      (
        record a { times = kept },
        rates_of now window_s bucket_s (keep_if (λ t. num.le (num.sub now window_s) t) kept),
      )
