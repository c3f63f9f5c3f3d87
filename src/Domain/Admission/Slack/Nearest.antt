-- ===== src/Domain/Admission/Slack/Nearest.antt =====
-- `SlackRisk.estimate` (admission.py) against a search that walks down from the bucket.
use cana_tune_llm.Base.{
  ℕ, zero, suc, ◌≤◌, ◌<◌, ◌≡◌, refl, inl, inr, Bool, true, false, ◌&&◌, Option, none, some, List,
  [], ◌∷◌, ◌++◌, map, if◌then◌else◌, ltb, ◌==◌, Float, of_nat, keep_if, any, All, arith,
  Option-cases, Bool-cases, sym,
}
use cana_tune_llm.Domain.Admission.Slack.{
  Counts, count_at, insert_desc, sort_desc, SlackRisk, slack_cell, bucket_keys, is_observed,
  first_of_list, nearest_lower, wilson_ucb, estimate_at,
}

abbrev has : ℕ → List ℕ → Bool
has z xs = any (λ x. x == z) xs

abbrev IsDesc : List ℕ → Type 0
IsDesc [] = Unit
IsDesc (x ∷ xs) = All (λ y. y < x) xs × IsDesc xs

has-insert_desc :
    (z x : ℕ) (ys : List ℕ) → has z (insert_desc x ys) ≡ (if x == z then true else has z ys)
unfolding insert_desc
has-insert_desc z x [] = refl
has-insert_desc z x (y ∷ ys) = ground (arith, has-insert_desc z x ys)

has-sort_desc : (z : ℕ) (xs : List ℕ) → has z (sort_desc xs) ≡ has z xs
unfolding sort_desc
has-sort_desc z [] = refl
has-sort_desc z (x ∷ xs) = ground (arith, has-insert_desc z x (sort_desc xs), has-sort_desc z xs)

All-lt-insert_desc :
    (n x : ℕ) (ys : List ℕ) → x < n → All (λ y. y < n) ys → All (λ y. y < n) (insert_desc x ys)
unfolding insert_desc
All-lt-insert_desc n x [] h a = (h, tt)
All-lt-insert_desc n x (y ∷ ys) h a = ground (arith, All-lt-insert_desc n x ys h a.1)

All-lt_trans : (m n : ℕ) (ys : List ℕ) → m < n → All (λ y. y < m) ys → All (λ y. y < n) ys
All-lt_trans m n [] h a = tt
All-lt_trans m n (y ∷ ys) h a = (omega arith, All-lt_trans m n ys h a.1)

insert_desc-IsDesc : (x : ℕ) (ys : List ℕ) → IsDesc ys → IsDesc (insert_desc x ys)
unfolding insert_desc
insert_desc-IsDesc x [] d = (tt, tt)
insert_desc-IsDesc x (y ∷ ys) d =
    ground (arith, All-lt_trans y x ys, All-lt-insert_desc y x ys, insert_desc-IsDesc x ys d.1)

sort_desc-IsDesc : (xs : List ℕ) → IsDesc (sort_desc xs)
unfolding sort_desc
sort_desc-IsDesc [] = tt
sort_desc-IsDesc (x ∷ xs) = insert_desc-IsDesc x (sort_desc xs) (sort_desc-IsDesc xs)

lt_of_has : (n z : ℕ) (ys : List ℕ) → All (λ y. y < n) ys → has z ys ≡ true → z < n
lt_of_has n z [] a h = ground arith
lt_of_has n z (y ∷ ys) a h = ground (arith, lt_of_has n z ys a.1)

has-keep_if : (p : ℕ → Bool) (z : ℕ) (xs : List ℕ) → has z (keep_if p xs) ≡ (p z && has z xs)
has-keep_if p z [] = ground arith
has-keep_if p z (x ∷ xs) = ground (arith, has-keep_if p z xs)

has-append : (z : ℕ) (xs ys : List ℕ) → has z (xs ++ ys) ≡ (if has z xs then true else has z ys)
has-append z [] ys = refl
has-append z (x ∷ xs) ys = ground (arith, has-append z xs ys)

-- The first hit of a decreasing list is its greatest.
first_of_list-greatest :
    (p : ℕ → Bool) (ys : List ℕ) (c : ℕ)
    → IsDesc ys
    → first_of_list p ys ≡ some c
    → (has c ys ≡ true) × (p c ≡ true) × ((d : ℕ) → has d ys ≡ true → p d ≡ true → d ≤ c)
unfolding first_of_list
first_of_list-greatest p [] c s h = ground arith
first_of_list-greatest p (y ∷ ys) c s h = elim (Bool-cases (p y)) [
  | inl hit ↦ (ground arith, ground arith, λ d m q. ground (arith, lt_of_has y d ys s.0))
  | inr miss ↦
      let (m, q, g) = first_of_list-greatest p ys c s.1 (ground arith) in
      (ground arith, q, λ d m' q'. ground (arith, g d))
]

first_of_list-none :
    (p : ℕ → Bool) (ys : List ℕ) (d : ℕ) → first_of_list p ys ≡ none → has d ys ≡ true → p d ≡ false
unfolding first_of_list
first_of_list-none p [] d h m = ground arith
first_of_list-none p (y ∷ ys) d h m = ground (arith, first_of_list-none p ys d)

-- The walk down from a bucket to the nearest one that passes the test.
pub walk_down : (ℕ → Bool) → ℕ → Option ℕ
walk_down p zero = if p zero then some zero else none
walk_down p (suc b) = if p (suc b) then some (suc b) else walk_down p b

walk_down-some :
    (p : ℕ → Bool) (b c : ℕ)
    → c ≤ b
    → p c ≡ true
    → ((d : ℕ) → d ≤ b → p d ≡ true → d ≤ c)
    → walk_down p b ≡ some c
unfolding walk_down
walk_down-some p zero c h q g = let e : c ≡ 0 = omega arith in ground arith
walk_down-some p (suc b) c h q g = elim (Bool-cases (p (suc b))) [
  | inl hit ↦ let e : c ≡ suc b = omega (arith, g (suc b) (omega arith) hit) in ground arith
  | inr miss ↦ rw miss (walk_down-some p b c (ground arith) q (λ d le q'. g d (omega arith) q'))
]

walk_down-none : (p : ℕ → Bool) (b : ℕ) → ((d : ℕ) → d ≤ b → p d ≡ false) → walk_down p b ≡ none
unfolding walk_down
walk_down-none p zero g = rw (g 0 (omega arith))
walk_down-none p (suc b) g =
    rw (g (suc b) (omega arith)) (walk_down-none p b (λ d le. g d (omega arith)))

count_at_absent : (d : ℕ) (m : Counts) → has d (map (λ e. e.0) m) ≡ false → count_at d m ≡ (0, 0)
unfolding count_at
count_at_absent d [] h = refl
count_at_absent d ((k, c) ∷ m) h = ground (arith, count_at_absent d m)

module _ {F : Type 0} (s : SlackRisk F) (sampled : 1 ≤ s.min_samples) where
  has_of_observed : (d : ℕ) → is_observed s d ≡ true → has d (bucket_keys s) ≡ true
  unfolding slack_cell
  has_of_observed d h = ground (
    arith,
    has-append d (map (λ e. e.0) s.counts) (map (λ e. e.0) s.seed),
    count_at_absent d s.counts,
    count_at_absent d s.seed,
  )

  has-candidates :
      (b d : ℕ)
      → has d (sort_desc (keep_if (λ c. ltb c b) (bucket_keys s)))
        ≡ (ltb d b && has d (bucket_keys s))
  has-candidates b d =
      rw (has-sort_desc d (keep_if (λ c. ltb c b) (bucket_keys s)))
        (has-keep_if (λ c. ltb c b) d (bucket_keys s))

  -- The loop over the sorted keys finds what the walk finds, below a bucket that is not observed.
  nearest_lower-walk_down :
      (b : ℕ) → is_observed s b ≡ false → nearest_lower s b ≡ walk_down (is_observed s) b
  unfolding nearest_lower
  nearest_lower-walk_down b miss =
      let ys = sort_desc (keep_if (λ c. ltb c b) (bucket_keys s)) in
      elim (Option-cases (first_of_list (is_observed s) ys)) [
        | inl e ↦ rw e (
            sym (
              walk_down-none (is_observed s) b (λ d le. elim (Bool-cases (is_observed s d)) [
                | inl hit ↦ ground (
                  arith,
                  has-candidates b d,
                  has_of_observed d,
                  first_of_list-none (is_observed s) ys d e,
                )
                | inr no_hit ↦ no_hit
              ])))
        | inr (c, e) ↦
            let (m, q, g) =
              first_of_list-greatest (is_observed s) ys c
                (sort_desc-IsDesc (keep_if (λ c'. ltb c' b) (bucket_keys s))) e in
            rw e (
              sym (
                walk_down-some (is_observed s) b c (ground (arith, has-candidates b c)) q
                  (λ d le hit. ground (arith, has-candidates b d, has_of_observed d, g d))))
      ]

module _ {F : Type 0} ⦃num : Float F⦄ where
  -- The risk and the samples of the bucket that the walk found; risk 1 if it found none.
  abbrev pub walked_risk : SlackRisk F → Option ℕ → F
  walked_risk s none = of_nat 1
  walked_risk s (some c) = wilson_ucb (slack_cell s c).1 (slack_cell s c).0

  -- Where at least one sample is asked for, the estimate of a bucket is, whatever the order of the
  -- two dictionaries, the Wilson bound of the nearest bucket at or below it that has `min_samples`
  -- requests, and 1 where there is none.
  pub estimate_at-nearest :
      (s : SlackRisk F) (b : ℕ)
      → 1 ≤ s.min_samples
      → (estimate_at s b).risk ≡ walked_risk s (walk_down (is_observed s) b)
  unfolding estimate_at
  estimate_at-nearest s b sampled = elim (Bool-cases (is_observed s b)) [
    | inl hit ↦ rw (hit, walk_down-some (is_observed s) b b (omega arith) hit (λ d le q. le))
    | inr miss ↦ elim (Option-cases (walk_down (is_observed s) b)) [
      | inl e ↦ rw (miss, nearest_lower-walk_down s sampled b miss, e)
      | inr (c, e) ↦ rw (miss, nearest_lower-walk_down s sampled b miss, e)
    ]
  ]
