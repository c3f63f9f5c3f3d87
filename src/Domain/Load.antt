-- ===== src/Domain/Load.antt =====
-- src/canatune/domain/load.py: the lengths of finished requests.
use cana_tune_llm.Base.{
  ℕ, ◌/◌, Bool, ◌||◌, Option, none, some, List, [], ◌∷◌, map, if◌then◌else◌, leb, ltb, Float,
  of_nat, length, get_elem?, keep_if, sum_by, any,
}
use cana_tune_llm.Domain.Admission.Predictor.{push_bounded}
pub mod Summary

pub record LengthStats : Type 0 where
  pub default : List (ℕ × ℕ)
  pub min_samples : ℕ
  pub keep : ℕ
  -- the bounded window of (prompt, output), the oldest first
  pub pairs : List (ℕ × ℕ)

abbrev not_positive : ℕ × ℕ → Bool
not_positive e = ltb e.0 1 || ltb e.1 1

-- `LengthStats.__init__`; `none` is the `ValueError`.
unfoldable pub init_lengths : List (ℕ × ℕ) → ℕ → ℕ → Option LengthStats
init_lengths [] keep min_samples = none
init_lengths (e ∷ rest) keep min_samples =
    if any not_positive (e ∷ rest)
    then none
    else some (record { default = e ∷ rest; min_samples = min_samples; keep = keep; pairs = [] })

-- `LengthStats.record`
unfoldable pub record_length : LengthStats → ℕ → ℕ → LengthStats
unfolding push_bounded
record_length s prompt output =
    if not_positive (prompt, output)
    then s
    else record s { pairs = push_bounded s.keep s.pairs (prompt, output) }

-- `LengthStats.pairs`
unfoldable pub recent_pairs : LengthStats → List (ℕ × ℕ)
recent_pairs s = if leb s.min_samples (length s.pairs) then s.pairs else s.default

-- `LengthStats.using_default`
unfoldable pub using_default : LengthStats → Bool
using_default s = ltb (length s.pairs) s.min_samples

insert_up : ℕ → List ℕ → List ℕ
insert_up x [] = x ∷ []
insert_up x (y ∷ ys) = if leb x y then x ∷ y ∷ ys else y ∷ insert_up x ys

-- `sorted(xs)`
unfoldable pub sort_up : List ℕ → List ℕ
unfolding insert_up
sort_up [] = []
sort_up (x ∷ xs) = insert_up x (sort_up xs)

-- The stand-in pair where every prompt is longer: the middle output at the longest prompt allowed.
middle_pair : ℕ → List (ℕ × ℕ) → List (ℕ × ℕ)
unfolding sort_up
middle_pair max_prompt pairs =
    let outputs = sort_up (map (λ e. e.1) pairs) in
    elim (get_elem? outputs (length outputs / 2)) [ none ↦ [] | some o ↦ (max_prompt, o) ∷ [] ]

or_else {ℓ} : {A : Type ℓ} → List A → List A → List A
or_else [] ys = ys
or_else (x ∷ xs) ys = x ∷ xs

-- `LengthStats.pairs_upto`
unfoldable pub pairs_upto : LengthStats → Option ℕ → List (ℕ × ℕ)
unfolding recent_pairs middle_pair or_else
pairs_upto s none = recent_pairs s
pairs_upto s (some max_prompt) =
    let pairs = recent_pairs s in
    or_else (keep_if (λ e. leb e.0 max_prompt) pairs) (middle_pair max_prompt pairs)

module _ {F : Type 0} ⦃num : Float F⦄ where
  -- `LengthStats.mean_prompt`
  unfoldable pub mean_prompt : LengthStats → Option ℕ → F
  unfolding pairs_upto
  mean_prompt s max_prompt =
      let pairs = pairs_upto s max_prompt in
      num.div (of_nat (sum_by (λ e. e.0) pairs)) (of_nat (length pairs))

  -- `summary().output_mean`
  unfoldable pub output_mean : LengthStats → F
  unfolding recent_pairs
  output_mean s =
      let pairs = recent_pairs s in
      num.div (of_nat (sum_by (λ e. e.1) pairs)) (of_nat (length pairs))
