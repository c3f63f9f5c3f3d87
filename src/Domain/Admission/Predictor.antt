-- ===== src/Domain/Admission/Predictor.antt =====
-- src/canatune/domain/admission.py: `TtftPredictor` and the linear solver `_solve`.
use cana_tune_llm.Base.{
  ℕ, zero, suc, ◌+◌, ◌-◌, Bool, true, not, ◌&&◌, Option, none, some, List, [], ◌∷◌, ◌++◌, map,
  if◌then◌else◌, leb, ◌==◌, ℤ, Float, of_nat, length, get_elem?, set, min_f, any,
}

-- The size of FEATURES.
abbrev pub n_features : ℕ
n_features = 5

abbrev indices : List ℕ
indices = 0 ∷ 1 ∷ 2 ∷ 3 ∷ 4 ∷ []

pub record Predictor (F : Type 0) : Type 0 where
  pub has_prior : Bool
  pub prior : List F
  pub coef : List F
  -- `deque(maxlen=window)`, the oldest sample first
  pub samples : List (List F × F)
  pub window : ℕ
  pub refit_every : ℕ
  pub ridge : F
  pub clip_ms : F
  pub since_fit : ℕ

-- `deque.append` under `maxlen`: the oldest element leaves when the deque is full.
unfoldable pub push_bounded {ℓ} : {A : Type ℓ} → ℕ → List A → A → List A
push_bounded limit [] x = if limit == 0 then [] else x ∷ []
push_bounded limit (y ∷ ys) x =
    if leb limit (length (y ∷ ys))
    then (if limit == 0 then [] else ys ++ (x ∷ []))
    else y ∷ (ys ++ (x ∷ []))

module _ {F : Type 0} ⦃num : Float F⦄ where
  -- An element of a row; the code reads inside the rows only.
  at : List F → ℕ → F
  at row i = elim (get_elem? row i) [ some v ↦ v | none ↦ of_nat 0 ]

  row_at : List (List F) → ℕ → List F
  row_at m r = elim (get_elem? m r) [ some row ↦ row | none ↦ [] ]

  -- `max(range(col, n), key=...)`: the first row of the largest pivot, `count` rows left from `r`.
  pivot_from : List (List F) → ℕ → ℕ → ℕ → ℕ → ℕ
  unfolding at row_at
  pivot_from m col best r zero = best
  pivot_from m col best r (suc count) =
      pivot_from m col
        (if num.lt (num.abs (at (row_at m best) col)) (num.abs (at (row_at m r) col))
          then r
          else best)
        (r + 1) count

  swap_rows : List (List F) → ℕ → ℕ → List (List F)
  unfolding row_at
  swap_rows m i j = set (set m i (row_at m j)) j (row_at m i)

  subtract_row : F → List F → List F → List F
  subtract_row f [] ys = []
  subtract_row f xs [] = []
  subtract_row f (a ∷ xs) (b ∷ ys) = num.sub a (num.mul f b) ∷ subtract_row f xs ys

  -- The inner loop, `count` rows left from `r`.
  eliminate : List (List F) → ℕ → ℕ → ℕ → List (List F)
  unfolding at row_at subtract_row
  eliminate m col r zero = m
  eliminate m col r (suc count) =
      eliminate
        (if r == col
          then m
          else let f = num.div (at (row_at m r) col) (at (row_at m col) col) in
            set m r (subtract_row f (row_at m r) (row_at m col)))
        col (r + 1) count

  tiny : F
  tiny = num.div (of_nat 1) (of_nat 1_000_000_000_000)

  -- The outer loop, `count` columns left from `col` of `n`.
  solve_cols : ℕ → List (List F) → ℕ → ℕ → Option (List (List F))
  unfolding pivot_from swap_rows eliminate tiny
  solve_cols n m col zero = some m
  solve_cols n m col (suc count) =
      let pivot = pivot_from m col col (col + 1) (n - (col + 1)) in
      let rest = solve_cols n (eliminate (swap_rows m col pivot) col 0 n) (col + 1) count in
      if num.lt (num.abs (at (row_at m pivot) col)) tiny then none else rest

  augment : List (List F) → List F → List (List F)
  augment [] vector = []
  augment rows [] = []
  augment (row ∷ rows) (v ∷ vector) = (row ++ (v ∷ [])) ∷ augment rows vector

  -- [m[i][n] / m[i][i] for i in range(n)], `count` rows left from `i`.
  read_solution : ℕ → List (List F) → ℕ → ℕ → List F
  unfolding at row_at
  read_solution n m i zero = []
  read_solution n m i (suc count) =
      num.div (at (row_at m i) n) (at (row_at m i) i) ∷ read_solution n m (i + 1) count

  -- `_solve`
  unfoldable pub solve : List (List F) → List F → Option (List F)
  unfolding augment solve_cols read_solution
  solve matrix vector =
      let n = length vector in
      elim (solve_cols n (augment matrix vector) 0 n) [
        | none ↦ none
        | some m ↦ some (read_solution n m 0 n)
      ]

  -- `TtftPredictor.features`
  unfoldable pub features : F → F → F → ℤ → List F
  features s_own_ms pending_ms inflight_bytes decoding =
      of_nat 1
      ∷ s_own_ms
      ∷ pending_ms
      ∷ num.div inflight_bytes (of_nat 1_000_000_000)
      ∷ num.of_int decoding
      ∷ []

  unfoldable pub dot : F → List F → List F → F
  dot acc [] xs = acc
  dot acc cs [] = acc
  dot acc (c ∷ cs) (x ∷ xs) = dot (num.add acc (num.mul c x)) cs xs

  -- `TtftPredictor.predict`
  unfoldable pub predict : Predictor F → List F → F
  unfolding dot
  predict p x = dot (of_nat 0) p.coef x

  -- Entries of the normal equations: sums over the samples in order.
  ata_entry : ℕ → ℕ → F → List (List F × F) → F
  unfolding at
  ata_entry i j acc [] = acc
  ata_entry i j acc ((x, y) ∷ rest) = ata_entry i j (num.add acc (num.mul (at x i) (at x j))) rest

  aty_entry : ℕ → F → List (List F × F) → F
  unfolding at
  aty_entry i acc [] = acc
  aty_entry i acc ((x, y) ∷ rest) = aty_entry i (num.add acc (num.mul (at x i) y)) rest

  -- `self.ridge * scale`, where a zero scale is replaced by 1.
  ridge_at : Predictor F → ℕ → F
  unfolding ata_entry
  ridge_at p i =
      let count = length p.samples in
      let spread =
        num.div (ata_entry i i (of_nat 0) p.samples) (of_nat (if count == 0 then 1 else count)) in
      num.mul p.ridge (if num.eq spread (of_nat 0) then of_nat 1 else spread)

  normal_row : Predictor F → ℕ → List F
  unfolding ata_entry ridge_at
  normal_row p i =
      map
        (λ j.
          let e = ata_entry i j (of_nat 0) p.samples in
          if i == j then num.add e (ridge_at p i) else e)
        indices

  normal_vector : Predictor F → List F
  unfolding aty_entry ridge_at at
  normal_vector p =
      map (λ i. num.add (aty_entry i (of_nat 0) p.samples) (num.mul (ridge_at p i) (at p.prior i)))
        indices

  all_finite : List F → Bool
  all_finite xs = not (any (λ c. not (num.is_finite c)) xs)

  -- `TtftPredictor._refit`
  unfoldable pub refit : Predictor F → Predictor F
  unfolding normal_row normal_vector solve all_finite
  refit p = elim (solve (map (normal_row p) indices) (normal_vector p)) [
    | none ↦ p
    | some solved ↦ if all_finite solved then record p { coef = solved } else p
  ]

  -- `TtftPredictor.set_prior`
  unfoldable pub set_prior : Predictor F → List F → Predictor F
  unfolding refit
  set_prior p prior =
      let restarted = record p { prior = prior; coef = prior; has_prior = true } in
      if leb p.refit_every (length p.samples) then refit restarted else restarted

  -- `TtftPredictor.record`
  unfoldable pub record_sample : Predictor F → List F → F → Predictor F
  unfolding push_bounded refit
  record_sample p x ttft_ms =
      let kept = push_bounded p.window p.samples (x, min_f ttft_ms p.clip_ms) in
      if p.has_prior && leb p.refit_every (p.since_fit + 1)
      then refit (record p { samples = kept; since_fit = 0 })
      else record p { samples = kept; since_fit = p.since_fit + 1 }
