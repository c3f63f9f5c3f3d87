-- ===== src/Domain/Cluster/Mix/Longest.antt =====
-- `_mix` (models.py) never loses the longest prompt of the mix.
use cana_tune_llm.Base.{
  ℕ, suc, ◌+◌, ◌*◌, ◌/◌, ◌≤◌, ◌≡◌, Option, none, some, [], ◌∷◌, ◌++◌, leb, length, get_elem?, All,
  sort_by, IsWeak, IsTotal, IsSorted, sort_by_back, sort_by-IsSorted, All_imp, get_elem?_below,
  subst, sym, arith, if_case, ap,
}
use cana_tune_llm.Domain.Cluster.Mix.{
  Lengths, mix_points, by_pair, pick, quantiles, replace_last, last_of, reduce, mix_of,
}

-- A bound on every prompt of a mix.
abbrev pub Within : ℕ → ℕ × ℕ → Type 0
Within n e = e.0 ≤ n

-- Some prompt of the mix is at least `n`.
pub data Reaches (n : ℕ) : Lengths → Type 0 where
  here : {e : ℕ × ℕ} {rest : Lengths} → n ≤ e.0 → Reaches n (e ∷ rest)
  there : {e : ℕ × ℕ} {rest : Lengths} → Reaches n rest → Reaches n (e ∷ rest)

by_pair-IsWeak : IsWeak by_pair
by_pair-IsWeak a b c h k = ground arith

by_pair-IsTotal : IsTotal by_pair
by_pair-IsTotal a b h = ground arith

-- In increasing order, no prompt is longer than the last.
last_of-All :
    (x : ℕ × ℕ) (xs : Lengths) → IsSorted by_pair (x ∷ xs) → All (Within (last_of x xs).0) (x ∷ xs)
unfolding last_of
last_of-All x [] s = (omega arith, tt)
last_of-All x (y ∷ ys) s = let rest = last_of-All y ys s.1 in (ground (arith, rest.0, s.0.0), rest)

replace_last-Reaches :
    (last : ℕ × ℕ) (x : ℕ × ℕ) (xs : Lengths) → Reaches last.0 (replace_last last (x ∷ xs))
unfolding replace_last
replace_last-Reaches last x [] = Reaches.here (omega arith)
replace_last-Reaches last x (y ∷ ys) = Reaches.there (replace_last-Reaches last y ys)

Reaches-weaken : (m n : ℕ) (xs : Lengths) → n ≤ m → Reaches m xs → Reaches n xs
Reaches-weaken m n [] le h = elim h [ ]
Reaches-weaken m n (x ∷ xs) le (here h) = Reaches.here (omega (arith, le, h))
Reaches-weaken m n (x ∷ xs) le (there h) = Reaches.there (Reaches-weaken m n xs le h)

Reaches-self : (xs : Lengths) → All (λ e. Reaches e.0 xs) xs
Reaches-self [] = tt
Reaches-self (x ∷ xs) = (
  Reaches.here (omega arith),
  All_imp (λ e. Reaches e.0 xs) (λ e. Reaches e.0 (x ∷ xs)) xs (λ e h. Reaches.there h)
      (Reaches-self xs),
)

quantiles-from :
    (kept : Lengths) (i n : ℕ) (y : ℕ × ℕ)
    → get_elem? kept ((2 * i + 1) * length kept / 32) ≡ some y
    → quantiles kept i (suc n) ≡ y ∷ quantiles kept (i + 1) n
unfolding quantiles pick
quantiles-from kept i n y h =
    ap
      (λ (o : Option (ℕ × ℕ)). (elim o [ none ↦ [] | some e ↦ e ∷ [] ]) ++ quantiles kept (i + 1) n)
      h

-- The quantiles of a mix that is not empty are not empty.
quantiles-first :
    (x : ℕ × ℕ) (xs : Lengths)
    → (y : ℕ × ℕ) × (ys : Lengths) × (quantiles (x ∷ xs) 0 mix_points ≡ y ∷ ys)
quantiles-first x xs =
    let kept = x ∷ xs in
    let (y, found) = get_elem?_below kept ((2 * 0 + 1) * length kept / 32) (omega arith) in
    (y, quantiles kept 1 15, quantiles-from kept 0 15 y found)

replaced-Reaches :
    (last y : ℕ × ℕ) (q ys : Lengths) → q ≡ y ∷ ys → Reaches last.0 (replace_last last q)
replaced-Reaches last y q ys e =
    subst (λ r. Reaches last.0 (replace_last last r)) (sym e) (replace_last-Reaches last y ys)

reduce-Reaches : (xs : Lengths) → IsSorted by_pair xs → All (λ e. Reaches e.0 (reduce xs)) xs
unfolding reduce
reduce-Reaches [] s = tt
reduce-Reaches (x ∷ xs) s =
    let last = last_of x xs in
    let q = quantiles (x ∷ xs) 0 mix_points in
    let few = leb (length (x ∷ xs)) mix_points in
    if_case (λ r. All (λ e. Reaches e.0 r) (x ∷ xs)) few (x ∷ xs) (replace_last last q)
      (λ _. Reaches-self (x ∷ xs))
      (λ _.
        let (y, ys, e) = quantiles-first x xs in
        let top = replaced-Reaches last y q ys e in
        All_imp (Within last.0) (λ e. Reaches e.0 (replace_last last q)) (x ∷ xs)
          (λ e le. Reaches-weaken last.0 e.0 (replace_last last q) le top) (last_of-All x xs s))

-- However long the mix, for each of its requests some representative has a prompt at least as long.
pub mix_of-Reaches : (mix : Lengths) → All (λ e. Reaches e.0 (mix_of mix)) mix
unfolding mix_of
mix_of-Reaches mix =
    sort_by_back by_pair (λ e. Reaches e.0 (reduce (sort_by by_pair mix))) mix
      (reduce-Reaches (sort_by by_pair mix)
        (sort_by-IsSorted by_pair by_pair-IsWeak by_pair-IsTotal mix))
