-- ===== src/Domain/Risk/Persisted/Merged.antt =====
-- Tables of cells (risk.py) under assignment, merging and sorting.
use cana_tune_llm.Base.{
  ◌≡◌, refl, sym, ◌∙◌, ap, subst, Bool, true, false, Option, none, some, List, [], ◌∷◌,
  if◌then◌else◌, arith, inl, inr, Bool-cases, Compared, insert_by, sort_by, if_case, is_less,
}
use cana_tune_llm.Domain.Tiers.{ClockPoint}
use cana_tune_llm.Domain.Risk.{Cell, cell_eq, clock_eq, bool_eq, find_cell}
use cana_tune_llm.Domain.Risk.Persisted.{put_cell, put_all}

bool_eq-true : (a b : Bool) → bool_eq a b ≡ true → a ≡ b
bool_eq-true true b e = sym e
bool_eq-true false true e = ground arith
bool_eq-true false false e = refl

bool_eq_refl : (b : Bool) → bool_eq b b ≡ true
bool_eq_refl true = refl
bool_eq_refl false = refl

clock_eq-true : (a b : ClockPoint) → clock_eq a b ≡ true → a ≡ b
clock_eq-true a b e =
    let p : a.prefill_mhz ≡ b.prefill_mhz = ground arith in
    let d : a.decode_mhz ≡ b.decode_mhz = ground arith in
    ap (λ x. record { prefill_mhz = x; decode_mhz = a.decode_mhz }) p
    ∙ ap (λ x. record { prefill_mhz = b.prefill_mhz; decode_mhz = x }) d

pub cell_eq-true : (a b : Cell) → cell_eq a b ≡ true → a ≡ b
cell_eq-true a b e =
    let clock = clock_eq-true a.clock b.clock (ground arith) in
    let n : a.n_await ≡ b.n_await = ground arith in
    let p : a.prompt ≡ b.prompt = ground arith in
    let d = bool_eq-true a.d_busy b.d_busy (ground arith) in
    ap (λ x. record { clock = x; n_await = a.n_await; prompt = a.prompt; d_busy = a.d_busy }) clock
    ∙ (ap (λ x. record { clock = b.clock; n_await = x; prompt = a.prompt; d_busy = a.d_busy }) n
        ∙ (ap (λ x. record { clock = b.clock; n_await = b.n_await; prompt = x; d_busy = a.d_busy })
              p
            ∙ ap
                (λ x. record {
                  clock = b.clock;
                  n_await = b.n_await;
                  prompt = b.prompt;
                  d_busy = x;
                })
                d))

cell_eq-same : (j k c : Cell) → cell_eq j k ≡ true → cell_eq j c ≡ cell_eq k c
cell_eq-same j k c e = ap (λ x. cell_eq x c) (cell_eq-true j k e)

cell_eq-other : (j k c : Cell) → cell_eq j k ≡ false → cell_eq k c ≡ true → cell_eq j c ≡ false
cell_eq-other j k c e own = subst (λ x. cell_eq j x ≡ false) (cell_eq-true k c own) e

cell_eq_refl : (c : Cell) → cell_eq c c ≡ true
cell_eq_refl c = let d = bool_eq_refl c.d_busy in ground arith

cell_eq-flip : (j k : Cell) → cell_eq j k ≡ false → cell_eq k j ≡ false
cell_eq-flip j k e = elim (Bool-cases (cell_eq k j)) [
  | inl same ↦
      let own = subst (λ x. cell_eq x k ≡ true) (cell_eq-true k j same) (cell_eq_refl k) in
      ground arith
  | inr other ↦ other
]

abbrev pub or_else {ℓ} : {A : Type ℓ} → Option A → Option A → Option A
or_else (some x) o = some x
or_else none o = o

module _ {V : Type 0} where
  -- No cell stands twice.
  abbrev pub IsDistinctCells : List (Cell × V) → Type 0
  IsDistinctCells [] = Unit {0}
  IsDistinctCells ((c, v) ∷ rest) = (find_cell c rest ≡ none) × IsDistinctCells rest

  find_cell-put_cell :
      (c k : Cell) (v : V) (m : List (Cell × V))
      → find_cell c (put_cell k v m) ≡ (if cell_eq k c then some v else find_cell c m)
  unfolding find_cell put_cell
  find_cell-put_cell c k v [] = refl
  find_cell-put_cell c k v ((j, w) ∷ m) = elim (Bool-cases (cell_eq j k)) [
    | inl same ↦ let at = cell_eq-same j k c same in ground arith
    | inr other ↦ let rest = find_cell-put_cell c k v m in ground arith
  ]

  -- A later entry counts, and a merged one counts before what was there.
  pub find_cell-put_all :
      (c : Cell) (es m : List (Cell × V))
      → IsDistinctCells es
      → find_cell c (put_all es m) ≡ or_else (find_cell c es) (find_cell c m)
  unfolding find_cell put_all
  find_cell-put_all c [] m d = refl
  find_cell-put_all c ((k, v) ∷ es) m (fresh, d) =
      let rest = find_cell-put_all c es (put_cell k v m) d in
      let one = find_cell-put_cell c k v m in
      elim (Bool-cases (cell_eq k c)) [
        | inl same ↦
            let absent : find_cell c es ≡ none =
              subst (λ x. find_cell x es ≡ none) (cell_eq-true k c same) fresh in
            ground arith
        | inr other ↦ ground arith
      ]

  find_cell-insert_by :
      (f : Cell × V → Cell × V → Compared) (c k : Cell) (v : V) (es : List (Cell × V))
      → find_cell k es ≡ none
      → find_cell c (insert_by f (k, v) es) ≡ (if cell_eq k c then some v else find_cell c es)
  unfolding find_cell insert_by
  find_cell-insert_by f c k v [] fresh = refl
  find_cell-insert_by f c k v ((j, w) ∷ es) fresh =
      let rest = find_cell-insert_by f c k v es (ground arith) in
      let new : cell_eq j k ≡ false = ground arith in
      elim (Bool-cases (cell_eq k c)) [
        | inl same ↦ let apart = cell_eq-other j k c new same in ground arith
        | inr other ↦ ground arith
      ]

  insert_by-IsDistinctCells :
      (f : Cell × V → Cell × V → Compared) (k : Cell) (v : V) (es : List (Cell × V))
      → find_cell k es ≡ none
      → IsDistinctCells es
      → IsDistinctCells (insert_by f (k, v) es)
  unfolding find_cell insert_by
  insert_by-IsDistinctCells f k v [] fresh d = (refl, tt)
  insert_by-IsDistinctCells f k v ((j, w) ∷ es) fresh (free, d) =
      let off : find_cell k es ≡ none = ground arith in
      let new : cell_eq j k ≡ false = ground arith in
      let rest = insert_by-IsDistinctCells f k v es off d in
      let at = find_cell-insert_by f j k v es off in
      let back : cell_eq k j ≡ false = cell_eq-flip j k new in
      if_case IsDistinctCells (is_less (f (j, w) (k, v))) ((j, w) ∷ insert_by f (k, v) es)
        ((k, v) ∷ (j, w) ∷ es) (λ _. (ground arith, rest)) (λ _. (ground arith, (free, d)))

  -- Sorting by any key changes no lookup of a table without repeated cells, nor adds a repetition.
  pub find_cell-sort_by :
      (f : Cell × V → Cell × V → Compared) (es : List (Cell × V))
      → IsDistinctCells es
      → ((c : Cell) → find_cell c (sort_by f es) ≡ find_cell c es) × IsDistinctCells (sort_by f es)
  unfolding find_cell sort_by
  find_cell-sort_by f [] d = (λ c. refl, tt)
  find_cell-sort_by f ((k, v) ∷ es) (fresh, d) =
      let (same, distinct) = find_cell-sort_by f es d in
      let free = same k ∙ fresh in
      (
        λ c.
            find_cell-insert_by f c k v (sort_by f es) free
            ∙ ap (λ o. if cell_eq k c then some v else o) (same c),
        insert_by-IsDistinctCells f k v (sort_by f es) free distinct,
      )
