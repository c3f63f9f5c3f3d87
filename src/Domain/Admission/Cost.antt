-- ===== src/Domain/Admission/Cost.antt =====
-- src/canatune/domain/admission.py: `PrefillCost` and `CostBook`; models.py: `interpolate`.
use cana_tune_llm.Base.{
  ℕ, min, max, Bool, ◌&&◌, Option, none, some, List, [], ◌∷◌, map, if◌then◌else◌, leb, ◌==◌, Float,
  of_nat, keep_if, length,
}
pub mod Clocks

-- Points (length, ms) in increasing order of length, as `sorted(table.items())` leaves them.
abbrev pub Points : Type 0 → Type 0
Points F = List (ℕ × F)

insert_point : {F : Type 0} → ℕ × F → Points F → Points F
insert_point p [] = p ∷ []
insert_point p (q ∷ rest) = if leb p.0 q.0 then p ∷ q ∷ rest else q ∷ insert_point p rest

-- `sorted(...)` on the items of a `dict`, whose keys differ.
unfoldable pub sort_points : {F : Type 0} → Points F → Points F
unfolding insert_point
sort_points [] = []
sort_points (p ∷ rest) = insert_point p (sort_points rest)

module _ {F : Type 0} ⦃num : Float F⦄ where
  -- y0 + (y1 - y0) * (x - x0) / (x1 - x0)
  abbrev segment : ℕ × F → ℕ × F → ℕ → F
  segment p q x =
      let rise = num.mul (num.sub q.1 p.1) (num.sub (of_nat x) (of_nat p.0)) in
      num.add p.1 (num.div rise (num.sub (of_nat q.0) (of_nat p.0)))

  -- y1 + (y1 - y0) * (x - x1) / (x1 - x0)
  abbrev beyond : ℕ × F → ℕ × F → ℕ → F
  beyond p q x =
      let rise = num.mul (num.sub q.1 p.1) (num.sub (of_nat x) (of_nat q.0)) in
      num.add q.1 (num.div rise (num.sub (of_nat q.0) (of_nat p.0)))

  -- The loop over neighbouring points, from the point `p` on, and the last segment after it.
  unfoldable pub cost_from : ℕ × F → ℕ × F → Points F → ℕ → F
  cost_from p q [] x = if leb x q.0 then segment p q x else beyond p q x
  cost_from p q (r ∷ rest) x = if leb x q.0 then segment p q x else cost_from q r rest x

  -- `PrefillCost.__call__` on sorted points.
  unfoldable pub prefill_cost : Points F → ℕ → F
  unfolding cost_from
  prefill_cost (p ∷ q ∷ rest) x = if leb x p.0 then p.1 else cost_from p q rest x
  prefill_cost _ x = of_nat 0

abbrev has_two : {F : Type 0} → ℕ × Points F → Bool
has_two e = leb 2 (length e.1)

-- `CostBook.__init__`: the clocks with at least two points.
unfoldable pub cost_book : {F : Type 0} → List (ℕ × Points F) → List (ℕ × Points F)
unfolding sort_points
cost_book tables = map (λ e. (e.0, sort_points e.1)) (keep_if has_two tables)

-- `max(xs)` of a nonempty list given by its head.
unfoldable pub greatest : ℕ → List ℕ → ℕ
greatest x [] = x
greatest x (y ∷ ys) = greatest (max x y) ys

unfoldable pub least : ℕ → List ℕ → ℕ
least x [] = x
least x (y ∷ ys) = least (min x y) ys

-- `max(xs) if xs else default`
unfoldable pub greatest_or : ℕ → List ℕ → ℕ
unfolding greatest
greatest_or default [] = default
greatest_or default (x ∷ xs) = greatest x xs

-- The measured clock that `for_clock` takes: the greatest at or below `mhz`, else the least of all.
-- The clocks are `x ∷ xs`; no `mhz` means the greatest of all.
unfoldable pub clock_for : ℕ → List ℕ → Option ℕ → ℕ
unfolding greatest least greatest_or
clock_for x xs none = greatest x xs
clock_for x xs (some mhz) = greatest_or (least x xs) (keep_if (λ f. leb f mhz) (x ∷ xs))

-- `self.costs[clock]`
find_points : {F : Type 0} → ℕ → List (ℕ × Points F) → Points F
find_points clock [] = []
find_points clock ((f, points) ∷ rest) = if f == clock then points else find_points clock rest

-- `CostBook.for_clock`; an empty book has the empty cost.
unfoldable pub for_clock : {F : Type 0} → List (ℕ × Points F) → Option ℕ → Points F
unfolding clock_for find_points
for_clock [] mhz = []
for_clock ((f, points) ∷ rest) mhz =
    find_points (clock_for f (map (λ e. e.0) rest) mhz) ((f, points) ∷ rest)

module _ {F : Type 0} ⦃num : Float F⦄ where
  -- The last of the points.
  last_point : ℕ × F → Points F → ℕ × F
  last_point p [] = p
  last_point p (q ∷ rest) = last_point q rest

  -- The loop of `interpolate` over neighbouring points, from the point `p` on.
  unfoldable pub interpolate_from : ℕ × F → Points F → ℕ → Option F
  interpolate_from p [] x = none
  interpolate_from p (q ∷ rest) x =
      if leb p.0 x && leb x q.0 then some (segment p q x) else interpolate_from q rest x

  -- models.py `interpolate`, on points in any order.
  unfoldable pub interpolate : Points F → ℕ → Option F
  unfolding sort_points last_point interpolate_from
  interpolate points x = elim (sort_points points) [
    | [] ↦ none
    | p ∷ rest ↦
        let top = last_point p rest in
        if leb x p.0
        then some p.1
        else if leb top.0 x
        then some top.1
        else interpolate_from p rest x
  ]
