-- ===== src/Domain/Cluster/Fits.antt =====
-- src/canatune/domain/models.py: `fit_line`, `fit_decode`, `decode_capacity` and `fit_power`, from the
-- windows of a calibration to the numbers of a cluster model.
use cana_tune_llm.Base.{
  ℕ, ◌+◌, ◌/◌, Bool, true, false, not, ◌&&◌, ◌||◌, Option, none, some, List, [], ◌∷◌, ◌++◌, map,
  if◌then◌else◌, ltb, ◌==◌, Float, of_nat, frac, max_f, min_f, sum_f, length, get_elem?, by_float,
  sort_by, is_none, is_empty, any,
}
use cana_tune_llm.Domain.Admission.Cost.{Points, interpolate}
use cana_tune_llm.Domain.Tiers.{LengthCoef}
use cana_tune_llm.Domain.Cluster.{Pairs}
pub mod Slopes

-- The binding limit of a D.
pub data Limit : Type 0 where
  kv tpot : Limit

pub record DecodeCapacity (F : Type 0) : Type 0 where
  pub sequences : Option F
  pub tpot_sequences : Option F
  pub kv_sequences : Option F
  pub limit : Limit

module _ {F : Type 0} ⦃num : Float F⦄ where
  -- `sum((x - mx) * (y - my) for ...)`
  products : F → F → List (F × F) → F
  products mx my points =
      sum_f (map (λ (e : F × F). num.mul (num.sub e.0 mx) (num.sub e.1 my)) points)

  squares : F → List (F × F) → F
  squares mx points = sum_f (map (λ (e : F × F). num.mul (num.sub e.0 mx) (num.sub e.0 mx)) points)

  -- `fit_line`: least squares, where two distinct values of x are there.
  unfoldable pub fit_line : List (F × F) → Option (F × F)
  unfolding products squares
  fit_line points =
      let n = of_nat (length points) in
      let mx = num.div (sum_f (map (λ (e : F × F). e.0) points)) n in
      let my = num.div (sum_f (map (λ (e : F × F). e.1) points)) n in
      let sxx = squares mx points in
      let b = num.div (products mx my points) sxx in
      if ltb (length points) 2
      then none
      else if num.le sxx (of_nat 0)
      then none
      else some (num.sub my (num.mul b mx), b)

  -- The clocks with a line of their own.
  own_fit : ℕ → Option (F × F) → Pairs F
  own_fit f none = []
  own_fit f (some (alpha, delta)) = if num.le (of_nat 0) delta then (f, (alpha, delta)) ∷ [] else []

  unfoldable pub own_fits : List (ℕ × List (F × F)) → Pairs F
  unfolding own_fit fit_line
  own_fits [] = []
  own_fits ((f, pts) ∷ rest) = own_fit f (fit_line pts) ++ own_fits rest

  -- `sorted(xs)[len(xs) // 2]`
  unfoldable pub median : List F → Option F
  unfolding sort_by
  median xs = get_elem? (sort_by by_float xs) (length xs / 2)

  shared_fit : ℕ → List (F × F) → F → F × F
  shared_fit f pts delta =
      let rests = map (λ (e : F × F). num.sub e.1 (num.mul delta e.0)) pts in
      (num.div (sum_f rests) (of_nat (length pts)), delta)

  -- The other clocks, with the slope that the first ones share.
  unfoldable pub shared_fits : Pairs F → F → List (ℕ × List (F × F)) → Pairs F
  unfolding shared_fit
  shared_fits fits delta [] = []
  shared_fits fits delta ((f, pts) ∷ rest) =
      if any (λ e. e.0 == f) fits || is_empty pts
      then shared_fits fits delta rest
      else (f, shared_fit f pts delta) ∷ shared_fits fits delta rest

  with_shared : Pairs F → List (ℕ × List (F × F)) → Option F → Pairs F
  unfolding shared_fits
  with_shared fits points none = fits
  with_shared fits points (some delta) = fits ++ shared_fits fits delta points

  -- `fit_decode`
  unfoldable pub fit_decode : List (ℕ × List (F × F)) → Pairs F
  unfolding own_fits median with_shared
  fit_decode points =
      let fits = own_fits points in with_shared fits points (median (map (λ e. e.1.1) fits))

  -- `None if math.isinf(x) else x`
  unless_inf : F → F → Option F
  unless_inf x shown = if num.eq (num.abs x) num.inf then none else some shown

  kv_sequences_of : F → F → Option F → F
  kv_sequences_of context kv_limit none = num.inf
  kv_sequences_of context kv_limit (some tokens) =
      if num.eq tokens (of_nat 0)
      then num.inf
      else if num.lt (of_nat 0) context
      then num.div (num.mul kv_limit tokens) context
      else num.inf

  -- `decode_capacity`
  unfoldable pub decode_capacity : LengthCoef F → F → F → Option F → F → DecodeCapacity F
  unfolding unless_inf kv_sequences_of
  decode_capacity coef context tpot_slo_ms kv_tokens kv_limit =
      let per_sequence = num.add coef.beta (num.mul coef.gamma context) in
      let room = num.sub (num.sub tpot_slo_ms coef.alpha) coef.r95 in
      let tpot = if num.lt (of_nat 0) per_sequence then num.div room per_sequence else num.inf in
      let kv = kv_sequences_of context kv_limit kv_tokens in
      let sequences = max_f (of_nat 0) (min_f tpot kv) in
      record {
        sequences = unless_inf sequences sequences;
        tpot_sequences = unless_inf tpot (max_f (of_nat 0) tpot);
        kv_sequences = unless_inf kv kv;
        limit = if num.lt kv tpot then Limit.kv else Limit.tpot;
      }

  -- `by_clock.setdefault(f, []).append(k)`
  append_at : ℕ → F → List (ℕ × List F) → List (ℕ × List F)
  append_at f k [] = (f, k ∷ []) ∷ []
  append_at f k ((g, ks) ∷ rest) =
      if g == f then (g, ks ++ (k ∷ [])) ∷ rest else (g, ks) ∷ append_at f k rest

  dynamic_of : F → F → Option F → Option F
  dynamic_of watts util none = none
  dynamic_of watts util (some base) =
      if num.lt util (frac 5 100)
      then none
      else some (max_f (of_nat 0) (num.div (num.sub watts base) util))

  by_clock : Points F → List (ℕ × List F) → List (ℕ × (F × F)) → List (ℕ × List F)
  unfolding append_at dynamic_of interpolate
  by_clock idle found [] = found
  by_clock idle found ((f, (watts, util)) ∷ rest) =
      elim (dynamic_of watts util (interpolate idle f)) [
        | none ↦ by_clock idle found rest
        | some k ↦ by_clock idle (append_at f k found) rest
      ]

  power_fits : Points F → List (ℕ × List F) → Pairs F
  unfolding median interpolate
  power_fits idle [] = []
  power_fits idle ((f, ks) ∷ rest) = elim (interpolate idle f) [
    | none ↦ power_fits idle rest
    | some base ↦ elim (median ks) [
      | none ↦ power_fits idle rest
      | some k ↦ (f, (base, k)) ∷ power_fits idle rest
    ]
  ]

  -- `fit_power`
  unfoldable pub fit_power : Points F → List (ℕ × (F × F)) → Pairs F
  unfolding by_clock power_fits
  fit_power idle windows = power_fits idle (by_clock idle [] windows)
