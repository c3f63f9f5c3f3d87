-- ===== src/Router/Candidates/Safety.antt =====
-- What a feasible route of `candidates` (router.py) guarantees.
use cana_tune_llm.Base.{
  ℕ, ◌≡◌, refl, true, false, not, ◌&&◌, Option, none, some, List, [], ◌∷◌, Float, ◌≼◌, All, arith,
  inl, inr, Bool-cases, is_none, sym, subst,
}
use cana_tune_llm.Domain.Risk.{RiskEstimate, RiskTable}
use cana_tune_llm.Router.State.{Router}
use cana_tune_llm.Router.Decode.{View}
use cana_tune_llm.Router.Routes.{Route, routes, open_admission}
use cana_tune_llm.Router.Routes.Routable.{IsRoutable, routes-IsRoutable}
use cana_tune_llm.Router.Candidates.{
  Assessment, decode_checked, is_decode_kv, warns, by_risk, judge, blank, assess, assess_all,
  candidates, feasible_of,
}

module _ {F : Type 0} ⦃num : Float F⦄ (r : Router F) (view : View F) (tokens : ℕ)
    (waited_ms : F) where
  -- The estimate that a route was judged by is within `theta`.
  abbrev pub IsSafe : Option (RiskEstimate F) → Type 0
  IsSafe none = ⊥
  IsSafe (some e) = e.risk ≼ r.settings.theta

  -- The D of the route has fresh telemetry and no hard limit in the way, nothing warns of its own
  -- latency, and the risk is within `theta`.
  pub record IsAdmissible (route : Route) (e : Option (RiskEstimate F)) : Type 0 where
    pub unblocked : (decode_checked r view route tokens).blocked ≡ none
    pub gate_open : (decode_checked r view route tokens).full_kv ≡ false
    pub in_projection :
        (is_decode_kv (decode_checked r view route tokens).risk && r.settings.kv_projection_hard)
        ≡ false
    pub calm : warns r view route (decode_checked r view route tokens) ≡ false
    pub safe : IsSafe e

  by_risk-IsSafe :
      (table : RiskTable) (a : Assessment F)
      → a.feasible ≡ false
      → let b = (by_risk r waited_ms table a).1 in
        (b.route ≡ a.route) × (b.feasible ≡ true → IsSafe b.estimate)
  unfolding by_risk
  by_risk-IsSafe table a f = ground arith

  judge-IsAdmissible :
      (table : RiskTable) (route : Route) (a : Assessment F)
      → a.feasible ≡ false
      → let c = decode_checked r view route tokens in
        let b = (judge r view waited_ms table route c a).1 in
        (b.route ≡ a.route) × (b.feasible ≡ true → IsAdmissible route b.estimate)
  unfolding judge
  judge-IsAdmissible table route a f =
      let c = decode_checked r view route tokens in
      let within = record a { within = true; d_unsafe = not (is_none c.risk) } in
      ground (arith, by_risk-IsSafe table within f)

  assess-IsAdmissible :
      (table : RiskTable) (route : Route)
      → open_admission r ≡ false
      → let b = (assess r view tokens waited_ms table route).1 in
        (b.route ≡ route) × (b.feasible ≡ true → IsAdmissible route b.estimate)
  unfolding assess
  assess-IsAdmissible table route shut =
      let c = decode_checked r view route tokens in
      let safe = is_none c.blocked && (not c.full_kv && is_none c.risk) in
      let a : Assessment F = record (blank r table route tokens c.d_busy) {
        tpot = c.tpot;
        d_safe = safe;
      } in
      ground (arith, judge-IsAdmissible table route a refl)

  -- A feasible assessment names a routable route that is admissible.
  abbrev pub IsSound : Assessment F → Type 0
  IsSound a = IsRoutable r a.route × IsAdmissible a.route a.estimate

  abbrev SoundIf : Assessment F → Type 0
  SoundIf a = a.feasible ≡ true → IsSound a

  assess_all-SoundIf :
      (table : RiskTable) (rs : List Route)
      → open_admission r ≡ false
      → All (IsRoutable r) rs
      → All SoundIf (assess_all r view tokens waited_ms table rs).1
  unfolding assess_all
  assess_all-SoundIf table [] shut ok = tt
  assess_all-SoundIf table (route ∷ rs) shut ok =
      let (same, good) = assess-IsAdmissible table route shut in
      let next = (assess r view tokens waited_ms table route).0 in
      let b = (assess r view tokens waited_ms table route).1 in
      (
        λ f. (
          subst (IsRoutable r) (sym same) ok.0,
          subst (λ x. IsAdmissible x b.estimate) (sym same) (good f),
        ),
        assess_all-SoundIf next rs shut ok.1,
      )

  All-keep : (xs : List (Assessment F)) → All SoundIf xs → All IsSound (feasible_of xs)
  All-keep [] h = tt
  All-keep (x ∷ xs) h = elim (Bool-cases x.feasible) [
    | inl e ↦ rw e (h.0 e, All-keep xs h.1)
    | inr e ↦ rw e (All-keep xs h.1)
  ]

  pub candidates-IsSound :
      (now : F)
      → open_admission r ≡ false
      → All IsSound (feasible_of (candidates r now view tokens waited_ms).1)
  unfolding candidates
  candidates-IsSound now shut =
      All-keep _ (assess_all-SoundIf r.table (routes r) shut (routes-IsRoutable r))
