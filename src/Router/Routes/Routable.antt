-- ===== src/Router/Routes/Routable.antt =====
-- `routes` (router.py) offers routable groups only, at their clocks.
use cana_tune_llm.Base.{
  ℕ, ◌≡◌, true, some, List, [], ◌∷◌, map, All, All-append, arith, inl, inr, Bool-cases,
}
use cana_tune_llm.Domain.Tiers.{ClockPoint}
use cana_tune_llm.Domain.Groups.{routable}
use cana_tune_llm.Domain.Risk.{range_from}
use cana_tune_llm.Router.State.{Router}
use cana_tune_llm.Router.Routes.{
  Route, routes, active_from, pairs_with, all_pairs, own_route, is_fixed,
}

module _ {F : Type 0} (r : Router F) where
  -- A group with the clocks at which it is routable.
  abbrev pub IsReady : ℕ → ClockPoint → Type 0
  IsReady i point = (routable (r.groups i) ≡ true) × ((r.groups i).effective ≡ some point)

  -- Both groups of a route are routable at the clocks that the route names.
  pub record IsRoutable (route : Route) : Type 0 where
    pub p_ready : IsReady route.p route.p_point
    pub d_ready : IsReady route.d route.d_point

  active_from-IsReady : (is : List ℕ) → All (λ e. IsReady e.0 e.1) (active_from r is)
  unfolding active_from
  active_from-IsReady [] = tt
  active_from-IsReady (i ∷ is) = ground (arith, active_from-IsReady is)

  pairs_with-IsRoutable :
      (d : ℕ × ClockPoint) (ps : List (ℕ × ClockPoint))
      → IsReady d.0 d.1
      → All (λ e. IsReady e.0 e.1) ps
      → All IsRoutable (pairs_with d ps)
  unfolding pairs_with
  pairs_with-IsRoutable d [] h a = tt
  pairs_with-IsRoutable d (p ∷ ps) h a =
      (record { p_ready = a.0; d_ready = h }, pairs_with-IsRoutable d ps h a.1)

  all_pairs-IsRoutable :
      (ds ps : List (ℕ × ClockPoint))
      → All (λ e. IsReady e.0 e.1) ds
      → All (λ e. IsReady e.0 e.1) ps
      → All IsRoutable (all_pairs ds ps)
  unfolding all_pairs
  all_pairs-IsRoutable [] ps h a = tt
  all_pairs-IsRoutable (d ∷ ds) ps h a =
      All-append IsRoutable (pairs_with d ps) (all_pairs ds ps) (pairs_with-IsRoutable d ps h.0 a)
        (all_pairs-IsRoutable ds ps h.1 a)

  own_routes-IsRoutable :
      (ps : List (ℕ × ClockPoint))
      → All (λ e. IsReady e.0 e.1) ps
      → All IsRoutable (map own_route ps)
  own_routes-IsRoutable [] a = tt
  own_routes-IsRoutable (p ∷ ps) a =
      (record { p_ready = a.0; d_ready = a.0 }, own_routes-IsRoutable ps a.1)

  -- Every route that is offered joins the P and the D of groups that are active at known clocks.
  pub routes-IsRoutable : All IsRoutable (routes r)
  unfolding routes
  routes-IsRoutable =
      let active = active_from r (range_from 0 r.n_groups) in
      let ready = active_from-IsReady (range_from 0 r.n_groups) in
      elim (Bool-cases (is_fixed r.settings.pairing)) [
        | inl e ↦ rw e (own_routes-IsRoutable active ready)
        | inr e ↦ rw e (all_pairs-IsRoutable active active ready ready)
      ]
