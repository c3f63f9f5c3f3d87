-- ===== src/Router/Routes.antt =====
-- src/canatune/controller/router.py: `Route` and `routes`.
use cana_tune_llm.Base.{
  ℕ, Bool, true, false, Option, none, some, List, [], ◌∷◌, ◌++◌, map, if◌then◌else◌, ◌==◌, is_none,
}
use cana_tune_llm.Domain.Tiers.{ClockPoint}
use cana_tune_llm.Domain.Groups.{Group, routable}
use cana_tune_llm.Domain.Risk.{range_from}
use cana_tune_llm.Router.Settings.{Pairing}
use cana_tune_llm.Router.State.{Router}
pub mod Routable

-- `Route`: the P of one group and the D of another, with the clocks at which they are routable.
pub record Route : Type 0 where
  pub p : ℕ
  pub d : ℕ
  pub p_point : ClockPoint
  pub d_point : ClockPoint

abbrev pub is_fixed : Pairing → Bool
is_fixed Pairing.fixed = true
is_fixed Pairing.dynamic = false

abbrev point_if : Bool → Option ClockPoint → Option ClockPoint
point_if true point = point
point_if false point = none

module _ {F : Type 0} where
  -- A routable group with its clocks.
  abbrev pub routable_point : Group F → Option ClockPoint
  routable_point g = point_if (routable g) g.effective

  -- Cold start: no tier table yet.
  abbrev pub open_admission : Router F → Bool
  open_admission r = is_none r.tiers.table

abbrev cons_point : ℕ → Option ClockPoint → List (ℕ × ClockPoint) → List (ℕ × ClockPoint)
cons_point i none rest = rest
cons_point i (some point) rest = (i, point) ∷ rest

module _ {F : Type 0} where
  active_from : Router F → List ℕ → List (ℕ × ClockPoint)
  active_from r [] = []
  active_from r (i ∷ is) = cons_point i (routable_point (r.groups i)) (active_from r is)

pairs_with : ℕ × ClockPoint → List (ℕ × ClockPoint) → List Route
pairs_with d [] = []
pairs_with d (p ∷ ps) = record { p = p.0; d = d.0; p_point = p.1; d_point = d.1 } ∷ pairs_with d ps

all_pairs : List (ℕ × ClockPoint) → List (ℕ × ClockPoint) → List Route
unfolding pairs_with
all_pairs [] ps = []
all_pairs (d ∷ ds) ps = pairs_with d ps ++ all_pairs ds ps

abbrev own_route : ℕ × ClockPoint → Route
own_route g = record { p = g.0; d = g.0; p_point = g.1; d_point = g.1 }

-- `routes`
unfoldable pub routes : {F : Type 0} → Router F → List Route
unfolding active_from all_pairs range_from
routes r =
    let active = active_from r (range_from 0 r.n_groups) in
    if is_fixed r.settings.pairing then map own_route active else all_pairs active active

-- The clock point of a route's risk cell.
abbrev pub clock_of : Route → ClockPoint
clock_of route =
    if route.p == route.d
    then route.p_point
    else record { prefill_mhz = route.p_point.prefill_mhz; decode_mhz = route.d_point.decode_mhz }
