-- ===== src/Router/Choose.antt =====
-- src/canatune/controller/router.py: `_choose`, `cool` and `is_cooled`.
use cana_tune_llm.Base.{
  ℕ, ◌+◌, ◌-◌, ◌%◌, Bool, true, false, not, ◌&&◌, ◌||◌, Option, none, some, List, [], ◌∷◌,
  if◌then◌else◌, ltb, ◌==◌, ℤ, pos, ◌+ℤ◌, ltb_ℤ, Float, of_nat, max_f, keep_if, any, Compared,
  by_bool, by_float, by_int, by_nat, lexicographic, max_by, min_by, sort_by,
}
use cana_tune_llm.Domain.Groups.{Group}
use cana_tune_llm.Domain.Risk.{bool_eq}
use cana_tune_llm.Router.Settings.{GroupChoice, DChoice, PChoice, same_mode}
use cana_tune_llm.Router.State.{Router, update}
use cana_tune_llm.Router.Routes.{Route, is_fixed, open_admission}
use cana_tune_llm.Router.Candidates.{Assessment}
pub mod Member
pub mod Order

abbrev is_turn : GroupChoice → Bool
is_turn GroupChoice.round_robin = true
is_turn _ = false

module _ {F : Type 0} ⦃num : Float F⦄ where
  -- `is_cooled` and `cool`
  unfoldable pub is_cooled : Router F → F → ℕ → Bool
  is_cooled r now g = num.lt now (r.cooled g)

  unfoldable pub cool : Router F → ℕ → F → Router F
  cool r g until = record r { cooled = update r.cooled g (max_f until (r.cooled g)) }

  module _ (r : Router F) (now : F) where
    abbrev p_of : Assessment F → Group F
    p_of a = r.groups a.route.p

    abbrev d_of : Assessment F → Group F
    d_of a = r.groups a.route.d

    -- Cold start: least outstanding prompt work first, production before the Canary.
    spread_key : Assessment F → Assessment F → Compared
    spread_key a b = lexicographic (by_int (p_of a).t_await (p_of b).t_await) (
        lexicographic (by_int (p_of a).n_inflight (p_of b).n_inflight)
          (by_bool (p_of a).canary (p_of b).canary))

    -- Production before the Canary, then the order of the groups.
    pub order_key : Assessment F → Assessment F → Compared
    order_key a b =
        lexicographic (by_bool (p_of a).canary (p_of b).canary) (by_nat a.route.p b.route.p)

    abbrev below_cap : Option ℕ → ℤ → Bool
    below_cap none n = true
    below_cap (some cap) n = ltb_ℤ n (pos cap)

    abbrev within_near : Option F → Bool
    within_near none = true
    within_near (some tpot) = num.le tpot (num.mul r.settings.near_slo r.settings.tpot_slo_ms)

    -- fill: the P is below its slot cap, the D below the near-SLO share, and the group not cooled.
    abbrev pub has_room : Assessment F → Bool
    has_room a =
        below_cap r.p_slot_cap (p_of a).n_at_p
        && (within_near a.tpot && not (is_cooled r now a.route.p))

    abbrev tpot_or_zero : Option F → F
    tpot_or_zero none = of_nat 0
    tpot_or_zero (some x) = x

    fewest_key : Assessment F → Assessment F → Compared
    fewest_key a b = lexicographic (by_int (p_of a).n_at_p (p_of b).n_at_p) (
        lexicographic (by_float (tpot_or_zero a.tpot) (tpot_or_zero b.tpot))
          (by_float (p_of a).pending_ms (p_of b).pending_ms))

    spread_fewest : List (Assessment F) → Option (Assessment F)
    unfolding fewest_key min_by
    spread_fewest [] = none
    spread_fewest (a ∷ rest) = some (min_by fewest_key a rest)

    -- The first item of the order with room.
    pub first_room : List (Assessment F) → Option (Assessment F)
    unfolding is_cooled
    first_room [] = none
    first_room (a ∷ rest) = if has_room a then some a else first_room rest

    or_spread : Option (Assessment F) → List (Assessment F) → Option (Assessment F)
    unfolding spread_fewest
    or_spread (some a) order = some a
    or_spread none order = spread_fewest order

    unfoldable pub choose_fill : List (Assessment F) → Option (Assessment F)
    unfolding order_key first_room or_spread sort_by
    choose_fill feasible =
        let order = sort_by order_key feasible in or_spread (first_room order) order

    -- The most loaded group, production before the Canary on ties, then the earlier one.
    load_key : Assessment F → Assessment F → Compared
    load_key a b = lexicographic (by_int (p_of a).n_inflight (p_of b).n_inflight) (
        lexicographic (by_bool (not (p_of a).canary) (not (p_of b).canary))
          (by_nat b.route.p a.route.p))

    -- (index - cursor) % n, where Python's result is not negative.
    abbrev turn_of : Assessment F → ℕ
    turn_of a = (a.route.p + r.n_groups - r.group_rr) % r.n_groups

    turn_key : Assessment F → Assessment F → Compared
    turn_key a b = by_nat (turn_of a) (turn_of b)

    -- Requests that the D of a route serves or will serve.
    abbrev d_load : Assessment F → ℤ
    d_load a = (d_of a).n_await +ℤ (d_of a).n_decoding

    abbrev pub route_canary : Assessment F → Bool
    route_canary a = (p_of a).canary || (d_of a).canary

    -- Dynamic pairing, cold start.
    open_key : Assessment F → Assessment F → Compared
    open_key a b = lexicographic (by_int (d_load a) (d_load b)) (
        lexicographic (by_float (p_of a).pending_ms (p_of b).pending_ms) (
          lexicographic (by_int (p_of a).n_at_p (p_of b).n_at_p)
            (by_bool (route_canary a) (route_canary b))))

    -- The most loaded D, production before the Canary; and the least loaded one.
    busiest_key : Assessment F → Assessment F → Compared
    busiest_key a b = lexicographic (by_int (d_load a) (d_load b)) (
        lexicographic (by_bool (not (d_of a).canary) (not (d_of b).canary))
          (by_nat b.route.d a.route.d))

    idlest_key : Assessment F → Assessment F → Compared
    idlest_key a b =
        lexicographic (by_int (d_load a) (d_load b))
          (lexicographic (by_bool (d_of a).canary (d_of b).canary) (by_nat a.route.d b.route.d))

    busy_p_key : Assessment F → Assessment F → Compared
    busy_p_key a b = lexicographic (by_int (p_of a).n_at_p (p_of b).n_at_p) (
        lexicographic (by_float (p_of a).pending_ms (p_of b).pending_ms) (
          lexicographic (by_bool (not (p_of a).canary) (not (p_of b).canary))
            (by_nat b.route.p a.route.p)))

    predicted_key : Assessment F → Assessment F → Compared
    predicted_key a b =
        lexicographic (by_float a.predicted b.predicted)
          (lexicographic (by_int (p_of a).n_at_p (p_of b).n_at_p) (order_key a b))

    -- `min` and `max` over a list that may be empty.
    min_of : (Assessment F → Assessment F → Compared) → List (Assessment F) → Option (Assessment F)
    unfolding min_by
    min_of key [] = none
    min_of key (a ∷ rest) = some (min_by key a rest)

    max_of : (Assessment F → Assessment F → Compared) → List (Assessment F) → Option (Assessment F)
    unfolding max_by
    max_of key [] = none
    max_of key (a ∷ rest) = some (max_by key a rest)

    choose_p : PChoice → List (Assessment F) → Option (Assessment F)
    unfolding max_of min_of busy_p_key predicted_key
    choose_p PChoice.concentrate options = max_of busy_p_key options
    choose_p _ options = min_of predicted_key options

    own_first : PChoice → List (Assessment F) → List (Assessment F) → Option (Assessment F)
    unfolding choose_p
    own_first PChoice.same (a ∷ own) options = some a
    own_first choice own options = choose_p choice options

    choose_pair : Option (Assessment F) → List (Assessment F) → Option (Assessment F)
    unfolding own_first
    choose_pair none feasible = none
    choose_pair (some d) feasible =
        let options = keep_if (λ a. a.route.d == d.route.d) feasible in
        let own = keep_if (λ a. a.route.p == d.route.d) options in
        own_first r.settings.p_choice own options

    abbrev concentrates : DChoice → Bool
    concentrates DChoice.concentrate = true
    concentrates DChoice.balance = false

    -- The D first, by the mode of the Controller, then its P.
    choose_dynamic : List (Assessment F) → Option (Assessment F)
    unfolding choose_pair max_of min_of busiest_key idlest_key
    choose_dynamic feasible =
        let balance = any (same_mode r.control_mode) r.settings.d_balance_modes in
        if concentrates r.settings.d_choice && not balance
        then choose_pair (max_of busiest_key feasible) feasible
        else choose_pair (min_of idlest_key feasible) feasible

    pub by_choice : GroupChoice → List (Assessment F) → Option (Assessment F)
    unfolding choose_fill min_of max_of turn_key load_key
    by_choice GroupChoice.fill feasible = choose_fill feasible
    by_choice GroupChoice.round_robin feasible = min_of turn_key feasible
    by_choice GroupChoice.concentrate feasible = max_of load_key feasible

    -- The item that `_choose` returns; `none` for an empty list, which the callers exclude.
    unfoldable pub choose : List (Assessment F) → Option (Assessment F)
    unfolding by_choice choose_dynamic spread_key open_key min_of
    choose feasible =
        if is_fixed r.settings.pairing
        then if open_admission r
          then min_of spread_key feasible
          else by_choice r.settings.group_choice feasible
        else if open_admission r
        then min_of open_key feasible
        else choose_dynamic feasible

  -- The Router after `_choose`: with round robin the cursor moves past the chosen group.
  unfoldable pub after_choice : Router F → Assessment F → Router F
  after_choice r a =
      if is_fixed r.settings.pairing && (not (open_admission r) && is_turn r.settings.group_choice)
      then record r { group_rr = (a.route.p + 1) % r.n_groups }
      else r
