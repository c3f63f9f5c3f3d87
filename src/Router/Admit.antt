-- ===== src/Router/Admit.antt =====
-- src/canatune/controller/router.py: `try_admit` and `_admit_baseline`. One call reads the clock
-- once; the random draw of two groups is a parameter.
use cana_tune_llm.Base.{
  ℕ, ◌+◌, ◌%◌, Bool, true, false, not, ◌&&◌, ◌||◌, Option, none, some, List, [], ◌∷◌, map,
  if◌then◌else◌, leb, length, get_elem?, Float, of_nat, is_none, Compared, by_bool, by_float,
  by_int, by_nat, lexicographic, min_by,
}
use cana_tune_llm.Domain.Tiers.{ClockPoint, TierTable}
use cana_tune_llm.Domain.Groups.{Group}
use cana_tune_llm.Domain.Risk.{RiskEstimate, RiskSource, cell, range_from}
use cana_tune_llm.Domain.Admission.Slack.{SlackEstimate}
use cana_tune_llm.Router.Settings.{Doomed, GroupChoice}
use cana_tune_llm.Router.State.{Router, OverflowKind}
use cana_tune_llm.Router.Tables.{apply_table, cost_at, predict_route, kv_blocked, backfill_slack_ms}
use cana_tune_llm.Router.Decode.{View, Blocked, decode_state, kv_projected_over, fresh, snapshot_of}
use cana_tune_llm.Router.Routes.{routable_point}
use cana_tune_llm.Router.Lifecycle.{Offer, Request, issue}
use cana_tune_llm.Router.Candidates.{Assessment, candidates, feasible_of, within_of, is_empty}
use cana_tune_llm.Router.Choose.{route_canary, choose, after_choice}
pub mod Waiters
pub mod Sound

abbrev is_dispatch : Doomed → Bool
is_dispatch Doomed.dispatch = true
is_dispatch Doomed.backfill = false

abbrev pub is_fill : GroupChoice → Bool
is_fill GroupChoice.fill = true
is_fill _ = false

-- What a call of `try_admit` may do beyond the feasible routes.
pub record Leave : Type 0 where
  pub rescue : Bool
  pub backfill : Bool
  pub best_effort : Bool

-- A group that `_admit_baseline` may use, at its clocks.
pub record Usable : Type 0 where
  pub group : ℕ
  pub point : ClockPoint
  pub d_busy : Bool

cons_if : Option Usable → List Usable → List Usable
cons_if none rest = rest
cons_if (some u) rest = u ∷ rest

at_or : Usable → Option Usable → Usable
at_or u none = u
at_or u (some v) = v

module _ {F : Type 0} ⦃num : Float F⦄ where
  abbrev offer_of : Assessment F → Option (RiskEstimate F) → Option OverflowKind → Offer F
  offer_of a e kind = record {
    p = a.route.p;
    d = a.route.d;
    cell = a.cell;
    estimate = e;
    features = a.features;
    predicted = some a.predicted;
    kind = kind;
  }

  -- `_choose`, then `_issue`: the ticket's position.
  pub issue_choice :
      Router F → F → Request F → Option OverflowKind → Option (Assessment F) → Router F × Option ℕ
  unfolding after_choice
  issue_choice r now q kind none = (r, none)
  issue_choice r now q kind (some a) =
      (issue (after_choice r a) now (offer_of a a.estimate kind) q, some (length r.tickets))

  -- The order of the routes within the hard limits.
  limits_key : Router F → F → Assessment F → Assessment F → Compared
  limits_key r now a b = lexicographic (by_bool a.d_unsafe b.d_unsafe) (
      lexicographic (by_float a.predicted b.predicted) (
        lexicographic (by_bool (route_canary r now a) (route_canary r now b))
          (lexicographic (by_nat a.route.p b.route.p) (by_nat a.route.d b.route.d))))

  predicted_key : Assessment F → Assessment F → Compared
  predicted_key a b = by_float a.predicted b.predicted

  -- The first item of the least key.
  first_min : (Assessment F → Assessment F → Compared) → List (Assessment F) → Option (Assessment F)
  unfolding min_by
  first_min key [] = none
  first_min key (a ∷ rest) = some (min_by key a rest)

  -- The estimate of a request that goes beyond the feasible routes.
  overflow_estimate : Option (SlackEstimate F) → RiskEstimate F
  overflow_estimate none = record { risk = of_nat 1; source = RiskSource.overflow; samples = 0 }
  overflow_estimate (some s) = record {
    risk = s.risk;
    source = RiskSource.overflow;
    samples = s.samples;
  }

  abbrev with_overflow : Assessment F → Assessment F
  with_overflow a = record a { estimate = some (overflow_estimate a.slack) }

  choose_spare : Router F → F → Option (Assessment F) → Option (Assessment F)
  unfolding overflow_estimate
  choose_spare r now none = none
  choose_spare r now (some a) = choose r now (with_overflow a ∷ [])

  -- Spare capacity: the least predicted of the routes that are feasible with the backfill slack.
  pub issue_spare : Router F → F → View F → Request F → Router F × Option ℕ
  unfolding first_min predicted_key choose_spare
  issue_spare r now view q =
      let (r1, found) = candidates r now view q.tokens (backfill_slack_ms r) in
      issue_choice r1 now q (some OverflowKind.backfill)
        (choose_spare r1 now (first_min predicted_key (feasible_of found)))

  -- No route is feasible; `a` is the best one within the hard limits.
  pub issue_overflow :
      Router F → F → View F → Request F → Leave → Assessment F → Router F × Option ℕ
  unfolding overflow_estimate
  issue_overflow r now view q leave a =
      let chosen = choose r now (with_overflow a ∷ []) in
      let spare = issue_spare r now view q in
      if leave.best_effort
      then issue_choice r now q (some OverflowKind.best_effort) chosen
      else if num.le (num.add q.waited_ms a.predicted) r.settings.ttft_slo_ms
      then issue_choice r now q (some OverflowKind.rescue) chosen
      else if not leave.backfill
      then (r, none)
      else if is_dispatch r.settings.doomed
      then issue_choice r now q (some OverflowKind.doomed) chosen
      else spare

  pub beyond_feasible :
      Router F → F → View F → Request F → Leave → Option (Assessment F) → Router F × Option ℕ
  beyond_feasible r now view q leave none = (r, none)
  beyond_feasible r now view q leave (some a) =
      if leave.rescue || leave.best_effort then issue_overflow r now view q leave a else (r, none)

  -- `try_admit`: the Router afterwards and the position of the ticket, if there is one.
  unfoldable pub try_admit : Router F → F → View F → Request F → Leave → Router F × Option ℕ
  unfolding first_min limits_key
  try_admit r now view q leave =
      let (r1, found) = candidates (apply_table r) now view q.tokens q.waited_ms in
      let feasible = feasible_of found in
      if is_empty feasible
      then beyond_feasible r1 now view q leave (first_min (limits_key r1 now) (within_of found))
      else issue_choice r1 now q none (choose r1 now feasible)

  projected : Router F → View F → ℕ → ℕ → Option (TierTable F) → Bool
  projected r view g tokens none = false
  projected r view g tokens (some table) =
      r.settings.kv_projection_hard
      && (not (is_none view.telemetry)
          && kv_projected_over r view g tokens table (snapshot_of (fresh view g)))

  passes : Router F → View F → ℕ → ℕ → Option Blocked → Bool
  unfolding projected
  passes r view g tokens blocked =
      is_none blocked
      && ((is_fill r.settings.group_choice || not (kv_blocked r (r.groups g) tokens))
          && not (projected r view g tokens r.tiers.table))

  usable_at : Router F → View F → ℕ → ℕ → Option ClockPoint → Option Usable
  unfolding passes
  usable_at r view g tokens none = none
  usable_at r view g tokens (some point) =
      let (d_busy, blocked) = decode_state r view g in
      if passes r view g tokens blocked
      then some (record { group = g; point = point; d_busy = d_busy })
      else none

  usable_from : Router F → View F → ℕ → List ℕ → List Usable
  unfolding cons_if usable_at
  usable_from r view tokens [] = []
  usable_from r view tokens (g ∷ gs) =
      cons_if (usable_at r view g tokens (routable_point (r.groups g)))
        (usable_from r view tokens gs)

  -- The groups that can take the request, from the cursor on.
  unfoldable pub usable : Router F → View F → ℕ → List Usable
  unfolding usable_from range_from
  usable r view tokens =
      usable_from r view tokens (map (λ k. (r.rr + k) % r.n_groups) (range_from 0 r.n_groups))

  p2c_key : Router F → Usable → Usable → Compared
  p2c_key r a b = lexicographic (by_int (r.groups a.group).n_at_p (r.groups b.group).n_at_p) (
      lexicographic (by_float (r.groups a.group).pending_ms (r.groups b.group).pending_ms)
        (by_nat a.group b.group))

  -- Power of two choices with `fill`, from enough usable groups; else the first one. `draw n` gives
  -- the two positions that `random.sample` takes of `n`.
  pick : Router F → (ℕ → ℕ × ℕ) → List Usable → Option Usable
  unfolding at_or p2c_key min_by
  pick r draw [] = none
  pick r draw (u ∷ us) =
      let (i, j) = draw (length (u ∷ us)) in
      if is_fill r.settings.group_choice && leb r.settings.fill_p2c_groups (length (u ∷ us))
      then some (
          min_by (p2c_key r) (at_or u (get_elem? (u ∷ us) i)) (at_or u (get_elem? (u ∷ us) j) ∷ []))
      else some u

  pub issue_baseline : Router F → F → Request F → Option Usable → Router F × Option ℕ
  issue_baseline r now q none = (r, none)
  issue_baseline r now q (some u) =
      let r1 = apply_table (record r { rr = (u.group + 1) % r.n_groups }) in
      let g = r.groups u.group in
      let s_own = cost_at r1 (some u.point.prefill_mhz) q.tokens in
      let (x, predicted) = predict_route r1 s_own g g in
      let o : Offer F = record {
        p = u.group;
        d = u.group;
        cell = cell r.table u.point g.n_await q.tokens u.d_busy;
        estimate = none;
        features = x;
        predicted = some predicted;
        kind = none;
      } in
      (issue r1 now o q, some (length r.tickets))

  -- `_admit_baseline`
  unfoldable pub admit_baseline :
      Router F → F → View F → (ℕ → ℕ × ℕ) → Request F → Router F × Option ℕ
  unfolding pick
  admit_baseline r now view draw q = issue_baseline r now q (pick r draw (usable r view q.tokens))
