-- ===== src/Router/Choose/Member.antt =====
-- `_choose` (router.py) takes one of the feasible routes: what holds of all holds of the chosen one.
use cana_tune_llm.Base.{
  Bool, true, false, Option, none, some, List, [], ◌∷◌, if◌then◌else◌, Float, All, All-keep_if,
  ◌==◌, inl, inr, Bool-cases, Compared, sort_by, min_by-All, max_by-All, sort_by-All,
}
use cana_tune_llm.Router.Settings.{GroupChoice, PChoice}
use cana_tune_llm.Router.State.{Router}
use cana_tune_llm.Router.Routes.{is_fixed, open_admission}
use cana_tune_llm.Router.Candidates.{Assessment}
use cana_tune_llm.Router.Choose.{
  order_key, fewest_key, spread_fewest, first_room, or_spread, choose_fill, min_of, max_of,
  choose_p, own_first, choose_pair, choose_dynamic, by_choice, choose, has_room, busiest_key,
  idlest_key, turn_key, load_key, busy_p_key, predicted_key, spread_key, open_key,
}

abbrev pub OnSome {ℓ κ} : {A : Type ℓ} → (A → Type κ) → Option A → Type κ
OnSome P none = Unit
OnSome P (some a) = P a

module _ {F : Type 0} ⦃num : Float F⦄ (r : Router F) (now : F) (P : Assessment F → Type 0) where
  min_of-All :
      (key : Assessment F → Assessment F → Compared) (xs : List (Assessment F))
      → All P xs
      → OnSome P (min_of r now key xs)
  unfolding min_of
  min_of-All key [] a = tt
  min_of-All key (x ∷ xs) a = min_by-All P key x xs a.0 a.1

  max_of-All :
      (key : Assessment F → Assessment F → Compared) (xs : List (Assessment F))
      → All P xs
      → OnSome P (max_of r now key xs)
  unfolding max_of
  max_of-All key [] a = tt
  max_of-All key (x ∷ xs) a = max_by-All P key x xs a.0 a.1

  first_room-All : (xs : List (Assessment F)) → All P xs → OnSome P (first_room r now xs)
  unfolding first_room
  first_room-All [] a = tt
  first_room-All (x ∷ xs) a = elim (Bool-cases (has_room r now x)) [
    | inl e ↦ rw e a.0
    | inr e ↦ rw e (first_room-All xs a.1)
  ]

  spread_fewest-All : (xs : List (Assessment F)) → All P xs → OnSome P (spread_fewest r now xs)
  unfolding spread_fewest
  spread_fewest-All [] a = tt
  spread_fewest-All (x ∷ xs) a = min_by-All P (fewest_key r now) x xs a.0 a.1

  or_spread-All :
      (o : Option (Assessment F)) (xs : List (Assessment F))
      → OnSome P o
      → All P xs
      → OnSome P (or_spread r now o xs)
  unfolding or_spread
  or_spread-All none xs h a = spread_fewest-All xs a
  or_spread-All (some x) xs h a = h

  choose_fill-All : (xs : List (Assessment F)) → All P xs → OnSome P (choose_fill r now xs)
  unfolding choose_fill
  choose_fill-All xs a =
      let order = sort_by (order_key r now) xs in
      let b = sort_by-All P (order_key r now) xs a in
      or_spread-All (first_room r now order) order (first_room-All order b) b

  choose_p-All :
      (c : PChoice) (xs : List (Assessment F)) → All P xs → OnSome P (choose_p r now c xs)
  unfolding choose_p
  choose_p-All PChoice.concentrate xs a = max_of-All (busy_p_key r now) xs a
  choose_p-All _ xs a = min_of-All (predicted_key r now) xs a

  own_first-All :
      (c : PChoice) (own options : List (Assessment F))
      → All P own
      → All P options
      → OnSome P (own_first r now c own options)
  unfolding own_first
  own_first-All PChoice.same (x ∷ own) options h a = h.0
  own_first-All PChoice.same [] options h a = choose_p-All PChoice.same options a
  own_first-All PChoice.balance own options h a = choose_p-All PChoice.balance options a
  own_first-All PChoice.concentrate own options h a = choose_p-All PChoice.concentrate options a

  choose_pair-All :
      (o : Option (Assessment F)) (xs : List (Assessment F))
      → All P xs
      → OnSome P (choose_pair r now o xs)
  unfolding choose_pair
  choose_pair-All none xs a = tt
  choose_pair-All (some d) xs a =
      let options = All-keep_if P (λ x. x.route.d == d.route.d) xs a in
      own_first-All r.settings.p_choice _ _ (All-keep_if P (λ x. x.route.p == d.route.d) _ options)
        options

  choose_dynamic-All : (xs : List (Assessment F)) → All P xs → OnSome P (choose_dynamic r now xs)
  unfolding choose_dynamic
  choose_dynamic-All xs a =
      if_All _ _ _ (choose_pair-All (max_of r now (busiest_key r now) xs) xs a)
        (choose_pair-All (min_of r now (idlest_key r now) xs) xs a)
    where
      if_All :
          (c : Bool) (o o' : Option (Assessment F))
          → OnSome P o
          → OnSome P o'
          → OnSome P (if c then o else o')
      if_All true o o' h k = h
      if_All false o o' h k = k

  by_choice-All :
      (c : GroupChoice) (xs : List (Assessment F)) → All P xs → OnSome P (by_choice r now c xs)
  unfolding by_choice
  by_choice-All GroupChoice.fill xs a = choose_fill-All xs a
  by_choice-All GroupChoice.round_robin xs a = min_of-All (turn_key r now) xs a
  by_choice-All GroupChoice.concentrate xs a = max_of-All (load_key r now) xs a

  pub choose-All : (xs : List (Assessment F)) → All P xs → OnSome P (choose r now xs)
  unfolding choose
  choose-All xs a = elim (Bool-cases (is_fixed r.settings.pairing)) [
    | inl fixed ↦ elim (Bool-cases (open_admission r)) [
      | inl e ↦ rw (fixed, e) (min_of-All (spread_key r now) xs a)
      | inr e ↦ rw (fixed, e) (by_choice-All r.settings.group_choice xs a)
    ]
    | inr dynamic ↦ elim (Bool-cases (open_admission r)) [
      | inl e ↦ rw (dynamic, e) (min_of-All (open_key r now) xs a)
      | inr e ↦ rw (dynamic, e) (choose_dynamic-All xs a)
    ]
  ]
