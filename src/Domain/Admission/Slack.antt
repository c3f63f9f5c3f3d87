-- ===== src/Domain/Admission/Slack.antt =====
-- src/canatune/domain/admission.py: `SlackRisk`, the violation risk by predicted slack.
use cana_tune_llm.Base.{
  ℕ, zero, suc, ◌+◌, ◌-◌, ◌*◌, Bool, true, false, Option, none, some, List, [], ◌∷◌, ◌++◌, map,
  if◌then◌else◌, leb, ltb, ◌==◌, Float, of_nat, frac, keep_if, any, is_none, get_elem?,
}
pub mod Nearest
pub mod Records

-- `dict[int, list[int]]`: bucket -> [admitted, violated]
abbrev pub Counts : Type 0
Counts = List (ℕ × (ℕ × ℕ))

-- `counts.get(b, [0, 0])`
unfoldable pub count_at : ℕ → Counts → ℕ × ℕ
count_at b [] = (0, 0)
count_at b ((k, c) ∷ rest) = if k == b then c else count_at b rest

-- `setdefault(b, [0, 0])` and the two increments.
unfoldable pub count_outcome : ℕ → Bool → Counts → Counts
count_outcome b violated [] = (b, (1, if violated then 1 else 0)) ∷ []
count_outcome b violated ((k, c) ∷ rest) =
    if k == b
    then (k, (c.0 + 1, c.1 + (if violated then 1 else 0))) ∷ rest
    else (k, c) ∷ count_outcome b violated rest

-- `sorted(set(xs), reverse=True)`
insert_desc : ℕ → List ℕ → List ℕ
insert_desc x [] = x ∷ []
insert_desc x (y ∷ ys) =
    if x == y then y ∷ ys else if ltb y x then x ∷ y ∷ ys else y ∷ insert_desc x ys

unfoldable pub sort_desc : List ℕ → List ℕ
unfolding insert_desc
sort_desc [] = []
sort_desc (x ∷ xs) = insert_desc x (sort_desc xs)

pub data SlackSource : Type 0 where
  observed bounded unknown : SlackSource

pub record SlackEstimate (F : Type 0) : Type 0 where
  pub bucket : ℕ
  pub risk : F
  pub samples : ℕ
  pub source : SlackSource

-- `SlackRisk`; the edges are in increasing order.
pub record SlackRisk (F : Type 0) : Type 0 where
  pub edges : List F
  pub min_samples : ℕ
  pub counts : Counts
  pub seed : Counts

-- `_cell`: production's own counts and the Canary's seed.
unfoldable pub slack_cell : {F : Type 0} → SlackRisk F → ℕ → ℕ × ℕ
unfolding count_at
slack_cell s b =
    let own = count_at b s.counts in
    let seed = count_at b s.seed in (own.0 + seed.0, own.1 + seed.1)

abbrev pub bucket_keys : {F : Type 0} → SlackRisk F → List ℕ
bucket_keys s = map (λ e. e.0) s.counts ++ map (λ e. e.0) s.seed

abbrev pub is_observed : {F : Type 0} → SlackRisk F → ℕ → Bool
is_observed s b = leb s.min_samples (slack_cell s b).0

-- The first element that passes the test.
unfoldable pub first_of_list : (ℕ → Bool) → List ℕ → Option ℕ
first_of_list p [] = none
first_of_list p (x ∷ xs) = if p x then some x else first_of_list p xs

-- The loop over the lower buckets: the nearest observed one with less slack.
unfoldable pub nearest_lower : {F : Type 0} → SlackRisk F → ℕ → Option ℕ
unfolding sort_desc first_of_list
nearest_lower s b =
    first_of_list (is_observed s) (sort_desc (keep_if (λ c. ltb c b) (bucket_keys s)))

unfoldable pub set_seed : {F : Type 0} → SlackRisk F → Counts → SlackRisk F
set_seed s counts = record s { seed = counts }

module _ {F : Type 0} ⦃num : Float F⦄ where
  z_score : F
  z_score = frac 128 100

  -- `wilson_ucb`
  unfoldable pub wilson_ucb : ℕ → ℕ → F
  unfolding z_score
  wilson_ucb violated n =
      if n == 0
      then of_nat 1
      else let n_f = of_nat n in
        let z = z_score in
        let p = num.div (of_nat violated) n_f in
        let z2 = num.mul z z in
        let d = num.add (of_nat 1) (num.div z2 n_f) in
        let c = num.add p (num.div z2 (num.mul (of_nat 2) n_f)) in
        let spread = num.div (num.mul p (num.sub (of_nat 1) p)) n_f in
        let s =
          num.mul z
            (num.sqrt (num.add spread (num.div z2 (num.mul (num.mul (of_nat 4) n_f) n_f)))) in
        num.div (num.add c s) d

  -- `sum(slack_ms >= e for e in self.edges)`
  bucket_from : List F → F → ℕ
  bucket_from [] slack = 0
  bucket_from (e ∷ edges) slack = (if num.le e slack then 1 else 0) + bucket_from edges slack

  unfoldable pub bucket : SlackRisk F → F → ℕ
  unfolding bucket_from
  bucket s slack = bucket_from s.edges slack

  unfoldable pub record_slack : SlackRisk F → F → Bool → SlackRisk F
  unfolding count_outcome bucket
  record_slack s slack violated = record s {
    counts = count_outcome (bucket s slack) violated s.counts;
  }

  -- The estimate of a bucket.
  unfoldable pub estimate_at : SlackRisk F → ℕ → SlackEstimate F
  unfolding slack_cell nearest_lower wilson_ucb
  estimate_at s b =
      let (n, k) = slack_cell s b in
      if leb s.min_samples n
      then record { bucket = b; risk = wilson_ucb k n; samples = n; source = SlackSource.observed }
      else elim (nearest_lower s b) [
        | some c ↦
            let (cn, ck) = slack_cell s c in
            record {
              bucket = b;
              risk = wilson_ucb ck cn;
              samples = cn;
              source = SlackSource.bounded;
            }
        | none ↦ record { bucket = b; risk = of_nat 1; samples = n; source = SlackSource.unknown }
      ]

  -- `SlackRisk.estimate`
  unfoldable pub estimate : SlackRisk F → F → SlackEstimate F
  unfolding estimate_at bucket
  estimate s slack = estimate_at s (bucket s slack)

  -- The loop of `safe_slack`, over the observed buckets from the highest down.
  unfoldable pub safe_from : SlackRisk F → F → Option ℕ → List ℕ → Option ℕ
  unfolding slack_cell wilson_ucb
  safe_from s target safe [] = safe
  safe_from s target safe (b ∷ bs) =
      let rest = safe_from s target (some b) bs in
      let (n, k) = slack_cell s b in if num.lt target (wilson_ucb k n) then safe else rest

  edge_below : SlackRisk F → Option ℕ → Option F
  edge_below s (some (suc b)) = get_elem? s.edges b
  edge_below s _ = none

  -- `SlackRisk.safe_slack`
  unfoldable pub safe_slack : SlackRisk F → F → Option F
  unfolding edge_below safe_from sort_desc
  safe_slack s target =
      edge_below s (safe_from s target none (keep_if (is_observed s) (sort_desc (bucket_keys s))))
