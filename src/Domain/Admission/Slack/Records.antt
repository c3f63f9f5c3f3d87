-- ===== src/Domain/Admission/Slack/Records.antt =====
-- `SlackRisk.record` and `bucket` (admission.py).
use cana_tune_llm.Base.{
  ℕ, ◌+◌, ◌≤◌, ◌≡◌, Bool, List, [], ◌∷◌, if◌then◌else◌, ◌==◌, Float, ◌≼◌, IsOrdered, arith,
}
use cana_tune_llm.Domain.Admission.Slack.{
  Counts, count_at, count_outcome, SlackRisk, slack_cell, bucket_from, bucket, record_slack,
}

-- The counts of a bucket after one more outcome.
abbrev pub bump : Bool → ℕ × ℕ → ℕ × ℕ
bump violated c = (c.0 + 1, c.1 + (if violated then 1 else 0))

count_at-count_outcome :
    (j b : ℕ) (violated : Bool) (m : Counts)
    → count_at j (count_outcome b violated m)
      ≡ (if b == j then bump violated (count_at j m) else count_at j m)
unfolding count_at count_outcome
count_at-count_outcome j b violated [] = ground arith
count_at-count_outcome j b violated ((k, c) ∷ m) =
    ground (arith, count_at-count_outcome j b violated m)

module _ {F : Type 0} ⦃num : Float F⦄ where
  -- Recording one request moves the counts of its own bucket by one request, and by one violation if
  -- it violated the SLO; the counts of every other bucket, with the Canary's seed, stay.
  pub slack_cell-record_slack :
      (s : SlackRisk F) (slack : F) (violated : Bool) (b : ℕ)
      → slack_cell (record_slack s slack violated) b
        ≡ (if bucket s slack == b then bump violated (slack_cell s b) else slack_cell s b)
  unfolding slack_cell record_slack
  slack_cell-record_slack s slack violated b =
      ground (arith, count_at-count_outcome b (bucket s slack) violated s.counts)

  bucket_from_mono :
      (laws : IsOrdered F) (edges : List F) (x y : F)
      → x ≼ y
      → bucket_from edges x ≤ bucket_from edges y
  unfolding bucket_from
  bucket_from_mono laws [] x y h = omega arith
  bucket_from_mono laws (e ∷ edges) x y h =
      ground (arith, bucket_from_mono laws edges x y h, laws.le_trans e x y)

  -- Where `<=` on floats is transitive, more slack never falls into a lower bucket.
  pub bucket_mono :
      (laws : IsOrdered F) (s : SlackRisk F) (x y : F) → x ≼ y → bucket s x ≤ bucket s y
  unfolding bucket
  bucket_mono laws s x y h = bucket_from_mono laws s.edges x y h
