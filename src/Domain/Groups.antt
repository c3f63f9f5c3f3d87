-- ===== src/Domain/Groups.antt =====
-- src/canatune/domain/groups.py, `class Group`: the runtime view of one fixed (P, D) pair.
use cana_tune_llm.Base.{
  ℕ, String, Bool, true, false, not, ◌&&◌, ◌||◌, Option, none, some, List, [], ◌∷◌, ◌++◌,
  if◌then◌else◌, is_none, ℤ, Float, of_nat, length, sum_by,
}
use cana_tune_llm.Domain.Tiers.{Tier, GroupState, ClockPoint}

pub record Group (F : Type 0) : Type 0 where
  pub name : String
  pub prefill : String
  pub decode : String
  pub canary : Bool
  pub state : GroupState
  pub tier : Tier
  pub effective : Option ClockPoint
  pub n_await : ℤ
  pub t_await : ℤ
  pub n_inflight : ℤ
  pub n_at_p : ℤ
  pub pending_ms : F
  pub inflight_bytes : F
  pub n_decoding : ℤ
  pub admissions : List (F × ℕ)

abbrev pub is_active : GroupState → Bool
is_active GroupState.active = true
is_active _ = false

abbrev pub routable : {F : Type 0} → Group F → Bool
routable g = is_active g.state && not (is_none g.effective)

module _ {F : Type 0} ⦃num : Float F⦄ where
  -- The loop of `Group.trim`: admissions older than the window leave at the front.
  unfoldable pub trim_admissions : F → List (F × ℕ) → List (F × ℕ)
  trim_admissions cutoff [] = []
  trim_admissions cutoff ((t, tokens) ∷ rest) =
      if num.lt t cutoff then trim_admissions cutoff rest else (t, tokens) ∷ rest

  unfoldable pub trim : Group F → F → F → Group F
  unfolding trim_admissions
  trim g now window_s = record g {
    admissions = trim_admissions (num.sub now window_s) g.admissions;
  }

  unfoldable pub record_admission : Group F → F → ℕ → F → Group F
  unfolding trim
  record_admission g now tokens window_s =
      trim (record g { admissions = g.admissions ++ ((now, tokens) ∷ []) }) now window_s

  -- `Group.load`: the group with its window trimmed, and its load; `none` is the `ValueError`.
  unfoldable pub load : Group F → F → F → F → Option (Group F × F)
  unfolding trim
  load g now window_s alpha_tokens =
      if not (num.is_finite window_s) || num.le window_s (of_nat 0)
      then none
      else let trimmed = trim g now window_s in
        let tokens = of_nat (sum_by (λ a. a.1) trimmed.admissions) in
        let extra = num.mul alpha_tokens (of_nat (length trimmed.admissions)) in
        some (trimmed, num.div (num.add tokens extra) window_s)
