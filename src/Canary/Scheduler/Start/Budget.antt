-- ===== src/Canary/Scheduler/Start/Budget.antt =====
-- What `may_start` (canary.py) promises when it lets an experiment start.
use cana_tune_llm.Base.{
  ℕ, ◌≡◌, refl, true, false, Option, none, some, Float, arith, inl, inr, Bool-cases, is_none,
  is_empty,
}
use cana_tune_llm.Router.Settings.{ControlMode}
use cana_tune_llm.Domain.Cluster.Uniform.{Solver}
use cana_tune_llm.Controller.Plan.{Demand}
use cana_tune_llm.Canary.Scheduler.{Site, Why, canary}
use cana_tune_llm.Canary.Scheduler.Start.{
  too_soon, over_budget, others, among, may_start_warm, may_start,
}

module _ {F : Type 0} ⦃num : Float F⦄ where
  -- With a table in force: the pause, the budget and the quiet time are kept, and other groups serve.
  pub record IsWithin (w : Site F) (d : Demand F) (now : F) : Type 0 where
    pub pause : too_soon w.scheduler.last_end now w.scheduler.s.min_interval_s ≡ false
    pub budget : over_budget w.scheduler now ≡ false
    pub quiet : num.lt (num.sub now w.scheduler.last_rejection_at) w.scheduler.s.quiet_s ≡ false
    pub own : ℕ
    pub owner : canary w.control ≡ some own
    pub served : is_empty (others w.control own) ≡ false

  among-served :
      (w : Site F) (s : Option (Solver F)) (d : Demand F) (o : Option ℕ) (why : Why)
      → among w s d o ≡ some (true, why)
      → (own : ℕ) × (o ≡ some own) × (is_empty (others w.control own) ≡ false)
  unfolding among
  among-served w s d none why e = ground arith
  among-served w s d (some own) why e = elim (Bool-cases (is_empty (others w.control own))) [
    | inl alone ↦ ground arith
    | inr served ↦ (own, refl, served)
  ]

  warm-IsWithin :
      (w : Site F) (s : Option (Solver F)) (d : Demand F) (now : F) (why : Why)
      → may_start_warm w s d now ≡ some (true, why)
      → IsWithin w d now
  unfolding may_start_warm
  warm-IsWithin w s d now why e =
      let rest : among w s d (canary w.control) ≡ some (true, why) = ground arith in
      let (own, owner, served) = among-served w s d (canary w.control) why rest in
      record {
        pause = ground arith;
        budget = ground arith;
        quiet = ground arith;
        own = own;
        owner = owner;
        served = served;
      }

  pub may_start-IsWithin :
      (w : Site F) (s : Option (Solver F)) (d : Demand F) (now : F) (why : Why)
      → is_none w.control.router.tiers.table ≡ false
      → may_start w s d now ≡ some (true, why)
      → (w.control.router.control_mode ≡ ControlMode.energy) × IsWithin w d now
  unfolding may_start
  may_start-IsWithin w s d now why warm e =
      let rest : may_start_warm w s d now ≡ some (true, why) = ground arith in
      (ground arith, warm-IsWithin w s d now why rest)
