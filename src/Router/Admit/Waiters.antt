-- ===== src/Router/Admit/Waiters.antt =====
-- src/canatune/controller/router.py: `step`, one admission attempt of a waiting request, and
-- `_release`.
use cana_tune_llm.Base.{
  ℕ, ◌+◌, Bool, true, false, not, ◌&&◌, ◌||◌, Option, none, some, List, [], ◌∷◌, ◌++◌,
  if◌then◌else◌, ltb, ◌==◌, length, Float, of_nat, contains, remove_one, put_key, drop_key, get_key,
  keep_if,
}
use cana_tune_llm.Router.Settings.{Overload, Doomed}
use cana_tune_llm.Router.Latency.{is_best_effort}
use cana_tune_llm.Router.State.{Router, Waiting}
use cana_tune_llm.Router.Tables.{apply_table, deadline_ms}
use cana_tune_llm.Router.Decode.{View}
use cana_tune_llm.Router.Routes.{open_admission}
use cana_tune_llm.Router.Lifecycle.{Request}
use cana_tune_llm.Router.Candidates.{candidates, feasible_of, is_empty}
use cana_tune_llm.Router.Admit.{Leave, is_dispatch, try_admit, admit_baseline}
pub mod Kept
pub mod Settled
pub mod Fifo
pub mod Head

-- What an attempt says: a ticket, by its position, or "wait" or "reject".
pub data StepResult : Type 0 where
  ticket : ℕ → StepResult
  wait reject : StepResult

abbrev is_serve : Overload → Bool
is_serve Overload.serve = true
is_serve _ = false

-- `waiter not in xs` adds it at the end; a set is a list without duplicates.
abbrev pub join : ℕ → List ℕ → List ℕ
join w xs = if contains w xs then xs else xs ++ (w ∷ [])

-- `queue[0] == waiter`
abbrev pub at_head : ℕ → List ℕ → Bool
at_head w [] = false
at_head w (x ∷ xs) = x == w

-- `_release` on the waiters.
abbrev pub release_waiter : {F : Type 0} → ℕ → Waiting F → Waiting F
release_waiter w q = record q {
  fresh = remove_one w q.fresh;
  signalled = remove_one w q.signalled;
  waiting_since = drop_key w q.waiting_since;
  queue = remove_one w q.queue;
  expires = drop_key w q.expires;
  holding = remove_one w q.holding;
}

abbrev pub set_waiting : {F : Type 0} → Router F → (Waiting F → Waiting F) → Router F
set_waiting r f = record r { waiting = f r.waiting }

abbrev pub refuse : {F : Type 0} → ℕ → Waiting F → Waiting F
refuse w q = record (release_waiter w q) { rejections = q.rejections + 1 }

-- A ticket takes the waiter out of every list.
unfoldable pub leave_with : {F : Type 0} → ℕ → Router F × Option ℕ → Router F × StepResult
leave_with w (r, none) = (r, StepResult.wait)
leave_with w (r, some k) = (set_waiting r (release_waiter w), StepResult.ticket k)

-- Without a ticket the waiter is rejected once its budget is over.
unfoldable pub conclude : {F : Type 0} → Bool → ℕ → Router F × Option ℕ → Router F × StepResult
conclude over w (r, none) =
    if over then (set_waiting r (refuse w), StepResult.reject) else (r, StepResult.wait)
conclude over w (r, some k) = (set_waiting r (release_waiter w), StepResult.ticket k)

-- `signal_pressure`, once for each waiter.
unfoldable pub signal_once : {F : Type 0} → ℕ → Bool → Router F → Router F
signal_once w pressed r =
    if pressed && not (contains w r.waiting.signalled)
    then record r {
      waiting = record r.waiting {
        signalled = r.waiting.signalled ++ (w ∷ []);
        risk_signals = r.waiting.risk_signals + 1;
      };
      feedback = record r.feedback { pressure_event = true };
    }
    else r

module _ {F : Type 0} ⦃num : Float F⦄ where
  abbrev pub enqueue : ℕ → F → F → Waiting F → Waiting F
  enqueue w now waited q = if contains w q.queue then q else record q {
    queue = q.queue ++ (w ∷ []);
    waiting_since = put_key w (num.sub now (num.div waited (of_nat 1_000))) q.waiting_since;
  }

  -- The attempts of a waiter in the queue: at full effort by the baseline, else by `try_admit`.
  attempt_baseline : Router F → F → View F → (ℕ → ℕ × ℕ) → ℕ → Request F → Router F × StepResult
  unfolding leave_with
  attempt_baseline r now view draw w q =
      if at_head w r.waiting.queue
      then leave_with w (admit_baseline r now view draw q)
      else (r, StepResult.wait)

  attempt : Router F → F → View F → ℕ → Request F → Router F × StepResult
  unfolding leave_with signal_once
  attempt r now view w q =
      let (r1, found) = candidates (apply_table r) now view q.tokens q.waited_ms in
      let r2 = signal_once w (is_empty (feasible_of found)) r1 in
      let leave : Leave = record { rescue = false; backfill = false; best_effort = true } in
      if at_head w r2.waiting.queue
      then leave_with w (try_admit r2 now view q leave)
      else (r2, StepResult.wait)

  -- `step` in the best-effort mode.
  unfoldable pub step_best :
      Router F → F → View F → (ℕ → ℕ × ℕ) → ℕ → Request F → Router F × StepResult
  unfolding attempt_baseline attempt
  step_best r now view draw w q =
      let r1 = set_waiting r (enqueue w now q.waited_ms) in
      if num.le r.settings.hold_max_ms q.waited_ms
      then (set_waiting r (refuse w), StepResult.reject)
      else if r.baseline_mode
      then attempt_baseline r1 now view draw w q
      else attempt r1 now view w q

  -- `serve` past the wait budget: the waiter holds; before it, the waiter is fresh.
  pub note_holder : Bool → Bool → Router F → F → ℕ → Request F → Waiting F → Waiting F
  note_holder true true r now w q s = if contains w s.holding then s else record s {
    holding = s.holding ++ (w ∷ []);
    expires =
        put_key w
          (num.add now (num.div (num.sub (deadline_ms r q.tokens) q.waited_ms) (of_nat 1_000)))
          s.expires;
    held = s.held + 1;
    fresh = remove_one w s.fresh;
  }
  note_holder true false r now w q s = record s { fresh = join w s.fresh }
  note_holder false true r now w q s = s
  note_holder false false r now w q s = record s { fresh = join w s.fresh }

  is_expired : List (ℕ × F) → F → ℕ → Bool
  is_expired expires now w = elim (get_key w expires) [ none ↦ false | some t ↦ num.le t now ]

  -- Whether this holder is the one to serve although its deadline has passed.
  serves_doomed : Doomed → F → ℕ → Waiting F → Bool
  unfolding is_expired
  serves_doomed Doomed.dispatch now w s = at_head w s.holding
  serves_doomed Doomed.backfill now w s =
      let expired = keep_if (is_expired s.expires now) s.holding in
      let live = ltb (length expired) (length s.holding) in at_head w expired && not live

  -- `step` in the other modes.
  unfoldable pub step_serve : Router F → F → View F → ℕ → Request F → Router F × StepResult
  unfolding serves_doomed note_holder conclude
  step_serve r0 now view w q =
      let r = apply_table r0 in
      let s = r.settings in
      let serve = is_serve s.overload && not (open_admission r) in
      let budget = num.add q.waited_ms s.retry_period_ms in
      let past_wait = num.lt s.max_wait_ms budget in
      let r1 = set_waiting r (note_holder serve past_wait r now w q) in
      let holder = serve && past_wait in
      let head = holder && (is_empty r1.waiting.fresh && serves_doomed s.doomed now w r1.waiting) in
      let leave : Leave = record { rescue = holder; backfill = head; best_effort = false } in
      let over = past_wait && (not serve || num.lt s.hold_max_ms budget) in
      conclude over w (try_admit r1 now view q leave)

  -- `step`
  unfoldable pub step : Router F → F → View F → (ℕ → ℕ × ℕ) → ℕ → Request F → Router F × StepResult
  step r now view draw w q =
      if is_best_effort r.settings.overload
      then step_best r now view draw w q
      else step_serve r now view w q
