-- ===== src/Router/Report/Unfinished.antt =====
-- src/canatune/controller/router.py: what the unfinished requests and the waiters show to
-- `production_feedback`.
use cana_tune_llm.Base.{
  ℕ, Bool, not, ◌&&◌, ◌||◌, Option, none, some, List, [], ◌∷◌, map, if◌then◌else◌, Float, of_nat,
  max_f, get_key, put_key, any, is_none,
}
use cana_tune_llm.Router.State.{Router, Ticket}
use cana_tune_llm.Router.Tables.{apply_table, ttft_ratio}
use cana_tune_llm.Router.Latency.{by_gap, is_best_effort}
use cana_tune_llm.Router.Report.{Live, is_prefill}

module _ {F : Type 0} ⦃num : Float F⦄ where
  -- An unfinished request that counts.
  is_live : F → Ticket F → Bool
  is_live admitted_since t = not t.finished && not (num.lt t.admitted_at admitted_since)

  -- It waits for its first token, and the waiting shows.
  waits : F → Ticket F → Bool
  unfolding is_live
  waits admitted_since t =
      is_live admitted_since t && (is_none t.first_token_at && (t.streaming || is_prefill t.stage))

  note_age : Router F → F → Ticket F → Live F → Live F
  unfolding ttft_ratio
  note_age r now t l =
      let age = num.add (num.mul (num.sub now t.admitted_at) (of_nat 1_000)) t.wait_ms in
      let ratio = ttft_ratio r t age in
      let old : F = elim (get_key t.group l.by_group) [ none ↦ of_nat 0 | some x ↦ x ] in
      record l {
        ratio = max_f l.ratio ratio;
        by_group = put_key t.group (max_f old ratio) l.by_group;
      }

  -- The gap since the last token: a stall where feedback is by windows.
  note_gap : Router F → F → Option F → Live F → Live F
  note_gap r now none l = l
  note_gap r now (some last) l =
      let s = r.settings in
      let gap = num.div (num.mul (num.sub now last) (of_nat 1_000)) s.tpot_slo_ms in
      if by_gap s.tpot_feedback
      then record l { ratio = max_f l.ratio gap }
      else record l { stall = max_f l.stall gap }

  note_live : Router F → F → F → Live F → Ticket F → Live F
  unfolding waits is_live note_age note_gap
  note_live r now admitted_since l t =
      if waits admitted_since t
      then note_age r now t l
      else if is_live admitted_since t && not (is_none t.first_token_at)
      then note_gap r now t.last_token_at l
      else l

  live_from : Router F → F → F → Live F → List (Ticket F) → Live F
  unfolding note_live
  live_from r now admitted_since l [] = l
  live_from r now admitted_since l (t ∷ ts) =
      live_from r now admitted_since (note_live r now admitted_since l t) ts

  -- `_live`: only the best-effort mode keeps it. A TTFT is judged with the table in force.
  unfoldable pub live_of : Router F → F → F → Router F × Live F
  unfolding live_from waits apply_table
  live_of r now admitted_since =
      let ts = if is_best_effort r.settings.overload then r.tickets else [] in
      let r1 = if any (waits admitted_since) ts then apply_table r else r in
      let zero_live : Live F = record { ratio = of_nat 0; stall = of_nat 0; by_group = [] } in
      (r1, live_from r1 now admitted_since zero_live ts)

  -- `max(xs, default=0.0)`
  worst_wait : List F → F
  worst_wait [] = of_nat 0
  worst_wait (x ∷ []) = x
  worst_wait (x ∷ y ∷ xs) = worst_wait (max_f x y ∷ xs)

  unfoldable pub wait_ratio : Router F → F → F
  unfolding worst_wait
  wait_ratio r now =
      let ratio : ℕ × F → F =
        λ e. num.div (num.mul (num.sub now e.1) (of_nat 1_000)) r.settings.ttft_slo_ms in
      worst_wait (map ratio r.waiting.waiting_since)
