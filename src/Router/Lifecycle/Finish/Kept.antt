-- ===== src/Router/Lifecycle/Finish/Kept.antt =====
-- What `finish` (router.py) learns leaves the groups, tickets, settings and waiters alone.
use cana_tune_llm.Base.{
  ℕ, Bool, true, false, not, ◌&&◌, Option, some, List, ◌∷◌, Float, is_none, ◌≡◌, refl, inl, inr,
  Bool-cases, arith, if_true, if_false, sym, subst,
}
use cana_tune_llm.Domain.Load.{LengthStats}
use cana_tune_llm.Router.State.{Router, Ticket}
use cana_tune_llm.Router.Latency.{observe_latency-Keeps}
use cana_tune_llm.Router.Tables.{Keeps, Keeps-refl, Keeps-trans}
use cana_tune_llm.Router.Lifecycle.Finish.{
  Outcome, release, note_latency, is_clean, update_knees, learn_slack, learn, learn_if,
  note_lengths, verdict, close, finish,
}

module _ {F : Type 0} ⦃num : Float F⦄ where
  note_latency-Keeps :
      (r : Router F) (now : F) (k : ℕ) (t : Ticket F) (o : Outcome F)
      → Keeps r (note_latency r now k t o)
  unfolding note_latency
  note_latency-Keeps r now k t o = elim (Bool-cases o.served) [
    | inl e ↦ rw e (observe_latency-Keeps r now k t o.ttft_ms _)
    | inr e ↦ rw e (record { groups = refl; tickets = refl; settings = refl; waiting = refl })
  ]

  update_knees-Keeps :
      (r : Router F) (t : Ticket F) (violated : Bool) → Keeps r (update_knees r t violated)
  unfolding update_knees
  update_knees-Keeps r t violated = record {
    groups = ground arith;
    tickets = ground arith;
    settings = ground arith;
    waiting = ground arith;
  }

  learn_slack-Keeps :
      (x : List F) (slack ttft : Option F) (wait : F) (violated : Bool) (r : Router F)
      → Keeps r (learn_slack x slack ttft wait violated r)
  unfolding learn_slack
  learn_slack-Keeps (x ∷ xs) (some s) (some t) wait violated r = record {
    groups = refl;
    tickets = refl;
    settings = refl;
    waiting = refl;
  }
  learn_slack-Keeps _ _ _ wait violated r = Keeps-refl r

  learn-Keeps :
      (r : Router F) (t : Ticket F) (o : Outcome F) (violated : Bool)
      → Keeps r (learn r t o violated)
  unfolding learn
  learn-Keeps r t o violated = elim (Bool-cases (not (is_none t.estimate) && is_none t.overflow)) [
    | inl e ↦
        rw e (learned _ (record { groups = refl; tickets = refl; settings = refl; waiting = refl }))
    | inr e ↦
        rw e (learned _ (record { groups = refl; tickets = refl; settings = refl; waiting = refl }))
  ]
    where
      learned :
          (r2 : Router F)
          → Keeps r r2
          → Keeps r (
              update_knees
                (learn_slack t.features t.slack_ms o.ttft_ms t.wait_ms violated r2)
                t
                violated)
      learned r2 h = Keeps-trans h (
          Keeps-trans (learn_slack-Keeps t.features t.slack_ms o.ttft_ms t.wait_ms violated r2)
            (update_knees-Keeps _ t violated))

  learn_if-Keeps :
      (clean : Bool) (v : Option Bool) (t : Ticket F) (o : Outcome F) (r : Router F)
      → Keeps r (learn_if clean v t o r)
  unfolding learn_if
  learn_if-Keeps true (some violated) t o r = learn-Keeps r t o violated
  learn_if-Keeps _ _ t o r = Keeps-refl r

  note_lengths-Keeps :
      (served : Bool) (l : Option LengthStats) (prompt output : ℕ) (r : Router F)
      → Keeps r (note_lengths served l prompt output r)
  unfolding note_lengths
  note_lengths-Keeps true (some l) prompt output r = record {
    groups = refl;
    tickets = refl;
    settings = refl;
    waiting = refl;
  }
  note_lengths-Keeps _ _ prompt output r = Keeps-refl r

  close-Keeps :
      (r : Router F) (now : F) (k : ℕ) (t : Ticket F) (o : Outcome F)
      → Keeps (release r k t) (close r now k t o)
  unfolding close
  close-Keeps r now k t o =
      let r1 = note_latency (release r k t) now k t o in
      let r2 = learn_if (is_clean r1 t o (verdict r o)) (verdict r o) t o r1 in
      Keeps-trans (note_latency-Keeps (release r k t) now k t o) (
        Keeps-trans (learn_if-Keeps (is_clean r1 t o (verdict r o)) (verdict r o) t o r1)
          (note_lengths-Keeps o.served r2.lengths t.prompt_tokens o.output_tokens r2))

  -- Beyond the release, `finish` learns and changes no group and no ticket.
  pub finish-Keeps :
      (r : Router F) (now : F) (k : ℕ) (t : Ticket F) (o : Outcome F)
      → t.finished ≡ false
      → Keeps (release r k t) (finish r now k t o)
  unfolding finish
  finish-Keeps r now k t o f =
      subst (Keeps (release r k t)) (sym (if_false t.finished r (close r now k t o) f))
        (close-Keeps r now k t o)

  pub finish_stays :
      (r : Router F) (now : F) (k : ℕ) (t : Ticket F) (o : Outcome F)
      → t.finished ≡ true
      → finish r now k t o ≡ r
  unfolding finish
  finish_stays r now k t o e = if_true t.finished r (close r now k t o) e
