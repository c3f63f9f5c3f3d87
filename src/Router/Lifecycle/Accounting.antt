-- ===== src/Router/Lifecycle/Accounting.antt =====
-- The counters of the groups against the tickets (router.py): what each stage change moves.
use cana_tune_llm.Base.{
  ℕ, ◌+◌, ◌≡◌, Bool, true, false, not, ◌&&◌, ◌||◌, if_true, Option, none, some, if◌then◌else◌, ◌==◌,
  pos, ◌+ℤ◌, Float, set, is_none, arith, +ℤ-zero, +ℤ_cancel, +ℤ_cancel_two, +ℤ_twice,
}
use cana_tune_llm.Router.State.{Router, Ticket, Stage, dgroup}
use cana_tune_llm.Router.Tables.{apply_table, apply_table-Keeps, cost_at, prefill_mhz_of}
use cana_tune_llm.Router.Lifecycle.{
  Offer, Request, new_ticket, issue, prefill_done, first_token, is_prefill,
}
use cana_tune_llm.Router.Lifecycle.Finish.{release}

abbrev is_decode : Stage → Bool
is_decode Stage.decode = true
is_decode _ = false

abbrev one_if : Bool → ℕ
one_if true = 1
one_if false = 0

abbrev other_of : ℕ → Option ℕ → ℕ
other_of g none = 0
other_of g (some d) = one_if (d == g)

module _ {F : Type 0} where
  -- What one ticket adds to each counter of the group `g`.
  abbrev pub at_p_of : ℕ → Ticket F → ℕ
  at_p_of g t = one_if (t.group == g && (not t.finished && is_prefill t.stage))

  abbrev pub await_of : ℕ → Ticket F → ℕ
  await_of g t = one_if (dgroup t == g && (not t.finished && is_none t.first_token_at))

  abbrev pub tokens_of : ℕ → Ticket F → ℕ
  tokens_of g t =
      if dgroup t == g && (not t.finished && is_none t.first_token_at) then t.prompt_tokens else 0

  abbrev pub decoding_of : ℕ → Ticket F → ℕ
  decoding_of g t = one_if (dgroup t == g && (not t.finished && is_decode t.stage))

  abbrev pub flight_of : ℕ → Ticket F → ℕ
  flight_of g t = if t.finished then 0 else one_if (t.group == g) + other_of g t.decode_group

module _ {F : Type 0} where
  -- The ticket `t` becomes `t'`, and the counters of the group `g` follow.
  pub record Moves (r r' : Router F) (t t' : Ticket F) (g : ℕ) : Type 0 where
    pub at_p : (r'.groups g).n_at_p +ℤ pos (at_p_of g t) ≡ (r.groups g).n_at_p +ℤ pos (at_p_of g t')
    pub await :
        (r'.groups g).n_await +ℤ pos (await_of g t) ≡ (r.groups g).n_await +ℤ pos (await_of g t')
    pub tokens :
        (r'.groups g).t_await +ℤ pos (tokens_of g t) ≡ (r.groups g).t_await +ℤ pos (tokens_of g t')
    pub decoding :
        (r'.groups g).n_decoding +ℤ pos (decoding_of g t)
        ≡ (r.groups g).n_decoding +ℤ pos (decoding_of g t')
    pub flight :
        (r'.groups g).n_inflight +ℤ pos (flight_of g t)
        ≡ (r.groups g).n_inflight +ℤ pos (flight_of g t')

module _ {F : Type 0} ⦃num : Float F⦄ where
  abbrev pub after_first_token : F → Ticket F → Ticket F
  after_first_token now t = record t {
    first_token_at = some now;
    last_token_at = some now;
    stage = Stage.decode;
  }

  pub first_token-Moves :
      (r : Router F) (now : F) (k : ℕ) (t : Ticket F) (g : ℕ)
      → t.finished ≡ false
      → t.first_token_at ≡ none
      → Moves r (first_token r now k t) t (after_first_token now t) g
  unfolding first_token
  first_token-Moves r now k t g f n =
      let a = r.groups g in
      record {
        at_p = ground (arith, +ℤ-zero a.n_at_p, +ℤ_cancel a.n_at_p 1);
        await = ground (arith, +ℤ-zero a.n_await, +ℤ_cancel a.n_await 1);
        tokens = ground (arith, +ℤ-zero a.t_await, +ℤ_cancel a.t_await t.prompt_tokens);
        decoding = ground (
          arith,
          +ℤ-zero a.n_decoding,
          +ℤ-zero (a.n_decoding +ℤ pos 1),
          +ℤ_cancel a.n_decoding 1,
        );
        flight = ground (arith, +ℤ-zero a.n_inflight);
      }

  abbrev pub after_prefill : Ticket F → Ticket F
  after_prefill t = record t { stage = Stage.transfer }

  pub prefill_done-Moves :
      (r : Router F) (k : ℕ) (t : Ticket F) (g : ℕ)
      → t.finished ≡ false
      → is_prefill t.stage ≡ true
      → Moves r (prefill_done r k t) t (after_prefill t) g
  unfolding prefill_done
  prefill_done-Moves r k t g f p =
      let a = r.groups g in
      record {
        at_p = ground (arith, +ℤ-zero a.n_at_p, +ℤ_cancel a.n_at_p 1);
        await = ground arith;
        tokens = ground arith;
        decoding = ground (arith, +ℤ-zero a.n_decoding);
        flight = ground arith;
      }

  abbrev pub after_release : Ticket F → Ticket F
  after_release t = record t { stage = Stage.done; finished = true }

  pub release-Moves :
      (r : Router F) (k : ℕ) (t : Ticket F) (g : ℕ)
      → t.finished ≡ false
      → Moves r (release r k t) t (after_release t) g
  unfolding release
  release-Moves r k t g f =
      let a = r.groups g in
      record {
        at_p = ground (arith, +ℤ-zero a.n_at_p, +ℤ_cancel a.n_at_p 1);
        await = ground (arith, +ℤ-zero a.n_await, +ℤ_cancel a.n_await 1);
        tokens = ground (arith, +ℤ-zero a.t_await, +ℤ_cancel a.t_await t.prompt_tokens);
        decoding = ground (arith, +ℤ-zero a.n_decoding, +ℤ_cancel a.n_decoding 1);
        flight =
            ground
              (arith, +ℤ-zero a.n_inflight, +ℤ_cancel a.n_inflight 1, +ℤ_cancel_two a.n_inflight);
      }

module _ {F : Type 0} where
  -- The ticket `t` is new, and the counters of the group `g` follow.
  pub record Joins (r r' : Router F) (t : Ticket F) (g : ℕ) : Type 0 where
    pub at_p : (r'.groups g).n_at_p ≡ (r.groups g).n_at_p +ℤ pos (at_p_of g t)
    pub await : (r'.groups g).n_await ≡ (r.groups g).n_await +ℤ pos (await_of g t)
    pub tokens : (r'.groups g).t_await ≡ (r.groups g).t_await +ℤ pos (tokens_of g t)
    pub decoding : (r'.groups g).n_decoding ≡ (r.groups g).n_decoding +ℤ pos (decoding_of g t)
    pub flight : (r'.groups g).n_inflight ≡ (r.groups g).n_inflight +ℤ pos (flight_of g t)

module _ {F : Type 0} ⦃num : Float F⦄ where
  -- The ticket that a reservation issues.
  abbrev pub issued : Router F → F → Offer F → Request F → Ticket F
  issued r now o q =
      let r0 = apply_table r in
      new_ticket r0 now o q (cost_at r0 (prefill_mhz_of (r0.groups o.p).effective) q.tokens)

  pub issue-Joins :
      (r : Router F) (now : F) (o : Offer F) (q : Request F) (g : ℕ)
      → Joins r (issue r now o q) (issued r now o q) g
  unfolding issue
  issue-Joins r now o q g =
      let a = r.groups g in
      let e = (apply_table-Keeps r).groups in
      record {
        at_p = ground (arith, e, +ℤ-zero a.n_at_p);
        await = ground (arith, e, +ℤ-zero a.n_await);
        tokens = ground (arith, e, +ℤ-zero a.t_await);
        decoding = ground (arith, e, +ℤ-zero a.n_decoding);
        flight = ground (arith, e, +ℤ-zero a.n_inflight, +ℤ_twice a.n_inflight 1 1);
      }

  -- The tickets after each stage change, and the guards that leave everything as it is.
  pub tickets-prefill_done :
      (r : Router F) (k : ℕ) (t : Ticket F)
      → (t.finished || not (is_prefill t.stage)) ≡ false
      → (prefill_done r k t).tickets ≡ set r.tickets k (after_prefill t)
  unfolding prefill_done
  tickets-prefill_done r k t e = ground arith

  pub prefill_done_stays :
      (r : Router F) (k : ℕ) (t : Ticket F)
      → (t.finished || not (is_prefill t.stage)) ≡ true
      → prefill_done r k t ≡ r
  unfolding prefill_done
  prefill_done_stays r k t e = if_true (t.finished || not (is_prefill t.stage)) r _ e

  pub tickets-first_token :
      (r : Router F) (now : F) (k : ℕ) (t : Ticket F)
      → (not (is_none t.first_token_at) || t.finished) ≡ false
      → (first_token r now k t).tickets ≡ set r.tickets k (after_first_token now t)
  unfolding first_token
  tickets-first_token r now k t e = ground arith

  pub first_token_stays :
      (r : Router F) (now : F) (k : ℕ) (t : Ticket F)
      → (not (is_none t.first_token_at) || t.finished) ≡ true
      → first_token r now k t ≡ r
  unfolding first_token
  first_token_stays r now k t e = if_true (not (is_none t.first_token_at) || t.finished) r _ e

  pub tickets-release :
      (r : Router F) (k : ℕ) (t : Ticket F)
      → (release r k t).tickets ≡ set r.tickets k (after_release t)
  unfolding release
  tickets-release r k t = ground arith
