-- ===== src/Router/Lifecycle/Runs.antt =====
-- Runs of the Router's lifecycle (router.py): in any order of events the counters of every group stay
-- what the open tickets add up to.
use cana_tune_llm.Base.{
  ℕ, ◌+◌, ◌≡◌, refl, sym, ◌∙◌, ap, inl, inr, true, Option, none, some, List, [], ◌∷◌, ◌++◌, ℤ, pos,
  ◌+ℤ◌, +ℤ-pos, eq_of_+ℤ-pos, Float, set, get_elem?, sum_by, sum_by-set, sum_by-append, arith,
  Bool-cases, is_none, All, subst, ◌||◌, not,
}
use cana_tune_llm.Router.State.{Router, Ticket, set_ticket}
use cana_tune_llm.Router.Tables.{Keeps, apply_table-Keeps}
use cana_tune_llm.Router.Latency.{token_progress, token_progress-Keeps, after_token}
use cana_tune_llm.Router.Lifecycle.{Offer, Request, issue, prefill_done, first_token, is_prefill}
use cana_tune_llm.Router.Lifecycle.Finish.{Outcome, release, finish}
use cana_tune_llm.Router.Lifecycle.Finish.Kept.{finish_stays, finish-Keeps}
use cana_tune_llm.Router.Lifecycle.Accounting.{
  at_p_of, await_of, tokens_of, decoding_of, flight_of, Moves, Joins, first_token-Moves,
  prefill_done-Moves, release-Moves, issue-Joins, tickets-prefill_done, prefill_done_stays,
  tickets-first_token, first_token_stays, tickets-release, issued, after_first_token, after_prefill,
  after_release,
}

-- Every counter of every group is the sum over all tickets issued so far.
pub record IsAccounted {F : Type 0} (r : Router F) : Type 0 where
  pub at_p : (g : ℕ) → (r.groups g).n_at_p ≡ pos (sum_by (at_p_of g) r.tickets)
  pub await : (g : ℕ) → (r.groups g).n_await ≡ pos (sum_by (await_of g) r.tickets)
  pub tokens : (g : ℕ) → (r.groups g).t_await ≡ pos (sum_by (tokens_of g) r.tickets)
  pub decoding : (g : ℕ) → (r.groups g).n_decoding ≡ pos (sum_by (decoding_of g) r.tickets)
  pub flight : (g : ℕ) → (r.groups g).n_inflight ≡ pos (sum_by (flight_of g) r.tickets)

-- A counter follows its sum through the change of one summand.
follow :
    {n n' : ℤ} (c c' s s' : ℕ)
    → n' +ℤ pos c ≡ n +ℤ pos c'
    → n ≡ pos s
    → s' + c ≡ s + c'
    → n' ≡ pos s'
follow {n} {n'} c c' s s' move at e =
    eq_of_+ℤ-pos n' c s' (move ∙ ap (λ (z : ℤ). z +ℤ pos c') at ∙ +ℤ-pos s c' ∙ ap pos (sym e))

grow : {n n' : ℤ} (c s s' : ℕ) → n' ≡ n +ℤ pos c → n ≡ pos s → s' ≡ s + c → n' ≡ pos s'
grow c s s' move at e = move ∙ ap (λ (z : ℤ). z +ℤ pos c) at ∙ +ℤ-pos s c ∙ ap pos (sym e)

module _ {F : Type 0} where
  sum_by-snoc :
      (f : Ticket F → ℕ) (ts : List (Ticket F)) (t : Ticket F)
      → sum_by f (ts ++ (t ∷ [])) ≡ sum_by f ts + f t
  sum_by-snoc f ts t = omega (arith, sum_by-append f ts (t ∷ []))

  Moves-IsAccounted :
      (r r' : Router F) (k : ℕ) (t t' : Ticket F)
      → IsAccounted r
      → get_elem? r.tickets k ≡ some t
      → r'.tickets ≡ set r.tickets k t'
      → ((g : ℕ) → Moves r r' t t' g)
      → IsAccounted r'
  Moves-IsAccounted r r' k t t' a found e move =
      let sums : (f : Ticket F → ℕ) → sum_by f r'.tickets + f t ≡ sum_by f r.tickets + f t' = λ f.
        ap (λ (ts : List (Ticket F)). sum_by f ts + f t) e ∙ sum_by-set f r.tickets k t t' found in
      record {
        at_p = λ g. follow _ _ _ _ (move g).at_p (a.at_p g) (sums (at_p_of g));
        await = λ g. follow _ _ _ _ (move g).await (a.await g) (sums (await_of g));
        tokens = λ g. follow _ _ _ _ (move g).tokens (a.tokens g) (sums (tokens_of g));
        decoding = λ g. follow _ _ _ _ (move g).decoding (a.decoding g) (sums (decoding_of g));
        flight = λ g. follow _ _ _ _ (move g).flight (a.flight g) (sums (flight_of g));
      }

  Joins-IsAccounted :
      (r r' : Router F) (t : Ticket F)
      → IsAccounted r
      → r'.tickets ≡ r.tickets ++ (t ∷ [])
      → ((g : ℕ) → Joins r r' t g)
      → IsAccounted r'
  Joins-IsAccounted r r' t a e join =
      let sums : (f : Ticket F → ℕ) → sum_by f r'.tickets ≡ sum_by f r.tickets + f t =
        λ f. ap (sum_by f) e ∙ sum_by-snoc f r.tickets t in
      record {
        at_p = λ g. grow _ _ _ (join g).at_p (a.at_p g) (sums (at_p_of g));
        await = λ g. grow _ _ _ (join g).await (a.await g) (sums (await_of g));
        tokens = λ g. grow _ _ _ (join g).tokens (a.tokens g) (sums (tokens_of g));
        decoding = λ g. grow _ _ _ (join g).decoding (a.decoding g) (sums (decoding_of g));
        flight = λ g. grow _ _ _ (join g).flight (a.flight g) (sums (flight_of g));
      }

  Keeps-IsAccounted : {r r' : Router F} → Keeps r r' → IsAccounted r → IsAccounted r'
  Keeps-IsAccounted {r} {r'} h a = record {
    at_p = λ g. rw (h.groups, h.tickets) (a.at_p g);
    await = λ g. rw (h.groups, h.tickets) (a.await g);
    tokens = λ g. rw (h.groups, h.tickets) (a.tokens g);
    decoding = λ g. rw (h.groups, h.tickets) (a.decoding g);
    flight = λ g. rw (h.groups, h.tickets) (a.flight g);
  }

-- What happens to the Router: the proxy's stage events of one ticket, named by its id.
pub data Event (F : Type 0) : Type 0 where
  admit : F → Offer F → Request F → Event F
  p_returned : ℕ → Event F
  first : F → ℕ → Event F
  token : F → ℕ → Option F → Event F
  ended : F → ℕ → Outcome F → Event F

module _ {F : Type 0} ⦃num : Float F⦄ where
  -- An event of a ticket that was never issued cannot happen, and changes nothing.
  unfoldable pub on_ticket : Router F → Option (Ticket F) → (Ticket F → Router F) → Router F
  on_ticket r none f = r
  on_ticket r (some t) f = f t

  unfoldable pub perform : Router F → Event F → Router F
  unfolding on_ticket
  perform r (admit now o q) = issue r now o q
  perform r (p_returned k) = on_ticket r (get_elem? r.tickets k) (prefill_done r k)
  perform r (first now k) = on_ticket r (get_elem? r.tickets k) (first_token r now k)
  perform r (token now k tpot) =
      on_ticket r (get_elem? r.tickets k) (λ t. token_progress r now k t tpot)
  perform r (ended now k o) = on_ticket r (get_elem? r.tickets k) (λ t. finish r now k t o)

  unfoldable pub run : List (Event F) → Router F → Router F
  run [] r = r
  run (e ∷ es) r = run es (perform r e)

  tickets-issue :
      (r : Router F) (now : F) (o : Offer F) (q : Request F)
      → (issue r now o q).tickets ≡ r.tickets ++ (issued r now o q ∷ [])
  unfolding issue
  tickets-issue r now o q = let e = (apply_table-Keeps r).tickets in ground (arith, e)

  -- A stage change, or nothing where its guard stops it.
  prefill_done-IsAccounted :
      (r : Router F) (k : ℕ) (t : Ticket F)
      → IsAccounted r
      → get_elem? r.tickets k ≡ some t
      → IsAccounted (prefill_done r k t)
  prefill_done-IsAccounted r k t a found =
      elim (Bool-cases (t.finished || not (is_prefill t.stage))) [
        | inl e ↦ subst IsAccounted (sym (prefill_done_stays r k t e)) a
        | inr e ↦
            Moves-IsAccounted r (prefill_done r k t) k t (after_prefill t) a found
              (tickets-prefill_done r k t e)
              (λ g. prefill_done-Moves r k t g (ground arith) (ground arith))
      ]

  first_token-IsAccounted :
      (r : Router F) (now : F) (k : ℕ) (t : Ticket F)
      → IsAccounted r
      → get_elem? r.tickets k ≡ some t
      → IsAccounted (first_token r now k t)
  first_token-IsAccounted r now k t a found =
      elim (Bool-cases (not (is_none t.first_token_at) || t.finished)) [
        | inl e ↦ subst IsAccounted (sym (first_token_stays r now k t e)) a
        | inr e ↦
            Moves-IsAccounted r (first_token r now k t) k t (after_first_token now t) a found
              (tickets-first_token r now k t e)
              (λ g. first_token-Moves r now k t g (ground arith) (ground arith))
      ]

  finish-IsAccounted :
      (r : Router F) (now : F) (k : ℕ) (t : Ticket F) (o : Outcome F)
      → IsAccounted r
      → get_elem? r.tickets k ≡ some t
      → IsAccounted (finish r now k t o)
  finish-IsAccounted r now k t o a found = elim (Bool-cases t.finished) [
    | inl e ↦ subst IsAccounted (sym (finish_stays r now k t o e)) a
    | inr e ↦ Keeps-IsAccounted (finish-Keeps r now k t o e) (
        Moves-IsAccounted r (release r k t) k t (after_release t) a found (tickets-release r k t)
          (λ g. release-Moves r k t g e))
  ]

  -- A token leaves every counter alone.
  token_progress-IsAccounted :
      (r : Router F) (now : F) (k : ℕ) (t : Ticket F) (tpot : Option F)
      → IsAccounted r
      → get_elem? r.tickets k ≡ some t
      → IsAccounted (token_progress r now k t tpot)
  token_progress-IsAccounted r now k t tpot a found =
      Keeps-IsAccounted (token_progress-Keeps r now k t tpot) (
        Moves-IsAccounted r (set_ticket r k (after_token now t)) k t (after_token now t) a found
          refl
          (λ g. record {
            at_p = refl;
            await = refl;
            tokens = refl;
            decoding = refl;
            flight = refl;
          }))

  on_ticket-IsAccounted :
      (r : Router F) (o : Option (Ticket F)) (f : Ticket F → Router F)
      → IsAccounted r
      → ((t : Ticket F) → o ≡ some t → IsAccounted (f t))
      → IsAccounted (on_ticket r o f)
  unfolding on_ticket
  on_ticket-IsAccounted r none f a h = a
  on_ticket-IsAccounted r (some t) f a h = h t refl

  perform-IsAccounted : (r : Router F) (e : Event F) → IsAccounted r → IsAccounted (perform r e)
  unfolding perform
  perform-IsAccounted r (admit now o q) a =
      Joins-IsAccounted r (issue r now o q) (issued r now o q) a (tickets-issue r now o q)
        (issue-Joins r now o q)
  perform-IsAccounted r (p_returned k) a =
      on_ticket-IsAccounted r _ (prefill_done r k) a (λ t e. prefill_done-IsAccounted r k t a e)
  perform-IsAccounted r (first now k) a =
      on_ticket-IsAccounted r _ (first_token r now k) a
        (λ t e. first_token-IsAccounted r now k t a e)
  perform-IsAccounted r (token now k tpot) a =
      on_ticket-IsAccounted r _ (λ t. token_progress r now k t tpot) a
        (λ t e. token_progress-IsAccounted r now k t tpot a e)
  perform-IsAccounted r (ended now k o) a =
      on_ticket-IsAccounted r _ (λ t. finish r now k t o) a
        (λ t e. finish-IsAccounted r now k t o a e)

  -- From a Router whose counters agree with its tickets, in every run, whatever the order of its
  -- events, each counter of each group stays equal to what the tickets issued so far add to it.
  pub run-IsAccounted :
      (es : List (Event F)) (r : Router F) → IsAccounted r → IsAccounted (run es r)
  unfolding run
  run-IsAccounted [] r a = a
  run-IsAccounted (e ∷ es) r a = run-IsAccounted es (perform r e) (perform-IsAccounted r e a)

  sum_by_finished :
      (f : Ticket F → ℕ) (ts : List (Ticket F))
      → ((t : Ticket F) → t.finished ≡ true → f t ≡ 0)
      → All (λ t. t.finished ≡ true) ts
      → sum_by f ts ≡ 0
  sum_by_finished f [] zero_of all = refl
  sum_by_finished f (t ∷ ts) zero_of all =
      omega (arith, zero_of t all.0, sum_by_finished f ts zero_of all.1)

  -- From a Router whose counters agree with its tickets, after any run in which every ticket was
  -- finished, no group counts a request any more.
  pub run_idle :
      (es : List (Event F)) (r : Router F) (g : ℕ)
      → IsAccounted r
      → All (λ t. t.finished ≡ true) (run es r).tickets
      → ((run es r).groups g).n_inflight ≡ pos 0
        × ((run es r).groups g).n_at_p ≡ pos 0
        × ((run es r).groups g).n_await ≡ pos 0
        × ((run es r).groups g).t_await ≡ pos 0
        × ((run es r).groups g).n_decoding ≡ pos 0
  run_idle es r g start all =
      let a = run-IsAccounted es r start in
      let ts = (run es r).tickets in
      (
        a.flight g ∙ ap pos (sum_by_finished (flight_of g) ts (λ t e. ground arith) all),
        a.at_p g ∙ ap pos (sum_by_finished (at_p_of g) ts (λ t e. ground arith) all),
        a.await g ∙ ap pos (sum_by_finished (await_of g) ts (λ t e. ground arith) all),
        a.tokens g ∙ ap pos (sum_by_finished (tokens_of g) ts (λ t e. ground arith) all),
        a.decoding g ∙ ap pos (sum_by_finished (decoding_of g) ts (λ t e. ground arith) all),
      )
