-- ===== src/Router/Admit/Waiters/Settled.antt =====
-- What an attempt of `step` (router.py) leaves behind among the waiters.
use cana_tune_llm.Base.{
  ℕ, ◌≡◌, refl, Bool, true, false, not, ◌&&◌, Option, none, some, List, [], ◌∷◌, ◌++◌, arith, sym,
  ap, subst, ◌∙◌, inl, inr, Bool-cases, contains, remove_one, get_key, IsDistinct,
  contains-remove_one, remove_one-IsDistinct, append-IsDistinct, get_key-drop_key, if_both,
}
use cana_tune_llm.Router.State.{Router, Waiting}
use cana_tune_llm.Router.Admit.Waiters.{
  StepResult, join, release_waiter, set_waiting, refuse, leave_with, signal_once, conclude,
}

abbrev pub is_wait : StepResult → Bool
is_wait StepResult.wait = true
is_wait _ = false

-- No waiter is in a list twice.
pub record IsOrderly {F : Type 0} (s : Waiting F) : Type 0 where
  pub queue : IsDistinct s.queue
  pub holding : IsDistinct s.holding
  pub fresh : IsDistinct s.fresh
  pub signalled : IsDistinct s.signalled

-- The waiter is in no list and no map.
pub record IsGone {F : Type 0} (w : ℕ) (s : Waiting F) : Type 0 where
  pub queue : contains w s.queue ≡ false
  pub holding : contains w s.holding ≡ false
  pub fresh : contains w s.fresh ≡ false
  pub signalled : contains w s.signalled ≡ false
  pub since : get_key w s.waiting_since ≡ none
  pub expires : get_key w s.expires ≡ none

contains-remove_self : (w : ℕ) (xs : List ℕ) → IsDistinct xs → contains w (remove_one w xs) ≡ false
contains-remove_self w xs d = let e = contains-remove_one w w xs d in ground (arith, e)

pub remove_one-absent : (w : ℕ) (xs : List ℕ) → contains w xs ≡ false → remove_one w xs ≡ xs
remove_one-absent w [] h = refl
remove_one-absent w (x ∷ xs) h = ground (arith, remove_one-absent w xs)

remove_one-twice :
    (w : ℕ) (xs : List ℕ) → IsDistinct xs → remove_one w (remove_one w xs) ≡ remove_one w xs
remove_one-twice w xs d = remove_one-absent w (remove_one w xs) (contains-remove_self w xs d)

pub remove_one-appended :
    (w : ℕ) (xs : List ℕ) → contains w xs ≡ false → remove_one w (xs ++ (w ∷ [])) ≡ xs
remove_one-appended w [] h = ground arith
remove_one-appended w (x ∷ xs) h = ground (arith, remove_one-appended w xs)

join-IsDistinct : (w : ℕ) (xs : List ℕ) → IsDistinct xs → IsDistinct (join w xs)
join-IsDistinct w xs d = elim (Bool-cases (contains w xs)) [
  | inl e ↦ rw e d
  | inr e ↦ rw e (append-IsDistinct xs w d e)
]

module _ {F : Type 0} where
  release_waiter-IsOrderly : (w : ℕ) (s : Waiting F) → IsOrderly s → IsOrderly (release_waiter w s)
  release_waiter-IsOrderly w s h = record {
    queue = remove_one-IsDistinct w s.queue h.queue;
    holding = remove_one-IsDistinct w s.holding h.holding;
    fresh = remove_one-IsDistinct w s.fresh h.fresh;
    signalled = remove_one-IsDistinct w s.signalled h.signalled;
  }

  release_waiter-IsGone : (w : ℕ) (s : Waiting F) → IsOrderly s → IsGone w (release_waiter w s)
  release_waiter-IsGone w s h = record {
    queue = contains-remove_self w s.queue h.queue;
    holding = contains-remove_self w s.holding h.holding;
    fresh = contains-remove_self w s.fresh h.fresh;
    signalled = contains-remove_self w s.signalled h.signalled;
    since = let e = get_key-drop_key w w s.waiting_since in ground (arith, e);
    expires = let e = get_key-drop_key w w s.expires in ground (arith, e);
  }

  -- What an attempt of the waiter `w` leaves behind.
  pub record IsSettled (w : ℕ) (s : Waiting F) (out : Router F × StepResult) : Type 0 where
    pub orderly : IsOrderly out.0.waiting
    pub others : remove_one w out.0.waiting.queue ≡ remove_one w s.queue
    pub gone : is_wait out.1 ≡ false → IsGone w out.0.waiting

  pub joined-IsOrderly :
      (w : ℕ) (s : Waiting F) → IsOrderly s → IsOrderly (record s { fresh = join w s.fresh })
  joined-IsOrderly w s h = record {
    queue = h.queue;
    holding = h.holding;
    fresh = join-IsDistinct w s.fresh h.fresh;
    signalled = h.signalled;
  }

  -- A state before with the same other waiters.
  pub IsSettled-from :
      (w : ℕ) (s s' : Waiting F) (out : Router F × StepResult)
      → remove_one w s'.queue ≡ remove_one w s.queue
      → IsSettled w s' out
      → IsSettled w s out
  IsSettled-from w s s' out e h = record {
    orderly = h.orderly;
    others = h.others ∙ e;
    gone = h.gone;
  }

  pub wait-IsSettled :
      (w : ℕ) (s : Waiting F) (r : Router F)
      → r.waiting ≡ s
      → IsOrderly s
      → IsSettled w s (r, StepResult.wait)
  wait-IsSettled w s r e h = record {
    orderly = subst IsOrderly (sym e) h;
    others = ap (λ x. remove_one w x.queue) e;
    gone = λ f. ground arith;
  }

  -- A ticket or a refusal takes the waiter out.
  leave-IsSettled :
      (w : ℕ) (s : Waiting F) (r : Router F) (out : StepResult)
      → r.waiting ≡ s
      → IsOrderly s
      → IsSettled w s (set_waiting r (release_waiter w), out)
  leave-IsSettled w s r out e h =
      let h' = subst IsOrderly (sym e) h in
      record {
        orderly = release_waiter-IsOrderly w r.waiting h';
        others = remove_one-twice w r.waiting.queue h'.queue ∙ ap (λ x. remove_one w x.queue) e;
        gone = λ f. release_waiter-IsGone w r.waiting h';
      }

  pub refuse-IsSettled :
      (w : ℕ) (s : Waiting F) (r : Router F)
      → r.waiting ≡ s
      → IsOrderly s
      → IsSettled w s (set_waiting r (refuse w), StepResult.reject)
  refuse-IsSettled w s r e h =
      let k = leave-IsSettled w s r StepResult.reject e h in
      let g = k.gone refl in
      record {
        orderly = record {
          queue = k.orderly.queue;
          holding = k.orderly.holding;
          fresh = k.orderly.fresh;
          signalled = k.orderly.signalled;
        };
        others = k.others;
        gone = λ f. record {
          queue = g.queue;
          holding = g.holding;
          fresh = g.fresh;
          signalled = g.signalled;
          since = g.since;
          expires = g.expires;
        };
      }

  pub leave_with-IsSettled :
      (w : ℕ) (s : Waiting F) (given : Router F × Option ℕ)
      → given.0.waiting ≡ s
      → IsOrderly s
      → IsSettled w s (leave_with w given)
  unfolding leave_with
  leave_with-IsSettled w s (r, none) e h = wait-IsSettled w s r e h
  leave_with-IsSettled w s (r, some k) e h = leave-IsSettled w s r (StepResult.ticket k) e h

  pub conclude-IsSettled :
      (over : Bool) (w : ℕ) (s : Waiting F) (given : Router F × Option ℕ)
      → given.0.waiting ≡ s
      → IsOrderly s
      → IsSettled w s (conclude over w given)
  unfolding conclude
  conclude-IsSettled true w s (r, none) e h = refuse-IsSettled w s r e h
  conclude-IsSettled false w s (r, none) e h = wait-IsSettled w s r e h
  conclude-IsSettled over w s (r, some k) e h = leave-IsSettled w s r (StepResult.ticket k) e h

  pub signal_once-IsOrderly :
      (w : ℕ) (pressed : Bool) (r : Router F)
      → IsOrderly r.waiting
      → IsOrderly (signal_once w pressed r).waiting
        × ((signal_once w pressed r).waiting.queue ≡ r.waiting.queue)
  unfolding signal_once
  signal_once-IsOrderly w pressed r h = elim (Bool-cases (contains w r.waiting.signalled)) [
    | inl e ↦ ground (arith, h.signalled)
    | inr e ↦
        let d = append-IsDistinct r.waiting.signalled w h.signalled e in
        if_both (λ x. IsOrderly x.waiting × (x.waiting.queue ≡ r.waiting.queue))
          (pressed && not (contains w r.waiting.signalled)) _ r
          (record { queue = h.queue; holding = h.holding; fresh = h.fresh; signalled = d }, refl)
          (h, refl)
  ]
