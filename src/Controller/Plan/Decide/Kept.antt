-- ===== src/Controller/Plan/Decide/Kept.antt =====
-- What `_plan` (tier_controller.py) does to the states of the groups, and how many stay active.
use cana_tune_llm.Base.{
  ℕ, zero, suc, ◌+◌, ◌≤◌, ◌≡◌, sym, ◌∙◌, Bool, true, some, List, [], ◌∷◌, ◌==◌, ltb, min,
  if◌then◌else◌, Float, All, All_imp, All-append, arith, inl, inr, Bool-cases, Option-cases, subst,
  is_none,
}
use cana_tune_llm.Domain.Tiers.{GroupState}
use cana_tune_llm.Controller.Clocks.{Control}
use cana_tune_llm.Controller.Clocks.States.{SameStates, SameStates-refl}
use cana_tune_llm.Controller.Effort.{is_exploring, wake}
use cana_tune_llm.Controller.Effort.Woken.{Wakes, wake-Wakes, wake-none, active_at}
use cana_tune_llm.Controller.Plan.Counts.{count, count_mono, count_gain}
use cana_tune_llm.Controller.Plan.Decide.{Roll, add_woken, wake_up}

-- Parked, active, draining: the order in which a plan moves a group.
abbrev pub rank : GroupState → ℕ
rank GroupState.park = 0
rank GroupState.active = 1
rank GroupState.draining = 2
rank GroupState.exploring = 3

-- Only forward, and never to or from an experiment of the Canary.
abbrev pub Forward : GroupState → GroupState → Type 0
Forward a b = (rank a ≤ rank b) × (is_exploring b ≡ is_exploring a)

abbrev pub active_count : {F : Type 0} → Control F → ℕ
active_count c = count (active_at c) 0 c.router.n_groups

-- No group goes back, and of the active groups `least` stay, or all.
pub record Spares {F : Type 0} (least : ℕ) (c c' : Control F) : Type 0 where
  pub n_groups : c'.router.n_groups ≡ c.router.n_groups
  pub settings : c'.settings ≡ c.settings
  pub forward : (j : ℕ) → Forward (c.router.groups j).state (c'.router.groups j).state
  pub enough : min least (active_count c) ≤ active_count c'

module _ {F : Type 0} where
  count_states :
      (c c' : Control F)
      → c'.router.n_groups ≡ c.router.n_groups
      → ((j : ℕ) → active_at c j ≡ true → active_at c' j ≡ true)
      → active_count c ≤ active_count c'
  count_states c c' n h =
      let le = count_mono (active_at c) (active_at c') 0 c.router.n_groups h in
      subst (λ m. active_count c ≤ count (active_at c') 0 m) (sym n) le

  pub SameStates-Spares : (least : ℕ) (c c' : Control F) → SameStates c c' → Spares least c c'
  SameStates-Spares least c c' h = record {
    n_groups = h.n_groups;
    settings = h.settings;
    forward = λ j. let s = h.states j in (ground (arith, s), ground (arith, s));
    enough =
        let le = count_states c c' h.n_groups (λ j on. let s = h.states j in ground (arith, s)) in
        omega (arith, le);
  }

  pub Spares-trans :
      (least : ℕ) (a b c : Control F) → Spares least a b → Spares least b c → Spares least a c
  Spares-trans least a b c h k = record {
    n_groups = k.n_groups ∙ h.n_groups;
    settings = k.settings ∙ h.settings;
    forward =
        λ j. let s = h.forward j in let t = k.forward j in (omega (arith, s.0, t.0), t.1 ∙ s.1);
    enough = let s = h.enough in let t = k.enough in omega (arith, s, t);
  }

  pub Wakes-Spares :
      (least : ℕ) (c after : Control F) (i : ℕ) → Wakes c after i → Spares least c after
  Wakes-Spares least c after i w = record {
    n_groups = w.n_groups;
    settings = w.settings;
    forward = λ j. elim (Bool-cases (i == j)) [
      | inl e ↦
          let at : i ≡ j = ground arith in
          subst (λ k. Forward (c.router.groups k).state (after.router.groups k).state) at
            (let p = w.parked in let s = w.state in (ground (arith, p, s), ground (arith, p, s)))
      | inr e ↦ let s = w.others j e in (ground (arith, s), ground (arith, s))
    ];
    enough =
        let le = count_states c after w.n_groups (λ j on. elim (Bool-cases (i == j)) [
          | inl e ↦
              let p = w.parked in
              let s = w.state in
              let at : i ≡ j = ground arith in
              subst (λ k. active_at after k ≡ true) at (ground (arith, s))
          | inr e ↦ let s = w.others j e in ground (arith, s)
        ]) in
        omega (arith, le);
  }

  pub Wakes-active_count :
      (c after : Control F) (i : ℕ) → Wakes c after i → active_count after ≡ active_count c + 1
  Wakes-active_count c after i w =
      let gain =
        count_gain (active_at c) (active_at after) i 0 c.router.n_groups
          (λ j ne. let s = w.others j ne in ground (arith, s))
          (let p = w.parked in ground (arith, p)) (let s = w.state in ground (arith, s))
          (omega arith) (let k = w.known in omega (arith, k)) in
      subst (λ m. count (active_at after) 0 m ≡ active_count c + 1) (sym w.n_groups) gain

  -- What the loop counts is there: so many active groups, and every listed one is active.
  pub record IsRoll (c : Control F) (r : Roll) : Type 0 where
    pub counted : r.n_routable ≤ active_count c
    pub listed : All (λ i. active_at c i ≡ true) r.active

  All_active :
      (c c' : Control F) (is : List ℕ)
      → ((j : ℕ) → active_at c j ≡ true → active_at c' j ≡ true)
      → All (λ i. active_at c i ≡ true) is
      → All (λ i. active_at c' i ≡ true) is
  All_active c c' is h = All_imp (λ i. active_at c i ≡ true) (λ i. active_at c' i ≡ true) is h

  pub SameStates-IsRoll : (c c' : Control F) (r : Roll) → SameStates c c' → IsRoll c r → IsRoll c' r
  SameStates-IsRoll c c' r h k =
      let on : (j : ℕ) → active_at c j ≡ true → active_at c' j ≡ true =
        λ j a. let s = h.states j in ground (arith, s) in
      record {
        counted =
            let le = count_states c c' h.n_groups on in let n = k.counted in omega (arith, le, n);
        listed = All_active c c' r.active on k.listed;
      }

module _ {F : Type 0} ⦃num : Float F⦄ where
  Wakes-IsRoll :
      (c after : Control F) (i : ℕ) (r : Roll)
      → Wakes c after i
      → IsRoll c r
      → IsRoll after (add_woken after i r)
  unfolding add_woken
  Wakes-IsRoll c after i r w k = record {
    counted =
        let up = Wakes-active_count c after i w in
        let n = k.counted in
        let le : (if is_none (after.router.groups i).effective
              then r.n_routable
              else r.n_routable + 1)
            ≤ r.n_routable + 1 =
          ground arith in
        omega (arith, up, n, le);
    listed =
        All-append (λ j. active_at after j ≡ true) r.active (i ∷ [])
          (All_active c after r.active
            (λ j a. elim (Bool-cases (i == j)) [
              | inl e ↦
                  let s = w.state in
                  let at : i ≡ j = ground arith in
                  subst (λ k. active_at after k ≡ true) at (ground (arith, s))
              | inr e ↦ let s = w.others j e in ground (arith, s)
            ])
            k.listed)
          (let s = w.state in ground (arith, s), tt);
  }

module _ {F : Type 0} ⦃num : Float F⦄ (least : ℕ) where
  pub wake_up-Spares :
      (k : ℕ) (ok : ℕ → Bool) (now : F) (n : ℕ) (c : Control F) (r : Roll) (c' : Control F)
      (r' : Roll)
      → IsRoll c r
      → wake_up k ok now n c r ≡ some (c', r')
      → Spares least c c' × IsRoll c' r'
  unfolding wake_up
  wake_up-Spares zero ok now n c r c' r' roll e =
      let same : c ≡ c' = ground arith in
      let same' : r ≡ r' = ground arith in
      subst (λ (x : Control F). Spares least c x × IsRoll x r') same
        (SameStates-Spares least c c (SameStates-refl c), subst (IsRoll c) same' roll)
  wake_up-Spares (suc k) ok now n c r c' r' roll e = elim (Bool-cases (ltb r.n_routable n)) [
    | inr stop ↦
        let same : c ≡ c' = ground arith in
        let same' : r ≡ r' = ground arith in
        subst (λ (x : Control F). Spares least c x × IsRoll x r') same
          (SameStates-Spares least c c (SameStates-refl c), subst (IsRoll c) same' roll)
    | inl more ↦ elim (Option-cases (wake c ok now)) [
      | inl raised ↦ ground arith
      | inr ((c1, woken), found) ↦ elim (Option-cases woken) [
        | inl nobody ↦
            let same : c1 ≡ c' = ground arith in
            let same' : r ≡ r' = ground arith in
            let back : c1 ≡ c = wake-none c ok now c1 (ground arith) in
            subst (λ (x : Control F). Spares least c x × IsRoll x r') (sym back ∙ same)
              (SameStates-Spares least c c (SameStates-refl c), subst (IsRoll c) same' roll)
        | inr (i, someone) ↦
            let w = wake-Wakes c ok now c1 i (ground arith) in
            let rest : wake_up k ok now n c1 (add_woken c1 i r) ≡ some (c', r') = ground arith in
            let (spares, roll') =
              wake_up-Spares k ok now n c1 (add_woken c1 i r) c' r' (Wakes-IsRoll c c1 i r w roll)
                rest in
            (Spares-trans least c c1 c' (Wakes-Spares least c c1 i w) spares, roll')
      ]
    ]
  ]
