-- ===== src/Canary/Bound.antt =====
-- src/canatune/controller/locator.py: `wilson_ucb`.
use cana_tune_llm.Base.{ℕ, if◌then◌else◌, ◌==◌, Float, of_nat, min_f}

-- The one-sided upper confidence bound of `k` violations in `n` requests, at most 1.
unfoldable pub wilson_ucb : {F : Type 0} ⦃num : Float F⦄ → ℕ → ℕ → F → F
wilson_ucb ⦃num⦄ k n z =
    let n_f = of_nat n in
    let p = num.div (of_nat k) n_f in
    let z2 = num.mul z z in
    let den = num.add (of_nat 1) (num.div z2 n_f) in
    let centre = num.add p (num.div z2 (num.mul (of_nat 2) n_f)) in
    let spread = num.div (num.mul p (num.sub (of_nat 1) p)) n_f in
    let tail = num.div z2 (num.mul (num.mul (of_nat 4) n_f) n_f) in
    let half = num.mul z (num.sqrt (num.add spread tail)) in
    if n == 0 then of_nat 1 else min_f (of_nat 1) (num.div (num.add centre half) den)
