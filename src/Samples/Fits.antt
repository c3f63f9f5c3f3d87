-- ===== src/Samples/Fits.antt =====
-- The theorems on the fits of the cluster model (src/canatune/domain/models.py) at two D clocks.
use cana_tune_llm.Base.{◌≡◌, refl, [], ◌∷◌, List, ℕ, ℤ, pos, All, ◌-ℤ◌, ◌+ℤ◌}
use cana_tune_llm.Domain.Cluster.Fits.{fit_decode}
use cana_tune_llm.Domain.Cluster.Fits.Slopes.{IsUp, fit_decode-IsUp}
use cana_tune_llm.Samples.Fixed.{fixed}

-- Two loads at 800 MHz, one at 1,200 MHz.
abbrev windows : List (ℕ × List (ℤ × ℤ))
windows =
    (1_200, (pos 10_000, pos 15_000) ∷ [])
    ∷ (800, (pos 10_000, pos 20_000) ∷ (pos 30_000, pos 30_000) ∷ [])
    ∷ []

shared_slope :
    fit_decode windows ≡ (800, (pos 15_000, pos 500)) ∷ (1_200, (pos 10_000, pos 500)) ∷ []
unfolding fit_decode ◌-ℤ◌ ◌+ℤ◌
shared_slope = refl

fit_decode-IsUp_example : All IsUp (fit_decode windows)
fit_decode-IsUp_example = fit_decode-IsUp windows
