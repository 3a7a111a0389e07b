-- ===== src/Calibrate/Grid/Shape.antt =====
-- How many rows the grid has, how long they are, and that its loop ends.
use mathlib.Core.List.{Mem}
use go_cascade.Base.{length, All, ℕ, zero, suc, ◌≡◌, List}
use go_cascade.Float.{Float}
use go_cascade.Calibrate.Stats.{Math}

module _ {ℓ} {A : Type ℓ} where
  -- Every row has the length `n` and holds only levels.
  abbrev pub IsRow : ℕ → List A → List A → Type ℓ
  IsRow n levels row = (length row ≡ n) × All (λ x. Mem x levels) row

module _ {ℓ} {F : Type ℓ} ⦃fl : Float F⦄ ⦃m : Math F⦄ where
  -- The loop variable after `k` rounds.
  abbrev pub climb : ℕ → F → F → F
  climb zero step v = v
  climb (suc k) step v = climb k step (fl.add v step)
