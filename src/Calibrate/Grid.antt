-- ===== src/Calibrate/Grid.antt =====
-- `buildGrid` and its levels (internal/calibrate/ltt.go).
pub mod Shape
use mathlib.Core.Option
use go_cascade.Base.{
  ltb, leb, ◌==◌, str_eq, if◌then◌else◌, ltb→lt, lt→ltb, leb→le, ==_iff, Bool-cases, Option-cases,
  Result, ok, err, is_none, length, get_elem?, take, drop, is_empty, filter_by, any, All, count_by,
  length-append, length-drop, length-take, take-append-drop, length-map, All-append, All-imp,
  insert_sorted, sort_stable, sort_stable-perm, ℤ, pos, negsuc, is_space, trim_left, trim_right,
  trim_space, Arg, int_arg, float_arg, str_arg, Sprintf, ℕ, zero, suc, ◌+◌, ◌-◌, ◌*◌, ◌/◌, ◌%◌, ◌^◌,
  ◌≤◌, ◌<◌, String, ◌<>◌, ◌≡◌, refl, sym, ap, ◌∙◌, subst, ◌≢◌, ◌↔◌, ◌⊎◌, inl, inr, Bool, true,
  false, not, ◌&&◌, ◌||◌, Option, none, some, List, [], ◌∷◌, ◌++◌, map, arith, eq_iff,
}
use go_cascade.Float.{Float}
use go_cascade.Calibrate.Stats.{Math}

module _ {ℓ} {A : Type ℓ} where
  -- Every row extended by every level.
  unfoldable pub extend : List (List A) → List A → List (List A)
  extend [] levels = []
  extend (g ∷ gs) levels = map (λ l. g ++ (l ∷ [])) levels ++ extend gs levels

  -- The `for range arity` loop.
  unfoldable pub grid_rounds : ℕ → List A → List (List A) → List (List A)
  unfolding extend
  grid_rounds zero levels grid = grid
  grid_rounds (suc k) levels grid = grid_rounds k levels (extend grid levels)

module _ {ℓ} {F : Type ℓ} ⦃fl : Float F⦄ ⦃m : Math F⦄ where
  -- `for v := 0.0; v <= 1.0+1e-9; v += step`: `none` when the fuel is used up first.
  unfoldable pub levels_from : ℕ → F → F → Option (List F)
  levels_from zero step v = none
  levels_from (suc fuel) step v =
      let rest = levels_from fuel step (fl.add v step) in
      let level = fl.div (m.round (fl.mul v (fl.lit 1000 0))) (fl.lit 1000 0) in
      if fl.le v (fl.lit 1_000_000_001 9) then Option.map (◌∷◌ level) rest else some []

  unfoldable pub build_grid : ℕ → ℕ → F → Option (List (List F))
  unfolding levels_from grid_rounds
  build_grid fuel zero step = some []
  build_grid fuel (suc k) step =
      Option.map (λ levels. grid_rounds (suc k) levels ([] ∷ []))
        (levels_from fuel step (fl.lit 0 0))
