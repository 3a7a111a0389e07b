-- ===== src/Config.antt =====
-- The configuration (internal/config/config.go), with `MinSamplesFor` (internal/cluster/cluster.go).
-- Reading and decoding a file is given; the fields that the router does not read are left out.
pub mod Accepted
use go_cascade.Base.{
  ltb, leb, ◌==◌, str_eq, if◌then◌else◌, is_empty, Result, ok, err, Sprintf, int_arg, float_arg,
  str_arg, ℕ, zero, suc, ◌*◌, String, ◌<>◌, ◌⊎◌, inl, inr, Bool, true, false, not, ◌&&◌, ◌||◌, List,
  [], ◌∷◌,
}
use go_cascade.Float.{Float}
use go_cascade.Calibrate.Stats.{Math}
use go_cascade.Cascade.State.{Tier, Config}
use go_cascade.Cluster.{unanimous_score}

-- A check of a chain: an error ends it.
infixr 2 ◌then_check◌
abbrev pub ◌then_check◌ : Result (Unit {0}) → Result (Unit {0}) → Result (Unit {0})
ok u then_check r = r
r then_check s = r

abbrev pub reject_if : Bool → String → Result (Unit {0})
reject_if true e = err e
reject_if false e = ok tt

abbrev pub is_set : String → Bool
is_set s = not (str_eq s "")

module _ {ℓ} {F : Type ℓ} ⦃fl : Float F⦄ ⦃m : Math F⦄ (sqrt : F → F) where
  open fl use {lit, of_nat, mul, div, lt, le, eq}

  abbrev pub unanimous : ℕ → F
  unanimous n = unanimous_score sqrt m.min_of m.max_of n

  -- The first of `left` fan-outs from `n` on whose unanimous score reaches `want`, or 0.
  unfoldable pub min_samples_from : F → (n left : ℕ) → ℕ
  min_samples_from want n zero = 0
  min_samples_from want n (suc left) = elim (le want (unanimous n)) [
    | true ↦ n
    | false ↦ min_samples_from want (suc n) left
  ]

  unfoldable pub min_samples_for : F → ℕ
  unfolding min_samples_from
  min_samples_for want = min_samples_from want 1 100_000

  unfoldable pub max_attainable : F → List (Tier F) → F
  max_attainable best [] = best
  max_attainable best (t ∷ ts) =
      let s = unanimous t.samples in max_attainable (if lt best s then s else best) ts

  unfoldable pub narrowest : ℕ → List (Tier F) → ℕ
  narrowest n [] = n
  narrowest n (t ∷ ts) = narrowest (if n == 0 || ltb t.samples n then t.samples else n) ts

  unfoldable pub widest : ℕ → List (Tier F) → ℕ
  widest n [] = n
  widest n (t ∷ ts) = widest (if ltb n t.samples then t.samples else n) ts

  unfoldable pub default_admit_score : List (Tier F) → F
  unfolding narrowest
  default_admit_score tiers = unanimous (narrowest 0 tiers)

  -- `Load`, with the file read and decoded over a configuration.
  unfoldable pub load :
      Config F
      → String ⊎ String
      → (Config F → String → String ⊎ Config F)
      → String
      → String ⊎ Config F
  unfolding default_admit_score
  load base (inl e) decode path = inl e
  load base (inr text) decode path = elim (decode (record base { cache_admit_at = lit 0 0 }) text) [
    | inl e ↦ inl ("parse " <> path <> ": " <> e)
    | inr c ↦ inr (
        if eq c.cache_admit_at (lit 0 0)
        then record c { cache_admit_at = default_admit_score c.tiers }
        else c)
  ]

  module _ (sprintf : Sprintf F) where
    unfoldable pub unreachable_error : F → List (Tier F) → String
    unfolding widest min_samples_for max_attainable
    unreachable_error admit tiers =
        let best = max_attainable (lit 0 0) tiers in
        sprintf
          "cache_admit_score %v exceeds the highest attainable routing score %.4f (widest fan-out is %d samples, and the score is a Wilson lower bound, not raw cluster mass — invariant #9), so no solution could ever be admitted and arm zero would never hit. Lower cache_admit_score to <= %.3f, raise samples to >= %d in some tier, or set cache_dir to \"\" to disable the cache deliberately"
          (float_arg admit
            ∷ float_arg best
            ∷ int_arg (widest 0 tiers)
            ∷ float_arg (div (m.floor (mul best (lit 1000 0))) (lit 1000 0))
            ∷ int_arg (min_samples_for admit)
            ∷ [])

    unfoldable pub check_admission_reachable : Config F → Result (Unit {0})
    unfolding max_attainable unreachable_error
    check_admission_reachable c =
        if c.cache_disabled || le c.cache_admit_at (lit 0 0)
        then ok tt
        else if le c.cache_admit_at (max_attainable (lit 0 0) c.tiers)
        then ok tt
        else err (unreachable_error c.cache_admit_at c.tiers)

    unfoldable pub check_order : List (Tier F) → Result (Unit {0})
    check_order [] = ok tt
    check_order (a ∷ []) = ok tt
    check_order (a ∷ b ∷ ts) =
        reject_if (lt b.in_per_mtok a.in_per_mtok) (
          sprintf "tier %q is cheaper than %q: tiers must be ordered cheapest first"
            (str_arg b.name ∷ str_arg a.name ∷ []))
        then_check check_order (b ∷ ts)

    abbrev pub check_tier : Config F → ℕ → Tier F → Result (Unit {0})
    check_tier c i t =
        reject_if (ltb t.samples 1)
          (sprintf "tier %d (%s): samples must be >= 1" (int_arg i ∷ str_arg t.name ∷ []))
        then_check reject_if (is_set t.planner_model && str_eq t.planner_model c.test_model) (
            sprintf
              "tier %d (%s): planner_model equals test_model %q; the planner authors the code and must differ from the oracle's author (invariant #3)"
              (int_arg i ∷ str_arg t.name ∷ str_arg c.test_model ∷ []))
        then_check reject_if (is_set c.planner_model && is_set t.planner_model) (
            sprintf
              "tier %d (%s): has its own planner_model while a cascade-level planner_model is also set; use one plan source, not both"
              (int_arg i ∷ str_arg t.name ∷ []))

    unfoldable pub check_tiers : Config F → ℕ → List (Tier F) → Result (Unit {0})
    check_tiers c i [] = ok tt
    check_tiers c i (t ∷ ts) = check_tier c i t then_check check_tiers c (suc i) ts

    unfoldable pub validate : Config F → Result (Unit {0})
    unfolding check_order check_tiers check_admission_reachable
    validate c =
        reject_if (is_empty c.tiers) "no tiers configured"
        then_check reject_if (lt (lit 0 0) c.alpha && lt (lit 0 0) c.budget_usd)
            "set --alpha or --budget, not both: they are dual forms of the same constraint"
        then_check reject_if (le c.alpha (lit 0 0) && le c.budget_usd (lit 0 0))
            "one of --alpha or --budget must be set"
        then_check reject_if (lt c.alpha (lit 0 0) || le (lit 1 0) c.alpha)
            (sprintf "alpha must be in (0,1), got %v" (float_arg c.alpha ∷ []))
        then_check check_order c.tiers
        then_check reject_if (is_set c.planner_model && str_eq c.planner_model c.test_model) (
            sprintf
              "planner_model equals test_model %q; the cascade planner authors the code and must differ from the oracle's author (invariant #3)"
              (str_arg c.test_model ∷ []))
        then_check check_tiers c 0 c.tiers
        then_check check_admission_reachable c
