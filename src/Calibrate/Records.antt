-- ===== src/Calibrate/Records.antt =====
-- The observations of internal/calibrate/ltt.go: `TierObs`, `Record`, and their methods.
use go_cascade.Base.{
  if◌then◌else◌, any, count_by, ℕ, String, Bool, true, false, not, Option, none, some, List,
}

-- A nil `TrueCorrect` is `none`.
pub record TierObs {ℓ} (F : Type ℓ) : Type ℓ where
  pub tier : String
  pub score : F
  pub correct : Bool
  pub true_correct : Option Bool
  pub cost : F
  pub disagreement_source : String
  pub timed_out : Bool

pub record Record {ℓ} (F : Type ℓ) : Type ℓ where
  pub id : String
  pub problem : String
  pub tiers : List (TierObs F)
  pub cache_hit : Bool
  pub cache_correct : Bool
  pub cache_cost : F
  pub contaminated : Bool
  pub oracle_unsound : Bool
  pub oracle_unsound_diag : String
  pub oracle_inconclusive : Bool
  pub shadow : Bool

abbrev pub bool_eq : Bool → Bool → Bool
bool_eq true b = b
bool_eq false b = not b

abbrev pub truth_of : Option Bool → Bool → Bool
truth_of none correct = correct
truth_of (some t) correct = t

abbrev pub differs : Option Bool → Bool → Bool
differs none correct = false
differs (some t) correct = not (bool_eq correct t)

module _ {ℓ} {F : Type ℓ} where
  unfoldable pub truth : TierObs F → Bool
  truth t = truth_of t.true_correct t.correct

  unfoldable pub disagrees : TierObs F → Bool
  disagrees t = differs t.true_correct t.correct

  unfoldable pub retain_source_on_disagreement : TierObs F → String → TierObs F
  unfolding disagrees
  retain_source_on_disagreement t src =
      if disagrees t then record t { disagreement_source = src } else t

  unfoldable pub mark_timed_out : TierObs F → Bool → TierObs F
  mark_timed_out t b = if b then record t { timed_out = true } else t

  unfoldable pub count_timed_out : List (Record F) → ℕ
  count_timed_out recs = count_by (λ r. any (λ t. t.timed_out) r.tiers) recs
