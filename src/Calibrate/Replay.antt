-- ===== src/Calibrate/Replay.antt =====
-- Replaying a recorded problem under a threshold vector: `Replay`, `replayTruth`, `Risk`,
-- `RealizedRisk` (internal/calibrate/ltt.go), `cascadeSpend` (selfconsistency.go).
-- The loops walk the tiers and the thresholds together: `tail tau` is `tau[k+1:]`.
pub mod Decision
pub mod Raising
pub mod Truth
use go_cascade.Base.{
  ltb, leb, ◌==◌, str_eq, if◌then◌else◌, ltb→lt, lt→ltb, leb→le, ==_iff, Bool-cases, Option-cases,
  Result, ok, err, is_none, length, get_elem?, take, drop, is_empty, filter_by, any, All, count_by,
  length-append, length-drop, length-take, take-append-drop, length-map, All-append, All-imp,
  insert_sorted, sort_stable, sort_stable-perm, ℕ, zero, suc, ◌+◌, ◌-◌, ◌*◌, ◌/◌, ◌%◌, ◌^◌, ◌≤◌,
  ◌<◌, String, ◌≡◌, refl, sym, ap, ◌∙◌, subst, ◌≢◌, ◌↔◌, ◌⊎◌, inl, inr, Bool, true, false, not,
  ◌&&◌, ◌||◌, Option, none, some, List, [], ◌∷◌, ◌++◌, map, arith, eq_iff,
}
use go_cascade.Float.{Float}
use go_cascade.Calibrate.Records.{
  TierObs, Record, bool_eq, truth_of, differs, truth, disagrees, retain_source_on_disagreement,
  mark_timed_out, count_timed_out,
}

pub record Outcome {ℓ} (F : Type ℓ) : Type ℓ where
  pub correct : Bool
  pub cost : F
  pub accepted_at : String

module _ {ℓ} {F : Type ℓ} where
  abbrev pub tail : List F → List F
  tail [] = []
  tail (x ∷ xs) = xs

module _ {ℓ} {F : Type ℓ} ⦃fl : Float F⦄ where
  -- `k < len(tau) && t.Score >= tau[k]`
  abbrev pub clears : F → Option F → Bool
  clears score none = false
  clears score (some threshold) = fl.le threshold score

  -- `last || (k < len(tau) && t.Score >= tau[k])`, with `rest` the tiers behind this one
  abbrev pub accepts : TierObs F → List (TierObs F) → List F → Bool
  accepts t rest tau = is_empty rest || clears t.score (get_elem? tau 0)

  unfoldable pub replay_from : F → List (TierObs F) → List F → Outcome F
  replay_from cost [] tau = record { correct = false; cost = cost; accepted_at = "exhausted" }
  replay_from cost (t ∷ ts) tau =
      let spent = fl.add cost t.cost in
      let rest = replay_from spent ts (tail tau) in
      if accepts t ts tau
      then record { correct = t.correct; cost = spent; accepted_at = t.tier }
      else rest

  unfoldable pub replay : Record F → List F → Outcome F
  unfolding replay_from
  replay r tau =
      if r.cache_hit
      then record { correct = r.cache_correct; cost = r.cache_cost; accepted_at = "cache" }
      else replay_from (fl.lit 0 0) r.tiers tau

  unfoldable pub replay_truth_from : List (TierObs F) → List F → Bool
  replay_truth_from [] tau = false
  replay_truth_from (t ∷ ts) tau =
      let rest = replay_truth_from ts (tail tau) in if accepts t ts tau then truth t else rest

  unfoldable pub replay_truth : Record F → List F → Bool
  unfolding replay_truth_from
  replay_truth r tau = if r.cache_hit then r.cache_correct else replay_truth_from r.tiers tau

  unfoldable pub cascade_spend_from : F → List (TierObs F) → List F → F
  cascade_spend_from cost [] tau = cost
  cascade_spend_from cost (t ∷ ts) tau =
      let spent = fl.add cost t.cost in
      let rest = cascade_spend_from spent ts (tail tau) in if accepts t ts tau then spent else rest

  unfoldable pub cascade_spend : Record F → List F → F
  unfolding cascade_spend_from
  cascade_spend r tau = cascade_spend_from (fl.lit 0 0) r.tiers tau

  -- The loop of `Risk`: `bad` and `total` so far.
  unfoldable pub risk_loop : List (Record F) → List F → F → F → F × F
  risk_loop [] tau bad total = (bad, total)
  risk_loop (r ∷ rs) tau bad total =
      let o = replay r tau in
      risk_loop rs tau (if not o.correct then fl.add bad (fl.lit 1 0) else bad)
        (fl.add total o.cost)

  unfoldable pub risk : List (Record F) → List F → F × F
  unfolding risk_loop
  risk [] tau = (fl.lit 1 0, fl.lit 0 0)
  risk (r ∷ rs) tau =
      let recs = r ∷ rs in
      let (bad, total) = risk_loop recs tau (fl.lit 0 0) (fl.lit 0 0) in
      let n = fl.of_nat (length recs) in (fl.div bad n, fl.div total n)

  unfoldable pub realized_loop : List (Record F) → List F → F → F
  realized_loop [] tau bad = bad
  realized_loop (r ∷ rs) tau bad =
      realized_loop rs tau (if not (replay_truth r tau) then fl.add bad (fl.lit 1 0) else bad)

  unfoldable pub realized_risk : List (Record F) → List F → F
  unfolding realized_loop
  realized_risk [] tau = fl.lit 1 0
  realized_risk (r ∷ rs) tau =
      let recs = r ∷ rs in fl.div (realized_loop recs tau (fl.lit 0 0)) (fl.of_nat (length recs))
