-- ===== src/Calibrate/Baseline/Agreement.antt =====
-- The cascade's row of `Baselines` is what `Risk` and `RealizedRisk` say of the records that it does
-- not skip (internal/calibrate/baseline.go, ltt.go).
use go_cascade.Base.{
  lt→ltb, Bool-cases, length, get_elem?, is_empty, filter_by, List-cases, ◌+◌, ◌<◌, ◌≡◌, refl, ap,
  inl, inr, Bool, false, not, ◌||◌, some, List, [], ◌∷◌, arith,
}
use go_cascade.Float.{Float, milli_float}
use go_cascade.Calibrate.Records.{TierObs, Record, truth}
use go_cascade.Calibrate.Replay.{
  tail, clears, replay_from, replay, replay_truth_from, replay_truth, risk_loop, risk,
  realized_loop, realized_risk,
}
use go_cascade.Calibrate.Baseline.{
  Tally, Tallies, route, tally, baseline_loop, no_tally, policy_of, baselines,
}

module _ {ℓ} {F : Type ℓ} ⦃fl : Float F⦄ where
  route-replay :
      (cost : F) (t : TierObs F) (ts : List (TierObs F)) (tau : List F)
      → ((route cost t ts tau).0 ≡ (replay_from cost (t ∷ ts) tau).cost)
        × (truth (route cost t ts tau).1 ≡ replay_truth_from (t ∷ ts) tau)
  unfolding route replay_from replay_truth_from
  route-replay cost t [] tau = (refl, refl)
  route-replay cost t (u ∷ us) tau = elim (Bool-cases (clears t.score (get_elem? tau 0))) [
    | inl e ↦ rw e (refl, refl)
    | inr e ↦ rw e (route-replay (fl.add cost t.cost) u us (tail tau))
  ]

  -- The records that the comparison is about: those of the model tiers.
  abbrev pub tiered : Record F → Bool
  tiered r = not (r.cache_hit || is_empty r.tiers)

  -- The tally of the cascade, over the records that are not skipped, from where the loop starts.
  abbrev Agrees : List (Record F) → List F → Tally F → Tally F → Type ℓ
  Agrees used tau a c =
      (c.bad ≡ realized_loop used tau a.bad)
      × ((bad : F) → c.cost ≡ (risk_loop used tau bad a.cost).1)
      × (c.n ≡ length used + a.n)

  Agrees-counted :
      (r : Record F) (t : TierObs F) (ts : List (TierObs F)) (used : List (Record F)) (tau : List F)
      (a : Tallies F) (c : Tally F)
      → r.cache_hit ≡ false
      → r.tiers ≡ t ∷ ts
      → Agrees used tau (tally t ts tau a).casc c
      → Agrees (r ∷ used) tau a.casc c
  unfolding realized_loop risk_loop replay replay_truth
  Agrees-counted r t ts used tau a c e f (bad, cost, n) =
      let (spent, right) = route-replay (fl.lit 0 0) t ts tau in
      let truth_ : replay_truth r tau ≡ truth (route (fl.lit 0 0) t ts tau).1 =
        rw (e, f, right) refl in
      let cost_ : (replay r tau).cost ≡ (route (fl.lit 0 0) t ts tau).0 = rw (e, f, spent) refl in
      (rw truth_ bad, λ b. rw (cost_, risk_loop) (cost _), omega (arith, n))

  baseline_loop-Agrees :
      (recs : List (Record F)) (tau : List F) (a : Tallies F)
      → Agrees (filter_by tiered recs) tau a.casc (baseline_loop recs tau a).casc
  unfolding baseline_loop realized_loop risk_loop
  baseline_loop-Agrees [] tau a = (refl, λ bad. refl, omega arith)
  baseline_loop-Agrees (r ∷ rs) tau a =
      let rest = baseline_loop-Agrees rs tau in
      elim (List-cases r.tiers) [
        | inl f ↦
            rw f (elim (Bool-cases r.cache_hit) [ inl e ↦ rw e (rest a) | inr e ↦ rw e (rest a) ])
        | inr (t, (ts, f)) ↦ elim (Bool-cases r.cache_hit) [
          | inl e ↦ rw (f, e) (rest a)
          | inr e ↦
              rw (f, e)
                (Agrees-counted (record r { tiers = t ∷ ts; cache_hit = false }) t ts _ tau a _ refl
                  refl (rest (tally t ts tau a)))
        ]
      ]

  policy_of-Agrees :
      (used : List (Record F)) (tau : List F) (c : Tally F)
      → 0 < length used
      → Agrees used tau no_tally c
      → policy_of "cascade" c ≡ record {
        name = "cascade";
        risk = realized_risk used tau;
        mean_usd = (risk used tau).1;
        n = length used;
      }
  unfolding policy_of realized_risk risk
  policy_of-Agrees [] tau c h _ = absurd (omega arith)
  policy_of-Agrees (r ∷ rs) tau c h (bad, cost, n) =
      let m : c.n ≡ length (r ∷ rs) = omega (arith, n) in
      rw (m, lt→ltb 0 (length (r ∷ rs)) h, bad, cost (fl.lit 0 0)) refl

  -- The cascade's row of the comparison is, over the records that are not skipped (cache hits, and
  -- records without tiers), the realized risk and the mean cost that `RealizedRisk` and `Risk` give
  -- for the same thresholds, if there is such a record; and it counts those records.
  pub baselines-cascade :
      (recs : List (Record F)) (tau : List F)
      → 0 < length (filter_by tiered recs)
      → get_elem? (baselines recs tau) 1
        ≡ some (record {
          name = "cascade";
          risk = realized_risk (filter_by tiered recs) tau;
          mean_usd = (risk (filter_by tiered recs) tau).1;
          n = length (filter_by tiered recs);
        })
  unfolding baselines
  baselines-cascade recs tau h =
      let start : Tallies F = record { cheap = no_tally; casc = no_tally; front = no_tally } in
      ap some (
        policy_of-Agrees (filter_by tiered recs) tau (baseline_loop recs tau start).casc h
          (baseline_loop-Agrees recs tau start))
