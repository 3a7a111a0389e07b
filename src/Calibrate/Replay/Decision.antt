-- ===== src/Calibrate/Replay/Decision.antt =====
-- The tier at which a threshold vector accepts, and what the three replays say of it.
use go_cascade.Base.{
  Bool-cases, length, get_elem?, ℕ, zero, suc, ◌<◌, ◌≡◌, refl, ap, ◌≢◌, ◌⊎◌, inl, inr, true, false,
  some, List, [], ◌∷◌, arith,
}
use go_cascade.Float.{Float}
use go_cascade.Calibrate.Records.{TierObs, Record, truth}
use go_cascade.Calibrate.Replay.{
  tail, clears, accepts, replay_from, replay, replay_truth_from, replay_truth, cascade_spend_from,
  cascade_spend,
}

module _ {ℓ} {F : Type ℓ} ⦃fl : Float F⦄ where
  -- Tier `j` is the first that clears its threshold, or the last tier if none before it does.
  pub record AcceptsAt (tiers : List (TierObs F)) (tau : List F) (j : ℕ) (t : TierObs F)
      : Type ℓ where
    pub at : get_elem? tiers j ≡ some t
    pub stops : (suc j ≡ length tiers) ⊎ (clears t.score (get_elem? tau j) ≡ true)
    pub earlier :
        (i : ℕ) (u : TierObs F)
        → i < j
        → get_elem? tiers i ≡ some u
        → clears u.score (get_elem? tau i) ≡ false

  -- The costs of the tiers up to the j-th, added up in order.
  abbrev pub spent_to : F → ℕ → List (TierObs F) → F
  spent_to cost j [] = cost
  spent_to cost zero (t ∷ ts) = fl.add cost t.cost
  spent_to cost (suc j) (t ∷ ts) = spent_to (fl.add cost t.cost) j ts

  get_elem?-tail : (tau : List F) (i : ℕ) → get_elem? (tail tau) i ≡ get_elem? tau (suc i)
  get_elem?-tail [] i = refl
  get_elem?-tail (x ∷ xs) i = refl

  AcceptsAt-here :
      (t : TierObs F) (ts : List (TierObs F)) (tau : List F)
      → accepts t ts tau ≡ true
      → AcceptsAt (t ∷ ts) tau 0 t
  AcceptsAt-here t [] tau h = record {
    at = refl;
    stops = inl refl;
    earlier = λ i u l. absurd (omega arith);
  }
  AcceptsAt-here t (u ∷ us) tau h = record {
    at = refl;
    stops = inr h;
    earlier = λ i u l. absurd (omega arith);
  }

  earlier_shift :
      (t : TierObs F) (ts : List (TierObs F)) (tau : List F) (j : ℕ) (v : TierObs F)
      → accepts t ts tau ≡ false
      → AcceptsAt ts (tail tau) j v
      → (i : ℕ) (u : TierObs F) → i < suc j
      → get_elem? (t ∷ ts) i ≡ some u
      → clears u.score (get_elem? tau i) ≡ false
  earlier_shift t [] tau j v h a zero u l e = cc
  earlier_shift t (w ∷ ws) tau j v h a zero u l e = cc
  earlier_shift t ts tau j v h a (suc i) u l e =
      rw (← get_elem?-tail tau i) (a.earlier i u (omega arith) e)

  AcceptsAt-later :
      (t : TierObs F) (ts : List (TierObs F)) (tau : List F) (j : ℕ) (u : TierObs F)
      → accepts t ts tau ≡ false
      → AcceptsAt ts (tail tau) j u
      → AcceptsAt (t ∷ ts) tau (suc j) u
  AcceptsAt-later t ts tau j u h a = record {
    at = a.at;
    stops = elim a.stops [ inl e ↦ inl (ap suc e) | inr c ↦ inr (rw (← get_elem?-tail tau j) c) ];
    earlier = earlier_shift t ts tau j u h a;
  }

  -- What the loops of the three replays compute on the tiers.
  abbrev LoopsAgree : F → List (TierObs F) → List F → ℕ → TierObs F → Type ℓ
  LoopsAgree cost tiers tau j t =
      (replay_from cost tiers tau
        ≡ record { correct = t.correct; cost = spent_to cost j tiers; accepted_at = t.tier })
      × (replay_truth_from tiers tau ≡ truth t)
      × (cascade_spend_from cost tiers tau ≡ spent_to cost j tiers)

  loops_agree :
      (cost : F) (t : TierObs F) (ts : List (TierObs F)) (tau : List F)
      → (j : ℕ) × (u : TierObs F) × AcceptsAt (t ∷ ts) tau j u × LoopsAgree cost (t ∷ ts) tau j u
  unfolding replay_from replay_truth_from cascade_spend_from
  loops_agree cost t [] tau = (0, t, AcceptsAt-here t [] tau refl, (refl, refl, refl))
  loops_agree cost t (w ∷ ws) tau =
      let (j, u, a, (p, q, s)) = loops_agree (fl.add cost t.cost) w ws (tail tau) in
      elim (Bool-cases (accepts t (w ∷ ws) tau)) [
        | inl e ↦ (0, t, AcceptsAt-here t (w ∷ ws) tau e, (rw e, rw e, rw e))
        | inr e ↦ (suc j, u, AcceptsAt-later t (w ∷ ws) tau j u e a, (rw e p, rw e q, rw e s))
      ]

  LoopsAgree-nonempty :
      (cost : F) (ts : List (TierObs F)) (tau : List F)
      → ts ≢ []
      → (j : ℕ) × (u : TierObs F) × AcceptsAt ts tau j u × LoopsAgree cost ts tau j u
  LoopsAgree-nonempty cost [] tau h = absurd (h refl)
  LoopsAgree-nonempty cost (t ∷ ts) tau h = loops_agree cost t ts tau

  -- On a record with tiers that the cache did not serve, the three replays decide at one and the
  -- same tier: the first that clears its threshold, or else the last one. `Replay` returns that
  -- tier's verdict and the summed cost of the tiers up to it, `replayTruth` that tier's ground
  -- truth, and `cascadeSpend` the same cost.
  pub replay_decision :
      (r : Record F) (tau : List F)
      → r.cache_hit ≡ false
      → r.tiers ≢ []
      → (j : ℕ) × (t : TierObs F) × AcceptsAt r.tiers tau j t
        × (replay r tau ≡ record {
          correct = t.correct;
          cost = spent_to (fl.lit 0 0) j r.tiers;
          accepted_at = t.tier;
        })
        × (replay_truth r tau ≡ truth t)
        × (cascade_spend r tau ≡ spent_to (fl.lit 0 0) j r.tiers)
  unfolding replay replay_truth cascade_spend
  replay_decision r tau miss some_tier =
      let (j, t, a, (p, q, s)) = LoopsAgree-nonempty (fl.lit 0 0) r.tiers tau some_tier in
      (j, t, a, rw miss p, rw miss q, s)
