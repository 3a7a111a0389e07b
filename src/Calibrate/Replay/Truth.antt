-- ===== src/Calibrate/Replay/Truth.antt =====
-- The two risks: against the oracle's verdicts, and against execution truth.
use go_cascade.Base.{
  if◌then◌else◌, Bool-cases, length, All, count_by, ℕ, ◌+◌, ◌^◌, ◌≤◌, ◌<◌, ◌≡◌, refl, ap, ◌∙◌, ◌≢◌,
  inl, inr, Bool, true, false, not, List, [], ◌∷◌, arith,
}
use go_cascade.Float.{Float, IsCounting}
use go_cascade.Calibrate.Records.{TierObs, Record, truth}
use go_cascade.Calibrate.Replay.{
  tail, accepts, replay_from, replay, replay_truth_from, replay_truth, risk_loop, risk,
  realized_loop, realized_risk,
}

abbrev misses : Bool → ℕ
misses correct = if not correct then 1 else 0

misses-le : (correct : Bool) → misses correct ≤ 1
misses-le true = omega arith
misses-le false = omega arith

module _ {ℓ} {F : Type ℓ} ⦃fl : Float F⦄ where
  -- Every verdict of the record's tiers is execution truth.
  abbrev pub IsSound : Record F → Type 0
  IsSound r = All (λ (t : TierObs F). truth t ≡ t.correct) r.tiers

  replay_from-truth :
      (ts : List (TierObs F)) (cost : F) (tau : List F)
      → All (λ (t : TierObs F). truth t ≡ t.correct) ts
      → replay_truth_from ts tau ≡ (replay_from cost ts tau).correct
  unfolding replay_from replay_truth_from
  replay_from-truth [] cost tau s = refl
  replay_from-truth (t ∷ ts) cost tau (e, s) =
      let ih = replay_from-truth ts (fl.add cost t.cost) (tail tau) s in
      elim (Bool-cases (accepts t ts tau)) [ inl h ↦ rw h e | inr h ↦ rw h ih ]

  replay_sound :
      (r : Record F) (tau : List F) → IsSound r → replay_truth r tau ≡ (replay r tau).correct
  unfolding replay replay_truth
  replay_sound r tau s = ground (arith, replay_from-truth r.tiers (fl.lit 0 0) tau s)

  realized_loop_sound :
      (recs : List (Record F)) (tau : List F) (bad total : F)
      → All IsSound recs
      → realized_loop recs tau bad ≡ (risk_loop recs tau bad total).0
  unfolding realized_loop risk_loop
  realized_loop_sound [] tau bad total s = refl
  realized_loop_sound (r ∷ rs) tau bad total (s, ss) =
      rw (replay_sound r tau s) (realized_loop_sound rs tau _ _ ss)

  -- Under an oracle whose every verdict is execution truth, the realized risk of a threshold vector
  -- is its empirical risk, exactly.
  pub realized_risk_sound :
      (recs : List (Record F)) (tau : List F)
      → All IsSound recs
      → realized_risk recs tau ≡ (risk recs tau).0
  unfolding realized_risk risk
  realized_risk_sound [] tau s = refl
  realized_risk_sound (r ∷ rs) tau s =
      ap (λ bad. fl.div bad (fl.of_nat (length (r ∷ rs))))
        (realized_loop_sound (r ∷ rs) tau (fl.lit 0 0) (fl.lit 0 0) s)

  -- How many records the policy gets wrong.
  abbrev pub wrong : List F → List (Record F) → ℕ
  wrong tau recs = count_by (λ r. not (replay r tau).correct) recs

  counted :
      (laws : IsCounting F) (correct : Bool) (k : ℕ)
      → k < 2 ^ 53
      → (if not correct then fl.add (fl.of_nat k) (fl.lit 1 0) else fl.of_nat k)
        ≡ fl.of_nat (k + misses correct)
  counted laws true k h = ap fl.of_nat (omega arith)
  counted laws false k h = laws.add-one k h ∙ ap fl.of_nat (omega arith)

  risk_loop-count :
      (laws : IsCounting F) (recs : List (Record F)) (tau : List F) (k : ℕ) (total : F)
      → k + length recs ≤ 2 ^ 53
      → (risk_loop recs tau (fl.of_nat k) total).0 ≡ fl.of_nat (k + wrong tau recs)
  unfolding risk_loop
  risk_loop-count laws [] tau k total h = ap fl.of_nat (omega arith)
  risk_loop-count laws (r ∷ rs) tau k total h =
      let c = (replay r tau).correct in
      let small = misses-le c in
      rw (risk_loop, counted laws c k (omega arith))
        (risk_loop-count laws rs tau (k + misses c) (fl.add total (replay r tau).cost) (omega arith)
          ∙ ap fl.of_nat (omega arith))

  -- The empirical risk of a nonempty sample of at most 2^53 records is the number of records that
  -- the policy gets wrong, over the number of records: the float accumulator counts exactly.
  pub risk-count :
      (laws : IsCounting F) (recs : List (Record F)) (tau : List F)
      → recs ≢ []
      → length recs ≤ 2 ^ 53
      → (risk recs tau).0 ≡ fl.div (fl.of_nat (wrong tau recs)) (fl.of_nat (length recs))
  unfolding risk
  risk-count laws [] tau some_rec h = absurd (some_rec refl)
  risk-count laws (r ∷ rs) tau some_rec h =
      ap (λ bad. fl.div bad (fl.of_nat (length (r ∷ rs))))
        (rw laws.of_nat-zero (
          risk_loop-count laws (r ∷ rs) tau 0 (fl.of_nat 0) (omega arith)
          ∙ ap fl.of_nat (omega arith)))
