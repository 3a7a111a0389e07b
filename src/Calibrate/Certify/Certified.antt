-- ===== src/Calibrate/Certify/Certified.antt =====
-- What a certificate establishes, for each of the two multiplicity corrections.
use mathlib.Core.List.{foldl}
use go_cascade.Base.{
  subst, length-map, All, ap, length, suc, ◌∙◌, ◌⊎◌, str_eq, map, Bool-cases, filter_by, Sprintf,
  ◌≡◌, refl, inl, inr, true, false, Option, none, some, List, [], ◌∷◌, arith,
}
use go_cascade.Float.{IsOrdered, Float}
use go_cascade.Calibrate.Records.{Record}
use go_cascade.Calibrate.Replay.{realized_risk}
use go_cascade.Calibrate.Stats.{hoeffding_bentkus_risky, Math}
use go_cascade.Calibrate.Certify.{
  hoeffding_bentkus, fixed_order, bonferroni_method, conclude, filled, select, evaluate, certify,
  Options, Certificate, Cand, cheaper, bonferroni, flag_if_nominal,
}
use go_cascade.Calibrate.Certify.Select.{
  All-sort_stable, All-prefix, All-Memᴰ, fixed_sequence-Walk, cheapest, IsCheapest, Walk,
}

module _ {ℓ} {F : Type ℓ} ⦃fl : Float F⦄ where
  -- The certificate reports the candidate: its thresholds, its numbers, and the ground truth.
  pub record Reports (c : Certificate F) (use_ : List (Record F)) (b : Cand F) : Type ℓ where
    pub thresholds_of : c.thresholds ≡ b.tau
    pub risk_of : c.empirical_risk ≡ b.risk
    pub p_of : c.p_value ≡ b.p
    pub cost_of : c.expected_cost ≡ b.cost
    pub truth_of : c.realized_risk ≡ realized_risk use_ b.tau

  bonferroni-filter_by :
      (thresh : F) (cs : List (Cand F)) (best : Option (Cand F))
      → bonferroni thresh cs best ≡ foldl cheaper best (filter_by (λ c. fl.le c.p thresh) cs)
  unfolding bonferroni
  bonferroni-filter_by thresh [] best = refl
  bonferroni-filter_by thresh (c ∷ cs) best = elim (Bool-cases (fl.le c.p thresh)) [
    | inl e ↦ rw e (bonferroni-filter_by thresh cs (cheaper best c))
    | inr e ↦ rw e (bonferroni-filter_by thresh cs best)
  ]

  module _ ⦃m : Math F⦄ (sprintf : Sprintf F) where
    flagged_valid : (c : Certificate F) → (flag_if_nominal sprintf c).valid ≡ c.valid
    unfolding flag_if_nominal
    flagged_valid c = ground arith

    flagged_Reports :
        (c : Certificate F) (use_ : List (Record F)) (b : Cand F)
        → Reports c use_ b
        → Reports (flag_if_nominal sprintf c) use_ b
    unfolding flag_if_nominal
    flagged_Reports c use_ b r = ground arith

    -- What the certificate says, by what was selected.
    abbrev pub Issued : Certificate F → List (Record F) → Option (Cand F) → Type ℓ
    Issued c use_ none = Unit × (c.valid ≡ false)
    Issued c use_ (some b) = (c.valid ≡ true) × Reports c use_ b

    module _ (cert : Certificate F) (use_ : List (Record F)) (opts : Options F) (delta : F)
        (tau : List F) (taus : List (List F)) where
      -- Every threshold vector of the grid, evaluated.
      abbrev pub evaluated : List (Cand F)
      evaluated = map (evaluate use_ opts.alpha) (tau ∷ taus)

      certify-Issued :
          (sel : Option (Cand F))
          → select opts.method delta evaluated ≡ sel
          → Issued (certify sprintf cert use_ opts delta tau taus) use_ sel
      unfolding certify conclude
      certify-Issued none e = rw (certify, e) (tt, refl)
      certify-Issued (some b) e =
          let full = filled sprintf cert use_ true b in
          let reports : Reports full use_ b = record {
            thresholds_of = refl;
            risk_of = refl;
            p_of = refl;
            cost_of = refl;
            truth_of = refl;
          } in
          rw (certify, e) (flagged_valid full, flagged_Reports full use_ b reports)

      -- Nothing was selectable and the certificate is invalid, or it stands on a cheapest of `cs`.
      abbrev pub StandsOn : List (Cand F) → Type ℓ
      StandsOn cs =
          let cert' = certify sprintf cert use_ opts delta tau taus in
          ((cs ≡ []) × (cert'.valid ≡ false))
          ⊎ ((b : Cand F) × IsCheapest b cs × (cert'.valid ≡ true) × Reports cert' use_ b)

      stands_on :
          (laws : IsOrdered F) (cs : List (Cand F))
          → select opts.method delta evaluated ≡ foldl cheaper none cs
          → StandsOn cs
      stands_on laws [] e = inl (refl, (certify-Issued none e).1)
      stands_on laws (c ∷ cs) e =
          let (b, found, least) = cheapest laws c cs in
          let (valid, reports) = certify-Issued (some b) (e ∙ found) in
          inr (b, least, valid, reports)

      pub certify_fixed_sequence :
          (laws : IsOrdered F)
          → str_eq opts.method bonferroni_method ≡ false
          → (pre post : List (Cand F)) × Walk delta (fixed_order evaluated) pre post × StandsOn pre
      unfolding select
      certify_fixed_sequence laws fixed =
          let (pre, post, w, e) = fixed_sequence-Walk delta (fixed_order evaluated) none in
          (pre, post, w, stands_on laws pre (rw fixed e))

      -- On a grid that is not empty, as that of two tiers or more is, with Bonferroni: the
      -- certificate is valid exactly if some threshold vector has a p-value of at most delta over
      -- the size of the grid, and stands on a cheapest of those (comparisons of floats
      -- irreflexive and transitive). The empty grid of one tier is left out: its certificate is
      -- valid without any vector.
      pub certify_bonferroni :
          (laws : IsOrdered F)
          → str_eq opts.method bonferroni_method ≡ true
          → StandsOn (
              filter_by
                (λ (c : Cand F). fl.le c.p (fl.div delta (fl.of_nat (suc (length taus)))))
                evaluated)
      unfolding select
      certify_bonferroni laws chosen = stands_on laws _ (
          rw chosen (
            bonferroni-filter_by _ evaluated none
            ∙ ap
                (λ n. foldl cheaper none (
                  filter_by (λ (c : Cand F). fl.le c.p (fl.div delta (fl.of_nat (suc n))))
                    evaluated))
                (length-map (evaluate use_ opts.alpha) taus)))

      -- A candidate's p-value is that of its risk.
      abbrev IsTested : Cand F → Type ℓ
      IsTested c = c.p ≡ hoeffding_bentkus c.risk (length use_) opts.alpha

      evaluated-IsTested :
          (grid : List (List F)) → All IsTested (map (evaluate use_ opts.alpha) grid)
      unfolding evaluate
      evaluated-IsTested [] = tt
      evaluated-IsTested (t ∷ ts) = (refl, evaluated-IsTested ts)

      below_alpha :
          (b : Cand F)
          → IsTested b
          → fl.lt delta (fl.lit 1 0) ≡ true
          → fl.lt delta b.p ≡ false
          → fl.le opts.alpha b.risk ≡ false
      below_alpha b t small p = elim (Bool-cases (fl.le opts.alpha b.risk)) [
        | inl h ↦
            let one = t ∙ hoeffding_bentkus_risky b.risk (length use_) opts.alpha h in
            let big = ap (fl.lt delta) one in cc
        | inr h ↦ h
      ]

      ordered-IsTested :
          (pre post : List (Cand F))
          → Walk delta (fixed_order evaluated) pre post
          → All IsTested pre
      unfolding fixed_order
      ordered-IsTested pre post w = All-prefix IsTested pre post (
          subst (All IsTested) w.split
            (All-sort_stable IsTested _ evaluated (evaluated-IsTested (tau ∷ taus))))

      -- On a grid that is not empty, as that of two tiers or more is, under the fixed sequence
      -- and with delta below 1: a valid certificate never reports an empirical risk of alpha or
      -- more (comparisons of floats irreflexive and transitive). The empty grid of one tier is
      -- left out: its certificate is valid whatever the risk.
      pub valid-risk :
          (laws : IsOrdered F)
          → str_eq opts.method bonferroni_method ≡ false
          → fl.lt delta (fl.lit 1 0) ≡ true
          → (certify sprintf cert use_ opts delta tau taus).valid ≡ true
          → fl.le opts.alpha (certify sprintf cert use_ opts delta tau taus).empirical_risk ≡ false
      valid-risk laws fixed small valid =
          let (pre, post, w, stands) = certify_fixed_sequence laws fixed in
          elim stands [
            | inl (_, invalid) ↦ cc
            | inr (b, (found, _), _, reports) ↦ rw reports.risk_of (
                below_alpha b (All-Memᴰ IsTested pre b (ordered-IsTested pre post w) found) small
                  (All-Memᴰ (λ (c : Cand F). fl.lt delta c.p ≡ false) pre b w.rejected found))
          ]
