-- ===== src/Cascade/Rounds.antt =====
-- What the calibration record takes from the rounds of a repair: `repairLoop`, `record`
-- (internal/cascade/cascade.go).
use mathlib.Core.List.{append_assoc, append-nil}
use go_cascade.Base.{
  int_arg, str_arg, subst, str_eq, if◌then◌else◌, Bool-cases, Option-cases, Sum-cases, well, badly,
  panicked, Result-Came, length, length-append, is_none, All, ℕ, zero, suc, ◌+◌, String, ◌≡◌, refl,
  sym, ap, ◌∙◌, inl, inr, Bool, true, false, Option, none, some, List, [], ◌∷◌, ◌++◌, arith,
}
use go_cascade.Float.{Float}
use go_cascade.Calibrate.Records.{TierObs}
use go_cascade.Cluster.{Candidate, is_verified}
use go_cascade.Cascade.State.{
  Action, repaired, escalated, Tier, Config, Step, Spec, Work, Services, add_model, add_compute,
  tier_cost,
}
use go_cascade.Cascade.Sampling.{
  plain_step, push, verify_one, charge_model, verify_source, report_stage, report_diag, repair_loop,
}
use go_cascade.Cascade.Solve.{is_observed, obs_of, observations}

module _ {ℓ} {F : Type ℓ} ⦃fl : Float F⦄ where
  observations-append :
      (solved : Bool) (xs ys : List (Step F))
      → observations solved (xs ++ ys) ≡ observations solved xs ++ observations solved ys
  unfolding observations
  observations-append solved [] ys = refl
  observations-append solved (x ∷ xs) ys = elim (Bool-cases (is_observed x)) [
    | inl e ↦ rw e (ap (◌∷◌ (obs_of solved x)) (observations-append solved xs ys))
    | inr e ↦ rw e (observations-append solved xs ys)
  ]

module _ {ℓ} {W F : Type ℓ} ⦃fl : Float F⦄ (env : Services W F) (cfg : Config F) (solved : Bool)
    (tier : Tier F) (named : str_eq tier.name "" ≡ false) where
  -- A wrong answer of score 0 by the tier.
  abbrev pub IsFailure : TierObs F → Type ℓ
  IsFailure o = (o.tier ≡ tier.name) × (o.score ≡ fl.lit 0 0) × (o.correct ≡ false)

  -- Of the steps that a trace gained, all are such observations but for one of a repair.
  abbrev pub Noticed : List (Step F) → Option Candidate × Work W F → Type ℓ
  Noticed trace p =
      (extra : List (TierObs F)) × (observations solved p.1.trace
        ≡ observations solved trace ++ extra)
      × All IsFailure extra
      × (length p.1.trace ≡ length trace + length extra + (if is_none p.0 then 0 else 1))

  quiet : (trace : List (Step F)) (w : Work W F) → w.trace ≡ trace → Noticed trace (none, w)
  quiet trace w e =
      ([], rw e (sym (append-nil (observations solved trace))), tt, rw e (omega arith))

  repairs :
      (trace : List (Step F)) (st : Step F) (c : Candidate) (w : Work W F)
      → w.trace ≡ trace ++ (st ∷ [])
      → is_observed st ≡ false
      → Noticed trace (some c, w)
  unfolding observations
  repairs trace st c w e hidden = (
    [],
    rw e (observations-append solved trace (st ∷ []) ∙ rw hidden refl),
    tt,
    rw e (omega (arith, length-append trace (st ∷ []))),
  )

  fails :
      (trace : List (Step F)) (st : Step F) (p : Option Candidate × Work W F)
      → is_observed st ≡ true
      → IsFailure (obs_of solved st)
      → Noticed (trace ++ (st ∷ [])) p
      → Noticed trace p
  unfolding observations
  fails trace st p shown wrong (extra, seen, all, len) = (
    obs_of solved st ∷ extra,
    seen
        ∙ ap (λ t. t ++ extra) (observations-append solved trace (st ∷ []) ∙ rw shown refl)
        ∙ append_assoc (observations solved trace) (obs_of solved st ∷ []) extra,
    (wrong, all),
    omega (arith, len, length-append trace (st ∷ [])),
  )

  verify_source_trace :
      (i : ℕ) (source : String) (spec : Spec) (w : Work W F)
      → (verify_source env cfg i source spec w).1.trace ≡ w.trace
  unfolding add_compute
  verify_source_trace i source spec w =
      elim (Option-cases (verify_one env cfg source spec w.world).0) [
        | inl e ↦ rw (e, verify_source) refl
        | inr (v, e) ↦ rw (e, verify_source) refl
      ]

  -- Every round of a repair by a tier with a name that the trace has, but for the one that
  -- repairs, is an observation of its own in the calibration record, of the tier, of score 0 and
  -- not correct: the steps that the loop adds to the trace are as many as the observations that
  -- they add, and one more if it returns a candidate.
  pub repair_loop_observed :
      (left round : ℕ) (problem : String) (spec : Spec) (cur : Candidate) (w : Work W F)
      → Noticed w.trace (repair_loop env cfg left round tier problem spec cur w)
  unfolding repair_loop add_model is_observed
  repair_loop_observed zero round problem spec cur w = quiet w.trace w refl
  repair_loop_observed (suc left) round problem spec cur w =
      let text =
        env.repair_user problem spec.api cur.source (report_stage env cfg cur.report)
          (report_diag env cfg cur.report) in
      let answer = env.generate tier.model_id text 0 w.world in
      elim (Sum-cases answer.0) [
        | inl (m, e) ↦ rw (e, repair_loop) (quiet w.trace (record w { world = answer.1 }) refl)
        | inr (resp, e) ↦
            let u : Work W F =
              charge_model env cfg resp (tier_cost tier resp.input_tokens resp.output_tokens)
                (record w { world = answer.1 }) in
            rw (e, repair_loop)
              (elim (Sum-cases (env.extract_code resp.text)) [
                | inl (m, f) ↦ rw f (quiet w.trace u refl)
                | inr (source, f) ↦
                    let v = verify_source env cfg (1000 + round) source spec u in
                    let same : v.1.trace ≡ w.trace =
                      verify_source_trace (1000 + round) source spec u in
                    rw f (elim (Result-Came v.0) [
                      | badly m g ↦ rw g (quiet w.trace v.1 same)
                      | panicked g ↦ rw g (quiet w.trace v.1 same)
                      | well c g ↦
                          let st = λ (action : Action) (why : String).
                            plain_step env cfg "repair" tier.name action
                              (env.sprintf "round %d/%d: %s" (
                                int_arg (round + 1) ∷ int_arg tier.repair_depth ∷ str_arg why ∷ []))
                              v.1.cost.total_usd in
                          let gained = λ (x : Step F). ap (λ t. t ++ (x ∷ [])) same in
                          rw g (elim (Bool-cases (is_verified c.report)) [
                            | inl h ↦
                                let x = st repaired "repaired using the verifier diagnostic" in
                                rw h (
                                  repairs w.trace x c (push env cfg x v.1) (gained x)
                                    (rw named refl))
                            | inr h ↦
                                let x = st escalated "repair did not clear the ladder" in
                                let later =
                                  repair_loop_observed left (suc round) problem spec c
                                    (push env cfg x v.1) in
                                rw h (
                                  fails w.trace x
                                    (repair_loop env cfg left (suc round) tier problem spec c
                                      (push env cfg x v.1))
                                    (rw named refl) (refl, refl, refl)
                                    (subst
                                      (λ t. Noticed t (
                                        repair_loop env cfg left (suc round) tier problem spec c
                                          (push env cfg x v.1)))
                                      (gained x) later))
                          ])
                    ])
              ])
      ]
