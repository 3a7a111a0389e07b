-- ===== src/Cascade/Runs.antt =====
-- Everything that the sequential topology does to the router's state (internal/cascade/cascade.go),
-- as a sequence of five kinds of change.
pub mod Tiers
pub mod Invariants
use go_cascade.Base.{
  ltb, leb, ◌==◌, str_eq, if◌then◌else◌, ltb→lt, lt→ltb, leb→le, ==_iff, Bool-cases, Option-cases,
  if_ind, Result, ok, err, fault, ◌>>=◌, ◌>>◌, is_none, Sum-cases, Came, well, badly, panicked,
  Result-Came, length, get_elem?, take, drop, is_empty, filter_by, any, All, count_by,
  length-append, length-drop, length-take, take-append-drop, length-map, All-append, All-imp,
  insert_sorted, sort_stable, sort_stable-perm, ℤ, pos, negsuc, is_space, trim_left, trim_right,
  trim_space, Arg, int_arg, float_arg, str_arg, Sprintf, ℕ, zero, suc, ◌+◌, ◌-◌, ◌*◌, ◌/◌, ◌%◌, ◌^◌,
  ◌≤◌, ◌<◌, String, ◌<>◌, ◌≡◌, refl, sym, ap, ◌∙◌, subst, ◌≢◌, ◌↔◌, ◌⊎◌, inl, inr, Bool, true,
  false, not, ◌&&◌, ◌||◌, Option, none, some, List, [], ◌∷◌, ◌++◌, map, arith, eq_iff,
}
use go_cascade.Float.{Float}
use go_cascade.Verify.Stages.{
  Stage, parse, stdlib, types, build, vet, test, race, bench, accept, rank, stage_name, StageResult,
  Static, Outcomes, Report, Options, report_timed_out, passed, no_report, add_stage,
}
use go_cascade.Cluster.{
  Candidate, Cluster, str_lt, Class, is_verified, behaviour, classes, cluster_lt, group, wilson_lcb,
  score, unanimous_score,
}
use go_cascade.Cache.{Failure, add_failure}
use go_cascade.Cascade.State.{
  Tier, Config, Cost, Action, accepted, repaired, escalated, rejected, Step, Answer, Spec, Response,
  Work, Services, add_model, add_compute, tier_cost, planner_cost, plan_cost, two_stage,
  contaminated_by, calibrated, threshold,
}
use go_cascade.Calibrate.Certify.{Certificate}
use go_cascade.Cascade.Sampling.{
  report_diag, remembered, code_text, report_stage, failed_form, Verified, diag_report,
  best_refuted, any_timed_out, verify_one, accept_one, charge_compute, charge_model, verify_source,
  sample_one, fan_out, sample_tier_n, sample_tier, record_failure, prefer_repair, push, repair_loop,
}

module _ {ℓ} {W F : Type ℓ} ⦃fl : Float F⦄ (env : Services W F) (cfg : Config F) where
  -- A call of the outside, a charge for a model call, a charge for a verification, a trace entry with
  -- the cost so far, a recorded failure.
  pub data Change (w : Work W F) : Work W F → Type ℓ where
    calls : (world : W) → Change w (record w { world = world })
    pays : (resp : Response) (usd : F) → Change w (charge_model env cfg resp usd w)
    computes : (d : ℕ) → Change w (charge_compute env cfg d w)
    logs : (st : Step F) → st.cost_so_far ≡ w.cost.total_usd → Change w (push env cfg st w)
    fails :
        (ph : String) (f : Failure)
        → Change w (record w { store = add_failure cfg.cache_disabled ph f w.store })

  pub data Runs (w : Work W F) : Work W F → Type ℓ where
    stays : Runs w w
    then_ : {v u : Work W F} → Runs w v → Change v u → Runs w u

  verify_source-Runs :
      {o w : Work W F} (i : ℕ) (source : String) (spec : Spec)
      → Runs o w
      → Runs o (verify_source env cfg i source spec w).1
  verify_source-Runs {w = w} i source spec r =
      elim (Option-cases (verify_one env cfg source spec w.world).0) [
        | inl e ↦ rw (e, verify_source) (then_ (then_ r (calls _)) (computes 0))
        | inr (v, e) ↦ rw (e, verify_source) (then_ (then_ r (calls _)) (computes v.cpu))
      ]

  pub record_failure-Runs :
      {o w : Work W F} (ph : String) (cands : List Candidate)
      → Runs o w
      → Runs o (record w { store = record_failure env cfg ph cands w.store })
  unfolding record_failure
  record_failure-Runs ph [] r = r
  record_failure-Runs {w = w} ph (c ∷ cs) r =
      elim (Option-cases (failed_form env cfg c.report (env.canonical_hash c.source))) [
        | inl e ↦ rw e (record_failure-Runs ph cs r)
        | inr (f, e) ↦ rw e (
            record_failure-Runs
              {w = record w { store = add_failure cfg.cache_disabled ph f w.store }} ph cs
              (then_ r (fails ph f)))
      ]

  sample_one-Runs :
      {o w : Work W F} (tier : Tier F) (problem : String) (spec : Spec) (avoid : List String)
      (plan : String) (nonce : ℕ)
      → Runs o w
      → Runs o (sample_one env cfg tier problem spec avoid plan nonce w).1
  unfolding sample_one
  sample_one-Runs {w = w} tier problem spec avoid plan nonce r =
      let text = code_text env cfg problem spec avoid plan nonce in
      elim (Sum-cases (env.generate tier.model_id text nonce w.world).0) [
        | inl (m, e) ↦ rw (e, sample_one) (then_ r (calls _))
        | inr (resp, e) ↦
            rw (e, sample_one)
              (elim (Sum-cases (env.extract_code resp.text)) [
                | inl (m, f) ↦ rw f (then_ (then_ r (calls _)) (pays resp _))
                | inr (source, f) ↦
                    rw f (
                      verify_source-Runs nonce source spec
                        (then_ (then_ r (calls _)) (pays resp _)))
              ])
      ]

  fan_out-Runs :
      {o : Work W F} (n i : ℕ) (tier : Tier F) (problem : String) (spec : Spec)
      (avoid : List String) (plan : String) {w : Work W F}
      → Runs o w
      → Runs o (fan_out env cfg n i tier problem spec avoid plan w).1
  unfolding fan_out
  fan_out-Runs zero i tier problem spec avoid plan r = r
  fan_out-Runs (suc n) i tier problem spec avoid plan {w = w} r =
      let drawn = sample_one-Runs tier problem spec avoid plan i r in
      elim (Result-Came (sample_one env cfg tier problem spec avoid plan i w).0) [
        | well c e ↦ rw (e, fan_out) (fan_out-Runs n (suc i) tier problem spec avoid plan drawn)
        | badly m e ↦ rw (e, fan_out) drawn
        | panicked e ↦ rw (e, fan_out) drawn
      ]

  pub sample_tier-Runs :
      {o w : Work W F} (tier : Tier F) (problem : String) (spec : Spec) (carried : List String)
      (plan : String)
      → Runs o w
      → Runs o (sample_tier env cfg tier problem spec carried plan w).1
  unfolding sample_tier sample_tier_n
  sample_tier-Runs {o = o} {w = w} tier problem spec carried plan r =
      let avoid = carried ++ remembered env cfg w problem in
      if_ind {A = Result (List Candidate) × Work W F} (λ p. Runs o p.1) (two_stage tier)
        (λ _.
          elim (Sum-cases
            (env.generate tier.planner_model (env.plan_user problem spec.api) 0 w.world).0) [
              | inl (m, e) ↦ rw e (then_ r (calls _))
              | inr (resp, e) ↦ rw e (
                  fan_out-Runs tier.samples 0 tier problem spec avoid resp.text
                    (then_ (then_ r (calls _)) (pays resp _)))
            ])
        (λ _. fan_out-Runs tier.samples 0 tier problem spec avoid plan r)

  pub repair_loop-Runs :
      {o : Work W F} (left round : ℕ) (tier : Tier F) (problem : String) (spec : Spec)
      (cur : Candidate) {w : Work W F}
      → Runs o w
      → Runs o (repair_loop env cfg left round tier problem spec cur w).1
  unfolding repair_loop
  repair_loop-Runs zero round tier problem spec cur r = r
  repair_loop-Runs {o = o} (suc left) round tier problem spec cur {w = w} r =
      let text =
        env.repair_user problem spec.api cur.source (report_stage env cfg cur.report)
          (report_diag env cfg cur.report) in
      let answer = env.generate tier.model_id text 0 w.world in
      elim (Sum-cases answer.0) [
        | inl (m, e) ↦ rw (e, repair_loop) (then_ r (calls _))
        | inr (resp, e) ↦
            let u : Work W F =
              charge_model env cfg resp (tier_cost tier resp.input_tokens resp.output_tokens)
                (record w { world = answer.1 }) in
            let paid : Runs o u = then_ (then_ r (calls _)) (pays resp _) in
            rw (e, repair_loop)
              (elim (Sum-cases (env.extract_code resp.text)) [
                | inl (m, f) ↦ rw f paid
                | inr (source, f) ↦
                    let ran = verify_source-Runs (1000 + round) source spec paid in
                    rw f
                      (elim (Result-Came (verify_source env cfg (1000 + round) source spec u).0) [
                        | badly m g ↦ rw g ran
                        | panicked g ↦ rw g ran
                        | well c g ↦
                            let logged = then_ ran (logs _ refl) in
                            rw g (
                              if_ind {A = Option Candidate × Work W F} (λ p. Runs o p.1)
                                (is_verified c.report) (λ _. logged)
                                (λ _. repair_loop-Runs left (suc round) tier problem spec c logged))
                      ])
              ])
      ]
