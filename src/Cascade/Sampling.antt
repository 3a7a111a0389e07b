-- ===== src/Cascade/Sampling.antt =====
-- Drawing and verifying candidates: `verifyOne`, `acceptOne`, `sampleTierN`, `repairLoop`,
-- `recordFailure`, `bestRefuted`, `preferRepair` (internal/cascade/cascade.go). The goroutines of a
-- fan-out are modelled in the order of their index; the first error ends the fan-out.
use go_cascade.Base.{
  str_arg, int_arg, ltb, str_eq, if◌then◌else◌, Result, ok, err, fault, ◌>>=◌, any, ℕ, zero, suc,
  ◌+◌, String, ◌<>◌, inl, inr, Bool, true, false, not, ◌&&◌, Option, none, some, List, [], ◌∷◌,
  ◌++◌, map,
}
use go_cascade.Float.{Float}
use go_cascade.Verify.Stages.{rank, stage_name, Report, report_timed_out, no_report}
use go_cascade.Verify.Workspace.{Toolchain}
use go_cascade.Verify.Ladder.{run_ladder, accept_ladder}
use go_cascade.Cluster.{Candidate, is_verified}
use go_cascade.Cache.{Failure, Failures, failures, add_failure}
use mathlib.Core.Option
use go_cascade.Cascade.State.{
  Tier, Config, Action, repaired, escalated, Step, Spec, Response, Work, Services, add_model,
  add_compute, tier_cost, planner_cost, two_stage,
}

-- What `verifyOne` returns with a nil error.
pub record Verified : Type 0 where
  pub report : Report
  pub acceptance : Option Report
  pub cpu : ℕ

abbrev pub diag_report : String → Report
diag_report e = record no_report { ok_ = false; diagnostic = e }

abbrev is_later : Option ℕ → ℕ → Bool
is_later none n = true
is_later (some m) n = ltb m n

-- Behind the best of the refuted candidates, by the stage that refuted it.
best_of : List Candidate → Option Candidate → Option ℕ → Option Candidate
best_of [] best at = best
best_of (c ∷ cs) best at =
    let keep = best_of cs best at in
    elim c.report [
      | none ↦ keep
      | some r ↦
          let later = is_later at (rank r.failed_at) in
          best_of cs (if later then some c else best)
            (if later then some (rank r.failed_at) else at)
    ]

unfoldable pub best_refuted : List Candidate → Option Candidate
unfolding best_of
best_refuted cands = best_of cands none none

unfoldable pub any_timed_out : List Candidate → Bool
any_timed_out cands = any (λ c. report_timed_out c.report) cands

module _ {ℓ} {W F : Type ℓ} ⦃fl : Float F⦄ (env : Services W F) (cfg : Config F) where
  open env use {generate, new_workspace, extract_code, canonical_hash, problem_hash, seconds}

  -- One run of `Run`, and of `Accept` behind it if that does not refute.
  abbrev pub verified_in : Toolchain → String → Verified
  verified_in tc source =
      let s = run_ladder tc cfg.opts [] source in
      let a = (accept_ladder tc cfg.opts s.ran).report in
      if not s.report.ok_
      then record { report = s.report; acceptance = none; cpu = s.report.cpu_time }
      else record { report = s.report; acceptance = some a; cpu = s.report.cpu_time + a.cpu_time }

  unfoldable pub verify_one : String → Spec → W → Option Verified × W
  verify_one source spec w =
      let (tc, w') = new_workspace source spec.visible_tests spec.hidden_tests w in
      (Option.map (λ t. verified_in t source) tc, w')

  -- The report of the held-out partition, and its time.
  unfoldable pub accept_one : String → Spec → W → Option Report × W
  accept_one source spec w =
      let (tc, w') = new_workspace source spec.visible_tests spec.hidden_tests w in
      (Option.map (λ t. (accept_ladder t cfg.opts []).report) tc, w')

  abbrev pub charge_compute : ℕ → Work W F → Work W F
  charge_compute d w = record w { cost = add_compute d (seconds d) cfg.compute_rate w.cost }

  abbrev pub charge_model : Response → F → Work W F → Work W F
  charge_model resp usd w = record w {
    cost = add_model resp.input_tokens resp.output_tokens usd w.cost;
  }

  -- The ladder's part of one goroutine, and of one repair round.
  abbrev pub verify_source : ℕ → String → Spec → Work W F → Result Candidate × Work W F
  verify_source i source spec w =
      let (v, world) = verify_one source spec w.world in
      let w' = record w { world = world } in
      elim v [
        | none ↦ (err "workspace", charge_compute 0 w')
        | some v ↦ (
          ok (record { index = i; source = source; report = some v.report }),
          charge_compute v.cpu w',
        )
      ]

  abbrev unparsed : ℕ → String → String → Candidate
  unparsed i text e = record { index = i; source = text; report = some (diag_report e) }

  abbrev pub code_text : String → Spec → List String → String → ℕ → String
  code_text problem spec avoid plan nonce =
      if str_eq plan ""
      then env.code_user problem spec.api nonce avoid
      else env.code_user_from_plan problem spec.api plan nonce avoid

  -- One goroutine of the fan-out.
  unfoldable pub sample_one :
      Tier F → String → Spec → List String → String → ℕ → Work W F → Result Candidate × Work W F
  sample_one tier problem spec avoid plan nonce w =
      let text = code_text problem spec avoid plan nonce in
      let (answer, world) = generate tier.model_id text nonce w.world in
      let w' = record w { world = world } in
      elim answer [
        | inl e ↦ (err e, w')
        | inr resp ↦
            let paid = charge_model resp (tier_cost tier resp.input_tokens resp.output_tokens) w' in
            elim (extract_code resp.text) [
              | inl e ↦ (ok (unparsed nonce resp.text e), paid)
              | inr source ↦ verify_source nonce source spec paid
            ]
      ]

  abbrev cons_candidate :
      Candidate → Result (List Candidate) × Work W F → Result (List Candidate) × Work W F
  cons_candidate c (r, w) = (r >>= (λ cs. ok (c ∷ cs)), w)

  -- The fan-out from index `i` on, with `left` candidates to draw.
  unfoldable pub fan_out :
      ℕ
      → ℕ
      → Tier F
      → String
      → Spec
      → List String
      → String
      → Work W F
      → Result (List Candidate) × Work W F
  fan_out zero i tier problem spec avoid plan w = (ok [], w)
  fan_out (suc left) i tier problem spec avoid plan w =
      let (c, w') = sample_one tier problem spec avoid plan i w in
      let rest = λ (u : Work W F). fan_out left (suc i) tier problem spec avoid plan u in
      elim c [ ok c ↦ cons_candidate c (rest w') | err e ↦ (err e, w') | fault ↦ (fault, w') ]

  abbrev pub remembered : Work W F → String → List String
  remembered w problem =
      if cfg.cache_disabled
      then []
      else map (λ f. f.stage <> ": " <> f.summary) (failures w.store (problem_hash problem))

  unfoldable pub sample_tier_n :
      ℕ
      → ℕ
      → Tier F
      → String
      → Spec
      → List String
      → String
      → Work W F
      → Result (List Candidate) × Work W F
  sample_tier_n n seed tier problem spec carried cascade_plan w =
      let avoid = carried ++ remembered w problem in
      let (answer, world) =
        generate tier.planner_model (env.plan_user problem spec.api) 0 w.world in
      let w' = record w { world = world } in
      let planned : Result (List Candidate) × Work W F = elim answer [
        | inl e ↦ (err e, w')
        | inr resp ↦
            fan_out n seed tier problem spec avoid resp.text
              (charge_model resp (planner_cost tier resp.input_tokens resp.output_tokens) w')
      ] in
      if two_stage tier then planned else fan_out n seed tier problem spec avoid cascade_plan w

  unfoldable pub sample_tier :
      Tier F → String → Spec → List String → String → Work W F → Result (List Candidate) × Work W F
  sample_tier tier problem spec carried plan w =
      sample_tier_n tier.samples 0 tier problem spec carried plan w

  abbrev failure_of : Report → String → Failure
  failure_of r h = record {
    canon_hash = h;
    stage = stage_name r.failed_at;
    summary = env.first_line r.diagnostic;
  }

  abbrev pub failed_form : Option Report → Option String → Option Failure
  failed_form none h = none
  failed_form (some r) none = none
  failed_form (some r) (some h) = if r.ok_ then none else some (failure_of r h)

  unfoldable pub record_failure : String → List Candidate → Failures → Failures
  record_failure ph [] store = store
  record_failure ph (c ∷ cs) store =
      record_failure ph cs (elim (failed_form c.report (canonical_hash c.source)) [
        | none ↦ store
        | some f ↦ add_failure cfg.cache_disabled ph f store
      ])

  -- With `next` the tier behind this one, if there is one.
  unfoldable pub prefer_repair : Tier F → Option (Tier F) → Bool
  prefer_repair tier none = ltb 0 tier.repair_depth
  prefer_repair tier (some next) =
      let c_esc = fl.mul next.out_per_mtok (fl.of_nat next.samples) in
      ltb 0 tier.repair_depth
      && fl.lt (fl.div (fl.lit 35 2) c_esc) (fl.div (fl.lit 45 2) tier.out_per_mtok)

  abbrev pub plain_step : String → String → Action → String → F → Step F
  plain_step stage tier action reason cost = record {
    stage = stage;
    tier = tier;
    action = action;
    score = fl.lit 0 0;
    threshold = fl.lit 0 0;
    clusters = [];
    reason = reason;
    diagnostic = "";
    cost_so_far = cost;
    timed_out = false;
  }

  abbrev pub push : Step F → Work W F → Work W F
  push st w = record w { trace = w.trace ++ (st ∷ []) }

  abbrev pub report_stage : Option Report → String
  report_stage none = ""
  report_stage (some r) = stage_name r.failed_at

  abbrev pub report_diag : Option Report → String
  report_diag none = ""
  report_diag (some r) = r.diagnostic

  -- The rounds from `round` on, `left` of them to go. The rest of a round, once its candidate is
  -- verified, gets the later rounds as `later`.
  abbrev repaired_or :
      Tier F → Candidate → Work W F → Option Candidate × Work W F → Option Candidate × Work W F
  repaired_or tier c w later = if is_verified c.report then (some c, w) else later

  unfoldable pub repair_loop :
      ℕ → ℕ → Tier F → String → Spec → Candidate → Work W F → Option Candidate × Work W F
  repair_loop zero round tier problem spec cur w = (none, w)
  repair_loop (suc left) round tier problem spec cur w =
      let text =
        env.repair_user problem spec.api cur.source (report_stage cur.report)
          (report_diag cur.report) in
      let (answer, world) = generate tier.model_id text 0 w.world in
      let w' = record w { world = world } in
      let later =
        λ (c : Candidate) (u : Work W F). repair_loop left (suc round) tier problem spec c u in
      elim answer [
        | inl e ↦ (none, w')
        | inr resp ↦
            let paid = charge_model resp (tier_cost tier resp.input_tokens resp.output_tokens) w' in
            elim (extract_code resp.text) [
              | inl e ↦ (none, paid)
              | inr source ↦
                  let (v, u) = verify_source (1000 + round) source spec paid in
                  elim v [
                    | ok c ↦
                        let action = if is_verified c.report then repaired else escalated in
                        let why =
                          if is_verified c.report
                          then "repaired using the verifier diagnostic"
                          else "repair did not clear the ladder" in
                        let reason =
                          env.sprintf "round %d/%d: %s"
                            (int_arg (round + 1) ∷ int_arg tier.repair_depth ∷ str_arg why ∷ []) in
                        let done =
                          push (plain_step "repair" tier.name action reason u.cost.total_usd) u in
                        repaired_or tier c done (later c done)
                    | err e ↦ (none, u)
                    | fault ↦ (none, u)
                  ]
            ]
      ]
