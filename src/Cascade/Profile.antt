-- ===== src/Cascade/Profile.antt =====
-- Collecting calibration records: `Profile` (internal/cascade/profile.go), and `validateOracle`,
-- `testsCompileAgainstOwnAPI` (internal/cascade/cascade.go). The maps of references and of pinned
-- APIs are functions.
pub mod Rectangular
use go_cascade.Base.{
  any, map, leb, ◌==◌, str_eq, if◌then◌else◌, Result, ok, err, fault, ◌>>=◌, trim_space, str_arg, ℕ,
  suc, String, ◌<>◌, Bool, true, false, not, ◌||◌, Option, none, some, List, [], ◌∷◌, ◌++◌,
}
use go_cascade.Float.{Float}
use go_cascade.Verify.Stages.{test, rank, stage_name, Report}
use go_cascade.Verify.Workspace.{Toolchain}
use go_cascade.Verify.Ladder.{run_ladder}
use go_cascade.Cluster.{Candidate, Cluster}
use go_cascade.Calibrate.Certify.{Certificate}
use go_cascade.Calibrate.Records.{TierObs, Record, mark_timed_out}
use go_cascade.Cascade.State.{Tier, Config, Spec, Work, Services}
use go_cascade.Cascade.Sampling.{
  Verified, any_timed_out, verify_one, accept_one, charge_compute, sample_tier,
}
use go_cascade.Cascade.Sequential.{
  draw_plan, candidate_at, Draw, passes, diag_of, cpu_of, timed, draw,
}
use go_cascade.Cascade.Speculative.{no_cost}
use go_cascade.Cascade.Query.{Queries, Session, spec_phase}

-- The verdict on a generated suite, with the reference's output.
pub data OracleVerdict : Type 0 where
  sound : OracleVerdict
  unsound inconclusive : String → OracleVerdict

-- Whether the tests ran, by the stage that failed: `FailedAt >= StageTest`.
abbrev pub tests_ran : Report → Bool
tests_ran r = leb (rank test) (rank r.failed_at)

abbrev pub accept_stage : Option Report → String
accept_stage none = "hidden"
accept_stage (some r) = stage_name r.failed_at

module _ {ℓ} {F : Type ℓ} ⦃fl : Float F⦄ where
  abbrev pub with_verdict : OracleVerdict → Record F → Record F
  with_verdict sound r = r
  with_verdict (unsound d) r = record r { oracle_unsound = true; oracle_unsound_diag = d }
  with_verdict (inconclusive d) r = record r { oracle_inconclusive = true; oracle_unsound_diag = d }

  abbrev pub base_obs : Tier F → Draw F → TierObs F
  base_obs tier d =
      mark_timed_out
        (record {
          tier = tier.name;
          score = d.score;
          correct = false;
          true_correct = none;
          cost = fl.lit 0 0;
          disagreement_source = "";
          timed_out = false;
        })
        d.timed_out

  abbrev pub accepted_obs : TierObs F → Option Report → TierObs F
  accepted_obs o acc = mark_timed_out (record o { correct = passes acc }) (timed acc)

  abbrev pub rep_of : Draw F → Option (Cluster F) → Option (Option Candidate)
  rep_of d none = none
  rep_of d (some c) = some (candidate_at c.rep d.cands)

module _ {ℓ} {W F : Type ℓ} ⦃fl : Float F⦄ (env : Services W F) (q : Queries W F) (cfg : Config F)
    (cert : Option (Certificate F)) (refs : String → Option String)
    (pinned_api : String → String) where
  open env use {sprintf, new_workspace}

  abbrev compiled : Report → Bool × String
  compiled r =
      if r.ok_ || tests_ran r
      then (true, "")
      else (false, sprintf "%s: %s" (str_arg (stage_name r.failed_at) ∷ str_arg r.diagnostic ∷ []))

  abbrev compiled_in : Spec → Option Toolchain → Bool × String
  compiled_in spec none = (false, sprintf "workspace: %v" [])
  compiled_in spec (some tc) = compiled (run_ladder tc cfg.opts [] spec.api).report

  unfoldable pub tests_compile_against_own_api : Spec → W → (Bool × String) × W
  tests_compile_against_own_api spec w =
      let (tc, w') = new_workspace spec.api spec.visible_tests spec.hidden_tests w in
      (compiled_in spec tc, w')

  -- A reference that did not compile: the suite's own stub decides.
  abbrev mismatch : Report → (Bool × String) × W → OracleVerdict × W
  mismatch r ((false, diag), w) = (
    unsound (
        sprintf "generated tests do not compile against their own API (%s): %s"
          (str_arg (stage_name r.failed_at) ∷ str_arg (trim_space diag) ∷ [])),
    w,
  )
  mismatch r ((true, diag), w) = (
    inconclusive (
        sprintf "reference does not fit generated API (%s): %s"
          (str_arg (stage_name r.failed_at) ∷ str_arg (trim_space r.diagnostic) ∷ [])),
    w,
  )

  unfoldable pub judge_reference : Spec → Verified → W → OracleVerdict × W
  unfolding tests_compile_against_own_api
  judge_reference spec v w =
      let behavioural =
        sprintf "reference refuted at %s: %s" (
          str_arg (stage_name v.report.failed_at)
          ∷ str_arg (trim_space v.report.diagnostic)
          ∷ []) in
      let held_out =
        sprintf "reference refuted at %s stage: %s" (
          str_arg (accept_stage v.acceptance) ∷ str_arg (trim_space (diag_of v.acceptance)) ∷ []) in
      if not v.report.ok_
      then (if tests_ran v.report
          then (unsound behavioural, w)
          else mismatch v.report (tests_compile_against_own_api spec w))
      else if not (passes v.acceptance)
      then (unsound held_out, w)
      else (sound, w)

  abbrev judged_by : Spec → Option Verified × W → OracleVerdict × W
  judged_by spec (none, w) = (inconclusive (sprintf "reference workspace error: %v" []), w)
  judged_by spec (some v, w) = judge_reference spec v w

  abbrev validated : Option String → Spec → W → OracleVerdict × W
  validated none spec w = (sound, w)
  validated (some source) spec w = judged_by spec (verify_one env cfg source spec w)

  unfoldable pub validate_oracle : String → Spec → W → OracleVerdict × W
  unfolding judge_reference
  validate_oracle id spec w = validated (refs id) spec w

  -- The observation of a tier before its cost, and the state behind it.
  abbrev pub observed_with :
      Tier F → Spec → Draw F → Option (Option Candidate) → Work W F → Result (TierObs F) × Work W F
  observed_with tier spec d none w = (ok (base_obs tier d), w)
  observed_with tier spec d (some none) w = (fault, w)
  observed_with tier spec d (some (some c)) w =
      let (acc, world) = accept_one env cfg c.source spec w.world in
      (
        ok (accepted_obs (base_obs tier d) acc),
        charge_compute env cfg (cpu_of acc) (record w { world = world }),
      )

  -- The plan's charge goes to the first tier.
  abbrev pub with_cost : ℕ → F → Work W F → TierObs F → TierObs F
  with_cost k plan_usd w o = record o {
    cost = if k == 0 then fl.add w.cost.total_usd plan_usd else w.cost.total_usd;
  }

  unfoldable pub profile_tier :
      ℕ → Tier F → String → Spec → String → F → Work W F → Result (TierObs F) × Work W F
  profile_tier k tier problem spec plan plan_usd w =
      let (r, u) = sample_tier env cfg tier problem spec [] plan (record w { cost = no_cost }) in
      elim r [
        | err e ↦ (err e, u)
        | fault ↦ (fault, u)
        | ok cands ↦
            let d = draw env cfg cert cands (any_timed_out cands) in
            let (o, v) = observed_with tier spec d (rep_of d d.winner) u in
            (o >>= (λ x. ok (with_cost k plan_usd v x)), v)
      ]

  abbrev pub add_obs : Tier F → TierObs F → Record F → Record F
  add_obs tier o r = record r {
    tiers = r.tiers ++ (o ∷ []);
    contaminated = r.contaminated || str_eq tier.model_id cfg.test_model;
  }

  -- The loop over the tiers: the record so far, and how the loop ended.
  unfoldable pub profile_tiers :
      ℕ
      → List (Tier F)
      → String
      → Spec
      → String
      → F
      → Record F
      → Work W F
      → Result (Unit {0}) × Record F
  profile_tiers k [] problem spec plan plan_usd rec w = (ok tt, rec)
  profile_tiers k (tier ∷ tiers) problem spec plan plan_usd rec w =
      let (o, u) = profile_tier k tier problem spec plan plan_usd w in
      let next = λ (x : TierObs F).
        profile_tiers (suc k) tiers problem spec plan plan_usd (add_obs tier x rec) u in
      elim (env.expired w.world) [
        | some e ↦ (err e, rec)
        | none ↦ elim o [ ok x ↦ next x | err e ↦ (err e, rec) | fault ↦ (fault, rec) ]
      ]

  -- The record before its first tier.
  abbrev pub blank_record : String → String → Record F
  blank_record id problem = record {
    id = id;
    problem = problem;
    tiers = [];
    cache_hit = false;
    cache_correct = false;
    cache_cost = fl.lit 0 0;
    contaminated = str_eq cfg.planner_model cfg.test_model;
    oracle_unsound = false;
    oracle_unsound_diag = "";
    oracle_inconclusive = false;
    shadow = true;
  }

  abbrev pub profiled :
      String → String → Result Spec × Session W F → Result (Unit {0}) × Option (Record F)
  profiled id problem (err e, s) = (err ("spec phase: " <> e), none)
  profiled id problem (fault, s) = (fault, none)
  profiled id problem (ok spec, s) =
      let (v, world) = validate_oracle id spec s.work.world in
      let (plan, after) = draw_plan env cfg cert problem spec world in
      let (r, rec) =
        profile_tiers 0 cfg.tiers problem spec plan.reply.text plan.usd
          (with_verdict v (blank_record id problem)) (record (s.work) { world = after }) in
      (r, some rec)

  -- The error, if there is one, and the record, which an error leaves incomplete.
  unfoldable pub profile : String → String → Session W F → Result (Unit {0}) × Option (Record F)
  unfolding validate_oracle profile_tiers
  profile id problem s = profiled id problem (spec_phase env q cfg cert problem (pinned_api id) s)
