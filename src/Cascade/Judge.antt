-- ===== src/Cascade/Judge.antt =====
-- The judge arm (internal/cascade/judge.go): a model that reads the code in the place of the held-out
-- tests. `judgeAccept`, `judgeAt`, `ProfileJudge`, `ProfilePaired`. `strictness` is the configured
-- JudgeStrictness, `parse` the reading of a reply.
pub mod Loop
pub mod Levels
pub mod Paired
pub mod Seeded
use go_cascade.Base.{
  ◌⊎◌, ◌==◌, str_eq, if◌then◌else◌, Result, ok, err, fault, ℕ, zero, suc, String, ◌<>◌, inl, inr,
  Bool, true, false, ◌||◌, Option, none, some, List, [], ◌∷◌, ◌++◌,
}
use go_cascade.Float.{Float}
use go_cascade.Verify.Stages.{Report}
use go_cascade.Prompt
use go_cascade.Cluster.{Candidate, Cluster}
use go_cascade.Calibrate.Certify.{Certificate}
use go_cascade.Calibrate.Records.{TierObs, Record, mark_timed_out, retain_source_on_disagreement}
use go_cascade.Cascade.State.{Tier, Config, Spec, Response, Work, Services, Cost, add_model}
use go_cascade.Cascade.Sampling.{any_timed_out, accept_one, charge_compute, sample_tier}
use go_cascade.Cascade.Sequential.{draw_plan, Draw, passes, cpu_of, timed, draw}
use go_cascade.Cascade.Speculative.{no_cost}
use go_cascade.Cascade.Query.{Queries, Session, spec_phase}
use go_cascade.Cascade.Profile.{OracleVerdict, with_verdict, base_obs, rep_of, validate_oracle}

-- The loop over the tiers that the judge's arms share: what is collected so far, and how the loop
-- ended. The body may end it.
module _ {ℓ κ} {W F : Type ℓ} {S : Type κ} (expired : W → Option String)
    (body : ℕ → Tier F → S → Work W F → Result (Unit {0}) × S × Work W F) where
  unfoldable pub tier_loop : ℕ → List (Tier F) → S → Work W F → Result (Unit {0}) × S × Work W F
  tier_loop k [] s w = (ok tt, s, w)
  tier_loop k (tier ∷ tiers) s w =
      let (r, s', w') = body k tier s w in
      let rest = tier_loop (suc k) tiers s' w' in
      elim (expired w.world) [
        | some e ↦ (err e, s, w)
        | none ↦ elim r [ ok u ↦ rest | err e ↦ (err e, s', w') | fault ↦ (fault, s', w') ]
      ]

module _ {ℓ} {F : Type ℓ} where
  -- An observation, of a tier whose coder may be the oracle's author.
  abbrev pub add_tier : Tier F → String → TierObs F → Record F → Record F
  add_tier tier oracle o r = record r {
    tiers = r.tiers ++ (o ∷ []);
    contaminated = r.contaminated || str_eq tier.model_id oracle;
  }

  -- An oracle's verdict, and execution truth beside it.
  abbrev pub ruled : Bool → Bool → Bool → TierObs F → TierObs F
  ruled correct truth late o =
      mark_timed_out (record o { correct = correct; true_correct = some truth }) late

module _ {ℓ} {F : Type ℓ} ⦃fl : Float F⦄ where
  -- The record before its first tier, of the authors of its plan and of its oracle.
  abbrev pub fresh_record : (id problem planner oracle : String) → Record F
  fresh_record id problem planner oracle = record {
    id = id;
    problem = problem;
    tiers = [];
    cache_hit = false;
    cache_correct = false;
    cache_cost = fl.lit 0 0;
    contaminated = str_eq planner oracle;
    oracle_unsound = false;
    oracle_unsound_diag = "";
    oracle_inconclusive = false;
    shadow = true;
  }

  abbrev pub plus_plan : ℕ → F → F → F
  plus_plan k plan_usd usd = if k == 0 then fl.add usd plan_usd else usd

module _ {ℓ} {W F : Type ℓ} ⦃fl : Float F⦄ (env : Services W F) (q : Queries W F) (cfg : Config F)
    (cert : Option (Certificate F)) (refs : String → Option String) (pinned_api : String → String)
    (strictness : String) (parse : String → Option Bool) where
  abbrev pub judge_cost : Response → F
  judge_cost resp =
      fl.add (fl.mul (fl.div (fl.of_nat resp.input_tokens) (fl.lit 1_000_000 0)) cfg.test_in_cost)
        (fl.mul (fl.div (fl.of_nat resp.output_tokens) (fl.lit 1_000_000 0)) cfg.test_out_cost)

  -- A reply with no verdict is no PASS.
  abbrev pub verdict_or_fail : Option Bool → Bool
  verdict_or_fail none = false
  verdict_or_fail (some b) = b

  -- The verdict and its price, or the service's error.
  unfoldable pub judge_at :
      (level judge problem api source : String) → W → (String ⊎ (Bool × F)) × W
  judge_at level judge problem api source w =
      let text = Prompt.judge_system level <> Prompt.judge_user problem api source in
      let (answer, w') = env.generate judge text 0 w in
      elim answer [
        | inl e ↦ (inl e, w')
        | inr resp ↦ (inr (verdict_or_fail (parse resp.text), judge_cost resp), w')
      ]

  unfoldable pub judge_strictness : String
  judge_strictness = if str_eq strictness "" then Prompt.strict else strictness

  unfoldable pub judge_accept : (judge problem api source : String) → W → (String ⊎ (Bool × F)) × W
  unfolding judge_at judge_strictness
  judge_accept judge problem api source w = judge_at judge_strictness judge problem api source w

  unfoldable pub judge_or_default : String → String
  judge_or_default judge = if str_eq judge "" then cfg.test_model else judge

  -- The candidates of one tier, at the tier's own cost.
  abbrev pub drawn : Tier F → String → Spec → String → Work W F → Result (List Candidate) × Work W F
  drawn tier problem spec plan w =
      sample_tier env cfg tier problem spec [] plan (record w { cost = no_cost })

  abbrev pub decided : List Candidate → Draw F
  decided cands = draw env cfg cert cands (any_timed_out cands)

  module _ (judge problem : String) (spec : Spec) (plan : String) (plan_usd : F) where
    -- The judge rules, and then the held-out tests.
    abbrev pub judged_obs : TierObs F → Candidate → Work W F → Result (TierObs F) × Work W F
    judged_obs o c w =
        let (v, w') = judge_accept judge problem spec.api c.source w.world in
        let (acc, world) = accept_one env cfg c.source spec w' in
        elim v [
          | inl e ↦ (err e, record w { world = w' })
          | inr (pass, usd) ↦ (
            ok (retain_source_on_disagreement (ruled pass (passes acc) (timed acc) o) c.source),
            charge_compute env cfg (cpu_of acc)
                (record w { world = world; cost = add_model 0 0 usd w.cost }),
          )
        ]

    abbrev pub judged_with :
        Tier F → Draw F → Option (Option Candidate) → Work W F → Result (TierObs F) × Work W F
    judged_with tier d none w = (ok (base_obs tier d), w)
    judged_with tier d (some none) w = (fault, w)
    judged_with tier d (some (some c)) w = judged_obs (base_obs tier d) c w

    abbrev pub recorded :
        ℕ
        → Tier F
        → Record F
        → Result (TierObs F) × Work W F
        → Result (Unit {0}) × Record F × Work W F
    recorded k tier rec (ok o, w) = (
      ok tt,
      add_tier tier judge (record o { cost = plus_plan k plan_usd w.cost.total_usd }) rec,
      w,
    )
    recorded k tier rec (err e, w) = (err e, rec, w)
    recorded k tier rec (fault, w) = (fault, rec, w)

    unfoldable pub judge_tier :
        ℕ → Tier F → Record F → Work W F → Result (Unit {0}) × Record F × Work W F
    unfolding judge_accept
    judge_tier k tier rec w =
        let (r, u) = drawn tier problem spec plan w in
        elim r [
          | err e ↦ (err e, rec, u)
          | fault ↦ (fault, rec, u)
          | ok cands ↦
              let d = decided cands in
              recorded k tier rec (judged_with tier d (rep_of d d.winner) u)
        ]

    -- Both arms of one tier, on one representative: the tests first, then the judge.
    abbrev pub both_obs :
        TierObs F → Candidate → Work W F → Result (TierObs F × TierObs F) × Work W F
    both_obs o c w =
        let (acc, w') = accept_one env cfg c.source spec w.world in
        let (v, world) = judge_accept judge problem spec.api c.source w' in
        let truth = passes acc in
        let spent = fl.add o.cost (fl.mul (env.seconds (cpu_of acc)) cfg.compute_rate) in
        elim v [
          | inl e ↦ (err e, record w { world = world })
          | inr (pass, usd) ↦ (
            ok (
              record (ruled truth truth (timed acc) o) { cost = spent },
              retain_source_on_disagreement
                  (record (ruled pass truth (timed acc) o) { cost = fl.add o.cost usd }) c.source,
            ),
            record w { world = world },
          )
        ]

    abbrev pub both_with :
        TierObs F → Option (Option Candidate) → Work W F → Result (TierObs F × TierObs F) × Work W F
    both_with o none w = (ok (o, o), w)
    both_with o (some none) w = (fault, w)
    both_with o (some (some c)) w = both_obs o c w

    abbrev pub both_recorded :
        Tier F
        → Record F × Record F
        → Result (TierObs F × TierObs F) × Work W F
        → Result (Unit {0}) × (Record F × Record F) × Work W F
    both_recorded tier (e, j) (ok (o, p), w) =
        (ok tt, (add_tier tier cfg.test_model o e, add_tier tier judge p j), w)
    both_recorded tier recs (err m, w) = (err m, recs, w)
    both_recorded tier recs (fault, w) = (fault, recs, w)

    unfoldable pub paired_tier :
        ℕ
        → Tier F
        → Record F × Record F
        → Work W F
        → Result (Unit {0}) × (Record F × Record F) × Work W F
    unfolding judge_accept
    paired_tier k tier recs w =
        let (r, u) = drawn tier problem spec plan w in
        elim r [
          | err e ↦ (err e, recs, u)
          | fault ↦ (fault, recs, u)
          | ok cands ↦
              let d = decided cands in
              let o = record (base_obs tier d) { cost = plus_plan k plan_usd u.cost.total_usd } in
              both_recorded tier recs (both_with o (rep_of d d.winner) u)
        ]

  abbrev pub judged_profile :
      (id problem judge : String)
      → Result Spec × Session W F
      → Result (Unit {0}) × Option (Record F)
  judged_profile id problem judge (err e, s) = (err ("spec phase: " <> e), none)
  judged_profile id problem judge (fault, s) = (fault, none)
  judged_profile id problem judge (ok spec, s) =
      let (plan, after) = draw_plan env cfg cert problem spec s.work.world in
      let (r, rec, w) =
        tier_loop env.expired (judge_tier judge problem spec plan.reply.text plan.usd) 0 cfg.tiers
          (fresh_record id problem cfg.planner_model judge) (record (s.work) { world = after }) in
      (r, some rec)

  unfoldable pub profile_judge :
      (id problem judge : String) → Session W F → Result (Unit {0}) × Option (Record F)
  unfolding judge_tier tier_loop judge_or_default
  profile_judge id problem judge s =
      judged_profile id problem (judge_or_default judge) (spec_phase env q cfg cert problem "" s)

  abbrev pub paired_profile :
      (id problem judge : String)
      → Result Spec × Session W F
      → Result (Unit {0}) × Option (Record F × Record F)
  paired_profile id problem judge (err e, s) = (err ("spec phase: " <> e), none)
  paired_profile id problem judge (fault, s) = (fault, none)
  paired_profile id problem judge (ok spec, s) =
      let (v, world) = validate_oracle env q cfg cert refs pinned_api id spec s.work.world in
      let (plan, after) = draw_plan env cfg cert problem spec world in
      let start : Record F × Record F = (
        with_verdict v (fresh_record id problem cfg.planner_model cfg.test_model),
        with_verdict v (fresh_record id problem cfg.planner_model judge),
      ) in
      let (r, recs, w) =
        tier_loop env.expired (paired_tier judge problem spec plan.reply.text plan.usd) 0 cfg.tiers
          start (record (s.work) { world = after }) in
      (r, some recs)

  -- The record of the execution arm and that of the judge's.
  unfoldable pub profile_paired :
      (id problem judge : String) → Session W F → Result (Unit {0}) × Option (Record F × Record F)
  unfolding paired_tier tier_loop judge_or_default
  profile_paired id problem judge s =
      paired_profile id problem (judge_or_default judge)
        (spec_phase env q cfg cert problem (pinned_api id) s)
