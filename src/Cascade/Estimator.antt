-- ===== src/Cascade/Estimator.antt =====
-- The oracle gap: `EstimateOracleGap`, `canonicalVerdict` (internal/cascade/estimator.go). The canonical tests
-- are by problem; the bench of the mutants is one in a world.
use go_cascade.Base.{
  if◌then◌else◌, Result, ok, err, fault, ltb, ℕ, String, ◌<>◌, inl, inr, Bool, true, false, not,
  ◌&&◌, ◌||◌, Option, none, some, List, [], ◌∷◌, ◌++◌,
}
use go_cascade.Float.{Float}
use go_cascade.Calibrate.Certify.{Certificate}
use go_cascade.Calibrate.Stats.{Math}
use go_cascade.Cluster.{Candidate}
use go_cascade.Cascade.State.{Tier, Config, Spec, Work, Services}
use go_cascade.Cascade.Sampling.{accept_one}
use go_cascade.Cascade.Sequential.{draw_plan, passes}
use go_cascade.Cascade.Query.{Queries, Session, spec_phase}
use go_cascade.Cascade.Profile.{rep_of}
use go_cascade.Cascade.Judge.{tier_loop, drawn, decided}
use go_cascade.Verify.Ladder.{run_all_tests}
use go_cascade.Verify.Mutation.Harvest.{MutationScore, Bench, mutate_sites}

pub record EstimatorObs {ℓ} (F : Type ℓ) : Type ℓ where
  pub id : String
  pub tier : String
  pub generated_accept : Bool
  pub canonical_correct : Bool
  pub canonical_ran : Bool
  pub false_accept : Bool
  pub mutation_score : F
  pub mutation_valid : ℕ
  pub mutation_killed : ℕ
  pub canonical_tests : ℕ
  pub canonical_diag : String
  pub skipped : String

-- What the canonical suite says of a candidate.
pub record Label : Type 0 where
  pub ran : Bool
  pub correct : Bool
  pub tests : ℕ
  pub diag : String

abbrev label_of : (ran passed : Bool) → ℕ → String → Label
label_of ran passed n d =
    if not ran
    then record { ran = false; correct = false; tests = 0; diag = "no canonical label: " <> d }
    else if not passed
    then record { ran = true; correct = false; tests = n; diag = d }
    else record { ran = true; correct = true; tests = n; diag = "" }

module _ {ℓ} {F : Type ℓ} ⦃fl : Float F⦄ where
  abbrev pub fresh_obs : String → Tier F → EstimatorObs F
  fresh_obs id tier = record {
    id = id;
    tier = tier.name;
    generated_accept = false;
    canonical_correct = false;
    canonical_ran = false;
    false_accept = false;
    mutation_score = fl.lit 0 0;
    mutation_valid = 0;
    mutation_killed = 0;
    canonical_tests = 0;
    canonical_diag = "";
    skipped = "";
  }

  -- The verdict of the generated suite beside the canonical label.
  abbrev pub labelled : Bool → Label → EstimatorObs F → EstimatorObs F
  labelled accepted_ l o = record o {
    generated_accept = accepted_;
    canonical_ran = l.ran;
    canonical_correct = l.correct;
    canonical_tests = l.tests;
    canonical_diag = if not l.ran || (l.ran && not l.correct) then l.diag else o.canonical_diag;
    false_accept = if l.ran && accepted_ && not l.correct then true else o.false_accept;
  }

  abbrev pub scored : Result (MutationScore F) → EstimatorObs F → EstimatorObs F
  scored (ok ms) o = record o {
    mutation_score = ms.score;
    mutation_valid = ms.valid;
    mutation_killed = ms.killed;
  }
  scored (err e) o = o
  scored fault o = o

module _ {ℓ} {F : Type ℓ} ⦃fl : Float F⦄ ⦃m : Math F⦄ (bench : Bench) (timeout : ℕ) where
  -- `Mutate` on a text.
  unfoldable pub mutate_text : String → ℕ → Result (MutationScore F)
  mutate_text source budget = elim (bench.parse source) [
    | inl e ↦ err e
    | inr src ↦ mutate_sites bench src timeout budget
  ]

module _ {ℓ} {W F : Type ℓ} ⦃fl : Float F⦄ ⦃m : Math F⦄ (env : Services W F) (q : Queries W F)
    (cfg : Config F) (cert : Option (Certificate F)) (refs : String → Option String)
    (pinned_api : String → String) (strictness : String) (parse : String → Option Bool)
    (bench : Spec → W → Bench) (no_workspace : String) where
  unfoldable pub canonical_verdict : (source canonical : String) → W → Label × W
  canonical_verdict source canonical w =
      let (tc, w') = env.new_workspace source canonical "" w in
      elim tc [
        | none ↦ (
          record { ran = false; correct = false; tests = 0; diag = "workspace: " <> no_workspace },
          w',
        )
        | some t ↦
            let s = run_all_tests t cfg.opts [] in (label_of s.ran_ s.passed_ s.ntests s.diag, w')
      ]

  module _ (id problem canonical : String) (spec : Spec) (plan : String) (mutants : ℕ) where
    -- The three measurements of a tier's representative.
    abbrev measured : Tier F → Candidate → W → EstimatorObs F × W
    measured tier c w =
        let (acc, w') = accept_one env cfg c.source spec w in
        let (label, w'') = canonical_verdict c.source canonical w' in
        let o = labelled (passes acc) label (fresh_obs id tier) in
        (
          if ltb 0 mutants
              then scored (mutate_text (bench spec w'') cfg.opts.test_timeout c.source mutants) o
              else o,
          w'',
        )

    abbrev measured_with :
        Tier F
        → List (EstimatorObs F)
        → Option (Option Candidate)
        → Work W F
        → Result (Unit {0}) × List (EstimatorObs F) × Work W F
    measured_with tier out none w = (
      ok tt,
      out
          ++ (record (fresh_obs id tier) {
            skipped = "no representative survived the generated verifier ladder";
          }
              ∷ []),
      w,
    )
    measured_with tier out (some none) w = (fault, out, w)
    measured_with tier out (some (some c)) w =
        let (o, w') = measured tier c w.world in (ok tt, out ++ (o ∷ []), record w { world = w' })

    unfoldable pub gap_tier :
        ℕ
        → Tier F
        → List (EstimatorObs F)
        → Work W F
        → Result (Unit {0}) × List (EstimatorObs F) × Work W F
    unfolding canonical_verdict mutate_text
    gap_tier k tier out w =
        let (r, u) =
          drawn env q cfg cert refs pinned_api strictness parse tier problem spec plan w in
        elim r [
          | err e ↦ (err e, out, u)
          | fault ↦ (fault, out, u)
          | ok cands ↦
              let d = decided env q cfg cert refs pinned_api strictness parse cands in
              measured_with tier out (rep_of d d.winner) u
        ]

  -- A tier of a problem without canonical tests.
  abbrev skip_tier :
      String
      → ℕ
      → Tier F
      → List (EstimatorObs F)
      → Work W F
      → Result (Unit {0}) × List (EstimatorObs F) × Work W F
  skip_tier id k tier out w = (
    ok tt,
    out
        ++ (record (fresh_obs id tier) {
          skipped = "no canonical reference test suite for this problem";
        }
            ∷ []),
    w,
  )

  abbrev gap_from :
      (id problem : String)
      → Option String
      → ℕ
      → Result Spec × Session W F
      → Result (Unit {0}) × List (EstimatorObs F)
  gap_from id problem canon mutants (err e, s) = (err ("spec phase: " <> e), [])
  gap_from id problem canon mutants (fault, s) = (fault, [])
  gap_from id problem canon mutants (ok spec, s) =
      let (plan, after) = draw_plan env cfg cert problem spec s.work.world in
      let w = record (s.work) { world = after } in
      elim canon [
        | none ↦ let (r, out, u) = tier_loop env.expired (skip_tier id) 0 cfg.tiers [] w in (r, out)
        | some tests ↦
            let (r, out, u) =
              tier_loop env.expired (gap_tier id problem tests spec plan.reply.text mutants) 0
                cfg.tiers [] w in
            (r, out)
      ]

  unfoldable pub estimate_oracle_gap :
      (id problem : String)
      → (String → Option String)
      → ℕ
      → Session W F
      → Result (Unit {0}) × List (EstimatorObs F)
  unfolding gap_tier tier_loop
  estimate_oracle_gap id problem canonical mutants s =
      gap_from id problem (canonical id) mutants
        (spec_phase env q cfg cert problem (pinned_api id) s)
