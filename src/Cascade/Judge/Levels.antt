-- ===== src/Cascade/Judge/Levels.antt =====
-- One candidate stream, judged at several strictness levels: `ProfileStrictnessReplay`
-- (internal/cascade/judge.go). The map from a level to its record is an association list.
use go_cascade.Base.{
  str_eq, if◌then◌else◌, Result, ok, err, fault, ℕ, String, ◌<>◌, inl, inr, Bool, false, Option,
  none, some, List, [], ◌∷◌,
}
use go_cascade.Float.{Float}
use go_cascade.Cluster.{Candidate}
use go_cascade.Calibrate.Certify.{Certificate}
use go_cascade.Calibrate.Records.{TierObs, Record, mark_timed_out, retain_source_on_disagreement}
use go_cascade.Cascade.State.{Tier, Config, Spec, Work, Services}
use go_cascade.Cascade.Sampling.{accept_one}
use go_cascade.Cascade.Sequential.{draw_plan, passes, cpu_of, timed}
use go_cascade.Cascade.Query.{Queries, Session, spec_phase}
use go_cascade.Cascade.Profile.{base_obs, rep_of}
use go_cascade.Cascade.Judge.{
  tier_loop, fresh_record, add_tier, ruled, plus_plan, drawn, decided, judge_at, judge_or_default,
}

-- The records of the levels, and that of the execution arm.
pub record Replays {ℓ} (F : Type ℓ) : Type ℓ where
  pub exec : Record F
  pub judges : List (String × Record F)

module _ {ℓ} {A : Type ℓ} where
  -- `m[k] = v`
  unfoldable pub assign : String → A → List (String × A) → List (String × A)
  assign k v [] = (k, v) ∷ []
  assign k v ((j, x) ∷ m) = if str_eq j k then (k, v) ∷ m else (j, x) ∷ assign k v m

  -- A change of what the map has at a key.
  unfoldable pub change : String → (A → A) → List (String × A) → List (String × A)
  change k f [] = []
  change k f ((j, x) ∷ m) = if str_eq j k then (j, f x) ∷ m else (j, x) ∷ change k f m

module _ {ℓ} {W F : Type ℓ} ⦃fl : Float F⦄ (env : Services W F) (q : Queries W F) (cfg : Config F)
    (cert : Option (Certificate F)) (refs : String → Option String) (pinned_api : String → String)
    (strictness : String) (parse : String → Option Bool) where
  -- Not marked by its planner.
  abbrev unplanned : (id problem : String) → Record F
  unplanned id problem = record (fresh_record id problem "" "") { contaminated = false }

  fresh_levels : (id problem : String) → List String → List (String × Record F)
  unfolding assign
  fresh_levels id problem [] = []
  fresh_levels id problem (l ∷ ls) = assign l (unplanned id problem) (fresh_levels id problem ls)

  module _ (judge problem : String) (spec : Spec) (plan : String) (plan_usd : F)
      (levels : List String) where
    -- The execution arm's observation of a candidate, and the time that it took.
    abbrev executed : TierObs F → Option Candidate → W → TierObs F × W
    executed o none w = (o, w)
    executed o (some c) w =
        let (acc, w') = accept_one env cfg c.source spec w in
        let truth = passes acc in
        (
          record (ruled truth truth (timed acc) o) {
            cost = fl.add o.cost (fl.mul (env.seconds (cpu_of acc)) cfg.compute_rate);
          },
          w',
        )

    abbrev leveled : TierObs F → Bool → String → Bool → F → TierObs F
    leveled o truth source pass usd =
        retain_source_on_disagreement
          (record o { correct = pass; true_correct = some truth; cost = fl.add o.cost usd }) source

    abbrev put_level :
        Tier F → String → TierObs F → List (String × Record F) → List (String × Record F)
    put_level tier level o js = change level (add_tier tier judge o) js

    -- The loop over the levels, for the candidate of a tier if it has one.
    unfoldable pub judge_levels :
        Tier F
        → TierObs F
        → Bool
        → Option Candidate
        → List String
        → List (String × Record F)
        → W
        → Result (Unit {0}) × List (String × Record F) × W
    unfolding change
    judge_levels tier o truth c [] js w = (ok tt, js, w)
    judge_levels tier o truth none (l ∷ ls) js w =
        judge_levels tier o truth none ls (put_level tier l o js) w
    judge_levels tier o truth (some c) (l ∷ ls) js w =
        let (v, w') =
          judge_at env q cfg cert refs pinned_api strictness parse l judge problem spec.api c.source
            w in
        let next = λ (pass : Bool) (usd : F).
          judge_levels tier o truth (some c) ls
            (put_level tier l (leveled o truth c.source pass usd) js) w' in
        elim v [ inl e ↦ (err e, js, w') | inr (pass, usd) ↦ next pass usd ]

    abbrev replayed :
        Tier F
        → Replays F
        → TierObs F
        → Option Candidate
        → Work W F
        → Result (Unit {0}) × Replays F × Work W F
    replayed tier s o c w =
        let (e, w') = executed o c w.world in
        let shared = mark_timed_out o e.timed_out in
        let (r, js, world) = judge_levels tier shared e.correct c levels s.judges w' in
        (
          r,
          record { exec = add_tier tier cfg.test_model e s.exec; judges = js },
          record w { world = world },
        )

    abbrev replayed_with :
        Tier F
        → Replays F
        → TierObs F
        → Option (Option Candidate)
        → Work W F
        → Result (Unit {0}) × Replays F × Work W F
    replayed_with tier s o none w = replayed tier s o none w
    replayed_with tier s o (some none) w = (fault, s, w)
    replayed_with tier s o (some (some c)) w = replayed tier s o (some c) w

    unfoldable pub replay_tier :
        ℕ → Tier F → Replays F → Work W F → Result (Unit {0}) × Replays F × Work W F
    unfolding judge_levels
    replay_tier k tier s w =
        let (r, u) =
          drawn env q cfg cert refs pinned_api strictness parse tier problem spec plan w in
        elim r [
          | err e ↦ (err e, s, u)
          | fault ↦ (fault, s, u)
          | ok cands ↦
              let d = decided env q cfg cert refs pinned_api strictness parse cands in
              let o = record (base_obs tier d) { cost = plus_plan k plan_usd u.cost.total_usd } in
              replayed_with tier s o (rep_of d d.winner) u
        ]

  abbrev replayed_profile :
      (id problem judge : String)
      → List String
      → Result Spec × Session W F
      → Result (Unit {0}) × Option (Replays F)
  replayed_profile id problem judge levels (err e, s) = (err ("spec phase: " <> e), none)
  replayed_profile id problem judge levels (fault, s) = (fault, none)
  replayed_profile id problem judge levels (ok spec, s) =
      let (plan, after) = draw_plan env cfg cert problem spec s.work.world in
      let start : Replays F = record {
        exec = unplanned id problem;
        judges = fresh_levels id problem levels;
      } in
      let (r, recs, w) =
        tier_loop env.expired (replay_tier judge problem spec plan.reply.text plan.usd levels) 0
          cfg.tiers start (record (s.work) { world = after }) in
      (r, some recs)

  unfoldable pub profile_strictness_replay :
      (id problem judge : String)
      → List String
      → Session W F
      → Result (Unit {0}) × Option (Replays F)
  unfolding replay_tier tier_loop fresh_levels judge_or_default
  profile_strictness_replay id problem judge levels s =
      replayed_profile id problem
        (judge_or_default env q cfg cert refs pinned_api strictness parse judge) levels
        (spec_phase env q cfg cert problem "" s)
