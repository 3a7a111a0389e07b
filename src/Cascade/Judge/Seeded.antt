-- ===== src/Cascade/Judge/Seeded.antt =====
-- The judge on programs that are provably wrong: `ProfileSeeded` (internal/cascade/judge.go). The bench of the
-- mutants is one in a world.
pub mod Counts
pub mod Counted
pub mod Course
pub mod Tally
use go_cascade.Base.{
  str_eq, if◌then◌else◌, is_empty, Result, ok, err, fault, length, ℕ, suc, String, ◌<>◌, ◌⊎◌, inl,
  inr, Bool, true, false, Option, none, some, List, [], ◌∷◌, ◌++◌, map,
}
use go_cascade.Float.{Float}
use go_cascade.Cluster.{Candidate}
use go_cascade.Calibrate.Certify.{Certificate}
use go_cascade.Cascade.State.{Tier, Config, Spec, Work, Services}
use go_cascade.Cascade.Sequential.{draw_plan}
use go_cascade.Cascade.Query.{Queries, Session, spec_phase}
use go_cascade.Cascade.Profile.{rep_of}
use go_cascade.Cascade.Judge.{drawn, decided, judge_at, judge_or_default}
use go_cascade.Cascade.Judge.Levels.{assign, change}
use go_cascade.Verify.Mutation.Harvest.{
  Bench, KilledMutant, killed_mutants, race_killed_mutants, scar_free_race_killed_mutants,
}

pub data SeedKind : Type 0 where
  seed_logic seed_race seed_scar_free_race : SeedKind

unfoldable pub seed_kind_name : SeedKind → String
seed_kind_name seed_logic = "logic"
seed_kind_name seed_race = "race"
seed_kind_name seed_scar_free_race = "scar-free-race"

pub record SeededMutant : Type 0 where
  pub desc : String
  pub source : String
  pub data_race : Bool
  pub plain_refuted : Bool
  pub verdicts : List (String × Bool)

pub record SeededVerdict : Type 0 where
  pub level : String
  pub judged : ℕ
  pub false_accept : ℕ

pub record SeededRecord : Type 0 where
  pub id : String
  pub kind : String
  pub seeds : ℕ
  pub mutants : List SeededMutant
  pub levels : List SeededVerdict
  pub no_seed : String

abbrev pub Tallies : Type 0
Tallies = List (String × SeededVerdict)

abbrev pub fresh_verdict : String → SeededVerdict
fresh_verdict l = record { level = l; judged = 0; false_accept = 0 }

abbrev pub counted : Bool → SeededVerdict → SeededVerdict
counted pass v = record v {
  judged = suc v.judged;
  false_accept = if pass then suc v.false_accept else v.false_accept;
}

unfoldable pub fresh_tallies : List String → Tallies
unfolding assign
fresh_tallies [] = []
fresh_tallies (l ∷ ls) = assign l (fresh_verdict l) (fresh_tallies ls)

tally_of : String → Tallies → Option SeededVerdict
tally_of l [] = none
tally_of l ((k, v) ∷ ts) = let rest = tally_of l ts in if str_eq k l then some v else rest

abbrev tally_or_fresh : String → Option SeededVerdict → SeededVerdict
tally_or_fresh l none = fresh_verdict l
tally_or_fresh l (some v) = v

-- The tallies in the caller's order.
unfoldable pub flush : List String → Tallies → List SeededVerdict
unfolding tally_of
flush levels ts = map (λ l. tally_or_fresh l (tally_of l ts)) levels

abbrev pub unjudged : KilledMutant → SeededMutant
unjudged k = record {
  desc = k.desc;
  source = k.source;
  data_race = k.data_race;
  plain_refuted = k.plain_refuted;
  verdicts = [];
}

abbrev pub no_seed_row : (id : String) → SeedKind → String → SeededRecord
no_seed_row id kind why = record {
  id = id;
  kind = seed_kind_name kind;
  seeds = 0;
  mutants = [];
  levels = [];
  no_seed = why;
}

module _ {ℓ} {W F : Type ℓ} ⦃fl : Float F⦄ (env : Services W F) (q : Queries W F) (cfg : Config F)
    (cert : Option (Certificate F)) (refs : String → Option String) (pinned_api : String → String)
    (strictness : String) (parse : String → Option Bool) where
  module _ (judge problem api : String) where
    -- One mutant at each level: its verdicts, and the tallies.
    unfoldable pub judge_mutant :
        List String → SeededMutant → Tallies → W → Option String × (SeededMutant × (Tallies × W))
    unfolding assign change
    judge_mutant [] sm ts w = (none, (sm, (ts, w)))
    judge_mutant (l ∷ ls) sm ts w =
        let (v, w') =
          judge_at env q cfg cert refs pinned_api strictness parse l judge problem api sm.source
            w in
        let next = λ (pass : Bool).
          judge_mutant ls (record sm { verdicts = assign l pass sm.verdicts })
            (change l (counted pass) ts) w' in
        elim v [ inl e ↦ (some e, (sm, (ts, w'))) | inr (pass, usd) ↦ next pass ]

    -- The loop over the mutants, up to the first error.
    unfoldable pub judge_mutants :
        List String
        → List KilledMutant
        → List SeededMutant
        → Tallies
        → W
        → Option String × (List SeededMutant × (Tallies × W))
    unfolding judge_mutant
    judge_mutants ls [] done ts w = (none, (done, (ts, w)))
    judge_mutants ls (k ∷ ks) done ts w =
        let (e, (sm, (ts', w'))) = judge_mutant ls (unjudged k) ts w in
        let rest = judge_mutants ls ks (done ++ (sm ∷ [])) ts' w' in
        elim e [ some m ↦ (some m, (done ++ (sm ∷ []), (ts', w'))) | none ↦ rest ]

  abbrev pub result_of : Option String → Result (Unit {0})
  result_of none = ok tt
  result_of (some e) = err e

  -- The mutants of the seed.
  unfoldable pub harvest_of :
      SeedKind → Bench → (n : ℕ) → (race_count timeout : ℕ) → String → String ⊎ List KilledMutant
  harvest_of seed_logic bench n count timeout text = killed_mutants bench n timeout text
  harvest_of seed_race bench n count timeout text = race_killed_mutants bench n count timeout text
  harvest_of seed_scar_free_race bench n count timeout text =
      scar_free_race_killed_mutants bench n count timeout text

  module _ (levels : List String) (kind : SeedKind) (id problem judge : String) where
    unfoldable pub judged_row :
        Spec → List KilledMutant → W → Result (Unit {0}) × Option SeededRecord
    unfolding judge_mutants fresh_tallies flush seed_kind_name
    judged_row spec ks w =
        let (e, (done, (ts, w'))) =
          judge_mutants judge problem spec.api levels ks [] (fresh_tallies levels) w in
        (
          result_of e,
          some (record {
            id = id;
            kind = seed_kind_name kind;
            seeds = length ks;
            mutants = done;
            levels = flush levels ts;
            no_seed = "";
          }),
        )

  module _ (bench : Spec → W → Bench) (race_count timeout n_seed : ℕ) (levels : List String)
      (kind : SeedKind) (id problem judge : String) where
    abbrev harvested_row :
        Spec → W → String ⊎ List KilledMutant → Result (Unit {0}) × Option SeededRecord
    harvested_row spec w (inl e) = (err e, none)
    harvested_row spec w (inr ks) =
        if is_empty ks
        then (ok tt, some (no_seed_row id kind "no mutant compiled and was refuted"))
        else judged_row levels kind id problem judge spec ks w

    abbrev seeded_from :
        Spec → Option (Option Candidate) → W → Result (Unit {0}) × Option SeededRecord
    seeded_from spec none w = (ok tt, some (no_seed_row id kind "no verified candidate to mutate"))
    seeded_from spec (some none) w = (fault, none)
    seeded_from spec (some (some c)) w =
        harvested_row spec w (harvest_of kind (bench spec w) n_seed race_count timeout c.source)

    abbrev sampled_row :
        Spec → Result (List Candidate) × Work W F → Result (Unit {0}) × Option SeededRecord
    sampled_row spec (err e, w) = (err e, none)
    sampled_row spec (fault, w) = (fault, none)
    sampled_row spec (ok cands, w) =
        let d = decided env q cfg cert refs pinned_api strictness parse cands in
        seeded_from spec (rep_of d d.winner) w.world

    abbrev tier_row :
        Spec → String → Work W F → List (Tier F) → Result (Unit {0}) × Option SeededRecord
    tier_row spec plan w [] = (fault, none)
    tier_row spec plan w (t ∷ ts) =
        sampled_row spec
          (drawn env q cfg cert refs pinned_api strictness parse t problem spec plan w)

    abbrev seeded_profile : Result Spec × Session W F → Result (Unit {0}) × Option SeededRecord
    seeded_profile (err e, s) = (err ("spec phase: " <> e), none)
    seeded_profile (fault, s) = (fault, none)
    seeded_profile (ok spec, s) =
        let (plan, after) = draw_plan env cfg cert problem spec s.work.world in
        tier_row spec plan.reply.text (record (s.work) { world = after }) cfg.tiers

  -- The row of one problem.
  unfoldable pub profile_seeded :
      (Spec → W → Bench)
      → (race_count timeout n_seed : ℕ) → List String
      → SeedKind
      → (id problem judge : String) → Session W F
      → Result (Unit {0}) × Option SeededRecord
  unfolding judged_row harvest_of judge_or_default
  profile_seeded bench count timeout n levels kind id problem judge s =
      seeded_profile bench count timeout n levels kind id problem
        (judge_or_default env q cfg cert refs pinned_api strictness parse judge)
        (spec_phase env q cfg cert problem "" s)
