-- ===== src/Cascade/SelfConsistency.antt =====
-- The self-consistency arm at matched cost (internal/cascade/selfconsistency.go): as many candidates as
-- a budget buys, the textual vote's choice, and the choice of the clusters, both run.
use go_cascade.Base.{
  ltb, str_eq, if◌then◌else◌, Result, ok, err, fault, length, get_elem?, int_arg, ℤ, pos, negsuc, ℕ,
  zero, suc, String, ◌<>◌, Bool, true, false, Option, none, some, List, [], ◌∷◌, ◌++◌,
}
use go_cascade.Float.{Float}
use go_cascade.Calibrate.Certify.{Certificate}
use go_cascade.Calibrate.Stats.{Math}
use go_cascade.Cluster.{Candidate, behaviour}
use go_cascade.Cluster.Text.{Texts, text_vote}
use go_cascade.Cascade.State.{Tier, Config, Spec, Work, Services}
use go_cascade.Cascade.Sampling.{accept_one, any_timed_out, sample_tier_n}
use go_cascade.Cascade.Sequential.{Draw, draw, draw_plan, candidate_at, passes}
use go_cascade.Cascade.Query.{Queries, Session, spec_phase}
use go_cascade.Cascade.Speculative.{no_cost}

pub record Observation {ℓ} (F : Type ℓ) : Type ℓ where
  pub id : String
  pub tier : String
  pub budget_usd : F
  pub spent_usd : F
  pub over_budget_usd : F
  pub spec_usd : F
  pub fanout : ℕ
  pub degenerate : Bool
  pub text_correct : Bool
  pub text_mass : F
  pub cluster_correct : Bool
  pub cluster_score : F
  pub cluster_abstained : Bool
  pub agreed : Bool
  pub skipped : String

pub record Batch {ℓ} (F : Type ℓ) : Type ℓ where
  pub cands : List Candidate
  pub spent : F

abbrev pub min_vote : ℕ
min_vote = 3

module _ {ℓ} {W F : Type ℓ} ⦃fl : Float F⦄ ⦃m : Math F⦄ (env : Services W F) (q : Queries W F)
    (cfg : Config F) (cert : Option (Certificate F)) (texts : Texts) where
  open fl use {lit, add, sub, div, lt, le}

  -- `n` candidates with seeds from `seed` on, at their own cost.
  unfoldable pub sample_n :
      Tier F → String → Spec → String → (n seed : ℕ) → Work W F → Result (Batch F) × Work W F
  sample_n tier problem spec plan n seed w =
      let (r, u) =
        sample_tier_n env cfg n seed tier problem spec [] plan (record w { cost = no_cost }) in
      elim r [
        | err e ↦ (err e, u)
        | fault ↦ (fault, u)
        | ok cands ↦ (ok (record { cands = cands; spent = u.cost.total_usd }), u)
      ]

  module _ (spec : Spec) where
    -- The clusters' choice on the same candidates.
    abbrev clustered :
        Observation F
        → Candidate
        → Draw F
        → Option (Option Candidate)
        → W
        → Result (Observation F) × W
    clustered o won d none w =
        (ok (record o { cluster_score = d.score; cluster_abstained = true }), w)
    clustered o won d (some none) w = (fault, w)
    clustered o won d (some (some rep)) w =
        let (acc, w') = accept_one env cfg rep.source spec w in
        (
          ok (record o {
            cluster_score = d.score;
            cluster_correct = passes acc;
            agreed = str_eq (behaviour env.digest won) (behaviour env.digest rep);
          }),
          w',
        )

    abbrev chosen : Draw F → Option (Option Candidate)
    chosen d = elim d.winner [ none ↦ none | some c ↦ some (candidate_at c.rep d.cands) ]

    abbrev voted :
        Observation F → List Candidate → F → Option Candidate → W → Result (Observation F) × W
    voted o cands mass none w = (fault, w)
    voted o cands mass (some won) w =
        let (acc, w') = accept_one env cfg won.source spec w in
        let d = draw env cfg cert cands (any_timed_out cands) in
        clustered (record o { text_mass = mass; text_correct = passes acc }) won d (chosen d) w'

    -- Both selectors on the candidates that were drawn.
    unfoldable pub score_selectors : Observation F → List Candidate → W → Result (Observation F) × W
    score_selectors o cands w = elim (text_vote texts {F = F} cands) [
      | none ↦ (ok (record o { skipped = "no candidates drawn" }), w)
      | some (i, mass) ↦ voted o cands mass (candidate_at i cands) w
    ]

    abbrev counted : Observation F → List Candidate → F → Observation F
    counted o cands spent = record o {
      spent_usd = spent;
      over_budget_usd = if lt o.budget_usd spent then sub spent o.budget_usd else o.over_budget_usd;
      fanout = length cands;
      degenerate = ltb (length cands) min_vote;
    }

    abbrev zero_cost : String
    zero_cost =
        "probe sample reported zero cost; per-sample cost is unknown so no budget can be matched (a mock provider will do this)"

    -- The draws that the rest of the budget buys.
    abbrev wanted : F → F → ℤ
    wanted budget unit = m.to_int (m.floor (div (sub budget unit) unit))

    abbrev with_more :
        Observation F
        → List Candidate
        → F
        → Result (Batch F) × Work W F
        → Result (Observation F) × W
    with_more o cands spent (err e, w) = (err e, w.world)
    with_more o cands spent (fault, w) = (fault, w.world)
    with_more o cands spent (ok more, w) =
        let all = cands ++ more.cands in
        score_selectors (counted o all (add spent more.spent)) all w.world

    unfoldable pub spend :
        Tier F → String → String → Observation F → Batch F → Work W F → Result (Observation F) × W
    unfolding sample_n score_selectors
    spend tier problem plan o probe w =
        let enough = score_selectors (counted o probe.cands probe.spent) probe.cands w.world in
        let more =
          λ (n : ℕ). with_more o probe.cands probe.spent (sample_n tier problem spec plan n 1 w) in
        if le probe.spent (lit 0 0)
        then (ok (record o { skipped = zero_cost }), w.world)
        else elim (wanted o.budget_usd probe.spent) [
          | negsuc k ↦ enough
          | pos zero ↦ enough
          | pos (suc n) ↦ more (suc n)
        ]

  abbrev fresh_observation : String → Tier F → F → F → Observation F
  fresh_observation id tier budget spec_usd = record {
    id = id;
    tier = tier.name;
    budget_usd = budget;
    spent_usd = lit 0 0;
    over_budget_usd = lit 0 0;
    spec_usd = spec_usd;
    fanout = 0;
    degenerate = false;
    text_correct = false;
    text_mass = lit 0 0;
    cluster_correct = false;
    cluster_score = lit 0 0;
    cluster_abstained = false;
    agreed = false;
    skipped = "";
  }

  abbrev probed :
      Tier F
      → String
      → Spec
      → String
      → Observation F
      → Result (Batch F) × Work W F
      → Result (Observation F) × W
  probed tier problem spec plan o (err e, w) = (err e, w.world)
  probed tier problem spec plan o (fault, w) = (fault, w.world)
  probed tier problem spec plan o (ok probe, w) = spend spec tier problem plan o probe w

  abbrev contracted :
      String → Tier F → String → F → Result Spec × Session W F → Result (Observation F) × W
  contracted id tier problem budget (err e, s) = (err ("spec phase: " <> e), s.work.world)
  contracted id tier problem budget (fault, s) = (fault, s.work.world)
  contracted id tier problem budget (ok spec, s) =
      let (plan, world) = draw_plan env cfg cert problem spec s.work.world in
      let o = fresh_observation id tier budget (add s.work.cost.total_usd plan.usd) in
      probed tier problem spec plan.reply.text o
        (sample_n tier problem spec plan.reply.text 1 0 (record (s.work) { world = world }))

  -- For the tier of an index that is not negative; the specification is at its own cost.
  unfoldable pub self_consistency :
      (id problem pinned : String) → ℕ → F → Session W F → Result (Observation F) × W
  unfolding spend sample_n
  self_consistency id problem pinned k budget s =
      let bad =
        env.sprintf "tier index %d out of range for %d tiers"
          (int_arg k ∷ int_arg (length cfg.tiers) ∷ []) in
      elim (get_elem? cfg.tiers k) [
        | none ↦ (err bad, s.work.world)
        | some tier ↦ contracted id tier problem budget (
            spec_phase env q cfg cert problem pinned
              (record s { work = record (s.work) { cost = no_cost } }))
      ]
