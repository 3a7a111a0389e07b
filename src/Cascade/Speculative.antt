-- ===== src/Cascade/Speculative.antt =====
-- The latency-bounded topology: `speculative` (internal/cascade/cascade.go). The tiers, which start at
-- once, run here in the order of their index; the winners are sorted by that index anyway.
use go_cascade.Base.{
  Result, ok, err, fault, ◌>>=◌, ◌+◌, String, Bool, true, false, ◌||◌, Option, none, some, List, [],
  ◌∷◌, ◌++◌,
}
use go_cascade.Float.{Float}
use go_cascade.Verify.Stages.{Static}
use go_cascade.Cluster.{Candidate, Cluster}
use go_cascade.Calibrate.Certify.{Certificate}
use go_cascade.Cascade.State.{
  Tier, Config, Cost, Action, accepted, escalated, rejected, Step, Answer, Spec, Work, Services,
  contaminated_by, calibrated,
}
use go_cascade.Cascade.Sampling.{
  any_timed_out, accept_one, charge_compute, sample_tier, plain_step, push,
}
use go_cascade.Cascade.Sequential.{
  candidate_at, Draw, passes, cpu_of, timed, static_of, cascade_plan, draw,
}

-- The best verified candidate of a tier.
pub record Winner {ℓ} (F : Type ℓ) : Type ℓ where
  pub tier : Tier F
  pub cand : Candidate
  pub score : F
  pub clusters : List (Cluster F)
  pub timed_out : Bool

module _ {ℓ} {F : Type ℓ} ⦃fl : Float F⦄ where
  abbrev pub no_cost : Cost F
  no_cost = record {
    model_usd = fl.lit 0 0;
    compute_usd = fl.lit 0 0;
    total_usd = fl.lit 0 0;
    input_tokens = 0;
    output_tokens = 0;
    verifier_time = 0;
    model_calls = 0;
  }

  -- What a tier's own costs add to those of the query.
  unfoldable pub merge_cost : Cost F → Cost F → Cost F
  merge_cost c l =
      let m = fl.add c.model_usd l.model_usd in
      let v = fl.add c.compute_usd l.compute_usd in
      record c {
        model_usd = m;
        compute_usd = v;
        input_tokens = c.input_tokens + l.input_tokens;
        output_tokens = c.output_tokens + l.output_tokens;
        model_calls = c.model_calls + l.model_calls;
        total_usd = fl.add m v;
      }

module _ {ℓ} {W F : Type ℓ} ⦃fl : Float F⦄ (env : Services W F) (cfg : Config F)
    (cert : Option (Certificate F)) where
  -- The tier's fan-out on costs of its own, which are added behind it.
  unfoldable pub sample_local :
      Tier F → String → Spec → String → Work W F → Result (List Candidate) × Work W F
  unfolding merge_cost
  sample_local tier problem spec plan w =
      let (r, u) = sample_tier env cfg tier problem spec [] plan (record w { cost = no_cost }) in
      (r, record u { cost = merge_cost w.cost u.cost })

  abbrev pub winner_with : Tier F → Draw F → Option Candidate → Result (List (Winner F))
  winner_with tier d none = fault
  winner_with tier d (some c) = ok (
      record {
        tier = tier;
        cand = c;
        score = d.score;
        clusters = d.clusters;
        timed_out = d.timed_out;
      }
      ∷ [])

  abbrev pub winner_in : Tier F → Draw F → Option (Cluster F) → Result (List (Winner F))
  winner_in tier d none = ok []
  winner_in tier d (some c) = winner_with tier d (candidate_at c.rep d.cands)

  -- The winner of a tier, if it has one. A tier that failed, or drew nothing, has none.
  unfoldable pub winner_of : Tier F → Result (List Candidate) → Result (List (Winner F))
  winner_of tier (err e) = ok []
  winner_of tier fault = fault
  winner_of tier (ok cands) =
      let d = draw env cfg cert cands (any_timed_out cands) in winner_in tier d d.winner

  unfoldable pub gather :
      List (Tier F) → String → Spec → String → Work W F → Result (List (Winner F)) × Work W F
  unfolding winner_of
  gather [] problem spec plan w = (ok [], w)
  gather (tier ∷ tiers) problem spec plan w =
      let (r, u) = sample_local tier problem spec plan w in
      let (rest, v) = gather tiers problem spec plan u in
      (winner_of tier r >>= (λ ws. rest >>= (λ more. ok (ws ++ more))), v)

  abbrev pub spec_step : Winner F → Action → String → F → Bool → Step F
  spec_step w action reason cost timed_out = record {
    stage = "speculative";
    tier = w.tier.name;
    action = action;
    score = w.score;
    threshold = fl.lit 0 0;
    clusters = w.clusters;
    reason = reason;
    diagnostic = "";
    cost_so_far = cost;
    timed_out = timed_out;
  }

  abbrev pub answer_of : Winner F → Option Static → Answer F
  answer_of w st = record {
    solution = w.cand.source;
    solved = true;
    accepted_at = w.tier.name;
    score = w.score;
    static = st;
    certified = calibrated cert;
    certificate = cert;
    oracle_contaminated = contaminated_by cfg w.tier;
  }

  -- The winners in cost order, against the held-out partition.
  unfoldable pub accept_first :
      List (Winner F) → Spec → Bool → Work W F → Result (Option (Answer F)) × Work W F
  accept_first [] spec timed_out w = (
    ok none,
    push env cfg
        (record (plain_step env cfg "speculative" "" escalated
          "no tier produced a candidate that survived both partitions within the deadline"
          w.cost.total_usd) { timed_out = timed_out })
        w,
  )
  accept_first (x ∷ xs) spec timed_out w =
      let (acc, world) = accept_one env cfg x.cand.source spec w.world in
      let u = charge_compute env cfg (cpu_of acc) (record w { world = world }) in
      let late = x.timed_out || timed acc in
      let refused =
        push env cfg
          (spec_step x rejected "passed the visible tests, refuted by the held-out partition"
            u.cost.total_usd late)
          u in
      let next = λ (v : Work W F). accept_first xs spec (timed_out || x.timed_out) v in
      let taken =
        push env cfg
          (spec_step x accepted
            "cheapest tier whose candidate survived; all tiers were run concurrently to meet the deadline"
            u.cost.total_usd late)
          u in
      elim (passes acc) [
        | false ↦ next refused
        | true ↦ (static_of x.cand.report >>= (λ st. ok (some (answer_of x st))), taken)
      ]

  abbrev pub tried :
      Spec → Result (List (Winner F)) × Work W F → Result (Option (Answer F)) × Work W F
  tried spec (ok ws, w) = accept_first ws spec false w
  tried spec (err e, w) = (err e, w)
  tried spec (fault, w) = (fault, w)

  unfoldable pub speculative : String → Spec → Work W F → Result (Option (Answer F)) × Work W F
  speculative problem spec w =
      let (plan, u) = cascade_plan env cfg cert problem spec w in
      tried spec (gather cfg.tiers problem spec plan u)
