-- ===== src/Cascade/Sequential.antt =====
-- The sequential topology: `sequential`, `cascadePlan`, `indexOf`, `acceptReason`,
-- `thresholdReason`, `summarise` (internal/cascade/cascade.go). Times are left out.
use go_cascade.Base.{
  ◌⊎◌, ◌==◌, str_eq, if◌then◌else◌, Result, ok, err, fault, ◌>>=◌, is_none, get_elem?, is_empty,
  float_arg, str_arg, ℕ, suc, String, ◌<>◌, inl, inr, Bool, true, false, not, ◌&&◌, ◌||◌, Option,
  none, some, List, [], ◌∷◌, ◌++◌,
}
use go_cascade.Float.{Float}
use go_cascade.Verify.Stages.{stage_name, Static, Report, report_timed_out}
use go_cascade.Cluster.{Candidate, Cluster, group, score}
use go_cascade.Cascade.State.{
  Response, Tier, Config, Action, accepted, escalated, rejected, Step, Answer, Spec, Work, Services,
  plan_cost, contaminated_by, calibrated, threshold,
}
use go_cascade.Calibrate.Certify.{Certificate}
use go_cascade.Cascade.Sampling.{
  best_refuted, any_timed_out, accept_one, charge_compute, charge_model, sample_tier,
  record_failure, prefer_repair, push, repair_loop,
}

-- `cands[indexOf(cands, idx)]`: the first of that index, or else the first.
unfoldable pub candidate_at : ℕ → List Candidate → Option Candidate
candidate_at idx [] = none
candidate_at idx (c ∷ cs) =
    if c.index == idx then some c else elim (find cs) [ none ↦ some c | some d ↦ some d ]
  where
    find : List Candidate → Option Candidate
    find [] = none
    find (d ∷ ds) = let rest = find ds in if d.index == idx then some d else rest

-- What a tier has to decide on.
pub record Draw {ℓ} (F : Type ℓ) : Type ℓ where
  pub cands : List Candidate
  pub clusters : List (Cluster F)
  pub score : F
  pub winner : Option (Cluster F)
  pub timed_out : Bool

-- What a tier comes to: an answer, or the diagnostics that the next tier starts with.
pub data Attempt {ℓ} (F : Type ℓ) : Type ℓ where
  solves : Answer F → Attempt F
  moves_on : List String → Attempt F

abbrev pub passes : Option Report → Bool
passes none = false
passes (some r) = r.ok_

abbrev pub diag_of : Option Report → String
diag_of none = ""
diag_of (some r) = r.diagnostic

abbrev pub cpu_of : Option Report → ℕ
cpu_of none = 0
cpu_of (some r) = r.cpu_time

abbrev pub timed : Option Report → Bool
timed none = false
timed (some r) = report_timed_out (some r)

abbrev pub static_of : Option Report → Result (Option Static)
static_of none = fault
static_of (some r) = ok r.static

-- The reply of the planner, and its price.
pub record Plan {ℓ} (F : Type ℓ) : Type ℓ where
  pub reply : Response
  pub usd : F

abbrev pub no_plan {ℓ} : {F : Type ℓ} ⦃fl : Float F⦄ → Plan F
no_plan ⦃fl⦄ = record {
  reply = record { text = ""; input_tokens = 0; output_tokens = 0 };
  usd = fl.lit 0 0;
}

module _ {ℓ} {W F : Type ℓ} ⦃fl : Float F⦄ (env : Services W F) (cfg : Config F)
    (cert : Option (Certificate F)) where
  open env use {generate, problem_hash, sprintf}

  abbrev pub plan_from : String ⊎ Response → Plan F
  plan_from (inl e) = no_plan
  plan_from (inr resp) = record {
    reply = resp;
    usd = plan_cost cfg resp.input_tokens resp.output_tokens;
  }

  -- `cascadePlan`
  unfoldable pub draw_plan : String → Spec → W → Plan F × W
  draw_plan problem spec w =
      let (answer, w') = generate cfg.planner_model (env.plan_user problem spec.api) 0 w in
      if str_eq cfg.planner_model "" then (no_plan, w) else (plan_from answer, w')

  -- The plan's text, and its charge.
  unfoldable pub cascade_plan : String → Spec → Work W F → String × Work W F
  unfolding draw_plan
  cascade_plan problem spec w =
      let (plan, world) = draw_plan problem spec w.world in
      let w' = record w { world = world } in
      (
        plan.reply.text,
        if str_eq plan.reply.text "" then w' else charge_model env cfg plan.reply plan.usd w',
      )

  unfoldable pub draw : List Candidate → Bool → Draw F
  draw cands timed_out =
      let clusters = group env.digest cands in
      let (s, w) = score env.sqrt env.min_of env.max_of clusters in
      record { cands = cands; clusters = clusters; score = s; winner = w; timed_out = timed_out }

  abbrev summarise : Option Report → String
  summarise none = ""
  summarise (some r) = stage_name r.failed_at <> ": " <> env.first_line r.diagnostic

  unfoldable pub threshold_reason : F → F → Bool → String
  threshold_reason s tau certified = sprintf "behavioural agreement %.2f %s %.2f (%s)" (
      float_arg s
      ∷ str_arg (if fl.lt s tau then "<" else ">=")
      ∷ float_arg tau
      ∷ str_arg (if not certified then "uncalibrated prior" else "calibrated threshold")
      ∷ [])

  unfoldable pub accept_reason : F → F → Bool → Bool → String
  unfolding threshold_reason
  accept_reason s tau certified last =
      if last
      then sprintf "final tier: accepts by construction (behavioural agreement %.2f)"
          (float_arg s ∷ [])
      else threshold_reason s tau certified

  abbrev tier_step : Tier F → Action → Draw F → F → String → F → Step F
  tier_step tier action d tau reason cost = record {
    stage = "tier";
    tier = tier.name;
    action = action;
    score = d.score;
    threshold = tau;
    clusters = d.clusters;
    reason = reason;
    diagnostic = "";
    cost_so_far = cost;
    timed_out = d.timed_out;
  }

  abbrev pub with_repaired : Draw F → Option Candidate × Work W F → Draw F × Work W F
  with_repaired d (none, w) = (d, w)
  with_repaired d (some c, w) =
      (draw (d.cands ++ (c ∷ [])) (d.timed_out || report_timed_out c.report), w)

  -- No survivor: the failures are recorded, and the best is repaired if that is preferred.
  unfoldable pub rescue :
      Tier F → Option (Tier F) → String → Spec → Draw F → Work W F → Draw F × Work W F
  rescue tier next problem spec d w =
      let w' = record w { store = record_failure env cfg (problem_hash problem) d.cands w.store } in
      elim (best_refuted d.cands) [
        | none ↦ (d, w')
        | some best ↦
            with_repaired_if (prefer_repair env cfg tier next) d w'
              (repair_loop env cfg tier.repair_depth 0 tier problem spec best w')
      ]
    where
      with_repaired_if : Bool → Draw F → Work W F → Option Candidate × Work W F → Draw F × Work W F
      with_repaired_if false d w r = (d, w)
      with_repaired_if true d w r = with_repaired d r

  unfoldable pub no_winner :
      Tier F → List String → List Candidate → Draw F → Work W F → Attempt F × Work W F
  no_winner tier carried cands d w =
      let st =
        record (tier_step tier escalated d (fl.lit 0 0)
          "every sample refuted by the verifier ladder" w.cost.total_usd) { score = fl.lit 0 0 } in
      (
        moves_on (elim (best_refuted cands) [
          | none ↦ carried
          | some best ↦ carried ++ (summarise best.report ∷ [])
        ]),
        push env cfg st w,
      )

  -- The held-out partition refuses or passes the representative.
  unfoldable pub try_accept :
      ℕ
      → Tier F
      → Bool
      → String
      → Spec
      → List String
      → Draw F
      → Candidate
      → Work W F
      → Result (Attempt F) × Work W F
  unfolding accept_reason
  try_accept k tier last problem spec carried d rep w =
      let (tau, certified) = threshold cert k in
      let (acc, world) = accept_one env cfg rep.source spec w.world in
      let cpu = cpu_of acc in
      let u = charge_compute env cfg cpu (record w { world = world }) in
      let d' = record d { timed_out = d.timed_out || timed acc } in
      let refused =
        push env cfg
          (record (tier_step tier rejected d' tau
            "passed the visible tests, refuted by the held-out partition" u.cost.total_usd) {
              diagnostic = diag_of acc;
            })
          (record u { store = record_failure env cfg (problem_hash problem) (rep ∷ []) u.store }) in
      let taken =
        push env cfg
          (tier_step tier accepted d' tau (accept_reason d.score tau certified last)
            u.cost.total_usd)
          u in
      if not (passes acc)
      then (
        ok (
            moves_on (
              carried
              ++ ("a prior candidate passed the visible tests but failed the held-out partition"
                  ∷ []))),
        refused,
      )
      else (
        static_of rep.report >>= (λ st. ok (
            solves (record {
              solution = rep.source;
              solved = true;
              accepted_at = tier.name;
              score = d.score;
              static = st;
              certified = calibrated cert;
              certificate = cert;
              oracle_contaminated = contaminated_by cfg tier;
            }))),
        taken,
      )

  unfoldable pub judge :
      ℕ
      → Tier F
      → Bool
      → String
      → Spec
      → List String
      → List Candidate
      → Draw F
      → Work W F
      → Result (Attempt F) × Work W F
  unfolding no_winner candidate_at threshold_reason
  judge k tier last problem spec carried cands d w =
      let (tau, certified) = threshold cert k in
      elim d.winner [
        | none ↦ let (a, u) = no_winner tier carried cands d w in (ok a, u)
        | some c ↦ elim (candidate_at c.rep d.cands) [
          | none ↦ (fault, w)
          | some rep ↦
              if fl.lt d.score tau && not last
              then (
                ok (
                    moves_on (
                      carried
                      ++ (sprintf "behavioural agreement was only %.2f" (float_arg d.score ∷ [])
                          ∷ []))),
                push env cfg
                    (tier_step tier escalated d tau (threshold_reason d.score tau certified)
                      w.cost.total_usd)
                    w,
              )
              else try_accept k tier last problem spec carried d rep w
        ]
      ]

  -- One turn of the loop, behind the fan-out.
  unfoldable pub attempt :
      ℕ
      → Tier F
      → List (Tier F)
      → String
      → Spec
      → List String
      → List Candidate
      → Work W F
      → Result (Attempt F) × Work W F
  attempt k tier later problem spec carried cands w =
      let first = draw cands (any_timed_out cands) in
      let settled =
        if is_none first.winner
        then rescue tier (get_elem? later 0) problem spec first w
        else (first, w) in
      judge k tier (is_empty later) problem spec carried cands settled.0 settled.1

  -- The loop from tier `k` on.
  unfoldable pub run_tiers :
      ℕ
      → List (Tier F)
      → String
      → Spec
      → List String
      → String
      → Work W F
      → Result (Option (Answer F)) × Work W F
  run_tiers k [] problem spec carried plan w = (ok none, w)
  run_tiers k (tier ∷ later) problem spec carried plan w =
      let next =
        λ (c : List String) (u : Work W F). run_tiers (suc k) later problem spec c plan u in
      elim (env.expired w.world) [
        | some e ↦ (err e, w)
        | none ↦
            let (r, u) = sample_tier env cfg tier problem spec carried plan w in
            elim r [
              | err e ↦ (err e, u)
              | fault ↦ (fault, u)
              | ok cands ↦
                  let (a, v) = attempt k tier later problem spec carried cands u in
                  elim a [
                    | err e ↦ (err e, v)
                    | fault ↦ (fault, v)
                    | ok t ↦ elim t [ solves ans ↦ (ok (some ans), v) | moves_on c ↦ next c v ]
                  ]
            ]
      ]

  unfoldable pub sequential : String → Spec → Work W F → Result (Option (Answer F)) × Work W F
  sequential problem spec w =
      let (plan, u) = cascade_plan problem spec w in run_tiers 0 cfg.tiers problem spec [] plan u
