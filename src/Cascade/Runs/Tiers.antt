-- ===== src/Cascade/Runs/Tiers.antt =====
-- The loop over the tiers as a sequence of changes (internal/cascade/cascade.go).
use go_cascade.Base.{
  str_eq, Bool-cases, Option-cases, if_ind, Result, ok, is_none, well, badly, panicked, Result-Came,
  get_elem?, is_empty, ℕ, suc, String, refl, inl, inr, Bool, not, ◌&&◌, Option, none, some, List,
  [], ◌∷◌,
}
use go_cascade.Float.{Float}
use go_cascade.Cluster.{Candidate}
use go_cascade.Cascade.State.{Tier, Config, Answer, Spec, Work, Services, threshold}
use go_cascade.Calibrate.Certify.{Certificate}
use go_cascade.Cascade.Sampling.{
  best_refuted, any_timed_out, accept_one, sample_tier, prefer_repair,
}
use go_cascade.Cascade.Sequential.{
  draw_plan, with_repaired, Draw, Attempt, solves, moves_on, passes, candidate_at, no_winner,
  try_accept, judge, attempt, run_tiers, sequential, cascade_plan, rescue, draw,
}
use go_cascade.Cascade.Runs.{
  calls, pays, computes, logs, Runs, stays, then_, record_failure-Runs, sample_tier-Runs,
  repair_loop-Runs,
}

module _ {ℓ} {W F : Type ℓ} ⦃fl : Float F⦄ (env : Services W F) (cfg : Config F)
    (cert : Option (Certificate F)) where
  cascade_plan-Runs :
      {o w : Work W F} (problem : String) (spec : Spec)
      → Runs env cfg o w
      → Runs env cfg o (cascade_plan env cfg cert problem spec w).1
  unfolding cascade_plan
  cascade_plan-Runs {o = o} {w = w} problem spec r =
      let plan = (draw_plan env cfg cert problem spec w.world).0 in
      if_ind (Runs env cfg o) (str_eq plan.reply.text "") (λ _. then_ r (calls _))
        (λ _. then_ (then_ r (calls _)) (pays plan.reply plan.usd))

  with_repaired-Runs :
      {o : Work W F} (d : Draw F) (p : Option Candidate × Work W F)
      → Runs env cfg o p.1
      → Runs env cfg o (with_repaired env cfg cert d p).1
  with_repaired-Runs d (none, w) r = r
  with_repaired-Runs d (some c, w) r = r

  rescue-Runs :
      {o w : Work W F} (tier : Tier F) (next : Option (Tier F)) (problem : String) (spec : Spec)
      (d : Draw F)
      → Runs env cfg o w
      → Runs env cfg o (rescue env cfg cert tier next problem spec d w).1
  unfolding rescue
  rescue-Runs {w = w} tier next problem spec d r =
      let ph = env.problem_hash problem in
      let recorded = record_failure-Runs env cfg ph d.cands r in
      elim (Option-cases (best_refuted d.cands)) [
        | inl e ↦ rw (e, rescue) recorded
        | inr (best, e) ↦
            rw (e, rescue)
              (elim (Bool-cases (prefer_repair env cfg tier next)) [
                | inl f ↦ rw f (
                    with_repaired-Runs d _ (
                      repair_loop-Runs env cfg tier.repair_depth 0 tier problem spec best recorded))
                | inr f ↦ rw f recorded
              ])
      ]

  try_accept-Runs :
      {o w : Work W F} (k : ℕ) (tier : Tier F) (last : Bool) (problem : String) (spec : Spec)
      (carried : List String) (d : Draw F) (rep : Candidate)
      → Runs env cfg o w
      → Runs env cfg o (try_accept env cfg cert k tier last problem spec carried d rep w).1
  unfolding try_accept
  try_accept-Runs {o = o} {w = w} k tier last problem spec carried d rep r =
      let acc = (accept_one env cfg rep.source spec w.world).0 in
      let tried = then_ (then_ r (calls _)) (computes _) in
      if_ind {A = Result (Attempt F) × Work W F} (λ p. Runs env cfg o p.1) (not (passes acc))
        (λ _.
          then_ (record_failure-Runs env cfg (env.problem_hash problem) (rep ∷ []) tried)
            (logs _ refl))
        (λ _. then_ tried (logs _ refl))

  judge-Runs :
      {o w : Work W F} (k : ℕ) (tier : Tier F) (last : Bool) (problem : String) (spec : Spec)
      (carried : List String) (cands : List Candidate) (d : Draw F)
      → Runs env cfg o w
      → Runs env cfg o (judge env cfg cert k tier last problem spec carried cands d w).1
  unfolding judge no_winner
  judge-Runs {o = o} k tier last problem spec carried cands d r = elim (Option-cases d.winner) [
    | inl e ↦ rw (e, judge) (then_ r (logs _ refl))
    | inr (c, e) ↦
        rw (e, judge)
          (elim (Option-cases (candidate_at c.rep d.cands)) [
            | inl f ↦ rw f r
            | inr (rep, f) ↦ rw f (
                if_ind {A = Result (Attempt F) × Work W F} (λ p. Runs env cfg o p.1)
                  (fl.lt d.score (threshold cert k).0 && not last) (λ _. then_ r (logs _ refl))
                  (λ _. try_accept-Runs k tier last problem spec carried d rep r))
          ])
  ]

  attempt-Runs :
      {o w : Work W F} (k : ℕ) (tier : Tier F) (later : List (Tier F)) (problem : String)
      (spec : Spec) (carried : List String) (cands : List Candidate)
      → Runs env cfg o w
      → Runs env cfg o (attempt env cfg cert k tier later problem spec carried cands w).1
  unfolding attempt
  attempt-Runs {o = o} k tier later problem spec carried cands r =
      let first = draw env cfg cert cands (any_timed_out cands) in
      judge-Runs k tier (is_empty later) problem spec carried cands _ (
        if_ind {A = Draw F × Work W F} (λ p. Runs env cfg o p.1) (is_none first.winner)
          (λ _. rescue-Runs tier (get_elem? later 0) problem spec first r) (λ _. r))

  moved :
      {o : Work W F} (t : Attempt F) (u : Work W F)
      (next : List String → Result (Option (Answer F)) × Work W F)
      → Runs env cfg o u
      → ((c : List String) → Runs env cfg o (next c).1)
      → let r : Result (Option (Answer F)) × Work W F = elim t [
        | solves ans ↦ (ok (some ans), u)
        | moves_on c ↦ next c
      ] in
        Runs env cfg o r.1
  moved (solves ans) u next r f = r
  moved (moves_on c) u next r f = f c

  run_tiers-Runs :
      {o : Work W F} (k : ℕ) (tiers : List (Tier F)) (problem : String) (spec : Spec)
      (carried : List String) (plan : String) {w : Work W F}
      → Runs env cfg o w
      → Runs env cfg o (run_tiers env cfg cert k tiers problem spec carried plan w).1
  unfolding run_tiers
  run_tiers-Runs k [] problem spec carried plan r = r
  run_tiers-Runs k (tier ∷ later) problem spec carried plan {w = w} r =
      let s = sample_tier env cfg tier problem spec carried plan w in
      let drawn = sample_tier-Runs env cfg tier problem spec carried plan r in
      elim (Option-cases (env.expired w.world)) [
        | inr (m, e) ↦ rw (e, run_tiers) r
        | inl e ↦
            rw (e, run_tiers)
              (elim (Result-Came s.0) [
                | badly m f ↦ rw f drawn
                | panicked f ↦ rw f drawn
                | well cands f ↦
                    let u = (attempt env cfg cert k tier later problem spec carried cands s.1).1 in
                    let done = attempt-Runs k tier later problem spec carried cands drawn in
                    rw f
                      (elim (Result-Came
                        (attempt env cfg cert k tier later problem spec carried cands s.1).0) [
                          | badly m g ↦ rw g done
                          | panicked g ↦ rw g done
                          | well t g ↦ rw g (
                              moved t u
                                (λ c. run_tiers env cfg cert (suc k) later problem spec c plan u)
                                done (λ c. run_tiers-Runs (suc k) later problem spec c plan done))
                        ])
              ])
      ]

  -- The sequential topology changes the router's state by nothing but calls of the outside, charges
  -- of `addModel` and `addCompute`, trace entries that give the cost so far, and `AddFailure`.
  pub sequential-Runs :
      {w : Work W F} (problem : String) (spec : Spec)
      → Runs env cfg w (sequential env cfg cert problem spec w).1
  unfolding sequential
  sequential-Runs problem spec =
      run_tiers-Runs 0 cfg.tiers problem spec [] _ (cascade_plan-Runs problem spec stays)
