-- ===== src/Cascade/HeldOut.antt =====
-- The run of the held-out partition behind an answer (internal/cascade/cascade.go).
use go_cascade.Base.{
  if◌then◌else◌, Option-cases, Result, ok, err, fault, ◌>>=◌, is_empty, ℕ, suc, String, ◌≡◌, refl,
  sym, ap, subst, inl, inr, Bool, true, false, not, ◌&&◌, Option, none, some, List, [], ◌∷◌,
}
use go_cascade.Float.{Float}
use go_cascade.Verify.Stages.{Static}
use go_cascade.Verify.Workspace.{Spawn, Toolchain, run}
use go_cascade.Verify.Output.{parse_test_json}
use go_cascade.Verify.Ladder.Evidence.{accept_ladder_iff}
use go_cascade.Cluster.{Candidate}
use go_cascade.Calibrate.Certify.{Certificate}
use go_cascade.Cascade.State.{Tier, Config, Answer, Spec, Work, Services, threshold}
use go_cascade.Cascade.Sampling.{accept_one, sample_tier}
use go_cascade.Cascade.Sequential.{
  sequential, Draw, Attempt, solves, moves_on, passes, no_winner, try_accept, judge, attempt,
  run_tiers,
}

-- `go test` of the functions ^TestH in a workspace, after the processes `before`, passed.
abbrev pub PassesHeldOut {ℓ} :
    {F : Type ℓ} ⦃fl : Float F⦄ → Toolchain → Config F → List Spawn → Type 0
PassesHeldOut tc cfg before =
    let res =
      run tc before cfg.opts.test_timeout true
        ("test" ∷ "-json" ∷ "-count=1" ∷ "-run" ∷ "^TestH" ∷ "./..." ∷ []) in
    (res.error ≡ none)
    × (res.timed_out ≡ false)
    × (is_empty (parse_test_json tc.decode res.output) ≡ false)

module _ {ℓ} {F W : Type ℓ} where
  -- What ends with an answer ends behind the run that accepted it.
  taken_after :
      (p : Bool) (st : Result (Option Static)) (mk : Option Static → Answer F) (c : List String)
      (u v : W) (ans : Answer F)
      → (let r : Result (Attempt F) × W =
            if not p then (ok (moves_on c), u) else (st >>= (λ s. ok (solves (mk s))), v) in
          r.0 ≡ ok (solves ans) → (p ≡ true) × ((s : Option Static) × (ans ≡ mk s)) × (r.1 ≡ v))
  taken_after false st mk c u v ans e = cc
  taken_after true (err m) mk c u v ans e = cc
  taken_after true fault mk c u v ans e = cc
  taken_after true (ok s) mk c u v ans e = (refl, (s, cc), refl)

  judged_after :
      {C : Type ℓ} (P : W → Type ℓ) (win : Option C) (at : C → Option Candidate) (low : Bool)
      (c m : List String) (u v w : W) (acc : Candidate → Result (Attempt F) × W) (ans : Answer F)
      → ((rep : Candidate) → (acc rep).0 ≡ ok (solves ans) → P (acc rep).1)
      → (let r : Result (Attempt F) × W = elim win [
        | none ↦ (ok (moves_on c), u)
        | some x ↦ elim (at x) [
          | none ↦ (fault, w)
          | some rep ↦ if low then (ok (moves_on m), v) else acc rep
        ]
      ] in
          r.0 ≡ ok (solves ans) → P r.1)
  judged_after P none at low c m u v w acc ans f e = cc
  judged_after P (some x) at low c m u v w acc ans f e = found (at x) low e
    where
      found :
          (o : Option Candidate) (b : Bool)
          → (let r : Result (Attempt F) × W = elim o [
            | none ↦ (fault, w)
            | some rep ↦ if b then (ok (moves_on m), v) else acc rep
          ] in
              r.0 ≡ ok (solves ans) → P r.1)
      found none b e = cc
      found (some rep) true e = cc
      found (some rep) false e = f rep e

  ran_after :
      (P : W → Type ℓ) (late : Option String) (s : Result (List Candidate) × W)
      (try : List Candidate → W → Result (Attempt F) × W)
      (next : List String → W → Result (Option (Answer F)) × W) (ans : Answer F) (w : W)
      → ((cands : List Candidate) (u : W) → (try cands u).0 ≡ ok (solves ans) → P (try cands u).1)
      → ((c : List String) (u : W) → (next c u).0 ≡ ok (some ans) → P (next c u).1)
      → (let r : Result (Option (Answer F)) × W = elim late [
        | some e ↦ (err e, w)
        | none ↦
            let (r, u) = s in
            elim r [
              | err e ↦ (err e, u)
              | fault ↦ (fault, u)
              | ok cands ↦
                  let (a, v) = try cands u in
                  elim a [
                    | err e ↦ (err e, v)
                    | fault ↦ (fault, v)
                    | ok t ↦ elim t [ solves ans ↦ (ok (some ans), v) | moves_on c ↦ next c v ]
                  ]
            ]
      ] in
          r.0 ≡ ok (some ans) → P r.1)
  ran_after P (some m) s try next ans w f g e = absurd cc
  ran_after P none (err m, u) try next ans w f g e = absurd cc
  ran_after P none (fault, u) try next ans w f g e = absurd cc
  ran_after P none (ok cands, u) try next ans w f g e = tried (try cands u) (f cands u) e
    where
      tried :
          (a : Result (Attempt F) × W)
          → (a.0 ≡ ok (solves ans) → P a.1)
          → (let r : Result (Option (Answer F)) × W = elim a.0 [
            | err e ↦ (err e, a.1)
            | fault ↦ (fault, a.1)
            | ok t ↦ elim t [ solves ans ↦ (ok (some ans), a.1) | moves_on c ↦ next c a.1 ]
          ] in
              r.0 ≡ ok (some ans) → P r.1)
      tried (err m, v) f e = absurd cc
      tried (fault, v) f e = absurd cc
      tried (ok (solves x), v) f e = f cc
      tried (ok (moves_on c), v) f e = g c v e

module _ {ℓ} {W F : Type ℓ} ⦃fl : Float F⦄ (env : Services W F) (cfg : Config F) where
  open env use {new_workspace}

  -- The last workspace that was opened before the world `after` held the text and the contract's
  -- tests, and the held-out partition passed in it.
  abbrev pub HeldOut : Spec → String → W → Type ℓ
  HeldOut spec text after =
      (before : W) × (tc : Toolchain) × (new_workspace text spec.visible_tests spec.hidden_tests
          before
        ≡ (some tc, after))
      × PassesHeldOut tc cfg []

  pub accept_one-HeldOut :
      (text : String) (spec : Spec) (w : W)
      → passes (accept_one env cfg text spec w).0 ≡ true
      → HeldOut spec text (accept_one env cfg text spec w).1
  unfolding accept_one
  accept_one-HeldOut text spec w p =
      let opened = new_workspace text spec.visible_tests spec.hidden_tests w in
      elim (Option-cases opened.0) [
        | inl f ↦ let no : false ≡ true = rw f at p in absurd cc
        | inr (tc, f) ↦
            (w, tc, ap (λ t. (t, opened.1)) f, (accept_ladder_iff tc cfg.opts []).0 (rw f at p))
      ]

  module _ (cert : Option (Certificate F)) (spec : Spec) where
    try_accept-HeldOut :
        (k : ℕ) (tier : Tier F) (last : Bool) (problem : String) (carried : List String)
        (d : Draw F) (rep : Candidate) (w : Work W F) (ans : Answer F)
        → (try_accept env cfg cert k tier last problem spec carried d rep w).0 ≡ ok (solves ans)
        → HeldOut spec ans.solution
            (try_accept env cfg cert k tier last problem spec carried d rep w).1.world
    unfolding try_accept
    try_accept-HeldOut k tier last problem carried d rep w ans e =
        let (p, (s, same), behind) = taken_after _ _ _ _ _ _ ans e in
        let ran = accept_one-HeldOut rep.source spec w.world p in
        let after = (accept_one env cfg rep.source spec w.world).1 in
        let named : HeldOut spec ans.solution after =
          subst (λ text. HeldOut spec text after) (sym (ap (λ a. a.solution) same)) ran in
        subst (λ u. HeldOut spec ans.solution u) (sym (ap (λ (u : Work W F). u.world) behind)) named

    judge-HeldOut :
        (k : ℕ) (tier : Tier F) (last : Bool) (problem : String) (carried : List String)
        (cands : List Candidate) (d : Draw F) (w : Work W F) (ans : Answer F)
        → (judge env cfg cert k tier last problem spec carried cands d w).0 ≡ ok (solves ans)
        → HeldOut spec ans.solution
            (judge env cfg cert k tier last problem spec carried cands d w).1.world
    unfolding judge no_winner
    judge-HeldOut k tier last problem carried cands d w ans e =
        judged_after (λ (u : Work W F). HeldOut spec ans.solution u.world) d.winner _
          (fl.lt d.score (threshold cert k).0 && not last) _ _ _ _ w
          (λ rep. try_accept env cfg cert k tier last problem spec carried d rep w) ans
          (λ rep f. try_accept-HeldOut k tier last problem carried d rep w ans f) e

    attempt-HeldOut :
        (k : ℕ) (tier : Tier F) (later : List (Tier F)) (problem : String) (carried : List String)
        (cands : List Candidate) (w : Work W F) (ans : Answer F)
        → (attempt env cfg cert k tier later problem spec carried cands w).0 ≡ ok (solves ans)
        → HeldOut spec ans.solution
            (attempt env cfg cert k tier later problem spec carried cands w).1.world
    unfolding attempt
    attempt-HeldOut k tier later problem carried cands w ans e =
        judge-HeldOut k tier (is_empty later) problem carried cands _ _ ans e

    run_tiers-HeldOut :
        (k : ℕ) (tiers : List (Tier F)) (problem : String) (carried : List String) (plan : String)
        (w : Work W F) (ans : Answer F)
        → (run_tiers env cfg cert k tiers problem spec carried plan w).0 ≡ ok (some ans)
        → HeldOut spec ans.solution
            (run_tiers env cfg cert k tiers problem spec carried plan w).1.world
    unfolding run_tiers
    run_tiers-HeldOut k [] problem carried plan w ans e = cc
    run_tiers-HeldOut k (t ∷ ts) problem carried plan w ans e =
        ran_after (λ (u : Work W F). HeldOut spec ans.solution u.world) (env.expired w.world)
          (sample_tier env cfg t problem spec carried plan w)
          (λ cands u. attempt env cfg cert k t ts problem spec carried cands u)
          (λ c u. run_tiers env cfg cert (suc k) ts problem spec c plan u) ans w
          (λ cands u f. attempt-HeldOut k t ts problem carried cands u ans f)
          (λ c u f. run_tiers-HeldOut (suc k) ts problem c plan u ans f) e

    -- The last thing that a sequential topology does before it answers is to run the held-out
    -- partition on that answer.
    pub sequential-HeldOut :
        (problem : String) (w : Work W F) (ans : Answer F)
        → (sequential env cfg cert problem spec w).0 ≡ ok (some ans)
        → HeldOut spec ans.solution (sequential env cfg cert problem spec w).1.world
    unfolding sequential
    sequential-HeldOut problem w ans e = run_tiers-HeldOut 0 cfg.tiers problem [] _ _ ans e
