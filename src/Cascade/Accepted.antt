-- ===== src/Cascade/Accepted.antt =====
-- What an answer of `sequential` (internal/cascade/cascade.go) stands on.
use go_cascade.Base.{
  if◌then◌else◌, Result, ok, err, fault, ◌>>=◌, is_empty, ℕ, suc, String, ◌≡◌, refl, sym, subst,
  Bool, true, false, not, ◌&&◌, Option, none, some, List, [], ◌∷◌,
}
use go_cascade.Float.{Float}
use go_cascade.Verify.Stages.{Static}
use go_cascade.Cluster.{Candidate}
use go_cascade.Cascade.State.{
  Tier, Config, Answer, Spec, Work, Services, contaminated_by, calibrated, threshold,
}
use go_cascade.Calibrate.Certify.{Certificate}
use go_cascade.Cascade.Sampling.{accept_one, sample_tier}
use go_cascade.Cascade.Sequential.{
  sequential, Draw, Attempt, solves, moves_on, passes, no_winner, try_accept, judge, attempt,
  run_tiers,
}

module _ {ℓ} {F W : Type ℓ} where
  taken_or :
      (p : Bool) (st : Result (Option Static)) (mk : Option Static → Answer F) (c : List String)
      (u v : W) (ans : Answer F)
      → (let r : Result (Attempt F) × W =
            if not p then (ok (moves_on c), u) else (st >>= (λ s. ok (solves (mk s))), v) in
          r.0 ≡ ok (solves ans))
      → (p ≡ true) × ((s : Option Static) × (ans ≡ mk s))
  taken_or false st mk c u v ans e = cc
  taken_or true (err m) mk c u v ans e = cc
  taken_or true fault mk c u v ans e = cc
  taken_or true (ok s) mk c u v ans e = (refl, (s, cc))

  judged :
      {C : Type ℓ} (win : Option C) (at : C → Option Candidate) (low : Bool) (c m : List String)
      (u v w : W) (acc : Candidate → Result (Attempt F) × W) (ans : Answer F)
      → (let r : Result (Attempt F) × W = elim win [
        | none ↦ (ok (moves_on c), u)
        | some x ↦ elim (at x) [
          | none ↦ (fault, w)
          | some rep ↦ if low then (ok (moves_on m), v) else acc rep
        ]
      ] in
          r.0 ≡ ok (solves ans))
      → (low ≡ false) × ((rep : Candidate) × ((acc rep).0 ≡ ok (solves ans)))
  judged none at low c m u v w acc ans e = cc
  judged (some x) at low c m u v w acc ans e = found (at x) low e
    where
      found :
          (o : Option Candidate) (b : Bool)
          → (let r : Result (Attempt F) × W = elim o [
            | none ↦ (fault, w)
            | some rep ↦ if b then (ok (moves_on m), v) else acc rep
          ] in
              r.0 ≡ ok (solves ans))
          → (b ≡ false) × ((rep : Candidate) × ((acc rep).0 ≡ ok (solves ans)))
      found none b e = cc
      found (some rep) true e = cc
      found (some rep) false e = (refl, (rep, e))

  ran :
      {P : Type ℓ} (late : Option String) (s : Result (List Candidate) × W)
      (try : List Candidate → W → Result (Attempt F) × W)
      (next : List String → W → Result (Option (Answer F)) × W) (ans : Answer F) (w : W)
      → ((cands : List Candidate) (u : W) → (try cands u).0 ≡ ok (solves ans) → P)
      → ((c : List String) (u : W) → (next c u).0 ≡ ok (some ans) → P)
      → (let r : Result (Option (Answer F)) × W = elim late [
        | some e ↦ (err e, w)
        | none ↦
            let (r, u) = s in
            elim r [
              | err e ↦ (err e, u)
              | fault ↦ (fault, u)
              | ok cands ↦
                  let (a, v) = try cands u in
                  elim a [
                    | err e ↦ (err e, v)
                    | fault ↦ (fault, v)
                    | ok t ↦ elim t [ solves ans ↦ (ok (some ans), v) | moves_on c ↦ next c v ]
                  ]
            ]
      ] in
          r.0 ≡ ok (some ans))
      → P
  ran (some m) s try next ans w f g e = absurd cc
  ran none (err m, u) try next ans w f g e = absurd cc
  ran none (fault, u) try next ans w f g e = absurd cc
  ran {P = P} none (ok cands, u) try next ans w f g e = tried (try cands u) (f cands u) e
    where
      tried :
          (a : Result (Attempt F) × W)
          → (a.0 ≡ ok (solves ans) → P)
          → (let r : Result (Option (Answer F)) × W = elim a.0 [
            | err e ↦ (err e, a.1)
            | fault ↦ (fault, a.1)
            | ok t ↦ elim t [ solves ans ↦ (ok (some ans), a.1) | moves_on c ↦ next c a.1 ]
          ] in
              r.0 ≡ ok (some ans))
          → P
      tried (err m, v) f e = absurd cc
      tried (fault, v) f e = absurd cc
      tried (ok (solves x), v) f e = f cc
      tried (ok (moves_on c), v) f e = g c v e

module _ {ℓ} {W F : Type ℓ} ⦃fl : Float F⦄ (env : Services W F) (cfg : Config F)
    (cert : Option (Certificate F)) (spec : Spec) where
  -- The answer of tier `k`, which is the last if `last` holds.
  pub record AcceptedBy (k : ℕ) (tier : Tier F) (last : Bool) (ans : Answer F) : Type ℓ where
    pub solved_ : ans.solved ≡ true
    pub named : ans.accepted_at ≡ tier.name
    pub cleared : fl.lt ans.score (threshold cert k).0 && not last ≡ false
    pub certified_ : ans.certified ≡ calibrated cert
    pub certificate_ : ans.certificate ≡ cert
    pub contaminated_ : ans.oracle_contaminated ≡ contaminated_by cfg tier
    pub held_out : (w : W) × (passes (accept_one env cfg ans.solution spec w).0 ≡ true)

  try_accept-AcceptedBy :
      (k : ℕ) (tier : Tier F) (last : Bool) (problem : String) (carried : List String) (d : Draw F)
      (rep : Candidate) (w : Work W F) (ans : Answer F)
      → fl.lt d.score (threshold cert k).0 && not last ≡ false
      → (try_accept env cfg cert k tier last problem spec carried d rep w).0 ≡ ok (solves ans)
      → AcceptedBy k tier last ans
  unfolding try_accept
  try_accept-AcceptedBy k tier last problem carried d rep w ans low e =
      let (p, (s, e')) = taken_or _ _ _ _ _ _ ans e in
      subst (AcceptedBy k tier last) (sym e') (record {
        solved_ = refl;
        named = refl;
        cleared = low;
        certified_ = refl;
        certificate_ = refl;
        contaminated_ = refl;
        held_out = (w.world, p);
      })

  judge-AcceptedBy :
      (k : ℕ) (tier : Tier F) (last : Bool) (problem : String) (carried : List String)
      (cands : List Candidate) (d : Draw F) (w : Work W F) (ans : Answer F)
      → (judge env cfg cert k tier last problem spec carried cands d w).0 ≡ ok (solves ans)
      → AcceptedBy k tier last ans
  unfolding judge no_winner
  judge-AcceptedBy k tier last problem carried cands d w ans e =
      let (low, (rep, e')) =
        judged d.winner _ (fl.lt d.score (threshold cert k).0 && not last) _ _ _ _ w
          (λ rep. try_accept env cfg cert k tier last problem spec carried d rep w) ans e in
      try_accept-AcceptedBy k tier last problem carried d rep w ans low e'

  attempt-AcceptedBy :
      (k : ℕ) (tier : Tier F) (later : List (Tier F)) (problem : String) (carried : List String)
      (cands : List Candidate) (w : Work W F) (ans : Answer F)
      → (attempt env cfg cert k tier later problem spec carried cands w).0 ≡ ok (solves ans)
      → AcceptedBy k tier (is_empty later) ans
  unfolding attempt
  attempt-AcceptedBy k tier later problem carried cands w ans e =
      judge-AcceptedBy k tier (is_empty later) problem carried cands _ _ ans e

  -- Some tier of `tiers`, of which the first is tier `k`, accepted.
  pub data Comes (ans : Answer F) : ℕ → List (Tier F) → Type ℓ where
    here :
        {k : ℕ} {t : Tier F} {ts : List (Tier F)}
        → AcceptedBy k t (is_empty ts) ans
        → Comes ans k (t ∷ ts)
    there : {k : ℕ} {t : Tier F} {ts : List (Tier F)} → Comes ans (suc k) ts → Comes ans k (t ∷ ts)

  run_tiers-Comes :
      (k : ℕ) (tiers : List (Tier F)) (problem : String) (carried : List String) (plan : String)
      (w : Work W F) (ans : Answer F)
      → (run_tiers env cfg cert k tiers problem spec carried plan w).0 ≡ ok (some ans)
      → Comes ans k tiers
  unfolding run_tiers
  run_tiers-Comes k [] problem carried plan w ans e = cc
  run_tiers-Comes k (t ∷ ts) problem carried plan w ans e =
      ran (env.expired w.world) (sample_tier env cfg t problem spec carried plan w)
        (λ cands u. attempt env cfg cert k t ts problem spec carried cands u)
        (λ c u. run_tiers env cfg cert (suc k) ts problem spec c plan u) ans w
        (λ cands u f. here (attempt-AcceptedBy k t ts problem carried cands u ans f))
        (λ c u f. there (run_tiers-Comes (suc k) ts problem c plan u ans f)) e

  -- If the sequential topology comes to an answer, then one of the configured tiers gave it: the
  -- answer is solved and names that tier, its score is not below the tier's threshold or the tier is
  -- the last, it is certified exactly if the certificate in force is valid, it is marked contaminated
  -- exactly if the author of the tests also wrote or planned the tier's code, and its solution passed
  -- the held-out partition.
  pub sequential-Comes :
      (problem : String) (w : Work W F) (ans : Answer F)
      → (sequential env cfg cert problem spec w).0 ≡ ok (some ans)
      → Comes ans 0 cfg.tiers
  unfolding sequential
  sequential-Comes problem w ans e = run_tiers-Comes 0 cfg.tiers problem [] _ _ ans e
