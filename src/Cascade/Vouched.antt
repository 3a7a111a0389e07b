-- ===== src/Cascade/Vouched.antt =====
-- What a solved query stands on (internal/cascade/cascade.go).
use go_cascade.Base.{
  false, Bool-cases, Result, ok, err, fault, ◌>>=◌, get_elem?, All, All-append, All-imp, ℕ, suc,
  String, ◌≡◌, refl, sym, subst, inl, inr, Bool, true, Option, none, some, List, [], ◌∷◌, ◌++◌,
}
use go_cascade.Float.{Float}
use go_cascade.Verify.Stages.{Static}
use go_cascade.Verify.Workspace.{Toolchain}
use go_cascade.Verify.Ladder.{run_ladder}
use go_cascade.Cascade.HeldOut.{PassesHeldOut, HeldOut, accept_one-HeldOut, sequential-HeldOut}
use go_cascade.Cluster.{Candidate, Cluster}
use go_cascade.Calibrate.Certify.{Certificate}
use go_cascade.Cascade.State.{
  Tier, Config, Answer, Spec, Work, Services, contaminated_by, calibrated,
}
use go_cascade.Cascade.Sampling.{any_timed_out, accept_one}
use go_cascade.Cascade.Sequential.{
  cascade_plan, candidate_at, Draw, passes, static_of, draw, sequential,
}
use go_cascade.Cascade.Accepted.{Comes, here, there, sequential-Comes}
use go_cascade.Cascade.Speculative.{
  speculative, tried, winner_with, winner_in, Winner, sample_local, winner_of, gather, answer_of,
  accept_first,
}

module _ {ℓ} {W F : Type ℓ} ⦃fl : Float F⦄ (env : Services W F) (cfg : Config F)
    (cert : Option (Certificate F)) where
  -- What vouches for an answer in the world `after`: the last workspace that was opened before that
  -- world held the answer's solution and the contract's tests. For a retrieved solution the ladder,
  -- and then the held-out partition, passed in it; for the choice of a configured tier the held-out
  -- partition did.
  pub data Vouched (spec : Spec) (a : Answer F) (after : W) : Type ℓ where
    by_cache :
        a.accepted_at ≡ "cache"
        → (before : W) (tc : Toolchain)
        → env.new_workspace a.solution spec.visible_tests spec.hidden_tests before
          ≡ (some tc, after)
        → (run_ladder tc cfg.opts [] a.solution).report.ok_ ≡ true
        → PassesHeldOut tc cfg (run_ladder tc cfg.opts [] a.solution).ran
        → Vouched spec a after
    by_tier :
        (k : ℕ) (t : Tier F)
        → get_elem? cfg.tiers k ≡ some t
        → a.accepted_at ≡ t.name
        → a.certified ≡ calibrated cert
        → a.oracle_contaminated ≡ contaminated_by cfg t
        → HeldOut env cfg spec a.solution after
        → Vouched spec a after

  -- A tier at its place in a list.
  Placed : Spec → Answer F → List (Tier F) → Type ℓ
  Placed spec a ts =
      (k : ℕ) × ((t : Tier F) × ((get_elem? ts k ≡ some t)
          × (a.accepted_at ≡ t.name)
          × (a.certified ≡ calibrated cert)
          × (a.oracle_contaminated ≡ contaminated_by cfg t)))

  Placed-behind :
      (spec : Spec) (a : Answer F) (t : Tier F) (ts : List (Tier F))
      → Placed spec a ts
      → Placed spec a (t ∷ ts)
  unfolding Placed
  Placed-behind spec a t ts (k, (u, facts)) = (suc k, (u, facts))

  Comes-Placed :
      (spec : Spec) (a : Answer F) {k : ℕ} {ts : List (Tier F)}
      → Comes env cfg cert spec a k ts
      → Placed spec a ts
  unfolding Placed
  Comes-Placed spec a (here {t = t} acc) =
      (0, (t, (refl, acc.named, acc.certified_, acc.contaminated_)))
  Comes-Placed spec a (there {t = t} {ts = ts} c) =
      Placed-behind spec a t ts (Comes-Placed spec a c)

  Placed-Vouched :
      (spec : Spec) (a : Answer F) (after : W)
      → Placed spec a cfg.tiers
      → HeldOut env cfg spec a.solution after
      → Vouched spec a after
  unfolding Placed
  Placed-Vouched spec a after (k, (t, (at, named, cert_, cont))) p =
      by_tier k t at named cert_ cont p

  pub sequential-Vouched :
      (problem : String) (spec : Spec) (w : Work W F) (a : Answer F)
      → (sequential env cfg cert problem spec w).0 ≡ ok (some a)
      → Vouched spec a (sequential env cfg cert problem spec w).1.world
  sequential-Vouched problem spec w a e =
      Placed-Vouched spec a _
        (Comes-Placed spec a (sequential-Comes env cfg cert spec problem w a e))
        (sequential-HeldOut env cfg cert spec problem w a e)

  -- Each winner comes from a tier of a list.
  From : List (Tier F) → Winner F → Type ℓ
  From ts x = (k : ℕ) × (get_elem? ts k ≡ some x.tier)

  abbrev AllFrom : List (Tier F) → Result (List (Winner F)) → Type ℓ
  AllFrom ts (ok ws) = All (From ts) ws
  AllFrom ts (err e) = Unit
  AllFrom ts fault = Unit

  winner_with-AllFrom :
      (t : Tier F) (ts : List (Tier F)) (d : Draw F) (c : Option Candidate)
      → AllFrom (t ∷ ts) (winner_with env cfg cert t d c)
  unfolding From
  winner_with-AllFrom t ts d none = tt
  winner_with-AllFrom t ts d (some c) = ((0, refl), tt)

  winner_in-AllFrom :
      (t : Tier F) (ts : List (Tier F)) (d : Draw F) (c : Option (Cluster F))
      → AllFrom (t ∷ ts) (winner_in env cfg cert t d c)
  winner_in-AllFrom t ts d none = tt
  winner_in-AllFrom t ts d (some c) = winner_with-AllFrom t ts d (candidate_at c.rep d.cands)

  winner_of-AllFrom :
      (t : Tier F) (ts : List (Tier F)) (r : Result (List Candidate))
      → AllFrom (t ∷ ts) (winner_of env cfg cert t r)
  unfolding winner_of
  winner_of-AllFrom t ts (err e) = tt
  winner_of-AllFrom t ts fault = tt
  winner_of-AllFrom t ts (ok cands) =
      let d = draw env cfg cert cands (any_timed_out cands) in winner_in-AllFrom t ts d d.winner

  both-AllFrom :
      (t : Tier F) (ts : List (Tier F)) (r s : Result (List (Winner F)))
      → AllFrom (t ∷ ts) r
      → AllFrom ts s
      → AllFrom (t ∷ ts) (r >>= (λ ws. s >>= (λ more. ok (ws ++ more))))
  unfolding From
  both-AllFrom t ts (ok ws) (ok more) h g =
      All-append (From (t ∷ ts)) ws more h
        (All-imp (From ts) (From (t ∷ ts)) more (λ x p. (suc p.0, p.1)) g)
  both-AllFrom t ts (ok ws) (err e) h g = tt
  both-AllFrom t ts (ok ws) fault h g = tt
  both-AllFrom t ts (err e) s h g = tt
  both-AllFrom t ts fault s h g = tt

  gather-AllFrom :
      (ts : List (Tier F)) (problem : String) (spec : Spec) (plan : String) (w : Work W F)
      → AllFrom ts (gather env cfg cert ts problem spec plan w).0
  unfolding gather
  gather-AllFrom [] problem spec plan w = tt
  gather-AllFrom (t ∷ ts) problem spec plan w =
      let (r, u) = sample_local env cfg cert t problem spec plan w in
      both-AllFrom t ts (winner_of env cfg cert t r) _ (winner_of-AllFrom t ts r)
        (gather-AllFrom ts problem spec plan u)

  static_taken :
      (st : Result (Option Static)) (f : Option Static → Answer F) (a : Answer F)
      → (st >>= (λ s. ok (some (f s)))) ≡ ok (some a)
      → (s : Option Static) × (a ≡ f s)
  static_taken (ok s) f a e = (s, cc)
  static_taken (err m) f a e = absurd cc
  static_taken fault f a e = absurd cc

  accept_first-Vouched :
      (ws : List (Winner F)) (spec : Spec) (late : Bool) (w : Work W F) (a : Answer F)
      → All (From cfg.tiers) ws
      → (accept_first env cfg cert ws spec late w).0 ≡ ok (some a)
      → Vouched spec a (accept_first env cfg cert ws spec late w).1.world
  unfolding accept_first From
  accept_first-Vouched [] spec late w a h e = absurd cc
  accept_first-Vouched (x ∷ xs) spec late w a ((k, at), h) e =
      elim (Bool-cases (passes (accept_one env cfg x.cand.source spec w.world).0)) [
        | inl p ↦
            let (st, same) =
              static_taken (static_of x.cand.report) (λ s. answer_of env cfg cert x s) a
                (rw (p, accept_first) at e) in
            let ran = accept_one-HeldOut env cfg x.cand.source spec w.world p in
            let after = (accept_one env cfg x.cand.source spec w.world).1 in
            rw (p, accept_first)
              (subst (λ b. Vouched spec b after) (sym same)
                (by_tier k x.tier at refl refl refl ran))
        | inr n ↦
            rw (n, accept_first) (accept_first-Vouched xs spec _ _ a h (rw (n, accept_first) at e))
      ]

  tried-Vouched :
      (spec : Spec) (p : Result (List (Winner F)) × Work W F) (a : Answer F)
      → AllFrom cfg.tiers p.0
      → (tried env cfg cert spec p).0 ≡ ok (some a)
      → Vouched spec a (tried env cfg cert spec p).1.world
  tried-Vouched spec (ok ws, w) a h e = accept_first-Vouched ws spec false w a h e
  tried-Vouched spec (err m, w) a h e = absurd cc
  tried-Vouched spec (fault, w) a h e = absurd cc

  pub speculative-Vouched :
      (problem : String) (spec : Spec) (w : Work W F) (a : Answer F)
      → (speculative env cfg cert problem spec w).0 ≡ ok (some a)
      → Vouched spec a (speculative env cfg cert problem spec w).1.world
  unfolding speculative
  speculative-Vouched problem spec w a e =
      let (plan, u) = cascade_plan env cfg cert problem spec w in
      tried-Vouched spec (gather env cfg cert cfg.tiers problem spec plan u) a
        (gather-AllFrom cfg.tiers problem spec plan u) e
