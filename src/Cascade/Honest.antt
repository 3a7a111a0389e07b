-- ===== src/Cascade/Honest.antt =====
-- The contract of a query and what the cache answers it, in the world that it was tried in (internal/cascade/cascade.go).
use go_cascade.Base.{
  and-true, Bool-cases, sym, subst, ◌&&◌, Option-cases, if_ind, Sum-cases, length, is_empty, ℕ,
  String, ◌≡◌, refl, ap, ◌⊎◌, inl, inr, Bool, true, false, Option, none, some, List, [], ◌∷◌,
}
use go_cascade.Float.{Float}
use go_cascade.Cache.Entries.{Hit, get_spec, retrieve}
use go_cascade.Calibrate.Certify.{Certificate}
use go_cascade.Cascade.State.{Config, Answer, Spec, Services}
use go_cascade.Cascade.Sequential.{passes}
use go_cascade.Cascade.Sampling.{Verified, verified_in, verify_one}
use go_cascade.Cascade.Query.{
  Queries, Session, cached_answer, both_pass, spec_key, parsed_spec, spec_phase, try_hits,
  all_refuted, try_cache,
}
use go_cascade.Verify.Workspace.{Toolchain}
use go_cascade.Verify.Ladder.{run_ladder, accept_ladder}
use go_cascade.Verify.Ladder.Evidence.{accept_ladder_iff}
use go_cascade.Cascade.HeldOut.{PassesHeldOut}
use go_cascade.Cascade.Vouched.{Vouched, by_cache}
use go_cascade.Cascade.Sequential.{passes}

pub clash : false ≡ true → ⊥
clash e = cc

module _ {ℓ} {W F : Type ℓ} ⦃fl : Float F⦄ (env : Services W F) (q : Queries W F) (cfg : Config F)
    (cert : Option (Certificate F)) where
  abbrev pub Unsolved : Session W F → Type 0
  Unsolved s = s.answer.solved ≡ false

  -- If its answer is marked as solved, then something vouches for it in the world as it is.
  abbrev pub IsHonest : Spec → Session W F → Type ℓ
  IsHonest spec s = s.answer.solved ≡ true → Vouched env cfg cert spec s.answer s.work.world

  parsed_spec-answer :
      (key : String) (p : String ⊎ Spec) (s : Session W F)
      → (parsed_spec env q cfg cert key p s).1.answer ≡ s.answer
  parsed_spec-answer key (inl e) s = refl
  parsed_spec-answer key (inr spec) s = refl

  pub spec_phase-answer :
      (problem pinned : String) (s : Session W F)
      → (spec_phase env q cfg cert problem pinned s).1.answer ≡ s.answer
  unfolding spec_phase
  spec_phase-answer problem pinned s =
      let key = spec_key env q cfg cert problem pinned in
      elim (Option-cases (get_spec cfg.cache_disabled key s.specs)) [
        | inr (c, e) ↦ rw (e, spec_phase) refl
        | inl e ↦
            rw (e, spec_phase)
              (elim (Sum-cases
                (env.generate cfg.test_model (q.spec_user problem pinned) 0 s.work.world).0) [
                  | inl (m, f) ↦ rw f refl
                  | inr (resp, f) ↦ rw f (parsed_spec-answer key (q.parse_spec resp.text) _)
                ])
      ]

  -- Both partitions passed: the ladder's own verdict, and the run of the held-out tests behind it.
  verified_in-Passes :
      (tc : Toolchain) (source : String)
      → both_pass (verified_in env cfg tc source) ≡ true
      → ((run_ladder tc cfg.opts [] source).report.ok_ ≡ true)
        × PassesHeldOut tc cfg (run_ladder tc cfg.opts [] source).ran
  verified_in-Passes tc source p =
      let s = run_ladder tc cfg.opts [] source in
      elim (Bool-cases s.report.ok_) [
        | inl e ↦
            let held : s.report.ok_ && (accept_ladder tc cfg.opts s.ran).report.ok_ ≡ true =
              rw e at p in
            (e, (accept_ladder_iff tc cfg.opts s.ran).0 (and-true s.report.ok_ _ held).1)
        | inr e ↦
            let no : s.report.ok_ && passes none ≡ true = rw e at p in
            ((and-true s.report.ok_ _ no).0, absurd (clash (and-true s.report.ok_ _ no).1))
      ]

  -- A retrieved solution that both partitions passed.
  both_pass-Vouched :
      (spec : Spec) (a : Answer F) (w : W) (v : Verified)
      → a.accepted_at ≡ "cache"
      → (verify_one env cfg a.solution spec w).0 ≡ some v
      → both_pass v ≡ true
      → Vouched env cfg cert spec a (verify_one env cfg a.solution spec w).1
  unfolding verify_one
  both_pass-Vouched spec a w v at e p =
      let opened = env.new_workspace a.solution spec.visible_tests spec.hidden_tests w in
      elim (Option-cases opened.0) [
        | inl f ↦ let no : none ≡ some v = rw (f, verify_one) at e in absurd cc
        | inr (tc, f) ↦
            let got : some (verified_in env cfg tc a.solution) ≡ some v = rw (f, verify_one) at e in
            let same : verified_in env cfg tc a.solution ≡ v = cc in
            let (ran, held) =
              verified_in-Passes tc a.solution (subst (λ x. both_pass x ≡ true) (sym same) p) in
            by_cache at w tc (ap (λ t. (t, opened.1)) f) ran held
      ]

  -- What has no answer yet is honest.
  pub Unsolved-IsHonest : (spec : Spec) (s : Session W F) → Unsolved s → IsHonest spec s
  Unsolved-IsHonest spec s u h = absurd cc

  try_hits-IsHonest :
      (hits : List (Hit F)) (spec : Spec) (s : Session W F)
      → Unsolved s
      → IsHonest spec (try_hits env q cfg cert hits spec s).1
  unfolding try_hits
  try_hits-IsHonest [] spec s u = Unsolved-IsHonest spec s u
  try_hits-IsHonest (x ∷ xs) spec s u =
      elim (Option-cases (verify_one env cfg x.entry.solution spec s.work.world).0) [
        | inl e ↦ rw (e, try_hits) (try_hits-IsHonest xs spec _ u)
        | inr (v, e) ↦
            rw (e, try_hits)
              (if_ind {A = Bool × Session W F} (λ p. IsHonest spec p.1) (both_pass v)
                (λ p _.
                  both_pass-Vouched spec (cached_answer env q cfg cert x.entry.solution v s.answer)
                    s.work.world v refl e p)
                (λ _. try_hits-IsHonest xs spec _ u))
      ]

  all_refuted-IsHonest :
      (n : ℕ) (spec : Spec) (p : Bool × Session W F)
      → IsHonest spec p.1
      → IsHonest spec (all_refuted env q cfg cert n p).1
  all_refuted-IsHonest n spec (true, s) h = h
  all_refuted-IsHonest n spec (false, s) h = h

  pub try_cache-IsHonest :
      (problem : String) (spec : Spec) (s : Session W F)
      → Unsolved s
      → IsHonest spec (try_cache env q cfg cert problem spec s).1
  unfolding try_cache
  try_cache-IsHonest problem spec s u =
      let hits =
        retrieve q.similarity_to cfg.cache_disabled problem (env.problem_hash problem)
          cfg.cache_top_k cfg.cache_min_sim s.solutions in
      if_ind {A = Bool × Session W F} (λ p. IsHonest spec p.1) cfg.cache_disabled
        (λ _. Unsolved-IsHonest spec s u)
        (λ _.
          if_ind {A = Bool × Session W F} (λ p. IsHonest spec p.1) (is_empty hits)
            (λ _. Unsolved-IsHonest spec s u)
            (λ _. all_refuted-IsHonest (length hits) spec _ (try_hits-IsHonest hits spec s u)))

  -- A pass over the cache that found nothing left the answer alone.
  abbrev pub Missed : Bool × Session W F → Type 0
  Missed p = p.0 ≡ false → Unsolved p.1

  try_hits-Missed :
      (hits : List (Hit F)) (spec : Spec) (s : Session W F)
      → Unsolved s
      → Missed (try_hits env q cfg cert hits spec s)
  unfolding try_hits
  try_hits-Missed [] spec s u = λ _. u
  try_hits-Missed (x ∷ xs) spec s u =
      elim (Option-cases (verify_one env cfg x.entry.solution spec s.work.world).0) [
        | inl e ↦ rw (e, try_hits) (try_hits-Missed xs spec _ u)
        | inr (v, e) ↦
            rw (e, try_hits)
              (if_ind {A = Bool × Session W F} (λ p. p.0 ≡ false → p.1.answer.solved ≡ false)
                (both_pass v) (λ _ no. cc) (λ _. try_hits-Missed xs spec _ u))
      ]

  all_refuted-Missed :
      (n : ℕ) (p : Bool × Session W F) → Missed p → Missed (all_refuted env q cfg cert n p)
  all_refuted-Missed n (true, s) h = h
  all_refuted-Missed n (false, s) h = h

  pub try_cache-Missed :
      (problem : String) (spec : Spec) (s : Session W F)
      → Unsolved s
      → Missed (try_cache env q cfg cert problem spec s)
  unfolding try_cache
  try_cache-Missed problem spec s u =
      let hits =
        retrieve q.similarity_to cfg.cache_disabled problem (env.problem_hash problem)
          cfg.cache_top_k cfg.cache_min_sim s.solutions in
      if_ind {A = Bool × Session W F} Missed cfg.cache_disabled (λ _ _. u)
        (λ _.
          if_ind {A = Bool × Session W F} Missed (is_empty hits) (λ _ _. u)
            (λ _. all_refuted-Missed (length hits) _ (try_hits-Missed hits spec s u)))
