-- ===== src/Cascade/Admission.antt =====
-- What a query leaves behind: the solutions of the cache, and the calibration record
-- (internal/cascade/cascade.go).
use go_cascade.Base.{
  ltb, str_eq, if◌then◌else◌, Option-cases, if_ind, Result, ok, err, fault, Sum-cases, length,
  is_empty, ℕ, String, ◌≡◌, refl, ap, ◌∙◌, ◌⊎◌, inl, inr, Bool, true, false, not, ◌&&◌, Option,
  none, some, List, [], ◌∷◌, arith,
}
use go_cascade.Float.{Float}
use go_cascade.Cache.Entries.{Entry, Hit, Directory, get_spec, retrieve}
use go_cascade.Calibrate.Certify.{Certificate}
use go_cascade.Cascade.State.{Config, Answer, Spec, Work, Services}
use go_cascade.Cascade.Sampling.{verify_one}
use go_cascade.Cascade.Query.{
  MutationRun, Queries, Session, both_pass, spec_key, parsed_spec, spec_phase, try_hits,
  all_refuted, try_cache,
}
use go_cascade.Cascade.Solve.{
  routed, shadowed, observe, mutated, admits, admit, finish, settled, cascade_phase, after_cache,
  after_spec, fresh, solve,
}

module _ {ℓ} {W F : Type ℓ} ⦃fl : Float F⦄ (env : Services W F) (q : Queries W F) (cfg : Config F)
    (cert : Option (Certificate F)) where
  -- The solutions of a session are those of an earlier one, or its answer may be admitted.
  pub data Keeps (old : Directory (Entry F)) (s : Session W F) : Type ℓ where
    same_ : s.solutions ≡ old → Keeps old s
    admitted :
        s.answer.solved ≡ true
        → str_eq s.answer.accepted_at "cache" ≡ false
        → fl.le cfg.cache_admit_at s.answer.score ≡ true
        → s.answer.oracle_contaminated ≡ false
        → Keeps old s

  three_hold : (a b c : Bool) → not a && b && not c ≡ true → (a ≡ false) × (b ≡ true) × (c ≡ false)
  three_hold true b c h = absurd cc
  three_hold false true false h = (refl, refl, refl)
  three_hold false true true h = absurd cc
  three_hold false false c h = absurd cc

  admit-Keeps :
      (problem : String) (spec : Spec) (old : Directory (Entry F)) (s : Session W F)
      → s.answer.solved ≡ true
      → s.solutions ≡ old
      → Keeps old (admit env q cfg cert problem spec s)
  unfolding admits
  admit-Keeps problem spec old s done e =
      if_ind (Keeps old) (admits env q cfg cert s.answer)
        (λ h.
          let (a, b, c) =
            three_hold (str_eq s.answer.accepted_at "cache")
              (fl.le cfg.cache_admit_at s.answer.score) s.answer.oracle_contaminated h in
          admitted done a b c)
        (λ _. same_ e)

  observe-Keeps :
      (problem : String) (old : Directory (Entry F)) (s : Session W F)
      → Keeps old s
      → Keeps old (observe env q cfg cert problem s)
  observe-Keeps problem old s (same_ e) = same_ e
  observe-Keeps problem old s (admitted a b c d) = admitted a b c d

  -- Mutation analysis touches neither the answer nor the cache.
  mutated-same :
      (m : Option (MutationRun F) × W) (s : Session W F)
      → ((mutated env q cfg cert m s).answer ≡ s.answer)
        × ((mutated env q cfg cert m s).solutions ≡ s.solutions)
  mutated-same (none, world) s = (refl, refl)
  mutated-same (some m, world) s = (refl, refl)

  finish-Keeps :
      (problem : String) (spec : Spec) (old : Directory (Entry F)) (s : Session W F)
      → s.solutions ≡ old
      → Keeps old (finish env q cfg cert problem spec s)
  unfolding finish
  finish-Keeps problem spec old s e =
      let m = q.mutate s.answer.solution spec cfg.mutants s.work.world in
      let scored : Session W F = if ltb 0 cfg.mutants then mutated env q cfg cert m s else s in
      let (kept, files) : (scored.answer ≡ s.answer) × (scored.solutions ≡ s.solutions) =
        if_ind {A = Session W F} (λ t. (t.answer ≡ s.answer) × (t.solutions ≡ s.solutions))
          (ltb 0 cfg.mutants) (λ _. mutated-same m s) (λ _. (refl, refl)) in
      if_ind {A = Session W F} (Keeps old) (not s.answer.solved) (λ _. same_ e)
        (λ h.
          let done : s.answer.solved ≡ true = ground arith in
          observe-Keeps problem old _
            (admit-Keeps problem spec old scored (ap (λ a. a.solved) kept ∙ done) (files ∙ e)))

  settled-Keeps :
      (problem : String) (spec : Spec) (old : Directory (Entry F)) (s : Session W F)
      (r : Result (Option (Answer F)) × Work W F)
      → s.solutions ≡ old
      → Keeps old (settled env q cfg cert problem spec s r).1
  settled-Keeps problem spec old s (ok none, w) e = finish-Keeps problem spec old _ e
  settled-Keeps problem spec old s (ok (some a), w) e = finish-Keeps problem spec old _ e
  settled-Keeps problem spec old s (err m, w) e =
      if_ind {A = Result Bool × Session W F} (λ p. Keeps old p.1) (q.is_deadline m)
        (λ _. finish-Keeps problem spec old _ e) (λ _. same_ e)
  settled-Keeps problem spec old s (fault, w) e = same_ e

  try_hits-solutions :
      (hits : List (Hit F)) (spec : Spec) (s : Session W F)
      → (try_hits env q cfg cert hits spec s).1.solutions ≡ s.solutions
  unfolding try_hits
  try_hits-solutions [] spec s = refl
  try_hits-solutions (x ∷ xs) spec s =
      elim (Option-cases (verify_one env cfg x.entry.solution spec s.work.world).0) [
        | inl e ↦ rw (e, try_hits) (try_hits-solutions xs spec _)
        | inr (v, e) ↦
            rw (e, try_hits)
              (if_ind {A = Bool × Session W F} (λ p. p.1.solutions ≡ s.solutions) (both_pass v)
                (λ _. refl) (λ _. try_hits-solutions xs spec _))
      ]

  all_refuted-solutions :
      (n : ℕ) (p : Bool × Session W F)
      → (all_refuted env q cfg cert n p).1.solutions ≡ p.1.solutions
  all_refuted-solutions n (true, s) = refl
  all_refuted-solutions n (false, s) = refl

  try_cache-solutions :
      (problem : String) (spec : Spec) (s : Session W F)
      → (try_cache env q cfg cert problem spec s).1.solutions ≡ s.solutions
  unfolding try_cache
  try_cache-solutions problem spec s =
      let hits =
        retrieve q.similarity_to cfg.cache_disabled problem (env.problem_hash problem)
          cfg.cache_top_k cfg.cache_min_sim s.solutions in
      if_ind {A = Bool × Session W F} (λ p. p.1.solutions ≡ s.solutions) cfg.cache_disabled
        (λ _. refl)
        (λ _.
          if_ind {A = Bool × Session W F} (λ p. p.1.solutions ≡ s.solutions) (is_empty hits)
            (λ _. refl)
            (λ _.
              all_refuted-solutions (length hits) (try_hits env q cfg cert hits spec s)
              ∙ try_hits-solutions hits spec s))

  cascade_phase-Keeps :
      (problem : String) (spec : Spec) (old : Directory (Entry F)) (s : Session W F)
      → s.solutions ≡ old
      → Keeps old (cascade_phase env q cfg cert problem spec s).1
  cascade_phase-Keeps problem spec old s e =
      settled-Keeps problem spec old s (routed env q cfg cert problem spec s) e

  after_cache-Keeps :
      (problem : String) (spec : Spec) (old : Directory (Entry F)) (p : Bool × Session W F)
      → p.1.solutions ≡ old
      → Keeps old (after_cache env q cfg cert problem spec p).1
  after_cache-Keeps problem spec old (true, s) e = finish-Keeps problem spec old s e
  after_cache-Keeps problem spec old (false, s) e = cascade_phase-Keeps problem spec old s e

  parsed_spec-solutions :
      (key : String) (p : String ⊎ Spec) (s : Session W F)
      → (parsed_spec env q cfg cert key p s).1.solutions ≡ s.solutions
  parsed_spec-solutions key (inl e) s = refl
  parsed_spec-solutions key (inr spec) s = refl

  spec_phase-solutions :
      (problem pinned : String) (s : Session W F)
      → (spec_phase env q cfg cert problem pinned s).1.solutions ≡ s.solutions
  unfolding spec_phase
  spec_phase-solutions problem pinned s =
      let key = spec_key env q cfg cert problem pinned in
      elim (Option-cases (get_spec cfg.cache_disabled key s.specs)) [
        | inr (c, e) ↦ rw (e, spec_phase) refl
        | inl e ↦
            rw (e, spec_phase)
              (elim (Sum-cases
                (env.generate cfg.test_model (q.spec_user problem pinned) 0 s.work.world).0) [
                  | inl (m, f) ↦ rw f refl
                  | inr (resp, f) ↦ rw f (parsed_spec-solutions key (q.parse_spec resp.text) _)
                ])
      ]

  after_spec-Keeps :
      (problem : String) (old : Directory (Entry F)) (p : Result Spec × Session W F)
      → p.1.solutions ≡ old
      → Keeps old (after_spec env q cfg cert problem p).1
  after_spec-Keeps problem old (err m, s) e = same_ e
  after_spec-Keeps problem old (fault, s) e = same_ e
  after_spec-Keeps problem old (ok spec, s) e =
      if_ind {A = Result Bool × Session W F} (λ p. Keeps old p.1) (not s.shadow)
        (λ _. after_cache-Keeps problem spec old _ (try_cache-solutions problem spec s ∙ e))
        (λ _. cascade_phase-Keeps problem spec old (shadowed env q cfg cert s) e)

  -- A query leaves the solutions of the cache as they were, unless its result is solved, was not
  -- itself answered by the cache, has a score of at least the admission score, and is not marked
  -- contaminated.
  pub solve-Keeps :
      (problem : String) (s : Session W F) → Keeps s.solutions (solve env q cfg cert problem s).1
  unfolding solve
  solve-Keeps problem s =
      after_spec-Keeps problem s.solutions
        (spec_phase env q cfg cert problem "" (fresh env q cfg cert s))
        (spec_phase-solutions problem "" (fresh env q cfg cert s))
