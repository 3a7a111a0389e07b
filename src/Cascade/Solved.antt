-- ===== src/Cascade/Solved.antt =====
-- The answer of a query, phase by phase (internal/cascade/cascade.go).
use go_cascade.Base.{
  ltb, sym, subst, if◌then◌else◌, if_ind, Result, ok, err, fault, ℕ, String, ◌≡◌, refl, ap, ◌∙◌,
  ◌⊎◌, inl, inr, arith, Bool, true, false, not, Option, none, some,
}
use go_cascade.Float.{Float}
use go_cascade.Calibrate.Certify.{Certificate}
use go_cascade.Cascade.State.{Config, Answer, Spec, Work, Services}
use go_cascade.Cascade.Query.{MutationRun, Queries, Session, spec_phase}
use go_cascade.Cascade.Solve.{
  mutated, admits, admit, finish, settled, cascade_phase, after_cache, after_spec, fresh, solve,
}
use go_cascade.Cascade.Honest.{
  clash, Unsolved, IsHonest, spec_phase-answer, Unsolved-IsHonest, try_cache-IsHonest, Missed,
  try_cache-Missed,
}
use go_cascade.Cascade.Vouched.{Vouched, sequential-Vouched, speculative-Vouched}

no_mutants : {n : ℕ} → ltb 0 n ≡ false → n ≡ 0
no_mutants h = ground arith

solved_not : (b : Bool) → b ≡ true → not b ≡ true → ⊥
solved_not true h n = cc
solved_not false h n = cc

module _ {ℓ} {W F : Type ℓ} ⦃fl : Float F⦄ (env : Services W F) (q : Queries W F) (cfg : Config F)
    (cert : Option (Certificate F)) where
  -- Between the run that vouched for an answer and the world that the query leaves, there is nothing
  -- but the mutation run on the answer, if the configuration asks for mutants.
  abbrev pub Leaves : Answer F → Spec → W → W → Type ℓ
  Leaves a spec after end =
      ((cfg.mutants ≡ 0) × (end ≡ after)) ⊎ (end ≡ (q.mutate a.solution spec cfg.mutants after).1)

  -- If its answer is marked as solved, then something vouched for it just before the end.
  abbrev pub IsSettled : Spec → Session W F → Type ℓ
  IsSettled spec s =
      s.answer.solved ≡ true
      → (after : W) × Vouched env cfg cert spec s.answer after
        × Leaves s.answer spec after s.work.world

  admit-answer :
      (problem : String) (spec : Spec) (s : Session W F)
      → (admit env q cfg cert problem spec s).answer ≡ s.answer
  admit-answer problem spec s =
      if_ind {A = Session W F} (λ t. t.answer ≡ s.answer) (admits env q cfg cert s.answer)
        (λ _. refl) (λ _. refl)

  mutated-answer :
      (m : Option (MutationRun F) × W) (s : Session W F)
      → (mutated env q cfg cert m s).answer ≡ s.answer
  mutated-answer (none, world) s = refl
  mutated-answer (some m, world) s = refl

  finish-answer :
      (problem : String) (spec : Spec) (s : Session W F)
      → (finish env q cfg cert problem spec s).answer ≡ s.answer
  unfolding finish
  finish-answer problem spec s =
      let m = q.mutate s.answer.solution spec cfg.mutants s.work.world in
      let scored : Session W F = if ltb 0 cfg.mutants then mutated env q cfg cert m s else s in
      let kept : scored.answer ≡ s.answer =
        if_ind {A = Session W F} (λ t. t.answer ≡ s.answer) (ltb 0 cfg.mutants)
          (λ _. mutated-answer m s) (λ _. refl) in
      if_ind {A = Session W F} (λ t. t.answer ≡ s.answer) (not s.answer.solved) (λ _. refl)
        (λ _. admit-answer problem spec scored ∙ kept)

  admit-work :
      (problem : String) (spec : Spec) (s : Session W F)
      → (admit env q cfg cert problem spec s).work ≡ s.work
  admit-work problem spec s =
      if_ind {A = Session W F} (λ t. t.work ≡ s.work) (admits env q cfg cert s.answer) (λ _. refl)
        (λ _. refl)

  mutated-world :
      (m : Option (MutationRun F) × W) (s : Session W F)
      → (mutated env q cfg cert m s).work.world ≡ m.1
  mutated-world (none, world) s = refl
  mutated-world (some m, world) s = refl

  finish-Leaves :
      (problem : String) (spec : Spec) (s : Session W F)
      → s.answer.solved ≡ true
      → Leaves s.answer spec s.work.world (finish env q cfg cert problem spec s).work.world
  unfolding finish
  finish-Leaves problem spec s h =
      let m = q.mutate s.answer.solution spec cfg.mutants s.work.world in
      let scored : Session W F = if ltb 0 cfg.mutants then mutated env q cfg cert m s else s in
      let left : Leaves s.answer spec s.work.world scored.work.world =
        if_ind {A = Session W F} (λ t. Leaves s.answer spec s.work.world t.work.world)
          (ltb 0 cfg.mutants) (λ _. inr (mutated-world m s)) (λ z. inl (no_mutants z, refl)) in
      if_ind {A = Session W F} (λ t. Leaves s.answer spec s.work.world t.work.world)
        (not s.answer.solved) (λ n. absurd (solved_not s.answer.solved h n))
        (λ _.
          subst (λ (u : Work W F). Leaves s.answer spec s.work.world u.world)
            (sym (admit-work problem spec scored)) left)

  finish-IsSettled :
      (problem : String) (spec : Spec) (s : Session W F)
      → IsHonest env q cfg cert spec s
      → IsSettled spec (finish env q cfg cert problem spec s)
  finish-IsSettled problem spec s honest h =
      let kept = finish-answer problem spec s in
      let solved_ : s.answer.solved ≡ true = ap (λ a. a.solved) (sym kept) ∙ h in
      subst
        (λ a.
          (after : W) × Vouched env cfg cert spec a after
          × Leaves a spec after (finish env q cfg cert problem spec s).work.world)
        (sym kept) (s.work.world, honest solved_, finish-Leaves problem spec s solved_)

  Unsolved-IsSettled :
      (spec : Spec) (s : Session W F) → Unsolved env q cfg cert s → IsSettled spec s
  Unsolved-IsSettled spec s u h = absurd (clash (sym u ∙ h))

  settled-IsSettled :
      (problem : String) (spec : Spec) (s : Session W F) (r : Result (Option (Answer F)) × Work W F)
      → Unsolved env q cfg cert s
      → ((a : Answer F) → r.0 ≡ ok (some a) → Vouched env cfg cert spec a r.1.world)
      → IsSettled spec (settled env q cfg cert problem spec s r).1
  settled-IsSettled problem spec s (ok none, w) u v =
      finish-IsSettled problem spec _
        (Unsolved-IsHonest env q cfg cert spec (record s { work = w }) u)
  settled-IsSettled problem spec s (ok (some a), w) u v =
      finish-IsSettled problem spec (record s { work = w; answer = a }) (λ _. v a refl)
  settled-IsSettled problem spec s (err e, w) u v =
      if_ind {A = Result Bool × Session W F} (λ p. IsSettled spec p.1) (q.is_deadline e)
        (λ _.
          finish-IsSettled problem spec _
            (Unsolved-IsHonest env q cfg cert spec (record s { work = w }) u))
        (λ _. Unsolved-IsSettled spec (record s { work = w }) u)
  settled-IsSettled problem spec s (fault, w) u v =
      Unsolved-IsSettled spec (record s { work = w }) u

  cascade_phase-IsSettled :
      (problem : String) (spec : Spec) (s : Session W F)
      → Unsolved env q cfg cert s
      → IsSettled spec (cascade_phase env q cfg cert problem spec s).1
  cascade_phase-IsSettled problem spec s u = settled-IsSettled problem spec s _ u (
      if_ind {A = Result (Option (Answer F)) × Work W F}
        (λ r. (a : Answer F) → r.0 ≡ ok (some a) → Vouched env cfg cert spec a r.1.world)
        (ltb 0 cfg.deadline) (λ _. speculative-Vouched env cfg cert problem spec s.work)
        (λ _. sequential-Vouched env cfg cert problem spec s.work))

  after_cache-IsSettled :
      (problem : String) (spec : Spec) (p : Bool × Session W F)
      → IsHonest env q cfg cert spec p.1
      → Missed env q cfg cert p
      → IsSettled spec (after_cache env q cfg cert problem spec p).1
  after_cache-IsSettled problem spec (true, s) h u = finish-IsSettled problem spec s h
  after_cache-IsSettled problem spec (false, s) h u =
      cascade_phase-IsSettled problem spec s (u refl)

  after_spec-Vouched :
      (problem : String) (p : Result Spec × Session W F)
      → Unsolved env q cfg cert p.1
      → (after_spec env q cfg cert problem p).1.answer.solved ≡ true
      → (spec : Spec) × (p.0 ≡ ok spec) × IsSettled spec (after_spec env q cfg cert problem p).1
  after_spec-Vouched problem (err e, s) u h = absurd (clash (sym u ∙ h))
  after_spec-Vouched problem (fault, s) u h = absurd (clash (sym u ∙ h))
  after_spec-Vouched problem (ok spec, s) u h = (
    spec,
    refl,
    if_ind {A = Result Bool × Session W F} (λ p. IsSettled spec p.1) (not s.shadow)
        (λ _.
          after_cache-IsSettled problem spec _ (try_cache-IsHonest env q cfg cert problem spec s u)
            (try_cache-Missed env q cfg cert problem spec s u))
        (λ _. cascade_phase-IsSettled problem spec _ u),
  )

  -- If `Solve` returns a result that is marked as solved, then the phase of the contract came to one,
  -- and something vouches for the result under that contract. The last workspace that the query
  -- opened, but for those of a mutation run on the answer, held the solution of the result and both
  -- partitions of the contract's tests. Either the result says that the cache answered, and the ladder
  -- passed there, and then the held-out run; or it names a configured tier, is certified exactly if
  -- the certificate in force is valid, is marked contaminated exactly if the tests' author also wrote
  -- or planned the tier's code, and the held-out run passed there: `go test` of the ^TestH functions
  -- ended without error and in time, and reported some test.
  pub solve-Vouched :
      (problem : String) (s : Session W F)
      → let end = (solve env q cfg cert problem s).1 in
        end.answer.solved ≡ true
        → (spec : Spec) × ((spec_phase env q cfg cert problem "" (fresh env q cfg cert s)).0
            ≡ ok spec)
          × ((after : W) × Vouched env cfg cert spec end.answer after
              × Leaves end.answer spec after end.work.world)
  unfolding solve
  solve-Vouched problem s h =
      let (spec, is, settled_) =
        after_spec-Vouched problem (spec_phase env q cfg cert problem "" (fresh env q cfg cert s))
          (ap (λ a. a.solved)
            (spec_phase-answer env q cfg cert problem "" (fresh env q cfg cert s)))
          h in
      (spec, is, settled_ h)
