-- ===== src/Verify/Ladder/Evidence.antt =====
-- The processes that the ladder runs, the tests behind its verdict, and the acceptance run (internal/verify/ladder.go).
use go_cascade.Base.{
  ltb, if_ind, is_empty, All, All-append, ℕ, String, ◌≡◌, refl, ap, ◌∙◌, ◌↔◌, ◌⊎◌, inl, inr, true,
  false, not, Option, none, some, List, [], ◌∷◌, ◌++◌, arith,
}
use go_cascade.Verify.Stages.{
  parse, StageResult, Static, Outcomes, Report, Options, passed, no_report, add_stage,
}
use go_cascade.Verify.Output.{parse_test_json}
use go_cascade.Verify.Workspace.{Spawn, Toolchain, argv_of, run}
use go_cascade.Verify.Ladder.{
  test_result, complexity_result, too_complex, note_allocs, LadderState, stage_from, in_process,
  guard_vacuous, no_visible, gate, exec_in, complexity_stage, from_bench, from_race, visible_args,
  from_test, from_vet, from_build, from_types, from_stdlib, run_ladder, accept_ladder,
}
use go_cascade.Verify.Ladder.Refutation.{added, gate_ind}

module _ (tc : Toolchain) (opts : Options) where
  -- A process that `Run` may spawn: it compiles, or it runs a part of the visible partition under
  -- the exec wrapper.
  pub data IsVisible (sp : Spawn) : Type 0 where
    builds : sp.argv ≡ tc.go_bin ∷ "build" ∷ "./..." ∷ [] → IsVisible sp
    vets : sp.argv ≡ tc.go_bin ∷ "vet" ∷ "./..." ∷ [] → IsVisible sp
    tests_ :
        sp.argv
          ≡ tc.exec_wrapper
            ++ (tc.go_bin ∷ "test" ∷ "-json" ∷ "-count=1" ∷ "-run" ∷ "^TestV" ∷ "./..." ∷ [])
        → IsVisible sp
    races :
        (count : String)
        → sp.argv
          ≡ tc.exec_wrapper
            ++ (tc.go_bin ∷ "test" ∷ "-race" ∷ count ∷ "-run" ∷ "^TestV" ∷ "./..." ∷ [])
        → IsVisible sp
    benches :
        sp.argv
          ≡ tc.exec_wrapper
            ++ (tc.go_bin ∷ "test" ∷ "-run" ∷ "^$" ∷ "-bench" ∷ "." ∷ "-benchmem" ∷ "./..." ∷ [])
        → IsVisible sp

  abbrev pub Isolated : LadderState → Type 0
  Isolated s = All IsVisible s.ran

  gate-Isolated :
      (s : LadderState) (sr : StageResult) (next : LadderState → LadderState)
      → ((s' : LadderState) → Isolated s' → Isolated (next s'))
      → Isolated s
      → Isolated (gate s sr next)
  gate-Isolated s sr next f i = gate_ind Isolated s sr next (λ _. f (added s sr) i) (λ _. i)

  complexity_stage-Isolated :
      (st : Static) (s : LadderState) → Isolated s → Isolated (complexity_stage tc opts st s)
  unfolding complexity_stage
  complexity_stage-Isolated st s i =
      if_ind Isolated (too_complex tc opts st) {x = added s (complexity_result tc opts st)} {y = s}
        (λ _. i) (λ _. i)

  -- What a stage spawns is added behind what ran before it.
  more :
      (ran : List Spawn) (sp : Spawn)
      → All IsVisible ran
      → IsVisible sp
      → All IsVisible (ran ++ (sp ∷ []))
  more ran sp i v = All-append IsVisible ran (sp ∷ []) i (v, tt)

  from_bench-Isolated :
      (st : Static) (s : LadderState) → Isolated s → Isolated (from_bench tc opts st s)
  unfolding from_bench argv_of
  from_bench-Isolated st s i =
      if_ind Isolated (ltb 0 opts.max_allocs_op)
        (λ _.
          gate-Isolated _ _ (complexity_stage tc opts st) (complexity_stage-Isolated st)
            (more s.ran _ i (benches refl)))
        (λ _. complexity_stage-Isolated st s i)

  from_race-Isolated :
      (st : Static) (s : LadderState) → Isolated s → Isolated (from_race tc opts st s)
  unfolding from_race argv_of
  from_race-Isolated st s i =
      let next = from_bench tc opts st in
      let rest = from_bench-Isolated st in
      if_ind Isolated opts.skip_race (λ _. gate-Isolated s _ next rest i)
        (λ _.
          if_ind Isolated (not st.uses_concurrency) (λ _. gate-Isolated s _ next rest i)
            (λ _. gate-Isolated _ _ next rest (more s.ran _ i (races _ refl))))

  from_test-Isolated :
      (st : Static) (s : LadderState) → Isolated s → Isolated (from_test tc opts st s)
  unfolding from_test argv_of
  from_test-Isolated st s i =
      gate-Isolated _ _ (from_race tc opts st) (from_race-Isolated st)
        (more s.ran _ i (tests_ refl))

  from_vet-Isolated :
      (st : Static) (s : LadderState) → Isolated s → Isolated (from_vet tc opts st s)
  unfolding from_vet argv_of
  from_vet-Isolated st s i =
      gate-Isolated _ _ (from_test tc opts st) (from_test-Isolated st) (more s.ran _ i (vets refl))

  from_build-Isolated :
      (st : Static) (s : LadderState) → Isolated s → Isolated (from_build tc opts st s)
  unfolding from_build argv_of
  from_build-Isolated st s i =
      gate-Isolated _ _ (from_vet tc opts st) (from_vet-Isolated st) (more s.ran _ i (builds refl))

  from_stdlib-Isolated :
      (src : String) (st : Static) (s : LadderState)
      → Isolated s
      → Isolated (from_stdlib tc opts src st s)
  unfolding from_stdlib from_types
  from_stdlib-Isolated src st s i =
      gate-Isolated s _ (from_types tc opts src st)
        (λ s'. gate-Isolated s' _ (from_build tc opts st) (from_build-Isolated st)) i

  -- Whatever the processes do, `Run` on a fresh workspace spawns nothing but `go build`, `go vet`,
  -- and, under the exec wrapper, `go test` of the ^TestV functions or of the benchmarks alone: the
  -- held-out partition is not run.
  pub run_ladder-Isolated : (src : String) → Isolated (run_ladder tc opts [] src)
  unfolding run_ladder
  run_ladder-Isolated src = analysed (tc.analyse src)
    where
      analysed :
          (a : String ⊎ Static)
          → Isolated (elim a [
            | inl e ↦ record { ran = []; report = add_stage no_report (in_process parse false e) }
            | inr st ↦
                gate
                  (record { ran = []; report = record no_report { static = some st } })
                  (in_process parse true "")
                  (from_stdlib tc opts src st)
          ])
      analysed (inl e) = tt
      analysed (inr st) =
          gate-Isolated _ _ (from_stdlib tc opts src st) (from_stdlib-Isolated src st) tt

  -- If the report is OK, some test of the visible partition reported an outcome.
  abbrev pub IsEvident : LadderState → Type 0
  IsEvident s = s.report.ok_ ≡ true → is_empty s.report.tests ≡ false

  abbrev HasTests : LadderState → Type 0
  HasTests s = is_empty s.report.tests ≡ false

  added-tests : (s : LadderState) (sr : StageResult) → (added s sr).report.tests ≡ s.report.tests
  unfolding add_stage
  added-tests s sr = ground arith

  added_refuted :
      (s : LadderState) (sr : StageResult) → passed sr ≡ false → (added s sr).report.ok_ ≡ false
  unfolding add_stage
  added_refuted s sr e = rw e

  gate-HasTests :
      (s : LadderState) (sr : StageResult) (next : LadderState → LadderState)
      → ((s' : LadderState) → HasTests s' → HasTests (next s'))
      → HasTests s
      → HasTests (gate s sr next)
  gate-HasTests s sr next f h =
      let h' = ap is_empty (added-tests s sr) ∙ h in
      gate_ind HasTests s sr next (λ _. f (added s sr) h') (λ _. h')

  complexity_stage-HasTests :
      (st : Static) (s : LadderState) → HasTests s → HasTests (complexity_stage tc opts st s)
  unfolding complexity_stage
  complexity_stage-HasTests st s h =
      if_ind HasTests (too_complex tc opts st) {x = added s (complexity_result tc opts st)} {y = s}
        (λ _. ap is_empty (added-tests s (complexity_result tc opts st)) ∙ h) (λ _. h)

  noted-HasTests :
      (found : Option ℕ) (r : Report)
      → is_empty r.tests ≡ false
      → is_empty (note_allocs tc opts found r).tests ≡ false
  noted-HasTests none r h = h
  noted-HasTests (some n) r h = h

  from_bench-HasTests :
      (st : Static) (s : LadderState) → HasTests s → HasTests (from_bench tc opts st s)
  unfolding from_bench
  from_bench-HasTests st s h =
      if_ind HasTests (ltb 0 opts.max_allocs_op)
        (λ _.
          gate-HasTests _ _ (complexity_stage tc opts st) (complexity_stage-HasTests st)
            (noted-HasTests _ s.report h))
        (λ _. complexity_stage-HasTests st s h)

  from_race-HasTests :
      (st : Static) (s : LadderState) → HasTests s → HasTests (from_race tc opts st s)
  unfolding from_race
  from_race-HasTests st s h =
      let next = from_bench tc opts st in
      let rest = from_bench-HasTests st in
      if_ind HasTests opts.skip_race (λ _. gate-HasTests s _ next rest h)
        (λ _.
          if_ind HasTests (not st.uses_concurrency) (λ _. gate-HasTests s _ next rest h)
            (λ _. gate-HasTests _ _ next rest h))

  guarded :
      (sr : StageResult) (tests : Outcomes) (why : String)
      → sr.skipped ≡ false
      → passed (guard_vacuous sr tests why) ≡ true
      → is_empty tests ≡ false
  unfolding guard_vacuous
  guarded sr tests why e p = ground arith

  gate-IsEvident :
      (s : LadderState) (sr : StageResult) (next : LadderState → LadderState)
      → (passed sr ≡ true → IsEvident (next (added s sr)))
      → IsEvident (gate s sr next)
  gate-IsEvident s sr next f =
      gate_ind IsEvident s sr next f (λ e fine. let no_ok = added_refuted s sr e in cc)

  from_test-IsEvident : (st : Static) (s : LadderState) → IsEvident (from_test tc opts st s)
  unfolding from_test stage_from
  from_test-IsEvident st s =
      let (res, s1) = exec_in tc opts s opts.test_timeout true (visible_args tc opts) in
      let tests = parse_test_json tc.decode res.output in
      let s2 : LadderState = record s1 { report = record (s1.report) { tests = tests } } in
      let sr = test_result tc opts res tests in
      gate-IsEvident s2 sr (from_race tc opts st) λ p _.
        from_race-HasTests st (added s2 sr)
          (ap is_empty (added-tests s2 sr) ∙ guarded _ tests no_visible refl p)

  from_stdlib-IsEvident :
      (src : String) (st : Static) (s : LadderState) → IsEvident (from_stdlib tc opts src st s)
  unfolding from_stdlib from_types from_build from_vet
  from_stdlib-IsEvident src st s = gate-IsEvident s _ (from_types tc opts src st) λ _.
      gate-IsEvident _ _ (from_build tc opts st) λ _.
        gate-IsEvident _ _ (from_vet tc opts st)
          λ _. gate-IsEvident _ _ (from_test tc opts st) λ _. from_test-IsEvident st _

  -- An OK report of `Run` comes with at least one reported test of the visible partition: a
  -- partition that runs nothing never clears the ladder.
  pub run_ladder-IsEvident :
      (ran : List Spawn) (src : String) → IsEvident (run_ladder tc opts ran src)
  unfolding run_ladder add_stage
  run_ladder-IsEvident ran src = analysed (tc.analyse src)
    where
      analysed :
          (a : String ⊎ Static)
          → IsEvident (elim a [
            | inl e ↦ record { ran = ran; report = add_stage no_report (in_process parse false e) }
            | inr st ↦
                gate
                  (record { ran = ran; report = record no_report { static = some st } })
                  (in_process parse true "")
                  (from_stdlib tc opts src st)
          ])
      analysed (inl e) fine = cc
      analysed (inr st) fine =
          gate-IsEvident _ _ (from_stdlib tc opts src st) (λ _. from_stdlib-IsEvident src st _) fine

  -- `Accept` passes a candidate exactly if its one process, `go test` of the ^TestH functions under
  -- the exec wrapper, ended without error and in time, and reported some test.
  pub accept_ladder_iff :
      (ran : List Spawn)
      → let res =
          run tc ran opts.test_timeout true
            ("test" ∷ "-json" ∷ "-count=1" ∷ "-run" ∷ "^TestH" ∷ "./..." ∷ []) in
        ((accept_ladder tc opts ran).report.ok_ ≡ true) ↔ (
          (res.error ≡ none)
          × (res.timed_out ≡ false)
          × (is_empty (parse_test_json tc.decode res.output) ≡ false))
  unfolding accept_ladder stage_from guard_vacuous
  accept_ladder_iff ran = ground arith
