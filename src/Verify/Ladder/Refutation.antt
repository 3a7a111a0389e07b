-- ===== src/Verify/Ladder/Refutation.antt =====
-- A report of the ladder refutes at its first failed stage, and passes only on tests that ran.
use go_cascade.Base.{
  if_ind, ltb, Bool-cases, All, All-append, ℕ, String, ◌≡◌, refl, ◌⊎◌, inl, inr, true, false, not,
  Option, none, some, List, [], ◌∷◌, ◌++◌,
}
use go_cascade.Verify.Stages.{
  parse, StageResult, Static, Report, Options, passed, no_report, add_stage,
}
use go_cascade.Verify.Workspace.{Spawn, Toolchain}
use go_cascade.Verify.Ladder.{
  complexity_result, too_complex, note_allocs, LadderState, in_process, gate, complexity_stage,
  from_bench, from_race, from_test, from_vet, from_build, from_types, from_stdlib, run_ladder,
}

abbrev pub added : LadderState → StageResult → LadderState
added s sr = record s { report = add_stage s.report sr }

-- To prove something of a gate: where the stage is passed, of the rest; else of the state with the
-- stage added.
pub gate_ind {κ} :
    (P : LadderState → Type κ) (s : LadderState) (sr : StageResult)
    (next : LadderState → LadderState)
    → (passed sr ≡ true → P (next (added s sr)))
    → (passed sr ≡ false → P (added s sr))
    → P (gate s sr next)
unfolding gate
gate_ind P s sr next p q = elim (Bool-cases (passed sr)) [ inl e ↦ rw e (p e) | inr e ↦ rw e (q e) ]

abbrev pub Passed : StageResult → Type 0
Passed sr = passed sr ≡ true

-- Nothing is refuted so far.
pub record IsOpen (r : Report) : Type 0 where
  pub open_ok : r.ok_ ≡ true
  pub all_passed : All Passed r.stages

-- The last stage is the only one that failed, and the report says so.
pub record Refuted (r : Report) : Type 0 where
  pub refuted : r.ok_ ≡ false
  pub before : List StageResult
  pub last : StageResult
  pub stages_are : r.stages ≡ before ++ (last ∷ [])
  pub before_passed : All Passed before
  pub last_failed : passed last ≡ false
  pub failed_there : r.failed_at ≡ last.stage
  pub its_diagnostic : r.diagnostic ≡ last.diagnostic

abbrev pub Verdict : LadderState → Type 0
Verdict s = IsOpen s.report ⊎ Refuted s.report

add_stage-IsOpen :
    (r : Report) (sr : StageResult) → IsOpen r → passed sr ≡ true → IsOpen (add_stage r sr)
unfolding add_stage
add_stage-IsOpen r sr o p = rw p (record {
  open_ok = o.open_ok;
  all_passed = All-append Passed r.stages (sr ∷ []) o.all_passed (p, tt);
})

add_stage-Refuted :
    (r : Report) (sr : StageResult) → IsOpen r → passed sr ≡ false → Refuted (add_stage r sr)
unfolding add_stage
add_stage-Refuted r sr o p = rw p (record {
  refuted = refl;
  before = r.stages;
  last = sr;
  stages_are = refl;
  before_passed = o.all_passed;
  last_failed = p;
  failed_there = refl;
  its_diagnostic = refl;
})

gate-Verdict :
    (s : LadderState) (sr : StageResult) (next : LadderState → LadderState)
    → ((s' : LadderState) → IsOpen s'.report → Verdict (next s'))
    → IsOpen s.report
    → Verdict (gate s sr next)
gate-Verdict s sr next f o =
    gate_ind Verdict s sr next (λ p. f (added s sr) (add_stage-IsOpen s.report sr o p))
      (λ p. inr (add_stage-Refuted s.report sr o p))

module _ (tc : Toolchain) (opts : Options) where
  complexity_stage-Verdict :
      (st : Static) (s : LadderState) → IsOpen s.report → Verdict (complexity_stage tc opts st s)
  unfolding complexity_stage
  complexity_stage-Verdict st s o =
      if_ind Verdict (too_complex tc opts st) {x = added s (complexity_result tc opts st)} {y = s}
        (λ _. inr (add_stage-Refuted s.report (complexity_result tc opts st) o refl)) (λ _. inl o)

  noted-IsOpen : (found : Option ℕ) (r : Report) → IsOpen r → IsOpen (note_allocs tc opts found r)
  noted-IsOpen none r o = o
  noted-IsOpen (some n) r o = record { open_ok = o.open_ok; all_passed = o.all_passed }

  from_bench-Verdict :
      (st : Static) (s : LadderState) → IsOpen s.report → Verdict (from_bench tc opts st s)
  unfolding from_bench
  from_bench-Verdict st s o = elim (Bool-cases (ltb 0 opts.max_allocs_op)) [
    | inl e ↦ rw e (
        gate-Verdict _ _ (complexity_stage tc opts st) (complexity_stage-Verdict st)
          (noted-IsOpen _ s.report o))
    | inr e ↦ rw e (complexity_stage-Verdict st s o)
  ]

  from_race-Verdict :
      (st : Static) (s : LadderState) → IsOpen s.report → Verdict (from_race tc opts st s)
  unfolding from_race
  from_race-Verdict st s o =
      let next = from_bench tc opts st in
      let rest = from_bench-Verdict st in
      if_ind Verdict opts.skip_race (λ _. gate-Verdict s _ next rest o)
        (λ _.
          if_ind Verdict (not st.uses_concurrency) (λ _. gate-Verdict s _ next rest o)
            (λ _. gate-Verdict _ _ next rest o))

  from_test-Verdict :
      (st : Static) (s : LadderState) → IsOpen s.report → Verdict (from_test tc opts st s)
  unfolding from_test
  from_test-Verdict st s o =
      gate-Verdict _ _ (from_race tc opts st) (from_race-Verdict st)
        (record { open_ok = o.open_ok; all_passed = o.all_passed })

  from_vet-Verdict :
      (st : Static) (s : LadderState) → IsOpen s.report → Verdict (from_vet tc opts st s)
  unfolding from_vet
  from_vet-Verdict st s o = gate-Verdict _ _ (from_test tc opts st) (from_test-Verdict st) o

  from_build-Verdict :
      (st : Static) (s : LadderState) → IsOpen s.report → Verdict (from_build tc opts st s)
  unfolding from_build
  from_build-Verdict st s o = gate-Verdict _ _ (from_vet tc opts st) (from_vet-Verdict st) o

  from_types-Verdict :
      (src : String) (st : Static) (s : LadderState)
      → IsOpen s.report
      → Verdict (from_types tc opts src st s)
  unfolding from_types
  from_types-Verdict src st s o = gate-Verdict s _ (from_build tc opts st) (from_build-Verdict st) o

  from_stdlib-Verdict :
      (src : String) (st : Static) (s : LadderState)
      → IsOpen s.report
      → Verdict (from_stdlib tc opts src st s)
  unfolding from_stdlib
  from_stdlib-Verdict src st s o =
      gate-Verdict s _ (from_types tc opts src st) (from_types-Verdict src st) o

  -- `Run` ends in one of two ways. Either the report is OK and every stage in it was passed or
  -- skipped; or it is not OK, and its last stage failed, is the one that the report names and
  -- whose diagnostic it gives, and every stage before was passed or skipped.
  pub run_ladder-Verdict : (ran : List Spawn) (src : String) → Verdict (run_ladder tc opts ran src)
  unfolding run_ladder
  run_ladder-Verdict ran src = analysed (tc.analyse src)
    where
      fresh : (st : Option Static) → IsOpen (record no_report { static = st })
      fresh st = record { open_ok = refl; all_passed = tt }

      analysed :
          (a : String ⊎ Static)
          → Verdict (elim a [
            | inl e ↦ record { ran = ran; report = add_stage no_report (in_process parse false e) }
            | inr st ↦
                gate
                  (record { ran = ran; report = record no_report { static = some st } })
                  (in_process parse true "")
                  (from_stdlib tc opts src st)
          ])
      analysed (inl e) = inr (add_stage-Refuted no_report _ (fresh none) refl)
      analysed (inr st) =
          gate-Verdict _ _ (from_stdlib tc opts src st) (from_stdlib-Verdict src st)
            (fresh (some st))
