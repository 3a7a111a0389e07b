-- ===== src/Verify/Ladder.antt =====
-- The ladder itself: `stageFrom`, `Run`, `Accept`, `RunAllTests` (internal/verify/ladder.go).
-- A state is what was spawned in the workspace so far, and the report. Each function is the rest of
-- `Run` from one stage on. `time.Since` of an in-process stage is not modelled: it counts as 0.
pub mod Refutation
pub mod Evidence
use go_cascade.Base.{
  ltb, leb, str_eq, if◌then◌else◌, is_none, length, is_empty, ℕ, ◌+◌, ◌*◌, String, ◌<>◌, inl, inr,
  Bool, true, false, not, ◌&&◌, Option, none, some, List, [], ◌∷◌, ◌++◌,
}
use go_cascade.Verify.Stages.{
  Stage, parse, stdlib, types, build, vet, test, race, bench, accept, StageResult, Static, Outcomes,
  Report, Options, passed, no_report, add_stage,
}
use go_cascade.Verify.Output.{parse_test_json, summarise_test_output, parse_allocs}
use go_cascade.Verify.Workspace.{Spawn, CmdResult, Toolchain, spawn_of, run}

pub record LadderState : Type 0 where
  pub ran : List Spawn
  pub report : Report

abbrev pub second : ℕ
second = 1_000_000_000

abbrev pub error_text : Option String → String
error_text none = ""
error_text (some e) = e

unfoldable pub stage_from : Stage → CmdResult → StageResult
stage_from s res =
    let good = is_none res.error && not res.timed_out in
    record {
      stage = s;
      ok_ = good;
      skipped = false;
      reason = "";
      diagnostic =
          if good then "" else if str_eq res.output "" then error_text res.error else res.output;
      elapsed = res.duration;
      timed_out = res.timed_out;
    }

abbrev pub in_process : Stage → Bool → String → StageResult
in_process s good diag = record {
  stage = s;
  ok_ = good;
  skipped = false;
  reason = "";
  diagnostic = diag;
  elapsed = 0;
  timed_out = false;
}

abbrev pub skip : Stage → String → StageResult
skip s why = record {
  stage = s;
  ok_ = true;
  skipped = true;
  reason = why;
  diagnostic = "";
  elapsed = 0;
  timed_out = false;
}

-- `strings.Join(xs, ", ")`
join_comma : List String → String
join_comma [] = ""
join_comma (x ∷ []) = x
join_comma (x ∷ y ∷ ys) = x <> ", " <> join_comma (y ∷ ys)

-- The result of a test stage, which needs one test at least to pass.
unfoldable pub guard_vacuous : StageResult → Outcomes → String → StageResult
guard_vacuous sr tests why =
    if sr.ok_ && is_empty tests then record sr { ok_ = false; diagnostic = why } else sr

abbrev pub no_visible : String
no_visible =
    "visible partition ran no tests: no test function matches ^TestV (a suite that runs nothing cannot refute anything)"

abbrev pub no_hidden : String
no_hidden =
    "hidden partition ran no tests: no test function matches ^TestH (acceptance against an empty oracle is not acceptance)"

-- Adds the stage, and goes on if it was passed.
unfoldable pub gate : LadderState → StageResult → (LadderState → LadderState) → LadderState
gate s sr next =
    let s' = record s { report = add_stage s.report sr } in
    let rest = next s' in if passed sr then rest else s'

module _ (tc : Toolchain) (opts : Options) where
  open tc use {allocs, decode, show_number}

  -- `ws.run`, which leaves its spawn in the state.
  abbrev pub exec_in : LadderState → ℕ → Bool → List String → CmdResult × LadderState
  exec_in s timeout sandbox args = (
    run tc s.ran timeout sandbox args,
    record s { ran = s.ran ++ (spawn_of tc timeout sandbox args ∷ []) },
  )

  abbrev pub too_complex : Static → Bool
  too_complex st = ltb 0 opts.max_complexity && ltb opts.max_complexity st.max_complexity

  abbrev pub complexity_result : Static → StageResult
  complexity_result st = in_process parse false (
      "cyclomatic complexity "
      <> show_number st.max_complexity
      <> " in "
      <> st.complex_func
      <> " exceeds limit "
      <> show_number opts.max_complexity)

  unfoldable pub complexity_stage : Static → LadderState → LadderState
  complexity_stage st s =
      if too_complex st then record s { report = add_stage s.report (complexity_result st) } else s

  abbrev bench_result : Option ℕ → ℕ → StageResult
  bench_result none elapsed = record (skip bench "no benchmark in the test partition") {
    elapsed = elapsed;
  }
  bench_result (some n) elapsed =
      let over = ltb opts.max_allocs_op n in
      record (in_process bench (not over) (
        if over
        then show_number n <> " allocs/op exceeds limit " <> show_number opts.max_allocs_op
        else "")) { elapsed = elapsed }

  abbrev note_allocs : Option ℕ → Report → Report
  note_allocs none r = r
  note_allocs (some n) r = record r { allocs_per_op = n }

  abbrev pub bench_args : List String
  bench_args = "test" ∷ "-run" ∷ "^$" ∷ "-bench" ∷ "." ∷ "-benchmem" ∷ "./..." ∷ []

  -- V6 and what follows.
  unfoldable pub from_bench : Static → LadderState → LadderState
  unfolding parse_allocs
  from_bench st s =
      let (res, s1) = exec_in s opts.test_timeout true bench_args in
      let found = parse_allocs (allocs res.output) in
      let s2 = record s1 { report = note_allocs found s1.report } in
      let measured = gate s2 (bench_result found res.duration) (complexity_stage st) in
      if ltb 0 opts.max_allocs_op then measured else complexity_stage st s

  abbrev pub race_count : ℕ
  race_count = if leb 1 opts.race_count then opts.race_count else 1

  abbrev pub race_args : List String
  race_args =
      "test" ∷ "-race" ∷ ("-count=" <> show_number race_count) ∷ "-run" ∷ "^TestV" ∷ "./..." ∷ []

  race_result : CmdResult → StageResult
  race_result res =
      let sr = stage_from race res in
      record sr { diagnostic = summarise_test_output decode res.output sr.diagnostic }

  -- V5 and what follows.
  unfoldable pub from_race : Static → LadderState → LadderState
  unfolding race_result
  from_race st s =
      let (res, s1) = exec_in s (opts.test_timeout * race_count + 30 * second) true race_args in
      let raced = gate s1 (race_result res) (from_bench st) in
      if opts.skip_race
      then gate s (skip race "latency-bounded run") (from_bench st)
      else if not st.uses_concurrency
      then gate s (skip race "no goroutines, channels, select or sync") (from_bench st)
      else raced

  abbrev pub visible_args : List String
  visible_args = "test" ∷ "-json" ∷ "-count=1" ∷ "-run" ∷ "^TestV" ∷ "./..." ∷ []

  pub test_result : CmdResult → Outcomes → StageResult
  test_result res tests =
      let sr = stage_from test res in
      guard_vacuous
        (record sr { diagnostic = summarise_test_output decode res.output sr.diagnostic }) tests
        no_visible

  -- V4 and what follows.
  unfoldable pub from_test : Static → LadderState → LadderState
  unfolding test_result
  from_test st s =
      let (res, s1) = exec_in s opts.test_timeout true visible_args in
      let tests = parse_test_json decode res.output in
      let s2 = record s1 { report = record (s1.report) { tests = tests } } in
      gate s2 (test_result res tests) (from_race st)

  unfoldable pub from_vet : Static → LadderState → LadderState
  from_vet st s =
      let (res, s1) = exec_in s (60 * second) false ("vet" ∷ "./..." ∷ []) in
      gate s1 (stage_from vet res) (from_test st)

  unfoldable pub from_build : Static → LadderState → LadderState
  from_build st s =
      let (res, s1) = exec_in s (60 * second) false ("build" ∷ "./..." ∷ []) in
      gate s1 (stage_from build res) (from_vet st)

  -- V1 and what follows.
  unfoldable pub from_types : String → Static → LadderState → LadderState
  from_types src st s =
      let terr = tc.typecheck src in
      gate s (in_process types (is_none terr) (error_text terr)) (from_build st)

  -- V0b and what follows.
  unfoldable pub from_stdlib : String → Static → LadderState → LadderState
  unfolding join_comma
  from_stdlib src st s =
      let foreign = opts.stdlib_only && not (is_empty st.non_std_imports) in
      let why =
        if foreign
        then "non-stdlib imports are not permitted: " <> join_comma st.non_std_imports
        else "" in
      gate s (in_process stdlib (not foreign) why) (from_types src st)

  unfoldable pub run_ladder : List Spawn → String → LadderState
  run_ladder ran src = elim (tc.analyse src) [
    | inl e ↦ record { ran = ran; report = add_stage no_report (in_process parse false e) }
    | inr st ↦
        gate (record { ran = ran; report = record no_report { static = some st } })
          (in_process parse true "") (from_stdlib src st)
  ]

  abbrev pub hidden_args : List String
  hidden_args = "test" ∷ "-json" ∷ "-count=1" ∷ "-run" ∷ "^TestH" ∷ "./..." ∷ []

  -- The stage result of `Accept`, after its guard.
  accept_result : CmdResult → Outcomes → StageResult
  accept_result res tests =
      let sr = stage_from accept res in
      guard_vacuous
        (record sr { diagnostic = summarise_test_output decode res.output sr.diagnostic }) tests
        no_hidden

  unfoldable pub accept_ladder : List Spawn → LadderState
  unfolding accept_result
  accept_ladder ran =
      let (res, s) =
        exec_in (record { ran = ran; report = no_report }) opts.test_timeout true hidden_args in
      let tests = parse_test_json decode res.output in
      let sr = accept_result res tests in
      let r = record no_report { stages = sr ∷ []; cpu_time = res.duration; tests = tests } in
      let failed = record r { ok_ = false; failed_at = accept; diagnostic = sr.diagnostic } in
      record { ran = s.ran; report = if sr.ok_ then r else failed }

  abbrev pub all_args : List String
  all_args = "test" ∷ "-json" ∷ "-count=1" ∷ "./..." ∷ []

  pub record SuiteRun : Type 0 where
    pub ran_ : Bool
    pub passed_ : Bool
    pub ntests : ℕ
    pub diag : String

  abbrev suite_verdict : CmdResult → Outcomes → String → SuiteRun
  suite_verdict res [] diag =
      let mismatch = "candidate does not compile against the suite: " <> diag in
      record {
        ran_ = false;
        passed_ = false;
        ntests = 0;
        diag = if is_none res.error then "suite executed no tests: " <> diag else mismatch;
      }
  suite_verdict res (t ∷ ts) diag = record {
    ran_ = true;
    passed_ = is_none res.error;
    ntests = length (t ∷ ts);
    diag = diag;
  }

  abbrev after_build : Option String → CmdResult → SuiteRun → SuiteRun
  after_build none built tested = tested
  after_build (some e) built tested = record {
    ran_ = false;
    passed_ = false;
    ntests = 0;
    diag =
        "candidate does not compile against the suite: "
        <> summarise_test_output decode built.output e;
  }

  unfoldable pub run_all_tests : List Spawn → SuiteRun
  run_all_tests ran =
      let (built, s) =
        exec_in (record { ran = ran; report = no_report }) (60 * second) false
          ("build" ∷ "./..." ∷ []) in
      let res = run tc s.ran opts.test_timeout true all_args in
      let tested =
        suite_verdict res (parse_test_json decode res.output)
          (summarise_test_output decode res.output "") in
      after_build built.error built tested
