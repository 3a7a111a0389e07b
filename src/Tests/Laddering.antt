-- ===== src/Tests/Laddering.antt =====
-- The ladder on a small toolchain.
use go_cascade.Base.{
  str_eq, is_empty, any, trim_space, String, ◌≡◌, refl, ◌↔◌, inr, Bool, true, false, Option, none,
  some, List, [], ◌∷◌,
}
use go_cascade.Verify.Stages.{Static, Options, add_stage}
use go_cascade.Verify.Output.{TestEvent, parse_test_json, summarise_test_output}
use go_cascade.Verify.Workspace.{Toolchain, argv_of, run}
use go_cascade.Verify.Ladder.{
  stage_from, guard_vacuous, gate, complexity_stage, from_bench, from_race, from_test, from_vet,
  from_build, from_types, from_stdlib, run_ladder, accept_ladder,
}
use go_cascade.Verify.Ladder.Refutation.{Verdict, run_ladder-Verdict}
use go_cascade.Verify.Ladder.Evidence.{
  Isolated, run_ladder-Isolated, run_ladder-IsEvident, accept_ladder_iff,
}

-- Every process prints one passing test; a benchmark is killed by the clock.
abbrev decode_line : String → Option TestEvent
decode_line line = some (record { action = "pass"; test_ = line; output = "" })

abbrev killed_if_bench : List String → Bool
killed_if_bench argv = any (λ a. str_eq a "-bench") argv

abbrev pub toolchain : Toolchain
toolchain = record {
  go_bin = "go";
  exec_wrapper = "sandbox" ∷ [];
  spawn = λ ran sp. record {
    printed = "{TestV}";
    error = none;
    deadline = killed_if_bench sp.argv;
    duration = 7;
  };
  show_timeout = λ n. "1s";
  analyse = λ src. inr (record {
    non_std_imports = [];
    uses_concurrency = true;
    max_complexity = 3;
    complex_func = "f";
  });
  typecheck = λ src. none;
  decode = decode_line;
  allocs = λ out. [];
  show_number = λ n. "n";
}

abbrev pub limits : Options
limits = record {
  stdlib_only = true;
  max_complexity = 9;
  max_allocs_op = 4;
  test_timeout = 5_000_000_000;
  race_count = 2;
  skip_race = false;
}

clears_all : (run_ladder toolchain limits [] "src").report.ok_ ≡ true
unfolding run_ladder from_stdlib from_types from_build from_vet from_test from_race from_bench
    complexity_stage gate add_stage stage_from guard_vacuous run argv_of parse_test_json
    summarise_test_output trim_space
clears_all = refl

run_ladder-Verdict_example : Verdict (run_ladder toolchain limits [] "src")
run_ladder-Verdict_example = run_ladder-Verdict toolchain limits [] "src"

run_ladder-Isolated_example : Isolated toolchain limits (run_ladder toolchain limits [] "src")
run_ladder-Isolated_example = run_ladder-Isolated toolchain limits "src"

run_ladder-IsEvident_example : is_empty (run_ladder toolchain limits [] "src").report.tests ≡ false
run_ladder-IsEvident_example = run_ladder-IsEvident toolchain limits [] "src" clears_all

accept_ladder_iff_example :
    let res =
      run toolchain [] 5_000_000_000 true
        ("test" ∷ "-json" ∷ "-count=1" ∷ "-run" ∷ "^TestH" ∷ "./..." ∷ []) in
    ((accept_ladder toolchain limits []).report.ok_ ≡ true) ↔ (
      (res.error ≡ none)
      × (res.timed_out ≡ false)
      × (is_empty (parse_test_json decode_line res.output) ≡ false))
accept_ladder_iff_example = accept_ladder_iff toolchain limits []

abbrev facts : Static
facts = record {
  non_std_imports = [];
  uses_concurrency = true;
  max_complexity = 3;
  complex_func = "f";
}
