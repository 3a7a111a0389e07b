-- ===== src/Tests/Drawing.antt =====
-- A fan-out of two candidates, and a repair.
use go_cascade.Base.{true, Result, ok, err, fault, trim_space, ◌≡◌, refl, false, some, List, []}
use go_cascade.Float.{milli_float}
use go_cascade.Verify.Stages.{no_report, add_stage}
use go_cascade.Verify.Output.{parse_test_json, summarise_test_output}
use go_cascade.Verify.Ladder.{
  stage_from, guard_vacuous, gate, complexity_stage, from_bench, from_race, from_test, from_vet,
  from_build, from_types, from_stdlib, run_ladder, accept_ladder,
}
use go_cascade.Verify.Workspace.{argv_of, run}
use go_cascade.Cluster.{Candidate}
use go_cascade.Cascade.State.{add_model, add_compute, tier_cost, two_stage}
use go_cascade.Cascade.Sampling.{verify_one, sample_one, fan_out, sample_tier_n, repair_loop}
use go_cascade.Cascade.Repair.{Within, repair_loop-IsRepaired}
use go_cascade.Cascade.Rounds.{Noticed, repair_loop_observed}
use go_cascade.Cascade.FanOut.{indices, numbers_from, sample_tier_n-indices}
use go_cascade.Tests.Routing.{small_tier, small_config, small_services, small_spec, fresh_work}

abbrev candidates_of : Result (List Candidate) → List Candidate
candidates_of (ok cs) = cs
candidates_of (err e) = []
candidates_of fault = []

abbrev drawn : List Candidate
drawn =
    candidates_of
      (sample_tier_n small_services small_config 2 5 (small_tier "cheap") "p" small_spec [] ""
        fresh_work).0

draws :
    (sample_tier_n small_services small_config 2 5
      (small_tier "cheap")
      "p"
      small_spec
      []
      ""
      fresh_work).0
    ≡ ok drawn
unfolding sample_tier_n two_stage fan_out sample_one verify_one tier_cost add_model add_compute
    run_ladder from_stdlib from_types from_build from_vet from_test from_race from_bench
    complexity_stage gate add_stage stage_from guard_vacuous run argv_of parse_test_json
    summarise_test_output trim_space accept_ladder
draws = refl

sample_tier_n-indices_example : indices drawn ≡ numbers_from 5 2
sample_tier_n-indices_example =
    sample_tier_n-indices small_services small_config 2 5 (small_tier "cheap") "p" small_spec [] ""
      fresh_work drawn draws

abbrev broken : Candidate
broken = record {
  index = 0;
  source = "broken";
  report = some (record no_report { ok_ = false; diagnostic = "expected }" });
}

repair_loop-IsRepaired_example : Within small_services small_config small_spec 2 0 (
    repair_loop small_services small_config 2 0
      (small_tier "cheap")
      "p"
      small_spec
      broken
      fresh_work)
repair_loop-IsRepaired_example =
    repair_loop-IsRepaired small_services small_config 2 0 (small_tier "cheap") "p" small_spec
      broken fresh_work

repair_loop_observed_example :
    Noticed small_services small_config true (small_tier "cheap") refl [] (
      repair_loop small_services small_config 2 0
        (small_tier "cheap")
        "p"
        small_spec
        broken
        fresh_work)
repair_loop_observed_example =
    repair_loop_observed small_services small_config true (small_tier "cheap") refl 2 0 "p"
      small_spec broken fresh_work
