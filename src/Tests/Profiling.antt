-- ===== src/Tests/Profiling.antt =====
-- Collecting a calibration record on the tiers of the router's tests, for a pinned reference.
use go_cascade.Base.{ok, sort_stable, trim_space, String, ◌≡◌, refl, Option, none, some}
use go_cascade.Float.{Milli, milli_float}
use go_cascade.Cache.Entries.{read_file, write_file, put_spec, get_spec}
use go_cascade.Calibrate.Records.{Record, mark_timed_out}
use go_cascade.Cascade.State.{add_model, add_compute, two_stage}
use go_cascade.Cascade.Query.{spec_cost, spec_phase}
use go_cascade.Cascade.Profile.{
  tests_compile_against_own_api, judge_reference, validate_oracle, profile_tier, profile_tiers,
  profile,
}
use go_cascade.Cascade.Profile.Rectangular.{IsRectangular, profile-IsRectangular}
use go_cascade.Cascade.Sequential.{draw_plan, draw, judge}
use go_cascade.Cascade.Sampling.{
  any_timed_out, verify_one, accept_one, sample_one, fan_out, sample_tier_n, sample_tier,
}
use go_cascade.Cluster.{classes, cluster_lt, group, wilson_lcb, score}
use go_cascade.Verify.Ladder.{
  stage_from, guard_vacuous, gate, complexity_stage, from_bench, from_race, from_test, from_vet,
  from_build, from_types, from_stdlib, run_ladder, accept_ladder,
}
use go_cascade.Verify.Stages.{add_stage}
use go_cascade.Verify.Workspace.{argv_of, run}
use go_cascade.Verify.Output.{parse_test_json, summarise_test_output}
use go_cascade.Tests.Routing.{small_config, small_services}
use go_cascade.Tests.Querying.{small_queries, empty_session}

abbrev refs : String → Option String
refs id = some "reference"

profile_done :
    (profile small_services small_queries small_config none refs
      (λ id. "api")
      "id"
      "p"
      empty_session).0
    ≡ ok tt
unfolding profile profile_tiers profile_tier validate_oracle judge_reference
    tests_compile_against_own_api mark_timed_out spec_cost spec_phase read_file write_file put_spec
    get_spec draw_plan sample_tier sample_tier_n two_stage fan_out sample_one verify_one accept_one
    draw any_timed_out judge add_model add_compute group classes score wilson_lcb cluster_lt
    run_ladder from_stdlib from_types from_build from_vet from_test from_race from_bench
    complexity_stage gate add_stage stage_from guard_vacuous run argv_of parse_test_json
    summarise_test_output trim_space accept_ladder sort_stable
profile_done = refl

profile-IsRectangular_example :
    (rec : Record Milli) × (((profile small_services small_queries small_config none refs
          (λ id. "api")
          "id"
          "p"
          empty_session).1
        ≡ some rec)
      × IsRectangular small_services small_queries small_config none refs (λ id. "api") "id" rec)
profile-IsRectangular_example =
    profile-IsRectangular small_services small_queries small_config none refs (λ id. "api") "id" "p"
      empty_session profile_done
