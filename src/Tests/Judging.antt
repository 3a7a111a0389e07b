-- ===== src/Tests/Judging.antt =====
-- The two records of a paired collection on the tiers of the router's tests.
use go_cascade.Base.{
  false, List, [], ◌∷◌, ok, sort_stable, trim_space, String, ◌≡◌, refl, Bool, true, Option, none,
  some, length,
}
use go_cascade.Float.{Milli, milli_float}
use go_cascade.Cache.Entries.{read_file, write_file, put_spec, get_spec}
use go_cascade.Calibrate.Records.{Record, mark_timed_out, disagrees, retain_source_on_disagreement}
use go_cascade.Cascade.State.{add_model, add_compute, two_stage}
use go_cascade.Cascade.Query.{spec_cost, spec_phase}
use go_cascade.Cascade.Profile.{tests_compile_against_own_api, judge_reference, validate_oracle}
use go_cascade.Cascade.Judge.{
  fresh_record, judge_at, judge_strictness, judge_accept, profile_paired,
}
use go_cascade.Cascade.Judge.Paired.{Arms, profile_paired-Arms}
use go_cascade.Cascade.Sequential.{draw_plan, draw, judge}
use go_cascade.Cascade.Sampling.{
  any_timed_out, verify_one, accept_one, sample_one, fan_out, sample_tier_n, sample_tier,
}
use go_cascade.Cluster.{classes, cluster_lt, group, wilson_lcb, score}
use go_cascade.Verify.Ladder.{
  stage_from, guard_vacuous, gate, complexity_stage, from_bench, from_race, from_test, from_vet,
  from_build, from_types, from_stdlib, run_ladder, accept_ladder,
}
use go_cascade.Verify.Stages.{add_stage}
use go_cascade.Verify.Workspace.{argv_of, run}
use go_cascade.Verify.Output.{parse_test_json, summarise_test_output}
use go_cascade.Verify.Mutation.Harvest.{KilledMutant}
use go_cascade.Cascade.Judge.Seeded.{SeedKind, SeededRecord, no_seed_row, judged_row}
use go_cascade.Cascade.Judge.Seeded.Tally.{IsRow, judged_row-IsRow}
use go_cascade.Tests.Routing.{small_config, small_services, small_spec}
use go_cascade.Tests.Querying.{small_queries, empty_session}

abbrev refs : String → Option String
refs id = some "reference"

-- A judge that passes every candidate.
abbrev parse_pass : String → Option Bool
parse_pass text = some true

abbrev none_yet : Record Milli
none_yet = fresh_record "" "" "" ""

abbrev records_of : Option (Record Milli × Record Milli) → Record Milli × Record Milli
records_of (some recs) = recs
records_of none = (none_yet, none_yet)

abbrev paired_records : Record Milli × Record Milli
paired_records =
    records_of
      (profile_paired small_services small_queries small_config none refs (λ id. "api") "balanced"
        parse_pass "id" "p" "" empty_session).1

paired_done :
    profile_paired small_services small_queries small_config none refs
      (λ id. "api")
      "balanced"
      parse_pass
      "id"
      "p"
      ""
      empty_session
    ≡ (ok tt, some paired_records)
unfolding profile_paired judge_accept judge_at judge_strictness validate_oracle judge_reference
    tests_compile_against_own_api mark_timed_out retain_source_on_disagreement disagrees spec_cost
    spec_phase read_file write_file put_spec get_spec draw_plan sample_tier sample_tier_n two_stage
    fan_out sample_one verify_one accept_one draw any_timed_out judge add_model add_compute group
    classes score wilson_lcb cluster_lt run_ladder from_stdlib from_types from_build from_vet
    from_test from_race from_bench complexity_stage gate add_stage stage_from guard_vacuous run
    argv_of parse_test_json summarise_test_output trim_space accept_ladder sort_stable
paired_done = refl

paired_tiers : length (paired_records.0).tiers ≡ length small_config.tiers
unfolding profile_paired judge_accept judge_at judge_strictness validate_oracle judge_reference
    tests_compile_against_own_api mark_timed_out retain_source_on_disagreement disagrees spec_cost
    spec_phase read_file write_file put_spec get_spec draw_plan sample_tier sample_tier_n two_stage
    fan_out sample_one verify_one accept_one draw any_timed_out judge add_model add_compute group
    classes score wilson_lcb cluster_lt run_ladder from_stdlib from_types from_build from_vet
    from_test from_race from_bench complexity_stage gate add_stage stage_from guard_vacuous run
    argv_of parse_test_json summarise_test_output trim_space accept_ladder sort_stable
paired_tiers = refl

profile_paired-Arms_example :
    Arms small_config.planner_model small_config.test_model small_config.test_model
      small_config.tiers paired_records
profile_paired-Arms_example =
    profile_paired-Arms small_services small_queries small_config none refs (λ id. "api") "balanced"
      parse_pass "id" "p" "" empty_session paired_records paired_done

-- A harvest of one program, judged at two levels.
abbrev wrong_one : KilledMutant
wrong_one = record { source = "bad"; desc = "a -> b"; data_race = false; plain_refuted = true }

abbrev two_levels : List String
two_levels = "strict" ∷ "permissive" ∷ []

abbrev row_of : Option SeededRecord → SeededRecord
row_of (some row) = row
row_of none = no_seed_row "id" SeedKind.seed_logic ""

abbrev seeded_row : SeededRecord
seeded_row =
    row_of
      (judged_row small_services small_queries small_config none refs (λ id. "api") "balanced"
        parse_pass two_levels SeedKind.seed_logic "id" "p" "judge" small_spec (wrong_one ∷ []) 0).1

seeded_done :
    judged_row small_services small_queries small_config none refs
      (λ id. "api")
      "balanced"
      parse_pass
      two_levels
      SeedKind.seed_logic
      "id"
      "p"
      "judge"
      small_spec
      (wrong_one ∷ [])
      0
    ≡ (ok tt, some seeded_row)
unfolding judged_row judge_at
seeded_done = refl

judged_row-IsRow_example :
    IsRow small_services small_queries small_config none refs
      (λ id. "api")
      "balanced"
      parse_pass
      two_levels
      "judge"
      "p"
      small_spec
      (wrong_one ∷ [])
      0
      (ok tt)
      seeded_row
judged_row-IsRow_example =
    judged_row-IsRow small_services small_queries small_config none refs (λ id. "api") "balanced"
      parse_pass two_levels SeedKind.seed_logic "id" "p" "judge" small_spec (wrong_one ∷ []) 0
      (ok tt) seeded_row seeded_done
