-- ===== src/Tests/Querying.antt =====
-- A whole query, on the service and the tiers of the router's tests.
use go_cascade.Base.{
  sort_stable, trim_space, ℕ, suc, ◌≡◌, refl, inr, ok, true, false, none, some, [],
}
use go_cascade.Float.{Milli, of_milli, milli_float}
use go_cascade.Cache.Entries.{
  read_file, write_file, put_spec, get_spec, stamped, put_solution, candidates_for, better,
  retrieve,
}
use go_cascade.Cascade.State.{
  Spec, add_model, add_compute, tier_cost, two_stage, contaminated_by, calibrated, threshold,
}
use go_cascade.Cascade.Query.{Queries, Session, spec_cost, spec_phase, try_hits, try_cache}
use go_cascade.Cascade.Solve.{
  is_observed, observations, blank_answer, record_of, admits, entry_of, finish, fresh, solve,
}
use go_cascade.Cascade.Speculative.{gather}
use go_cascade.Cascade.Sequential.{
  cascade_plan, draw, try_accept, judge, attempt, run_tiers, sequential,
}
use go_cascade.Cascade.Sampling.{
  any_timed_out, verify_one, accept_one, sample_one, fan_out, sample_tier_n, sample_tier,
}
use go_cascade.Cascade.Vouched.{Vouched}
use go_cascade.Cascade.Solved.{Leaves, solve-Vouched}
use go_cascade.Cascade.Admission.{Keeps, solve-Keeps}
use go_cascade.Cascade.Observed.{gather_verifier_time}
use go_cascade.Cluster.{classes, cluster_lt, group, wilson_lcb, score}
use go_cascade.Verify.Ladder.{
  stage_from, guard_vacuous, gate, complexity_stage, from_bench, from_race, from_test, from_vet,
  from_build, from_types, from_stdlib, run_ladder, accept_ladder,
}
use go_cascade.Verify.Stages.{add_stage}
use go_cascade.Verify.Workspace.{argv_of, run}
use go_cascade.Verify.Output.{parse_test_json, summarise_test_output}
use go_cascade.Tests.Routing.{small_config, small_services, small_spec, fresh_work}

abbrev pub small_queries : Queries ℕ Milli
small_queries = record {
  coin = λ w. (of_milli 500, suc w);
  spec_user = λ problem pinned. problem;
  parse_spec = λ text. inr small_spec;
  similarity_to = λ a b. of_milli 0;
  mutate = λ source spec n w. (some (record { mutation_score = of_milli 750; elapsed = 2 }), suc w);
  is_deadline = λ e. false;
}

-- Nothing is cached yet.
abbrev pub empty_session : Session ℕ Milli
empty_session = record {
  work = fresh_work;
  specs = [];
  solutions = [];
  answer = blank_answer;
  shadow = false;
  mutation = none;
  observed = [];
}

query_solved :
    (solve small_services small_queries small_config none "p" empty_session).1.answer.solved ≡ true
unfolding solve finish observations is_observed record_of admits entry_of spec_cost spec_phase
    try_hits try_cache retrieve candidates_for better put_solution stamped read_file write_file
    put_spec get_spec sequential cascade_plan run_tiers sample_tier sample_tier_n two_stage fan_out
    sample_one verify_one accept_one attempt draw any_timed_out judge try_accept threshold
    calibrated contaminated_by tier_cost add_model add_compute group classes score wilson_lcb
    cluster_lt run_ladder from_stdlib from_types from_build from_vet from_test from_race from_bench
    complexity_stage gate add_stage stage_from guard_vacuous run argv_of parse_test_json
    summarise_test_output trim_space accept_ladder sort_stable
query_solved = refl

solve-Vouched_example :
    let end = (solve small_services small_queries small_config none "p" empty_session).1 in
    (spec : Spec) × ((spec_phase small_services small_queries small_config none "p" ""
        (fresh small_services small_queries small_config none empty_session)).0
      ≡ ok spec)
    × ((after : ℕ) × Vouched small_services small_config none spec end.answer after
        × Leaves small_services small_queries small_config none end.answer spec after
            end.work.world)
solve-Vouched_example =
    solve-Vouched small_services small_queries small_config none "p" empty_session query_solved

solve-Keeps_example :
    Keeps small_services small_queries small_config none []
      (solve small_services small_queries small_config none "p" empty_session).1
solve-Keeps_example = solve-Keeps small_services small_queries small_config none "p" empty_session

gather_verifier_time_example :
    (gather small_services small_config none small_config.tiers "p" small_spec ""
      fresh_work).1.cost.verifier_time
    ≡ 0
gather_verifier_time_example =
    gather_verifier_time small_services small_config none small_config.tiers "p" small_spec ""
      fresh_work
