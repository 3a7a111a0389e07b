-- ===== src/Tests/Routing.antt =====
-- The router on two small tiers and a service that always answers.
use go_cascade.Base.{
  sort_stable, refl, ok, ◌≡◌, trim_space, true, ℕ, suc, String, inr, false, none, some, [], ◌∷◌,
}
use go_cascade.Float.{of_milli, Milli, milli_float}
use go_cascade.Cascade.State.{
  add_compute, add_model, tier_cost, contaminated_by, calibrated, threshold, two_stage, Tier,
  Config, Answer, Spec, Work, Services,
}
use go_cascade.Cascade.Sequential.{
  try_accept, judge, draw, attempt, run_tiers, cascade_plan, sequential,
}
use go_cascade.Cache.Known.{IsBounded}
use go_cascade.Cascade.Runs.{Runs}
use go_cascade.Cascade.Runs.Tiers.{sequential-Runs}
use go_cascade.Cascade.Runs.Invariants.{
  IsBalanced, Grows, sequential-IsBalanced, sequential-IsBounded, sequential-Grows,
}
use go_cascade.Tests.Laddering.{toolchain, limits}
use go_cascade.Cascade.Accepted.{sequential-Comes, Comes}
use go_cascade.Cascade.Sampling.{
  any_timed_out, accept_one, verify_one, sample_one, fan_out, sample_tier_n, sample_tier,
}
use go_cascade.Cluster.{cluster_lt, wilson_lcb, score, classes, group}
use go_cascade.Verify.Ladder.{
  accept_ladder, guard_vacuous, stage_from, gate, complexity_stage, from_bench, from_race,
  from_test, from_vet, from_build, from_types, from_stdlib, run_ladder,
}
use go_cascade.Verify.Stages.{add_stage}
use go_cascade.Verify.Workspace.{argv_of, run}
use go_cascade.Verify.Output.{summarise_test_output, parse_test_json}

abbrev pub small_tier : String → Tier Milli
small_tier name = record {
  name = name;
  model_id = name;
  in_per_mtok = of_milli 1000;
  out_per_mtok = of_milli 2000;
  samples = 2;
  repair_depth = 1;
  planner_model = "";
  planner_in_per_mtok = of_milli 0;
  planner_out_per_mtok = of_milli 0;
}

abbrev pub small_config : Config Milli
small_config = record {
  tiers = small_tier "cheap" ∷ small_tier "dear" ∷ [];
  test_model = "dear";
  planner_model = "";
  planner_in_per_mtok = of_milli 0;
  planner_out_per_mtok = of_milli 0;
  compute_rate = of_milli 1;
  cache_disabled = false;
  test_in_cost = of_milli 3000;
  test_out_cost = of_milli 15000;
  alpha = of_milli 50;
  budget_usd = of_milli 0;
  deadline = 0;
  mutants = 4;
  cache_top_k = 5;
  cache_min_sim = of_milli 350;
  cache_admit_at = of_milli 200;
  shadow_rate = of_milli 50;
  opts = limits;
}

-- The world counts the answers of the model.
abbrev pub small_services : Services ℕ Milli
small_services = record {
  generate = λ model text seed w.
      (inr (record { text = "src"; input_tokens = 3; output_tokens = 5 }), suc w);
  new_workspace = λ source visible hidden w. (some toolchain, w);
  expired = λ w. none;
  extract_code = λ text. inr text;
  canonical_hash = λ source. some source;
  problem_hash = λ problem. problem;
  digest = λ text. text;
  code_user = λ problem api seed avoid. problem;
  code_user_from_plan = λ problem api plan seed avoid. problem;
  plan_user = λ problem api. problem;
  repair_user = λ problem api source stage diagnostic. problem;
  first_line = λ text. text;
  sqrt = λ x. x;
  min_of = λ x y. x;
  max_of = λ x y. y;
  seconds = λ n. of_milli n;
  sprintf = λ f args. f;
}

abbrev pub small_spec : Spec
small_spec = record { api = "api"; visible_tests = "v"; hidden_tests = "h" }

abbrev pub fresh_work : Work ℕ Milli
fresh_work = record {
  world = 0;
  cost = record {
    model_usd = of_milli 0;
    compute_usd = of_milli 0;
    total_usd = of_milli 0;
    input_tokens = 0;
    output_tokens = 0;
    verifier_time = 0;
    model_calls = 0;
  };
  trace = [];
  store = [];
}

abbrev answer : Answer Milli
answer = record {
  solution = "src";
  solved = true;
  accepted_at = "cheap";
  score = of_milli 1000;
  static = some (record {
    non_std_imports = [];
    uses_concurrency = true;
    max_complexity = 3;
    complex_func = "f";
  });
  certified = false;
  certificate = none;
  oracle_contaminated = false;
}

answers :
    (sequential small_services small_config none "p" small_spec fresh_work).0 ≡ ok (some answer)
unfolding sequential cascade_plan run_tiers sample_tier sample_tier_n two_stage fan_out sample_one
    verify_one accept_one attempt draw any_timed_out judge try_accept threshold calibrated
    contaminated_by tier_cost add_model add_compute group classes score wilson_lcb cluster_lt
    run_ladder from_stdlib from_types from_build from_vet from_test from_race from_bench
    complexity_stage gate add_stage stage_from guard_vacuous run argv_of parse_test_json
    summarise_test_output trim_space accept_ladder sort_stable
answers = refl

sequential-Comes_example :
    Comes small_services small_config none small_spec answer 0 small_config.tiers
sequential-Comes_example =
    sequential-Comes small_services small_config none small_spec "p" fresh_work answer answers

sequential-Runs_example :
    Runs small_services small_config fresh_work
      (sequential small_services small_config none "p" small_spec fresh_work).1
sequential-Runs_example =
    sequential-Runs small_services small_config none {w = fresh_work} "p" small_spec

sequential-IsBalanced_example :
    IsBalanced (sequential small_services small_config none "p" small_spec fresh_work).1.cost
sequential-IsBalanced_example =
    sequential-IsBalanced small_services small_config none "p" small_spec fresh_work refl

sequential-IsBounded_example :
    IsBounded (sequential small_services small_config none "p" small_spec fresh_work).1.store
sequential-IsBounded_example =
    sequential-IsBounded small_services small_config none "p" small_spec fresh_work tt

sequential-Grows_example :
    Grows fresh_work (sequential small_services small_config none "p" small_spec fresh_work).1
sequential-Grows_example =
    sequential-Grows small_services small_config none "p" small_spec fresh_work
