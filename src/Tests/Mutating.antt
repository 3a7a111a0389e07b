-- ===== src/Tests/Mutating.antt =====
-- The mutants of a small program: a comparison, and a wait with a statement behind it.
use go_cascade.Base.{
  ok, Result, str_eq, any, length, trim_space, ◌≤◌, String, ◌≡◌, refl, All, ◌⊎◌, inl, inr, Bool,
  true, false, Option, none, some, List, [],
}
use go_cascade.Float.{Milli, of_milli, milli_float}
use go_cascade.Tests.Calibrating.{milli_math}
use go_cascade.Tests.Laddering.{toolchain}
use go_cascade.Verify.Workspace.{Toolchain, Process, argv_of, run}
use go_cascade.Verify.Mutation.ScarFree.{collect_scar_free_race_sites}
use go_cascade.Verify.Mutation.Sites.{Kind, Ast, Asts, Source, collect_sites}
use go_cascade.Verify.Mutation.Harvest.{
  Bench, MutationScore, KilledMutant, at_least_one, attempts, mutate_sites,
  scar_free_race_killed_mutants,
}
use go_cascade.Verify.Mutation.Tally.{Tally}
use go_cascade.Verify.Mutation.Harvest.{sample, step_of}
use go_cascade.Verify.Mutation.Counts.{IsCounted, IsRated, mutate_sites-counts}
use go_cascade.Verify.Mutation.Raced.{IsRaced, scar_free_race_killed_mutants-IsRaced}

abbrev leaf : Kind → Ast
leaf k = Ast.node k 1 2 2 Asts.nil

abbrev wait_call : Ast
wait_call = Ast.node Kind.call 1 2 2 (
    Asts.cons (Ast.node (Kind.selector "Wait") 1 2 2 (Asts.cons (leaf (Kind.ident "wg")) Asts.nil))
      Asts.nil)

abbrev program : Source
program = record {
  tree = Ast.node Kind.block 1 9 9 (
      Asts.cons (Ast.node Kind.expr_stmt 1 2 2 (Asts.cons wait_call Asts.nil))
        (Asts.cons (leaf (Kind.binary "<")) Asts.nil));
  comments = [];
  place = λ p. "1:1";
}

-- Only tests fail, with a race.
abbrev is_test : List String → Bool
is_test argv = any (λ a. str_eq a "test") argv

abbrev failing : Bool → Process
failing true = record {
  printed = "DATA RACE";
  error = some "exit 1";
  deadline = false;
  duration = 3;
}
failing false = record { printed = ""; error = none; deadline = false; duration = 3 }

abbrev racy_tools : Toolchain
racy_tools = record toolchain { spawn = λ ran sp. failing (is_test sp.argv) }

abbrev small_bench : Bench
small_bench = record {
  parse = λ text. inr program;
  print_expr = λ a. "wg";
  print = λ src e. some "mutant";
  rewrite = λ text. some racy_tools;
  workspace_error = none;
  cancelled = λ ran. false;
  show = λ n. "1";
  contains = λ s t. str_eq s t;
}

abbrev score_of : Result (MutationScore Milli) → Option (MutationScore Milli)
score_of (ok ms) = some ms
score_of _ = none

abbrev all_killed : MutationScore Milli
all_killed = record { generated = 1; valid = 1; killed = 1; score = of_milli 1000; survivors = [] }

small_mutated : mutate_sites small_bench program 5 0 ≡ ok all_killed
unfolding mutate_sites collect_sites run argv_of trim_space
small_mutated = refl

mutate_sites-counts_example :
    let n = length (collect_sites program) in
    Tally small_bench program 5
      (collect_sites program)
      (sample n 0 (step_of {F = Milli} n 0))
      []
      all_killed.valid
      all_killed.killed
      all_killed.survivors
    × IsCounted small_bench program 5 (attempts (length (collect_sites program)) 0) all_killed
    × ((1 ≡ length (collect_sites program)) × IsRated small_bench program 5 all_killed)
mutate_sites-counts_example = mutate_sites-counts small_bench program 5 0 all_killed small_mutated

abbrev kept_mutants : String ⊎ List KilledMutant → List KilledMutant
kept_mutants (inl e) = []
kept_mutants (inr ks) = ks

abbrev raced : List KilledMutant
raced = kept_mutants (scar_free_race_killed_mutants small_bench 2 0 5 "src")

small_raced : scar_free_race_killed_mutants small_bench 2 0 5 "src" ≡ inr raced
unfolding scar_free_race_killed_mutants collect_scar_free_race_sites run argv_of trim_space
small_raced = refl

one_raced : length raced ≡ 1
unfolding scar_free_race_killed_mutants collect_scar_free_race_sites run argv_of trim_space
one_raced = refl

scar_free_race_killed_mutants-IsRaced_example :
    (length raced ≤ 2)
    × All
        (λ k.
          IsRaced small_bench program
            (collect_scar_free_race_sites small_bench.print_expr program)
            (at_least_one small_bench 0)
            5
            k
          × (k.data_race ≡ true))
        raced
scar_free_race_killed_mutants-IsRaced_example =
    scar_free_race_killed_mutants-IsRaced small_bench 2 0 5 "src" program raced refl small_raced
