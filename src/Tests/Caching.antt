-- ===== src/Tests/Caching.antt =====
-- The layers of the cache on small stores.
use go_cascade.Base.{str_eq, length, All, ◌≤◌, ◌<◌, String, ◌≡◌, refl, true, false, [], ◌∷◌, arith}
use go_cascade.Float.{Milli, of_milli, milli_float}
use go_cascade.Cache.{Failure, Failures, failures, add_failure}
use go_cascade.Cache.Known.{knows, IsBounded, add_failure-IsBounded}
use go_cascade.Cache.Entries.{CachedSpec, Entry, retrieve}
use go_cascade.Cache.Kept.{IsEligible, retrieve-IsEligible}

abbrev seen : Failure
seen = record { canon_hash = "a"; stage = "V2:build"; summary = "undefined: x" }

abbrev newly_seen : Failure
newly_seen = record { canon_hash = "b"; stage = "V4:test"; summary = "got 1" }

abbrev one_problem : Failures
one_problem = ("p", seen ∷ []) ∷ []

add_failure-IsBounded_example :
    let store = add_failure false "p" newly_seen one_problem in
    IsBounded store
    × (knows "b" (failures store "p") ≡ true)
    × ((other : String)
        → str_eq "p" other ≡ false
        → failures store other ≡ failures one_problem other)
add_failure-IsBounded_example = add_failure-IsBounded "p" newly_seen one_problem (omega arith, tt)

abbrev old_spec : CachedSpec
old_spec = record {
  problem_hash = "p";
  api = "func Old()";
  visible_tests = "v";
  hidden_tests = "h";
  author = "dear";
}

abbrev old_entry : Entry Milli
old_entry = record {
  id = "p-a";
  problem = "sum";
  problem_hash = "p";
  api = "func Sum()";
  solution = "package sol";
  canon_hash = "a";
  tier = "cheap";
  score = of_milli 900;
  mutation_score = of_milli 0;
}

abbrev FromCheap : Entry Milli → Type 0
FromCheap e = e.tier ≡ "cheap"

abbrev never_alike : String → String → Milli
never_alike a b = of_milli 100

retrieve-IsEligible_example :
    All
      (IsEligible FromCheap never_alike "sum" "p" (of_milli 350))
      (retrieve never_alike false "sum" "p" 1 (of_milli 350) (("p-a", old_entry) ∷ []))
    × (0 < 1
        → length (retrieve never_alike false "sum" "p" 1 (of_milli 350) (("p-a", old_entry) ∷ []))
          ≤ 1)
    × (false ≡ true
        → retrieve never_alike false "sum" "p" 1 (of_milli 350) (("p-a", old_entry) ∷ []) ≡ [])
retrieve-IsEligible_example =
    retrieve-IsEligible FromCheap never_alike "sum" "p" (of_milli 350) false 1
      (("p-a", old_entry) ∷ []) (refl, tt)
