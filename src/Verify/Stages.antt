-- ===== src/Verify/Stages.antt =====
-- The data of the ladder: stages, their results, the report (internal/verify/ladder.go), and the
-- facts of internal/verify/static.go.
use go_cascade.Base.{
  if◌then◌else◌, any, ℕ, ◌+◌, String, Bool, true, false, ◌||◌, Option, none, some, List, [], ◌∷◌,
  ◌++◌,
}

pub data Stage : Type 0 where
  parse stdlib types build vet test race bench accept : Stage

-- The stage's number, by which stages are compared.
abbrev pub rank : Stage → ℕ
rank parse = 0
rank stdlib = 1
rank types = 2
rank build = 3
rank vet = 4
rank test = 5
rank race = 6
rank bench = 7
rank accept = 8

unfoldable pub stage_name : Stage → String
stage_name parse = "V0:parse"
stage_name stdlib = "V0:stdlib"
stage_name types = "V1:types"
stage_name build = "V2:build"
stage_name vet = "V3:vet"
stage_name test = "V4:test"
stage_name race = "V5:race"
stage_name bench = "V6:bench"
stage_name accept = "VA:accept"

-- `Name` is set by `add`, which is told the stage: it is `stage_name stage`. Durations are in
-- nanoseconds.
pub record StageResult : Type 0 where
  pub stage : Stage
  pub ok_ : Bool
  pub skipped : Bool
  pub reason : String
  pub diagnostic : String
  pub elapsed : ℕ
  pub timed_out : Bool

pub record Static : Type 0 where
  pub non_std_imports : List String
  pub uses_concurrency : Bool
  pub max_complexity : ℕ
  pub complex_func : String

-- A map of test outcomes as an association list, one entry to a key.
abbrev pub Outcomes : Type 0
Outcomes = List (String × Bool)

pub record Report : Type 0 where
  pub ok_ : Bool
  pub failed_at : Stage
  pub diagnostic : String
  pub stages : List StageResult
  pub static : Option Static
  pub tests : Outcomes
  pub allocs_per_op : ℕ
  pub cpu_time : ℕ

pub record Options : Type 0 where
  pub stdlib_only : Bool
  pub max_complexity : ℕ
  pub max_allocs_op : ℕ
  pub test_timeout : ℕ
  pub race_count : ℕ
  pub skip_race : Bool

unfoldable pub report_timed_out : Option Report → Bool
report_timed_out none = false
report_timed_out (some r) = any (λ s. s.timed_out) r.stages

abbrev pub passed : StageResult → Bool
passed sr = sr.ok_ || sr.skipped

abbrev pub no_report : Report
no_report = record {
  ok_ = true;
  failed_at = parse;
  diagnostic = "";
  stages = [];
  static = none;
  tests = [];
  allocs_per_op = 0;
  cpu_time = 0;
}

-- The closure `add` of `Run`.
unfoldable pub add_stage : Report → StageResult → Report
add_stage r sr =
    let r' = record r { stages = r.stages ++ (sr ∷ []); cpu_time = r.cpu_time + sr.elapsed } in
    if passed sr
    then r'
    else record r' { ok_ = false; failed_at = sr.stage; diagnostic = sr.diagnostic }
