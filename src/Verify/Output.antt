-- ===== src/Verify/Output.antt =====
-- Reading what `go test` printed: `parseTestJSON`, `summariseTestOutput`, `parseAllocs`
-- (internal/verify/ladder.go). Decoding one line of JSON and the regular expression are given.
use Prim.Native.Char.{Char, code}
use text.Mathlib.Text.{starts_with}
use go_cascade.Base.{
  ltb, ◌==◌, str_eq, if◌then◌else◌, trim_space, ℕ, String, ◌<>◌, Bool, true, false, ◌||◌, Option,
  none, some, List, [], ◌∷◌,
}
use go_cascade.Verify.Stages.{Outcomes}

pub record TestEvent : Type 0 where
  pub action : String
  pub test_ : String
  pub output : String

abbrev push_char : Char → List String → List String
push_char c [] = String.◌∷◌ c String.[] ∷ []
push_char c (l ∷ ls) = String.◌∷◌ c l ∷ ls

-- `strings.SplitSeq(s, "\n")`
unfoldable pub split_lines : String → List String
split_lines String.[] = "" ∷ []
split_lines (String.◌∷◌ c s) =
    let rest = split_lines s in if code c == 10 then "" ∷ rest else push_char c rest

abbrev keep_unless_newline : Char → String → String
keep_unless_newline c String.[] = if code c == 10 then "" else String.◌∷◌ c String.[]
keep_unless_newline c (String.◌∷◌ d s) = String.◌∷◌ c (String.◌∷◌ d s)

-- `strings.TrimRight(s, "\n")`
unfoldable pub trim_newlines : String → String
trim_newlines String.[] = ""
trim_newlines (String.◌∷◌ c s) = keep_unless_newline c (trim_newlines s)

-- `res[k] = v`
unfoldable pub record_outcome : String → Bool → Outcomes → Outcomes
record_outcome k v [] = (k, v) ∷ []
record_outcome k v ((j, w) ∷ m) = if str_eq j k then (k, v) ∷ m else (j, w) ∷ record_outcome k v m

abbrev event_outcome : TestEvent → Outcomes → Outcomes
event_outcome ev res =
    if str_eq ev.test_ ""
    then res
    else if str_eq ev.action "pass"
    then record_outcome ev.test_ true res
    else if str_eq ev.action "fail"
    then record_outcome ev.test_ false res
    else res

abbrev on_event : Option TestEvent → Outcomes → Outcomes
on_event none res = res
on_event (some ev) res = event_outcome ev res

-- The lines that add nothing to a summary.
abbrev is_noise : String → Bool
is_noise t =
    str_eq t ""
    || starts_with t "=== RUN"
    || starts_with t "--- PASS"
    || starts_with t "ok "
    || str_eq t "PASS"

abbrev event_text : Option TestEvent → String
event_text none = ""
event_text (some ev) =
    let t = trim_newlines ev.output in
    if str_eq ev.action "output" then (if is_noise t then "" else t <> "\n") else ""

module _ (decode : String → Option TestEvent) where
  parse_lines : List String → Outcomes → Outcomes
  parse_lines [] res = res
  parse_lines (l ∷ ls) res =
      let line = trim_space l in
      parse_lines ls (if starts_with line "{" then on_event (decode line) res else res)

  unfoldable pub parse_test_json : String → Outcomes
  unfolding parse_lines split_lines record_outcome
  parse_test_json out = parse_lines (split_lines out) []

  line_text : String → String
  unfolding trim_newlines
  line_text l =
      let line = trim_space l in
      if starts_with line "{"
      then event_text (decode line)
      else (if str_eq line "" then "" else line <> "\n")

  summary_lines : List String → String → String
  unfolding line_text
  summary_lines [] b = b
  summary_lines (l ∷ ls) b = summary_lines ls (b <> line_text l)

  unfoldable pub summarise_test_output : String → String → String
  unfolding summary_lines split_lines
  summarise_test_output out fallback =
      let s = trim_space (summary_lines (split_lines out) "") in if str_eq s "" then fallback else s

-- A match of the expression whose number `strconv.Atoi` refuses is `none`.
worst_of : List (Option ℕ) → ℕ → ℕ
worst_of [] worst = worst
worst_of (none ∷ ms) worst = worst_of ms worst
worst_of (some n ∷ ms) worst = worst_of ms (if ltb worst n then n else worst)

unfoldable pub parse_allocs : List (Option ℕ) → Option ℕ
unfolding worst_of
parse_allocs [] = none
parse_allocs (m ∷ ms) = some (worst_of (m ∷ ms) 0)
