-- ===== src/Prompt.antt =====
-- The prompts and the reading of replies (internal/prompt/prompt.go). Regular expressions are
-- given: what a pattern finds is an argument.
use Prim.Native.String.{len, slice}
use go_cascade.Base.{
  str_eq, ltb, if◌then◌else◌, trim_space, is_empty, length, Result, ok, err, ◌>>=◌, ℕ, String, ◌<>◌,
  ◌⊎◌, inl, inr, Bool, ◌||◌, Option, none, some, List, [], ◌∷◌,
}
use go_cascade.Cascade.State.{Spec}

abbrev fenced : String → String
fenced text = "```go\n" <> trim_space text <> "\n```\n"

abbrev stated : String → String
stated problem = "Problem statement:\n\n" <> trim_space problem <> "\n\n"

refuted_before : List String → String
refuted_before [] = ""
refuted_before (a ∷ avoid) = "- " <> a <> "\n" <> refuted_before avoid

abbrev avoiding : List String → String
avoiding avoid =
    if is_empty avoid
    then ""
    else "\nThese approaches were already tried and refuted; do not repeat them:\n"
      <> refuted_before avoid

module _ (show : ℕ → String) where
  unfoldable pub code_user : (problem api : String) → ℕ → List String → String
  unfolding refuted_before
  code_user problem api nonce avoid =
      stated problem
      <> "Implement exactly this API:\n\n"
      <> fenced api
      <> avoiding avoid
      <> "\n(sample "
      <> show nonce
      <> ")\n"

  abbrev planned : String → String
  planned plan =
      if str_eq plan ""
      then ""
      else "\nAn implementation plan from a senior engineer (advisory; the API above is authoritative):\n\n"
        <> plan <> "\n"

  unfoldable pub code_user_from_plan : (problem api plan : String) → ℕ → List String → String
  unfolding refuted_before
  code_user_from_plan problem api plan nonce avoid =
      stated problem
      <> "Implement exactly this API:\n\n"
      <> fenced api
      <> planned (trim_space plan)
      <> avoiding avoid
      <> "\n(sample "
      <> show nonce
      <> ")\n"

unfoldable pub plan_user : (problem api : String) → String
plan_user problem api =
    stated problem <> "The implementation must satisfy exactly this API:\n\n" <> fenced api

unfoldable pub repair_user : (problem api previous stage diag : String) → String
repair_user problem api previous stage diag =
    stated problem
    <> "Required API:\n\n"
    <> fenced api
    <> "\nYour previous attempt:\n\n"
    <> fenced previous
    <> "\nIt was refuted at verifier stage "
    <> stage
    <> ". Exact output:\n\n```\n"
    <> trim_space diag
    <> "\n```\n\n"
    <> "Return the corrected complete file as one fenced go block. Fix the reported defect; do not restructure working code."

abbrev pub strict : String
strict = "strict"

abbrev balanced : String
balanced = "balanced"

abbrev permissive : String
permissive = "permissive"

abbrev judge_system_base : String
judge_system_base =
    "You are a code reviewer. You are given a Go problem\nstatement, the API the solution must satisfy, and a candidate implementation.\nDecide whether the implementation is correct for every valid input, not merely\nplausible.\n\nYou cannot run the code. Judge by reading alone.\n\nRespond with exactly one line, nothing else:\nVERDICT: PASS\nor\nVERDICT: FAIL\n\nPASS means the code is correct for all valid inputs, including boundary and\nadversarial ones. FAIL means you found, or suspect, a defect. "

-- What a strictness is not is strict.
judge_tie_break : String → String
judge_tie_break s =
    if str_eq s balanced
    then "Weigh the evidence and give your best single judgement; do not default either way."
    else if str_eq s permissive
    then "When in doubt, PASS."
    else "When in doubt, FAIL."

unfoldable pub judge_system : String → String
unfolding judge_tie_break
judge_system s = judge_system_base <> judge_tie_break s

unfoldable pub judge_user : (problem api candidate : String) → String
judge_user problem api candidate =
    stated problem
    <> "Required API:\n\n"
    <> fenced api
    <> "\nCandidate implementation:\n\n"
    <> fenced candidate

-- A heading that the pattern found: where its line begins and ends, and its name in upper case.
pub record Heading : Type 0 where
  pub begins : ℕ
  pub ends : ℕ
  pub name : String

-- What the patterns find, and `strings.EqualFold`, `strings.Contains`.
pub record Patterns : Type 0 where
  pub verdict : String → Option String
  pub fence : String → Option String
  pub headings : String → List Heading
  pub equal_fold : String → String → Bool
  pub contains : String → String → Bool

module _ (re : Patterns) where
  abbrev verdict_of : Option String → Option Bool
  verdict_of none = none
  verdict_of (some v) = some (re.equal_fold v "PASS")

  -- `none` is the error.
  unfoldable pub parse_judge : String → Option Bool
  parse_judge reply = verdict_of (re.verdict reply)

module _ (re : Patterns) (show : ℕ → String) where
  abbrev code_from : String → Option String → String ⊎ String
  code_from reply (some code) = inr (trim_space code)
  code_from reply none =
      if re.contains reply "package "
      then inr (trim_space reply)
      else inl ("no go code block in reply (" <> show (len reply) <> " bytes)")

  unfoldable pub extract_code : String → String ⊎ String
  extract_code reply = code_from reply (re.fence reply)

  -- Where a block ends: at the next heading, or with the reply.
  abbrev pub block_end : String → List Heading → ℕ
  block_end reply [] = len reply
  block_end reply (h ∷ hs) = h.begins

  abbrev pub assigned : String → String → Spec → Spec
  assigned name code s =
      if str_eq name "API"
      then record s { api = code }
      else if str_eq name "VISIBLE TESTS"
      then record s { visible_tests = code }
      else if str_eq name "HIDDEN TESTS"
      then record s { hidden_tests = code }
      else s

  abbrev pub with_block : Heading → Option String → Spec → Result Spec
  with_block h none s = err ("no code block under heading \"" <> h.name <> "\"")
  with_block h (some code) s = ok (assigned h.name (trim_space code) s)

  -- The loop over the headings.
  unfoldable pub read_blocks : String → List Heading → Spec → Result Spec
  read_blocks reply [] s = ok s
  read_blocks reply (h ∷ hs) s =
      with_block h (re.fence (slice reply h.ends (block_end reply hs))) s >>= read_blocks reply hs

  abbrev pub complete : Spec → Result Spec
  complete s =
      if str_eq s.api "" || str_eq s.visible_tests "" || str_eq s.hidden_tests ""
      then err "spec reply is missing one of API/visible/hidden"
      else ok s

  unfoldable pub parse_spec : String → Result Spec
  unfolding read_blocks
  parse_spec reply =
      let locs = re.headings reply in
      if ltb (length locs) 3
      then err ("spec reply has " <> show (length locs) <> " of 3 required headings")
      else read_blocks reply locs (record { api = ""; visible_tests = ""; hidden_tests = "" })
        >>= complete
