-- ===== src/Verify/Mutation/Harvest.antt =====
-- Running the mutants: `Mutate`, `KilledMutants`, `RaceKilledMutants`, `ScarFreeRaceKilledMutants`,
-- `raceKilledFrom`, `sample` (internal/verify/mutation.go). Times are left out.
use go_cascade.Base.{
  ltb, leb, if◌then◌else◌, is_none, not, Bool-cases, ◌≡◌, refl, ap, Result, ok, err, fault, ◌>>=◌,
  length, get_elem?, is_empty, filter_by, ℤ, pos, negsuc, ℕ, zero, suc, ◌+◌, ◌*◌, String, ◌<>◌, ◌⊎◌,
  inl, inr, Bool, true, false, ◌||◌, Option, none, some, List, [], ◌∷◌, ◌++◌,
}
use go_cascade.Float.{Float}
use go_cascade.Calibrate.Stats.{Math}
use go_cascade.Verify.Workspace.{Spawn, CmdResult, Toolchain, spawn_of, run}
use go_cascade.Verify.Ladder.{second}
use go_cascade.Verify.Mutation.ScarFree.{collect_scar_free_race_sites}
use go_cascade.Verify.Mutation.Sites.{Ast, Source, Edit, Site, collect_sites, collect_race_sites}

pub record MutationScore {ℓ} (F : Type ℓ) : Type ℓ where
  pub generated : ℕ
  pub valid : ℕ
  pub killed : ℕ
  pub score : F
  pub survivors : List String

pub record KilledMutant : Type 0 where
  pub source : String
  pub desc : String
  pub data_race : Bool
  pub plain_refuted : Bool

-- The parser and the printer of Go, why no workspace could be made, the workspace with another solution in it, the end of the
-- context by what was spawned so far, and `strconv.Itoa`, `strings.Contains`.
pub record Bench : Type 0 where
  pub parse : String → String ⊎ Source
  pub print_expr : Ast → String
  pub print : Source → Edit → Option String
  pub rewrite : String → Option Toolchain
  pub workspace_error : Option String
  pub cancelled : List Spawn → Bool
  pub show : ℕ → String
  pub contains : String → String → Bool

count_up : ℕ → ℕ → List ℤ
count_up i zero = []
count_up i (suc left) = pos i ∷ count_up (suc i) left

length-count_up : (i left : ℕ) → length (count_up i left) ≡ left
unfolding count_up
length-count_up i zero = refl
length-count_up i (suc left) = ap suc (length-count_up (suc i) left)

-- How many sites are tried.
abbrev pub attempts : (n budget : ℕ) → ℕ
attempts n budget = if leb budget 0 || leb n budget then n else budget

module _ {ℓ} {F : Type ℓ} ⦃fl : Float F⦄ ⦃m : Math F⦄ where
  spread : F → ℕ → ℕ → List ℤ
  spread step i zero = []
  spread step i (suc left) = m.to_int (fl.mul (fl.of_nat i) step) ∷ spread step (suc i) left

  -- The numbers of the sites that are tried, at a step of `n / budget`.
  unfoldable pub sample : (n budget : ℕ) → F → List ℤ
  unfolding count_up spread
  sample n budget step = if leb budget 0 || leb n budget then count_up 0 n else spread step 0 budget

  abbrev pub step_of : (n budget : ℕ) → F
  step_of n budget = fl.div (fl.of_nat n) (fl.of_nat budget)

  length-spread : (step : F) (i left : ℕ) → length (spread step i left) ≡ left
  unfolding spread
  length-spread step i zero = refl
  length-spread step i (suc left) = ap suc (length-spread step (suc i) left)

  pub length-sample : (n budget : ℕ) (step : F) → length (sample n budget step) ≡ attempts n budget
  unfolding sample
  length-sample n budget step = elim (Bool-cases (leb budget 0 || leb n budget)) [
    | inl e ↦ rw e (length-count_up 0 n)
    | inr e ↦ rw e (length-spread step 0 budget)
  ]

-- A failed process: an error, or the clock.
abbrev pub refuted : CmdResult → Bool
refuted r = not (is_none r.error) || r.timed_out

abbrev pub build_args : List String
build_args = "build" ∷ "./..." ∷ []

abbrev pub test_args : List String
test_args = "test" ∷ "-count=1" ∷ "./..." ∷ []

abbrev pub site_at : List Site → ℤ → Option Site
site_at sites (negsuc k) = none
site_at sites (pos i) = get_elem? sites i

module _ (bench : Bench) where
  open bench use {parse, print_expr, print, rewrite, workspace_error, cancelled, show, contains}

  abbrev rewritten : Option String → Option (String × Toolchain)
  rewritten none = none
  rewritten (some text) = elim (rewrite text) [ none ↦ none | some tc ↦ some (text, tc) ]

  -- The mutant's text in the workspace: printed, and written.
  abbrev pub mutant : Source → Site → Option (String × Toolchain)
  mutant src s = rewritten (print src s.edit)

  -- The build, and what was spawned then.
  abbrev pub built : Toolchain → List Spawn → CmdResult × List Spawn
  built tc ran = (
    run tc ran (60 * second) false build_args,
    ran ++ (spawn_of tc (60 * second) false build_args ∷ []),
  )

  abbrev pub tested : Toolchain → ℕ → List Spawn → CmdResult × List Spawn
  tested tc timeout ran =
      (run tc ran timeout true test_args, ran ++ (spawn_of tc timeout true test_args ∷ []))

  module _ {ℓ} {F : Type ℓ} ⦃fl : Float F⦄ ⦃m : Math F⦄ (src : Source) (timeout : ℕ) where
    abbrev pub scored_by : Bool → String → MutationScore F → MutationScore F
    scored_by true desc ms = record ms { valid = suc ms.valid; killed = suc ms.killed }
    scored_by false desc ms = record ms {
      valid = suc ms.valid;
      survivors = ms.survivors ++ (desc ∷ []);
    }

    -- The body of the loop, for a mutant that was written.
    abbrev pub trial :
        Site → Toolchain → MutationScore F → List Spawn → MutationScore F × List Spawn
    trial s tc ms ran =
        let (b, ran') = built tc ran in
        let (t, ran'') = tested tc timeout ran' in
        if is_none b.error then (scored_by (refuted t) s.desc ms, ran'') else (ms, ran')

    abbrev pub tried :
        Site
        → Option (String × Toolchain)
        → MutationScore F
        → List Spawn
        → MutationScore F × List Spawn
    tried s none ms ran = (ms, ran)
    tried s (some (text, tc)) ms ran = trial s tc ms ran

    -- The loop, and whether the context let it end.
    unfoldable pub mutate_loop :
        List Site → List ℤ → MutationScore F → List Spawn → Result (Bool × MutationScore F)
    mutate_loop sites [] ms ran = ok (true, ms)
    mutate_loop sites (i ∷ is) ms ran =
        let next = λ (s : Site).
          let out = tried s (mutant src s) ms ran in mutate_loop sites is out.0 out.1 in
        if cancelled ran
        then ok (false, ms)
        else elim (site_at sites i) [ none ↦ fault | some s ↦ next s ]

    -- The score is set only behind the loop.
    abbrev pub rated : Bool × MutationScore F → MutationScore F
    rated (false, ms) = ms
    rated (true, ms) =
        if ltb 0 ms.valid
        then record ms { score = fl.div (fl.of_nat ms.killed) (fl.of_nat ms.valid) }
        else ms

    abbrev pub unrated : ℕ → MutationScore F
    unrated n = record { generated = n; valid = 0; killed = 0; score = fl.lit 0 0; survivors = [] }

    -- `Mutate` on a parsed file.
    unfoldable pub mutate_sites : ℕ → Result (MutationScore F)
    unfolding mutate_loop sample
    mutate_sites budget =
        let sites = collect_sites src in
        let n = length sites in
        if is_empty sites then ok (unrated n) else elim workspace_error [
          | some e ↦ err e
          | none ↦
              mutate_loop sites (sample n budget (step_of {F = F} n budget)) (unrated n) []
              >>= (λ p. ok (rated p))
        ]

  -- One mutant of a harvest, if it is kept, and what was spawned then.
  abbrev pub Trial : Type 0
  Trial = String → String → Toolchain → List Spawn → Option KilledMutant × List Spawn

  abbrev pub logic_trial : ℕ → Trial
  logic_trial timeout text desc tc ran =
      let (b, ran') = built tc ran in
      let (t, ran'') = tested tc timeout ran' in
      let kept : KilledMutant = record {
        source = text;
        desc = desc;
        data_race = false;
        plain_refuted = false;
      } in
      if is_none b.error then (if refuted t then some kept else none, ran'') else (none, ran')

  abbrev pub race_args : ℕ → List String
  race_args n = "test" ∷ "-race" ∷ ("-count=" <> show n) ∷ "./..." ∷ []

  abbrev pub plain_args : ℕ → List String
  plain_args n = "test" ∷ ("-count=" <> show n) ∷ "./..." ∷ []

  abbrev pub race_trial : (race_count timeout : ℕ) → Trial
  race_trial n timeout text desc tc ran =
      let limit = timeout * n + 30 * second in
      let (b, ran') = built tc ran in
      let race = run tc ran' limit true (race_args n) in
      let ran2 = ran' ++ (spawn_of tc limit true (race_args n) ∷ []) in
      let plain = run tc ran2 limit false (plain_args n) in
      let ran3 = ran2 ++ (spawn_of tc limit false (plain_args n) ∷ []) in
      let kept : KilledMutant = record {
        source = text;
        desc = desc;
        data_race = contains race.output "DATA RACE";
        plain_refuted = refuted plain;
      } in
      if not (is_none b.error)
      then (none, ran')
      else if not (refuted race)
      then (none, ran2)
      else (some kept, ran3)

  abbrev pub kept_or : Option KilledMutant → List KilledMutant → List KilledMutant
  kept_or none out = out
  kept_or (some k) out = out ++ (k ∷ [])

  abbrev pub harvested :
      Trial
      → Site
      → Option (String × Toolchain)
      → List KilledMutant
      → List Spawn
      → List KilledMutant × List Spawn
  harvested try_ s none out ran = (out, ran)
  harvested try_ s (some (text, tc)) out ran =
      let (k, ran') = try_ text s.desc tc ran in (kept_or k out, ran')

  -- The loop of a harvest, over all sites: up to `n` mutants.
  unfoldable pub harvest :
      Trial → Source → ℕ → List Site → List KilledMutant → List Spawn → List KilledMutant
  harvest try_ src n [] out ran = out
  harvest try_ src n (s ∷ ss) out ran =
      let next = harvested try_ s (mutant src s) out ran in
      let rest = harvest try_ src n ss next.0 next.1 in
      if leb n (length out) then out else if cancelled ran then out else rest

  -- A harvest where there is something to do.
  abbrev pub harvest_in : Trial → Source → ℕ → List Site → String ⊎ List KilledMutant
  harvest_in try_ src n sites =
      if is_empty sites || leb n 0
      then inr []
      else elim workspace_error [ some e ↦ inl e | none ↦ inr (harvest try_ src n sites [] []) ]

  unfoldable pub killed_mutants : (n timeout : ℕ) → String → String ⊎ List KilledMutant
  unfolding harvest
  killed_mutants n timeout text = elim (parse text) [
    | inl e ↦ inl e
    | inr src ↦ harvest_in (logic_trial timeout) src n (collect_sites src)
  ]

  abbrev pub at_least_one : ℕ → ℕ
  at_least_one n = if ltb n 1 then 1 else n

  unfoldable pub race_killed_from :
      (n race_count timeout : ℕ) → Source → List Site → String ⊎ List KilledMutant
  unfolding harvest
  race_killed_from n race_count timeout src sites =
      harvest_in (race_trial (at_least_one race_count) timeout) src n sites

  unfoldable pub race_killed_mutants :
      (n race_count timeout : ℕ) → String → String ⊎ List KilledMutant
  unfolding race_killed_from
  race_killed_mutants n race_count timeout text = elim (parse text) [
    | inl e ↦ inl e
    | inr src ↦ race_killed_from n race_count timeout src (collect_race_sites src)
  ]

  abbrev pub racing : String ⊎ List KilledMutant → String ⊎ List KilledMutant
  racing (inl e) = inl e
  racing (inr all) = inr (filter_by (λ k. k.data_race) all)

  unfoldable pub scar_free_race_killed_mutants :
      (n race_count timeout : ℕ) → String → String ⊎ List KilledMutant
  unfolding race_killed_from
  scar_free_race_killed_mutants n race_count timeout text = elim (parse text) [
    | inl e ↦ inl e
    | inr src ↦
        racing
          (race_killed_from n race_count timeout src (collect_scar_free_race_sites print_expr src))
  ]
