-- ===== src/Verify/Mutation/Counts.antt =====
-- What a mutation run counts (`Mutate` of internal/verify/mutation.go).
use go_cascade.Base.{
  ltb, if◌then◌else◌, is_none, Bool-cases, Option-cases, >>=-ok, ok, err, fault, length,
  length-append, is_empty, ℤ, ℕ, suc, ◌+◌, ◌≤◌, String, ◌≡◌, ◌⊎◌, refl, sym, ap, ◌∙◌, inl, inr,
  Bool, true, false, Option, none, some, List, [], ◌∷◌, arith,
}
use go_cascade.Verify.Mutation.Tally.{Tally, over, mutate_loop-Tally, rated-Tally}
use go_cascade.Float.{Float}
use go_cascade.Calibrate.Stats.{Math}
use go_cascade.Verify.Workspace.{Spawn, Toolchain}
use go_cascade.Verify.Mutation.Sites.{Source, Site, collect_sites}
use go_cascade.Verify.Mutation.Harvest.{
  MutationScore, Bench, site_at, mutant, built, scored_by, tried, mutate_loop, rated, unrated,
  mutate_sites, sample, attempts, length-sample, step_of,
}

empty_none {ℓ} : {A : Type ℓ} (xs : List A) → is_empty xs ≡ true → length xs ≡ 0
empty_none [] h = refl
empty_none (x ∷ xs) h = absurd cc

nothing_in {ℓ} : {A : Type ℓ} (xs : List A) → length xs ≡ 0 → xs ≡ []
nothing_in [] h = refl
nothing_in (x ∷ xs) h = absurd (omega arith)

attempts_none : (budget : ℕ) → attempts 0 budget ≡ 0
attempts_none budget = ground arith

module _ {ℓ} {F : Type ℓ} ⦃fl : Float F⦄ ⦃m : Math F⦄ where
  -- No site is tried where there is none.
  sample_none : (n budget : ℕ) (step : F) → n ≡ 0 → sample n budget step ≡ []
  sample_none n budget step e =
      nothing_in (sample n budget step)
        (length-sample n budget step ∙ ap (λ k. attempts k budget) e ∙ attempts_none budget)

module _ (bench : Bench) where
  -- The loop reached its end, or the context's end broke it off.
  abbrev Ended : Bool → Type 0
  Ended whole =
      (whole ≡ true) ⊎ ((whole ≡ false) × ((ran : List Spawn) × (bench.cancelled ran ≡ true)))

  module _ {ℓ} {F : Type ℓ} ⦃fl : Float F⦄ ⦃m : Math F⦄ (src : Source) (timeout : ℕ) where
    -- The counts of a run: every compiled mutant is killed or survives, and has been tried.
    abbrev pub IsCounted : ℕ → MutationScore F → Type 0
    IsCounted n ms = (ms.killed + length ms.survivors ≡ ms.valid) × (ms.valid ≤ n)

    -- What a run does not touch before it ends.
    abbrev IsUnrated : MutationScore F → Type ℓ
    IsUnrated ms = (ms.generated ≡ length (collect_sites src)) × (ms.score ≡ fl.lit 0 0)

    abbrev Running : ℕ → MutationScore F → Type ℓ
    Running n ms = IsCounted n ms × IsUnrated ms

    scored_by-Running :
        (b : Bool) (desc : String) (n : ℕ) (ms : MutationScore F)
        → Running n ms
        → Running (suc n) (scored_by bench src timeout b desc ms)
    scored_by-Running true desc n ms (h, u) = (omega arith, u)
    scored_by-Running false desc n ms (h, u) =
        (omega (arith, length-append ms.survivors (desc ∷ [])), u)

    tried-Running :
        (s : Site) (t : Option (String × Toolchain)) (n : ℕ) (ms : MutationScore F)
        (ran : List Spawn)
        → Running n ms
        → Running (suc n) (tried bench src timeout s t ms ran).0
    tried-Running s none n ms ran (h, u) = (omega arith, u)
    tried-Running s (some (text, tc)) n ms ran (h, u) =
        elim (Bool-cases (is_none (built bench tc ran).0.error)) [
          | inl e ↦ rw e (scored_by-Running _ s.desc n ms (h, u))
          | inr e ↦ rw e ((omega arith), u)
        ]

    mutate_loop-Running :
        (sites : List Site) (is : List ℤ) (n : ℕ) (ms : MutationScore F) (ran : List Spawn)
        (out : Bool × MutationScore F)
        → Running n ms
        → mutate_loop bench src timeout sites is ms ran ≡ ok out
        → Running (n + length is) out.1 × Ended out.0
    unfolding mutate_loop
    mutate_loop-Running sites [] n ms ran out (h, u) e =
        let same : out ≡ (true, ms) = cc in rw same ((omega arith, u), inl refl)
    mutate_loop-Running sites (i ∷ is) n ms ran out (h, u) e =
        elim (Bool-cases (bench.cancelled ran)) [
          | inl stop ↦
              let run : ok (false, ms) ≡ ok out = rw stop at e in
              let same : out ≡ (false, ms) = cc in
              rw same ((omega arith, u), inr (refl, (ran, stop)))
          | inr go ↦ elim (Option-cases (site_at sites i)) [
            | inl at ↦ let no : fault ≡ ok out = rw (go, at) at e in absurd cc
            | inr (s, at) ↦
                let t = tried bench src timeout s (mutant bench src s) ms ran in
                let (r, w) =
                  mutate_loop-Running sites is (suc n) t.0 t.1 out
                    (tried-Running s (mutant bench src s) n ms ran (h, u)) (rw (go, at) at e) in
                ((omega (arith, r.0), r.1), w)
          ]
        ]

    -- The killed share of the mutants that compiled.
    abbrev pub share : MutationScore F → F
    share ms =
        if ltb 0 ms.valid then fl.div (fl.of_nat ms.killed) (fl.of_nat ms.valid) else fl.lit 0 0

    -- The score: that share, or nothing where the context ended a run before its last mutant.
    abbrev pub IsRated : MutationScore F → Type ℓ
    IsRated ms =
        (ms.score ≡ share ms)
        ⊎ ((ms.score ≡ fl.lit 0 0) × ((ran : List Spawn) × (bench.cancelled ran ≡ true)))

    rated-IsRated :
        (n : ℕ) (out : Bool × MutationScore F)
        → Running n out.1
        → Ended out.0
        → IsCounted n (rated bench src timeout out)
          × (((rated bench src timeout out).generated ≡ length (collect_sites src))
              × IsRated (rated bench src timeout out))
    rated-IsRated n (true, ms) (h, u) _ = elim (Bool-cases (ltb 0 ms.valid)) [
      | inl e ↦ rw e (h, (u.0, inl (rw e refl)))
      | inr e ↦ rw e (h, (u.0, inl (rw e u.1)))
    ]
    rated-IsRated n (false, ms) (h, u) (inl e) = absurd cc
    rated-IsRated n (false, ms) (h, u) (inr (_, w)) = (h, (u.0, inr (u.1, w)))

    -- What `Mutate` counts, if it returns a score. It tries all sites of the file, or as many as
    -- the budget, in the order of the sample and until the context ends; a mutant counts as valid
    -- exactly if it was written and built, as killed exactly if it was valid and then refuted by
    -- the tests, and every other valid one is named as a survivor. `generated` is the number of
    -- all sites. The score is the killed share of the valid mutants, 0 if there are none, unless
    -- the context ended the run, which leaves it 0 whatever was killed by then.
    pub mutate_sites-counts :
        (budget : ℕ) (ms : MutationScore F)
        → mutate_sites bench src timeout budget ≡ ok ms
        → let n = length (collect_sites src) in
          Tally bench src timeout
            (collect_sites src)
            (sample n budget (step_of {F = F} n budget))
            []
            ms.valid
            ms.killed
            ms.survivors
          × IsCounted (attempts n budget) ms
          × ((ms.generated ≡ n) × IsRated ms)
    unfolding mutate_sites
    mutate_sites-counts budget ms e =
        let sites = collect_sites src in
        let n = length sites in
        let is = sample n budget (step_of {F = F} n budget) in
        elim (Bool-cases (is_empty sites)) [
          | inl none_ ↦
              let run : ok (unrated bench {F = F} src timeout n) ≡ ok ms = rw none_ at e in
              let same : ms ≡ unrated bench {F = F} src timeout n = cc in
              rw (same, sample_none n budget (step_of {F = F} n budget) (empty_none sites none_))
                (over [], omega arith, (refl, inl refl))
          | inr some_ ↦ elim (Option-cases bench.workspace_error) [
            | inr (why, at) ↦ let run : err why ≡ ok ms = rw (some_, at) at e in absurd cc
            | inl fine ↦
                let (out, (ran, end)) =
                  >>=-ok (mutate_loop bench src timeout sites is (unrated bench src timeout n) [])
                    (λ p. ok (rated bench src timeout p)) (rw (some_, fine) at e) in
                let (r, w) =
                  mutate_loop-Running sites is 0 (unrated bench src timeout n) [] out
                    ((omega arith), (refl, refl)) ran in
                let same : ms ≡ rated bench src timeout out = cc in
                let tallied = mutate_loop-Tally bench src timeout sites is n out ran in
                let counted : IsCounted (attempts n budget) (rated bench src timeout out)
                    × (((rated bench src timeout out).generated ≡ n)
                        × IsRated (rated bench src timeout out)) =
                  rw (sym (length-sample n budget (step_of {F = F} n budget)))
                    (rated-IsRated (length is) out ((omega (arith, r.0)), r.1) w) in
                rw same (rated-Tally bench src timeout sites is out tallied, counted.0, counted.1)
          ]
        ]
