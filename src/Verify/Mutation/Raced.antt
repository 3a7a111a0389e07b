-- ===== src/Verify/Mutation/Raced.antt =====
-- The mutants that a race harvest returns (`ScarFreeRaceKilledMutants` of internal/verify/mutation.go).
use go_cascade.Base.{
  leb, is_none, Bool-cases, Option-cases, Sum-cases, length, length-append, is_empty, filter_by,
  All, All-append, All-imp, ℕ, ◌+◌, ◌-◌, ◌*◌, ◌≤◌, ◌<◌, String, ◌≡◌, refl, inl, inr, Bool, true,
  false, ◌||◌, some, List, [], ◌∷◌, arith,
}
use mathlib.Core.List.{Mem, mem-cons_self, mem-cons_of_mem}
use go_cascade.Verify.Workspace.{Spawn, Toolchain, run}
use go_cascade.Verify.Ladder.{second}
use go_cascade.Verify.Mutation.ScarFree.{collect_scar_free_race_sites}
use go_cascade.Verify.Mutation.Sites.{Source, Site}
use go_cascade.Verify.Mutation.Harvest.{
  KilledMutant, Bench, refuted, mutant, built, race_args, race_trial, kept_or, harvest, harvest_in,
  at_least_one, race_killed_from, scar_free_race_killed_mutants,
}

leb-false : (a b : ℕ) → leb a b ≡ false → b < a
leb-false a b h = ground arith

all_members {ℓ} : {A : Type ℓ} (xs : List A) → All (λ x. Mem x xs) xs
all_members [] = tt
all_members (x ∷ xs) = (
  mem-cons_self,
  All-imp (λ y. Mem y xs) (λ y. Mem y (x ∷ xs)) xs (λ y m. mem-cons_of_mem x m) (all_members xs),
)

All-filter_by {ℓ κ} :
    {A : Type ℓ} (P : A → Type κ) (p : A → Bool) (n : ℕ) (xs : List A)
    → length xs ≤ n
    → All P xs
    → (length (filter_by p xs) ≤ n) × All (λ x. P x × (p x ≡ true)) (filter_by p xs)
All-filter_by P p n [] le h = (le, tt)
All-filter_by P p n (x ∷ xs) le (q, qs) = elim (Bool-cases (p x)) [
  | inl e ↦
      let (len, all) = All-filter_by P p (n - 1) xs (omega arith) qs in
      rw e (omega (arith, len, le), ((q, e), all))
  | inr e ↦ rw e (All-filter_by P p n xs (omega arith) qs)
]

module _ (bench : Bench) where
  -- A killed mutant of some site, as the harvest found it: the text is that site's mutant, as
  -- printed and written; it builds, and the tests refute it under the race detector.
  pub record IsRaced (src : Source) (sites : List Site) (n timeout : ℕ) (k : KilledMutant)
      : Type 0 where
    pub site : Site
    pub of_file : Mem site sites
    pub tools : Toolchain
    pub before : List Spawn
    pub text_ : mutant bench src site ≡ some (k.source, tools)
    pub desc_ : k.desc ≡ site.desc
    pub builds_ : is_none (built bench tools before).0.error ≡ true
    pub refuted_ :
        refuted (
          run tools
            (built bench tools before).1
            (timeout * n + 30 * second)
            true
            (race_args bench n))
        ≡ true
    pub reported_ :
        k.data_race
        ≡ bench.contains
            (run tools
              (built bench tools before).1
              (timeout * n + 30 * second)
              true
              (race_args bench n)).output
            "DATA RACE"

  module _ (src : Source) (all : List Site) (race_count timeout : ℕ) where
    race_trial-IsRaced :
        (s : Site) (text : String) (tc : Toolchain) (ran : List Spawn) (n : ℕ)
        (out : List KilledMutant)
        → Mem s all
        → mutant bench src s ≡ some (text, tc)
        → length out < n
        → All (IsRaced src all race_count timeout) out
        → (length (kept_or bench (race_trial bench race_count timeout text s.desc tc ran).0 out)
            ≤ n)
          × All
              (IsRaced src all race_count timeout)
              (kept_or bench (race_trial bench race_count timeout text s.desc tc ran).0 out)
    race_trial-IsRaced s text tc ran n out mem at less h =
        let b = built bench tc ran in
        let race =
          run tc b.1 (timeout * race_count + 30 * second) true (race_args bench race_count) in
        elim (Bool-cases (is_none b.0.error)) [
          | inr e ↦ rw e ((omega arith), h)
          | inl e ↦ elim (Bool-cases (refuted race)) [
            | inr f ↦ rw (e, f) ((omega arith), h)
            | inl f ↦
                rw (e, f)
                  (
                    (omega (arith, length-append out (_ ∷ []))),
                    All-append _ out (_ ∷ []) h (
                      record {
                        site = s;
                        of_file = mem;
                        tools = tc;
                        before = ran;
                        text_ = at;
                        desc_ = refl;
                        builds_ = e;
                        refuted_ = f;
                        reported_ = refl;
                      },
                      tt,
                    ),
                  )
          ]
        ]

    harvest-IsRaced :
        (n : ℕ) (ss : List Site) (out : List KilledMutant) (ran : List Spawn)
        → All (λ s. Mem s all) ss
        → length out ≤ n
        → All (IsRaced src all race_count timeout) out
        → (length (harvest bench (race_trial bench race_count timeout) src n ss out ran) ≤ n)
          × All
              (IsRaced src all race_count timeout)
              (harvest bench (race_trial bench race_count timeout) src n ss out ran)
    unfolding harvest
    harvest-IsRaced n [] out ran mem le h = (le, h)
    harvest-IsRaced n (s ∷ ss) out ran (mem, mems) le h = elim (Bool-cases (leb n (length out))) [
      | inl e ↦ rw e (le, h)
      | inr e ↦ elim (Bool-cases (bench.cancelled ran)) [
        | inl f ↦ rw (e, f) (le, h)
        | inr f ↦ elim (Option-cases (mutant bench src s)) [
          | inl at ↦ rw (e, f, at) (harvest-IsRaced n ss out ran mems le h)
          | inr ((text, tc), at) ↦
              let t = race_trial bench race_count timeout text s.desc tc ran in
              let (len, is) =
                race_trial-IsRaced s text tc ran n out mem at (leb-false n (length out) e) h in
              rw (e, f, at) (harvest-IsRaced n ss (kept_or bench t.0 out) t.1 mems len is)
        ]
      ]
    ]

    harvest_in-IsRaced :
        (n : ℕ) (ks : List KilledMutant)
        → harvest_in bench (race_trial bench race_count timeout) src n all ≡ inr ks
        → (length ks ≤ n) × All (IsRaced src all race_count timeout) ks
    harvest_in-IsRaced n ks e = elim (Bool-cases (is_empty all || leb n 0)) [
      | inl nothing ↦
          let run : inr [] ≡ inr ks = rw nothing at e in
          let same : ks ≡ [] = cc in rw same ((omega arith), tt)
      | inr some_ ↦ elim (Option-cases bench.workspace_error) [
        | inr (why, at) ↦ let run : inl why ≡ inr ks = rw (some_, at) at e in absurd cc
        | inl fine ↦
            let run : inr (harvest bench (race_trial bench race_count timeout) src n all [] [])
                ≡ inr ks =
              rw (some_, fine) at e in
            let same : ks ≡ harvest bench (race_trial bench race_count timeout) src n all [] [] =
              cc in
            rw same (harvest-IsRaced n all [] [] (all_members all) (omega arith) tt)
      ]
    ]

  -- If `ScarFreeRaceKilledMutants` returns mutants, they are at most `n`, and each is of a site of the
  -- scar-free collection in the parsed file: its text is that site's mutant as printed and written,
  -- it built, `go test -race` with `race_count` runs (at least one) refuted it, and the output of that
  -- run has a data race.
  pub scar_free_race_killed_mutants-IsRaced :
      (n race_count timeout : ℕ) (text : String) (src : Source) (ks : List KilledMutant)
      → bench.parse text ≡ inr src
      → scar_free_race_killed_mutants bench n race_count timeout text ≡ inr ks
      → (length ks ≤ n)
        × All
            (λ k.
              IsRaced src
                (collect_scar_free_race_sites bench.print_expr src)
                (at_least_one bench race_count)
                timeout
                k
              × (k.data_race ≡ true))
            ks
  unfolding scar_free_race_killed_mutants race_killed_from
  scar_free_race_killed_mutants-IsRaced n race_count timeout text src ks at e =
      let sites = collect_scar_free_race_sites bench.print_expr src in
      let rc = at_least_one bench race_count in
      let found = harvest_in bench (race_trial bench rc timeout) src n sites in
      elim (Sum-cases found) [
        | inl (why, f) ↦
            let run : inl why ≡ inr ks =
              rw (scar_free_race_killed_mutants, at, race_killed_from, f) at e in
            absurd cc
        | inr (all, f) ↦
            let run : inr (filter_by (λ k. k.data_race) all) ≡ inr ks =
              rw (scar_free_race_killed_mutants, at, race_killed_from, f) at e in
            let same : ks ≡ filter_by (λ k. k.data_race) all = cc in
            let (len, is) = harvest_in-IsRaced src sites rc timeout n all f in
            rw same (All-filter_by (IsRaced src sites rc timeout) (λ k. k.data_race) n all len is)
      ]
