-- ===== src/Cascade/Judge/Seeded/Tally.antt =====
-- A seeded row and what it was made of (`ProfileSeeded` of internal/cascade/judge.go).
use go_cascade.Base.{
  Result, ok, err, none, length, String, ◌≡◌, refl, sym, ap, ◌⊎◌, inl, inr, Bool, Option, some,
  List, [], ◌∷◌, map, All, subst,
}
use go_cascade.Float.{Float}
use go_cascade.Calibrate.Certify.{Certificate}
use go_cascade.Cascade.State.{Config, Spec, Services}
use go_cascade.Cascade.Query.{Queries}
use go_cascade.Cascade.Judge.Levels.{change}
use go_cascade.Cascade.Judge.Seeded.{
  SeedKind, SeededRecord, Tallies, counted, fresh_tallies, flush, judge_mutants, judged_row,
  result_of, seed_kind_name,
}
use go_cascade.Cascade.Judge.Seeded.Counted.{Log, tallied, Counts, flush-Counts}
use go_cascade.Cascade.Judge.Seeded.Course.{Course, judge_mutants-Course}
use go_cascade.Verify.Mutation.Harvest.{KilledMutant}
use go_cascade.Cascade.Judge.Seeded.Counts.{
  IsBounded, AllBounded, change-AllBounded, fresh_tallies-AllBounded, flush-IsFiled,
}

tallied-AllBounded : (log : Log) (ts : Tallies) → AllBounded ts → AllBounded (tallied log ts)
tallied-AllBounded [] ts h = h
tallied-AllBounded ((l, pass) ∷ log) ts h =
    tallied-AllBounded log (change l (counted pass) ts) (change-AllBounded l pass ts h)

module _ {ℓ} {W F : Type ℓ} ⦃fl : Float F⦄ (env : Services W F) (q : Queries W F) (cfg : Config F)
    (cert : Option (Certificate F)) (refs : String → Option String) (pinned_api : String → String)
    (strictness : String) (parse : String → Option Bool) where
  -- How a row ends: as the judge did.
  abbrev pub Ends : Option String → Result (Unit {0}) → Type 0
  Ends o r = ((o ≡ none) × (r ≡ ok tt)) ⊎ ((e : String) × (o ≡ some e) × (r ≡ err e))

  result_of-Ends :
      (o : Option String) → Ends o (result_of env q cfg cert refs pinned_api strictness parse o)
  result_of-Ends none = inl (refl, refl)
  result_of-Ends (some e) = inr (e, refl, refl)

  -- A row of a harvest: it comes of a run of the judge over the harvest's programs, whose entries are
  -- the row's and whose verdicts its tallies count.
  pub record IsRow (levels : List String) (judge problem : String) (spec : Spec)
      (ks : List KilledMutant) (w : W) (r : Result (Unit {0})) (rec : SeededRecord) : Type ℓ where
    pub seeds_ : rec.seeds ≡ length ks
    pub levels_ : map (λ v. v.level) rec.levels ≡ levels
    pub bounded_ : All IsBounded rec.levels
    pub course_ :
        (log : Log) × (o : Option String) × Course env q cfg cert refs pinned_api strictness parse
          judge problem spec.api levels ks w rec.mutants log o
        × Ends o r
        × All (Counts log) rec.levels

  -- The row that `ProfileSeeded` makes of a harvest counts the harvest's programs and comes of a run
  -- of the judge over them: in their order, each is given to `judgeAt` at the levels in their
  -- order, from the world that the call before it left, until a call fails. The row ends with that
  -- call's error, or without one. It has an entry for each program that was begun, with what the
  -- harvest says of the program and the verdicts on it. Its tallies are of the levels, in their order,
  -- and each has the number of all verdicts of its level, and as its false acceptances the number of
  -- those that passed.
  pub judged_row-IsRow :
      (levels : List String) (kind : SeedKind) (id problem judge : String) (spec : Spec)
      (ks : List KilledMutant) (w : W) (r : Result (Unit {0})) (rec : SeededRecord)
      → judged_row env q cfg cert refs pinned_api strictness parse levels kind id problem judge spec
          ks w
        ≡ (r, some rec)
      → IsRow levels judge problem spec ks w r rec
  unfolding judged_row
  judged_row-IsRow levels kind id problem judge spec ks w r rec e =
      let out =
        judge_mutants env q cfg cert refs pinned_api strictness parse judge problem spec.api levels
          ks [] (fresh_tallies levels) w in
      let (log, course, tallies) =
        judge_mutants-Course env q cfg cert refs pinned_api strictness parse judge problem spec.api
          levels ks (fresh_tallies levels) w in
      let bounded_all =
        subst AllBounded (sym tallies)
          (tallied-AllBounded log (fresh_tallies levels) (fresh_tallies-AllBounded levels)) in
      let (bounded, named) = flush-IsFiled levels out.1.1.0 bounded_all in
      let row : SeededRecord = record {
        id = id;
        kind = seed_kind_name kind;
        seeds = length ks;
        mutants = out.1.0;
        levels = flush levels out.1.1.0;
        no_seed = "";
      } in
      let made : some row ≡ some rec = ap (λ x. x.1) e in
      let same : row ≡ rec = cc in
      let came : result_of env q cfg cert refs pinned_api strictness parse out.0 ≡ r =
        ap (λ x. x.0) e in
      let counts : All (Counts log) (flush levels out.1.1.0) =
        subst (λ ts. All (Counts log) (flush levels ts)) (sym tallies) (flush-Counts log levels) in
      subst (IsRow levels judge problem spec ks w r) same (record {
        seeds_ = refl;
        levels_ = named;
        bounded_ = bounded;
        course_ = (log, out.0, course, subst (Ends out.0) came (result_of-Ends out.0), counts);
      })
