-- ===== src/Cascade/Judge/Seeded/Course.antt =====
-- The course of a seeded row: which program was judged at which level, with what verdict (`ProfileSeeded`
-- of internal/cascade/judge.go).
use mathlib.Core.List.{append_assoc, append-nil}
use go_cascade.Base.{
  Option-cases, Sum-cases, String, ◌≡◌, refl, sym, ap, ◌∙◌, ◌⊎◌, subst, inl, inr, Bool, Option,
  none, some, List, [], ◌∷◌, ◌++◌,
}
use go_cascade.Float.{Float}
use go_cascade.Calibrate.Certify.{Certificate}
use go_cascade.Cascade.State.{Config, Services}
use go_cascade.Cascade.Query.{Queries}
use go_cascade.Cascade.Judge.{judge_at}
use go_cascade.Cascade.Judge.Levels.{assign, change}
use go_cascade.Cascade.Judge.Seeded.{
  SeededMutant, Tallies, counted, unjudged, judge_mutant, judge_mutants,
}
use go_cascade.Cascade.Judge.Seeded.Counted.{Log, tallied, tallied-append}
use go_cascade.Verify.Mutation.Harvest.{KilledMutant}

-- The verdicts of a log, each under its level.
abbrev pub noted : Log → List (String × Bool) → List (String × Bool)
noted [] m = m
noted ((l, pass) ∷ log) m = noted log (assign l pass m)

-- An entry of a program of the harvest, with the verdicts of a log.
abbrev pub Describes : KilledMutant → Log → SeededMutant → Type 0
Describes k log sm =
    (sm.source ≡ k.source)
    × (sm.desc ≡ k.desc)
    × (sm.data_race ≡ k.data_race)
    × (sm.plain_refuted ≡ k.plain_refuted)
    × (sm.verdicts ≡ noted log [])

module _ {ℓ} {W F : Type ℓ} ⦃fl : Float F⦄ (env : Services W F) (q : Queries W F) (cfg : Config F)
    (cert : Option (Certificate F)) (refs : String → Option String) (pinned_api : String → String)
    (strictness : String) (parse : String → Option Bool) (judge problem api : String) where
  -- One call of the judge.
  abbrev asked : String → String → W → (String ⊎ (Bool × F)) × W
  asked source l w =
      judge_at env q cfg cert refs pinned_api strictness parse l judge problem api source w

  -- A program judged at some levels, from one world to another: its verdicts, up to an error of the
  -- judge.
  pub data Judges (source : String) : List String → W → Log → Option String → W → Type ℓ where
    through : (w : W) → Judges source [] w [] none w
    failed :
        (l : String) (ls : List String) (w : W) (e : String)
        → (asked source l w).0 ≡ inl e
        → Judges source (l ∷ ls) w [] (some e) (asked source l w).1
    ruled_ :
        {ls : List String} {log : Log} {o : Option String} {end : W} (l : String) (w : W)
        (pass : Bool) (usd : F)
        → (asked source l w).0 ≡ inr (pass, usd)
        → Judges source ls (asked source l w).1 log o end
        → Judges source (l ∷ ls) w ((l, pass) ∷ log) o end

  -- The programs of a harvest judged in their order, each behind the one before it, up to an error of
  -- the judge: their entries, and the verdicts of all of them.
  pub data Course (ls : List String)
      : List KilledMutant → W → List SeededMutant → Log → Option String → Type ℓ where
    over : (w : W) → Course ls [] w [] [] none
    broke :
        {w end : W} {log : Log} (k : KilledMutant) (ks : List KilledMutant) (sm : SeededMutant)
        (e : String)
        → Judges k.source ls w log (some e) end
        → Describes k log sm
        → Course ls (k ∷ ks) w (sm ∷ []) log (some e)
    next :
        {w end : W} {log more : Log} {ks : List KilledMutant} {sms : List SeededMutant}
        {o : Option String} (k : KilledMutant) (sm : SeededMutant)
        → Judges k.source ls w log none end
        → Describes k log sm
        → Course ls ks end sms more o
        → Course ls (k ∷ ks) w (sm ∷ sms) (log ++ more) o

  abbrev one_judged :
      List String → SeededMutant → Tallies → W → Option String × (SeededMutant × (Tallies × W))
  one_judged ls sm ts w =
      judge_mutant env q cfg cert refs pinned_api strictness parse judge problem api ls sm ts w

  judge_mutant-Judges :
      (ls : List String) (sm : SeededMutant) (ts : Tallies) (w : W)
      → let out = one_judged ls sm ts w in
        (log : Log) × Judges sm.source ls w log out.0 out.1.1.1
        × (out.1.0 ≡ record sm { verdicts = noted log sm.verdicts })
        × (out.1.1.0 ≡ tallied log ts)
  unfolding judge_mutant
  judge_mutant-Judges [] sm ts w = ([], through w, refl, refl)
  judge_mutant-Judges (l ∷ ls) sm ts w = elim (Sum-cases (asked sm.source l w).0) [
    | inl (e, f) ↦ rw (judge_mutant, f) ([], failed l ls w e f, refl, refl)
    | inr ((pass, usd), f) ↦
        let (log, run, entry, tally) =
          judge_mutant-Judges ls (record sm { verdicts = assign l pass sm.verdicts })
            (change l (counted pass) ts) (asked sm.source l w).1 in
        rw (judge_mutant, f) ((l, pass) ∷ log, ruled_ l w pass usd f run, entry, tally)
  ]

  -- What the loop over a harvest adds to the entries and the tallies that it starts with.
  Goes :
      List String
      → List KilledMutant
      → List SeededMutant
      → Tallies
      → W
      → Option String × (List SeededMutant × (Tallies × W))
      → Type ℓ
  Goes ls ks done ts w out =
      (sms : List SeededMutant) × (log : Log) × Course ls ks w sms log out.0
      × (out.1.0 ≡ done ++ sms)
      × (out.1.1.0 ≡ tallied log ts)

  judge_mutants-Goes :
      (ls : List String) (ks : List KilledMutant) (done : List SeededMutant) (ts : Tallies) (w : W)
      → Goes ls ks done ts w (
          judge_mutants env q cfg cert refs pinned_api strictness parse judge problem api ls ks done
            ts w)
  unfolding judge_mutants Goes
  judge_mutants-Goes ls [] done ts w = ([], [], over w, sym (append-nil done), refl)
  judge_mutants-Goes ls (k ∷ ks) done ts w =
      let out = one_judged ls (unjudged k) ts w in
      let (log, run, entry, tally) = judge_mutant-Judges ls (unjudged k) ts w in
      let of_k : Describes k log out.1.0 = (
        ap (λ m. m.source) entry,
        ap (λ m. m.desc) entry,
        ap (λ m. m.data_race) entry,
        ap (λ m. m.plain_refuted) entry,
        ap (λ m. m.verdicts) entry,
      ) in
      elim (Option-cases out.0) [
        | inr (e, f) ↦
            let stop : Judges k.source ls w log (some e) out.1.1.1 =
              subst (λ o. Judges k.source ls w log o out.1.1.1) f run in
            rw (judge_mutants, f) (out.1.0 ∷ [], log, broke k ks out.1.0 e stop of_k, refl, tally)
        | inl f ↦
            let on : Judges k.source ls w log none out.1.1.1 =
              subst (λ o. Judges k.source ls w log o out.1.1.1) f run in
            let (sms, more, rest, entries, tallies) =
              judge_mutants-Goes ls ks (done ++ (out.1.0 ∷ [])) out.1.1.0 out.1.1.1 in
            rw (judge_mutants, f)
              (
                out.1.0 ∷ sms,
                log ++ more,
                next k out.1.0 on of_k rest,
                entries ∙ append_assoc done (out.1.0 ∷ []) sms,
                tallies ∙ ap (λ t. tallied more t) tally ∙ sym (tallied-append log more ts),
              )
      ]

  -- A harvest from the start.
  pub judge_mutants-Course :
      (ls : List String) (ks : List KilledMutant) (ts : Tallies) (w : W)
      → let out =
          judge_mutants env q cfg cert refs pinned_api strictness parse judge problem api ls ks []
            ts w in
        (log : Log) × Course ls ks w out.1.0 log out.0 × (out.1.1.0 ≡ tallied log ts)
  unfolding Goes
  judge_mutants-Course ls ks ts w =
      let out =
        judge_mutants env q cfg cert refs pinned_api strictness parse judge problem api ls ks [] ts
          w in
      let (sms, log, course, entries, tallies) = judge_mutants-Goes ls ks [] ts w in
      (log, subst (λ d. Course ls ks w d log out.0) (sym entries) course, tallies)
