-- ===== src/Cascade/Judge/Paired.antt =====
-- The two records of `ProfilePaired`, side by side (internal/cascade/judge.go).
use go_cascade.Base.{
  str_eq, if◌then◌else◌, Result, ok, err, fault, well, badly, panicked, Result-Came, Sum-cases, any,
  ℕ, String, ◌<>◌, ◌≡◌, refl, sym, ap, ◌∙◌, inl, inr, Bool, true, false, ◌||◌, Option, none, some,
  List, [], ◌∷◌, ◌++◌, map, arith,
}
use go_cascade.Float.{Float}
use go_cascade.Cluster.{Candidate}
use go_cascade.Calibrate.Certify.{Certificate}
use go_cascade.Calibrate.Records.{
  TierObs, Record, disagrees, mark_timed_out, retain_source_on_disagreement,
}
use go_cascade.Cascade.State.{Tier, Config, Spec, Work, Services}
use go_cascade.Cascade.Sampling.{accept_one}
use go_cascade.Cascade.Sequential.{draw_plan, passes, cpu_of, timed}
use go_cascade.Cascade.Query.{Queries, Session, spec_phase}
use go_cascade.Cascade.Profile.{
  OracleVerdict, sound, unsound, inconclusive, with_verdict, rep_of, validate_oracle,
}
use go_cascade.Cascade.Profile.Rectangular.{obs_names, tier_names, codes_with}
use go_cascade.Cascade.Judge.Loop.{tier_loop-keeps}
use go_cascade.Cascade.Judge.{
  tier_loop, fresh_record, add_tier, ruled, drawn, decided, judge_accept, both_obs, both_with,
  both_recorded, paired_tier, paired_profile, profile_paired, plus_plan,
}

module _ {ℓ} {F : Type ℓ} where
  -- Two observations of one run: the same tier, score and truth, and the first is of an oracle whose
  -- verdict is the truth.
  pub record SameRun (o p : TierObs F) : Type ℓ where
    pub tier_ : o.tier ≡ p.tier
    pub score_ : o.score ≡ p.score
    pub late_ : o.timed_out ≡ p.timed_out
    pub truth_ : o.true_correct ≡ p.true_correct
    pub agrees_ : disagrees o ≡ false

  -- Two records' observations, tier by tier.
  pub data Paired : List (TierObs F) → List (TierObs F) → Type ℓ where
    nil : Paired [] []
    cons :
        {o p : TierObs F} {os ps : List (TierObs F)}
        → SameRun o p
        → Paired os ps
        → Paired (o ∷ os) (p ∷ ps)

  Paired-snoc :
      {os ps : List (TierObs F)} (o p : TierObs F)
      → Paired os ps
      → SameRun o p
      → Paired (os ++ (o ∷ [])) (ps ++ (p ∷ []))
  Paired-snoc o p nil s = cons s nil
  Paired-snoc o p (cons h hs) s = cons h (Paired-snoc o p hs s)

  -- One oracle says the truth, the other what it says, on the same candidate.
  ruled-SameRun :
      (truth pass late : Bool) (o : TierObs F) (x y : F) (src : String)
      → SameRun
          (record (ruled truth truth late o) { cost = x })
          (retain_source_on_disagreement (record (ruled pass truth late o) { cost = y }) src)
  unfolding mark_timed_out retain_source_on_disagreement disagrees
  ruled-SameRun truth pass late o x y src = ground arith

  ruled-tier : (truth late : Bool) (o : TierObs F) → (ruled truth truth late o).tier ≡ o.tier
  unfolding mark_timed_out
  ruled-tier truth true o = refl
  ruled-tier truth false o = refl

  plain-SameRun :
      (late : Bool) (o : TierObs F) (x : F)
      → o.true_correct ≡ none
      → SameRun
          (record (mark_timed_out o late) { cost = x })
          (record (mark_timed_out o late) { cost = x })
  unfolding mark_timed_out disagrees
  plain-SameRun late o x e = ground arith

  mark_timed_out-tier : (late : Bool) (o : TierObs F) → (mark_timed_out o late).tier ≡ o.tier
  unfolding mark_timed_out
  mark_timed_out-tier true o = refl
  mark_timed_out-tier false o = refl

or_assoc : (a b c : Bool) → (a || b) || c ≡ a || (b || c)
or_assoc true b c = refl
or_assoc false b c = refl

or_false : (a : Bool) → a || false ≡ a
or_false true = refl
or_false false = refl

any-snoc {ℓ} :
    {A : Type ℓ} (p : A → Bool) (xs : List A) (x : A) → any p (xs ++ (x ∷ [])) ≡ any p xs || p x
any-snoc p [] x = or_false (p x)
any-snoc p (y ∷ ys) x = ap (◌||◌ (p y)) (any-snoc p ys x) ∙ sym (or_assoc (p y) (any p ys) (p x))

map-snoc {ℓ κ} :
    {A : Type ℓ} {B : Type κ} (f : A → B) (xs : List A) (x : A)
    → map f (xs ++ (x ∷ [])) ≡ map f xs ++ (f x ∷ [])
map-snoc f [] x = refl
map-snoc f (y ∷ ys) x = ap (◌∷◌ (f y)) (map-snoc f ys x)

-- A record so far: contaminated by its planner or by a tier that is done.
abbrev IsMarked {ℓ} : {F : Type ℓ} → (planner oracle : String) → List (Tier F) → Record F → Type 0
IsMarked planner oracle done r = r.contaminated ≡ str_eq planner oracle || codes_with oracle done

add_tier-IsMarked {ℓ} :
    {F : Type ℓ} (planner oracle : String) (done : List (Tier F)) (tier : Tier F) (o : TierObs F)
    (r : Record F)
    → IsMarked planner oracle done r
    → IsMarked planner oracle (done ++ (tier ∷ [])) (add_tier tier oracle o r)
add_tier-IsMarked planner oracle done tier o r h =
    ap (λ b. b || str_eq tier.model_id oracle) h
    ∙ or_assoc (str_eq planner oracle) (codes_with oracle done) (str_eq tier.model_id oracle)
    ∙ ap (◌||◌ (str_eq planner oracle)) (sym (any-snoc (λ t. str_eq t.model_id oracle) done tier))

-- Two records of one problem, once some tiers are done, that differ in the oracle alone.
pub record Arms {ℓ} {F : Type ℓ} (planner test_model judge : String) (done : List (Tier F))
    (recs : Record F × Record F) : Type ℓ where
  pub pairs : Paired recs.0.tiers recs.1.tiers
  pub names : obs_names recs.0.tiers ≡ tier_names done
  pub exec_marked : IsMarked planner test_model done recs.0
  pub judge_marked : IsMarked planner judge done recs.1
  pub unsound_ : recs.0.oracle_unsound ≡ recs.1.oracle_unsound
  pub inconclusive_ : recs.0.oracle_inconclusive ≡ recs.1.oracle_inconclusive

module _ {ℓ} {W F : Type ℓ} ⦃fl : Float F⦄ (env : Services W F) (q : Queries W F) (cfg : Config F)
    (cert : Option (Certificate F)) (refs : String → Option String) (pinned_api : String → String)
    (strictness : String) (parse : String → Option Bool) where
  module _ (judge problem : String) (spec : Spec) (plan : String) (plan_usd : F) where
    -- The observations of the two arms, if there are any.
    abbrev Runs_ : String → Result (TierObs F × TierObs F) → Type ℓ
    Runs_ name r = (o p : TierObs F) → r ≡ ok (o, p) → SameRun o p × (o.tier ≡ name)

    both_obs-Runs_ :
        (late : Bool) (base : TierObs F) (x : F) (c : Candidate) (w : Work W F)
        → Runs_ base.tier
            (both_obs env q cfg cert refs pinned_api strictness parse judge problem spec plan
              plan_usd
              (record (mark_timed_out base late) { cost = x })
              c
              w).0
    both_obs-Runs_ late base x c w =
        let (acc, w') = accept_one env cfg c.source spec w.world in
        let o' = record (mark_timed_out base late) { cost = x } in
        elim (Sum-cases
          (judge_accept env q cfg cert refs pinned_api strictness parse judge problem spec.api
            c.source w').0) [
              | inl (m, f) ↦ rw (f, both_obs) (λ o p e. absurd cc)
              | inr (v, f) ↦
                  rw (f, both_obs)
                    (λ o p e.
                      let exec = record (ruled (passes acc) (passes acc) (timed acc) o') {
                        cost = fl.add x (fl.mul (env.seconds (cpu_of acc)) cfg.compute_rate);
                      } in
                      let read =
                        retain_source_on_disagreement
                          (record (ruled v.0 (passes acc) (timed acc) o') { cost = fl.add x v.1 })
                          c.source in
                      let left : o ≡ exec = cc in
                      let right : p ≡ read = cc in
                      rw (left, right)
                        (
                          ruled-SameRun (passes acc) v.0 (timed acc) o' _ _ c.source,
                          ruled-tier (passes acc) (timed acc) o' ∙ mark_timed_out-tier late base,
                        ))
            ]

    both_with-Runs_ :
        (late : Bool) (base : TierObs F) (x : F) (c : Option (Option Candidate)) (w : Work W F)
        → base.true_correct ≡ none
        → Runs_ base.tier
            (both_with env q cfg cert refs pinned_api strictness parse judge problem spec plan
              plan_usd
              (record (mark_timed_out base late) { cost = x })
              c
              w).0
    both_with-Runs_ late base x none w n = λ o p e.
        let o' = record (mark_timed_out base late) { cost = x } in
        let left : o ≡ o' = cc in
        let right : p ≡ o' = cc in
        rw (left, right) (plain-SameRun late base x n, mark_timed_out-tier late base)
    both_with-Runs_ late base x (some none) w n = λ o p e. absurd cc
    both_with-Runs_ late base x (some (some c)) w n = both_obs-Runs_ late base x c w

    both_recorded-Arms :
        (done : List (Tier F)) (tier : Tier F) (e j : Record F) (r : Result (TierObs F × TierObs F))
        (w : Work W F)
        → Arms cfg.planner_model cfg.test_model judge done (e, j)
        → Runs_ tier.name r
        → (both_recorded env q cfg cert refs pinned_api strictness parse judge problem spec plan
            plan_usd tier
            (e, j)
            (r, w)).0
          ≡ ok tt
        → Arms cfg.planner_model cfg.test_model judge
            (done ++ (tier ∷ []))
            (both_recorded env q cfg cert refs pinned_api strictness parse judge problem spec plan
              plan_usd tier
              (e, j)
              (r, w)).1
    both_recorded-Arms done tier e j (err m) w a h f = absurd cc
    both_recorded-Arms done tier e j fault w a h f = absurd cc
    both_recorded-Arms done tier e j (ok (o, p)) w a h f =
        let (same, name) = h o p refl in
        record {
          pairs = Paired-snoc o p a.pairs same;
          names =
              map-snoc (λ x. x.tier) e.tiers o
              ∙ ap (λ ns. ns ++ (o.tier ∷ [])) a.names
              ∙ ap (λ n. tier_names done ++ (n ∷ [])) name
              ∙ sym (map-snoc (λ t. t.name) done tier);
          exec_marked =
              add_tier-IsMarked cfg.planner_model cfg.test_model done tier o e a.exec_marked;
          judge_marked = add_tier-IsMarked cfg.planner_model judge done tier p j a.judge_marked;
          unsound_ = a.unsound_;
          inconclusive_ = a.inconclusive_;
        }

    paired_tier-Arms :
        (k : ℕ) (done : List (Tier F)) (tier : Tier F) (recs : Record F × Record F) (w : Work W F)
        → Arms cfg.planner_model cfg.test_model judge done recs
        → (paired_tier env q cfg cert refs pinned_api strictness parse judge problem spec plan
            plan_usd k tier recs w).0
          ≡ ok tt
        → Arms cfg.planner_model cfg.test_model judge
            (done ++ (tier ∷ []))
            (paired_tier env q cfg cert refs pinned_api strictness parse judge problem spec plan
              plan_usd k tier recs w).1
    unfolding paired_tier
    paired_tier-Arms k done tier (e, j) w a h =
        elim (Result-Came
          (drawn env q cfg cert refs pinned_api strictness parse tier problem spec plan w).0) [
            | badly m f ↦ absurd (cc (rw (f, paired_tier) at h))
            | panicked f ↦ absurd (cc (rw (f, paired_tier) at h))
            | well cands f ↦
                let u =
                  (drawn env q cfg cert refs pinned_api strictness parse tier problem spec plan
                    w).1 in
                let d = decided env q cfg cert refs pinned_api strictness parse cands in
                let usd = plus_plan k plan_usd u.cost.total_usd in
                rw (f, paired_tier)
                  (both_recorded-Arms done tier e j _ _ a
                    (both_with-Runs_ d.timed_out _ usd (rep_of d d.winner) u refl)
                    (rw (f, paired_tier) at h))
          ]

  -- Two fresh records, with the verdict on the suite that both rely on.
  started-Arms :
      (id problem judge : String) (v : OracleVerdict)
      → Arms {F = F} cfg.planner_model cfg.test_model judge [] (
        with_verdict v (fresh_record id problem cfg.planner_model cfg.test_model),
        with_verdict v (fresh_record id problem cfg.planner_model judge),
      )
  started-Arms id problem judge sound = plain
    where
      plain : Arms {F = F} cfg.planner_model cfg.test_model judge [] (
        fresh_record id problem cfg.planner_model cfg.test_model,
        fresh_record id problem cfg.planner_model judge,
      )
      plain = record {
        pairs = nil;
        names = refl;
        exec_marked = sym (or_false _);
        judge_marked = sym (or_false _);
        unsound_ = refl;
        inconclusive_ = refl;
      }
  started-Arms id problem judge (unsound d) = record {
    pairs = nil;
    names = refl;
    exec_marked = sym (or_false _);
    judge_marked = sym (or_false _);
    unsound_ = refl;
    inconclusive_ = refl;
  }
  started-Arms id problem judge (inconclusive d) = record {
    pairs = nil;
    names = refl;
    exec_marked = sym (or_false _);
    judge_marked = sym (or_false _);
    unsound_ = refl;
    inconclusive_ = refl;
  }

  paired_profile-Arms :
      (id problem judge : String) (p : Result Spec × Session W F) (recs : Record F × Record F)
      → paired_profile env q cfg cert refs pinned_api strictness parse id problem judge p
        ≡ (ok tt, some recs)
      → Arms cfg.planner_model cfg.test_model judge cfg.tiers recs
  paired_profile-Arms id problem judge (err e, s) recs h =
      let f : err ("spec phase: " <> e) ≡ ok tt = ap (λ x. x.0) h in absurd cc
  paired_profile-Arms id problem judge (fault, s) recs h =
      let f : fault ≡ ok tt = ap (λ x. x.0) h in absurd cc
  paired_profile-Arms id problem judge (ok spec, s) recs h =
      let (v, world) = validate_oracle env q cfg cert refs pinned_api id spec s.work.world in
      let (plan, after) = draw_plan env cfg cert problem spec world in
      let start : Record F × Record F = (
        with_verdict v (fresh_record id problem cfg.planner_model cfg.test_model),
        with_verdict v (fresh_record id problem cfg.planner_model judge),
      ) in
      let body =
        paired_tier env q cfg cert refs pinned_api strictness parse judge problem spec
          plan.reply.text plan.usd in
      let w = record (s.work) { world = after } in
      let same : some (tier_loop env.expired body 0 cfg.tiers start w).1 ≡ some recs =
        ap (λ x. x.1) h in
      let is : recs ≡ (tier_loop env.expired body 0 cfg.tiers start w).1 = cc in
      rw is (
        tier_loop-keeps env.expired body (Arms cfg.planner_model cfg.test_model judge)
          (λ k done tier rs u.
            paired_tier-Arms judge problem spec plan.reply.text plan.usd k done tier rs u)
          0 [] cfg.tiers start w (started-Arms id problem judge v) (ap (λ x. x.0) h))

  -- If `ProfilePaired` ends without an error, its two records are of the same runs: tier by tier, and
  -- for all configured tiers in their order, they have the same score, the same mark of a timeout and
  -- the same execution truth, and the execution record's verdict is that truth. Both carry the same
  -- verdict on the suite. Each is marked contaminated exactly if its own oracle, the tests' author
  -- for one and the judge for the other (by default the same model), planned the cascade or writes the
  -- code of some tier.
  pub profile_paired-Arms :
      (id problem judge : String) (s : Session W F) (recs : Record F × Record F)
      → profile_paired env q cfg cert refs pinned_api strictness parse id problem judge s
        ≡ (ok tt, some recs)
      → Arms cfg.planner_model cfg.test_model
          (if str_eq judge "" then cfg.test_model else judge)
          cfg.tiers
          recs
  unfolding profile_paired
  profile_paired-Arms id problem judge s recs h =
      paired_profile-Arms id problem _ (spec_phase env q cfg cert problem (pinned_api id) s) recs h
