-- ===== src/Cascade/Profile/Rectangular.antt =====
-- The records that `Profile` makes have one observation for each tier, in the order of the tiers
-- (internal/cascade/profile.go): what `Replay` and the grid of thresholds index by position.
use mathlib.Core.List.{append_assoc, append-nil}
use go_cascade.Base.{
  str_eq, Option-cases, if_ind, Result, ok, err, fault, ◌>>=◌, well, badly, panicked, Result-Came,
  any, ℕ, suc, String, ◌≡◌, refl, sym, ap, ◌∙◌, inl, inr, Bool, true, false, ◌||◌, Option, none,
  some, List, [], ◌∷◌, ◌++◌, map,
}
use go_cascade.Float.{Float, milli_float}
use go_cascade.Cluster.{Candidate}
use go_cascade.Calibrate.Certify.{Certificate}
use go_cascade.Calibrate.Records.{TierObs, Record, mark_timed_out}
use go_cascade.Cascade.State.{Tier, Config, Spec, Work, Services}
use go_cascade.Cascade.Sampling.{any_timed_out, accept_one, sample_tier}
use go_cascade.Cascade.Sequential.{Draw, timed, draw_plan, draw}
use go_cascade.Cascade.Speculative.{no_cost}
use go_cascade.Cascade.Query.{Queries, Session, spec_phase}
use go_cascade.Cascade.Profile.{
  blank_record, OracleVerdict, sound, unsound, inconclusive, with_verdict, base_obs, accepted_obs,
  rep_of, validate_oracle, observed_with, with_cost, profile_tier, add_obs, profile_tiers, profiled,
  profile,
}

module _ {ℓ} {F : Type ℓ} where
  abbrev pub obs_names : List (TierObs F) → List String
  obs_names os = map (λ o. o.tier) os

  abbrev pub tier_names : List (Tier F) → List String
  tier_names ts = map (λ t. t.name) ts

  abbrev pub codes_with : String → List (Tier F) → Bool
  codes_with m ts = any (λ t. str_eq t.model_id m) ts

module _ {ℓ} {W F : Type ℓ} ⦃fl : Float F⦄ (env : Services W F) (q : Queries W F) (cfg : Config F)
    (cert : Option (Certificate F)) (refs : String → Option String)
    (pinned_api : String → String) where
  mark_timed_out-tier : (o : TierObs F) (b : Bool) → (mark_timed_out o b).tier ≡ o.tier
  unfolding mark_timed_out
  mark_timed_out-tier o b = if_ind (λ (x : TierObs F). x.tier ≡ o.tier) b (λ _. refl) (λ _. refl)

  -- An observation, if there is one, has the name of its tier.
  abbrev IsNamed : String → Result (TierObs F) → Type ℓ
  IsNamed name r = (o : TierObs F) → r ≡ ok o → o.tier ≡ name

  observed_with-tier :
      (tier : Tier F) (spec : Spec) (d : Draw F) (c : Option (Option Candidate)) (w : Work W F)
      → IsNamed tier.name (observed_with env q cfg cert refs pinned_api tier spec d c w).0
  observed_with-tier tier spec d none w o e =
      let from : o ≡ base_obs tier d = cc in
      ap (λ x. x.tier) from ∙ mark_timed_out-tier _ d.timed_out
  observed_with-tier tier spec d (some none) w o e = absurd cc
  observed_with-tier tier spec d (some (some c)) w o e =
      let acc = (accept_one env cfg c.source spec w.world).0 in
      let from : o ≡ accepted_obs (base_obs tier d) acc = cc in
      ap (λ x. x.tier) from ∙ mark_timed_out-tier _ (timed acc) ∙ mark_timed_out-tier _ d.timed_out

  with_cost-tier :
      (name : String) (k : ℕ) (plan_usd : F) (w : Work W F) (r : Result (TierObs F))
      → IsNamed name r
      → IsNamed name (r >>= (λ x. ok (with_cost env q cfg cert refs pinned_api k plan_usd w x)))
  with_cost-tier name k plan_usd w (ok x) h o e =
      let from : o ≡ with_cost env q cfg cert refs pinned_api k plan_usd w x = cc in
      ap (λ y. y.tier) from ∙ h x refl
  with_cost-tier name k plan_usd w (err m) h o e = absurd cc
  with_cost-tier name k plan_usd w fault h o e = absurd cc

  profile_tier-tier :
      (k : ℕ) (tier : Tier F) (problem : String) (spec : Spec) (plan : String) (plan_usd : F)
      (w : Work W F)
      → IsNamed tier.name
          (profile_tier env q cfg cert refs pinned_api k tier problem spec plan plan_usd w).0
  unfolding profile_tier
  profile_tier-tier k tier problem spec plan plan_usd w =
      elim (Result-Came
        (sample_tier env cfg tier problem spec [] plan (record w { cost = no_cost })).0) [
          | badly e f ↦ rw (f, profile_tier) (λ o g. absurd cc)
          | panicked f ↦ rw (f, profile_tier) (λ o g. absurd cc)
          | well cands f ↦
              let u =
                (sample_tier env cfg tier problem spec [] plan (record w { cost = no_cost })).1 in
              let d = draw env cfg cert cands (any_timed_out cands) in
              let r = rep_of d d.winner in
              let seen = observed_with env q cfg cert refs pinned_api tier spec d r u in
              rw (f, profile_tier)
                (with_cost-tier tier.name k plan_usd seen.1 seen.0
                  (observed_with-tier tier spec d r u))
        ]

  or_assoc : (a b c : Bool) → (a || b) || c ≡ a || (b || c)
  or_assoc true b c = refl
  or_assoc false b c = refl

  or_false : (a : Bool) → a ≡ a || false
  or_false true = refl
  or_false false = refl

  map_append :
      (os : List (TierObs F)) (o : TierObs F) (name : String)
      → o.tier ≡ name
      → obs_names (os ++ (o ∷ [])) ≡ obs_names os ++ (name ∷ [])
  map_append [] o name e = rw e refl
  map_append (x ∷ os) o name e = ap (◌∷◌ x.tier) (map_append os o name e)

  -- What the loop over the rest of the tiers makes of a record, if it ends well.
  data Completes (tiers : List (Tier F)) (before after : Record F) : Type ℓ where
    completes :
        obs_names after.tiers ≡ obs_names before.tiers ++ tier_names tiers
        → after.contaminated ≡ before.contaminated || codes_with cfg.test_model tiers
        → after.id ≡ before.id
        → after.shadow ≡ before.shadow
        → Completes tiers before after

  extended :
      (tier : Tier F) (tiers : List (Tier F)) (o : TierObs F) (before after : Record F)
      → o.tier ≡ tier.name
      → Completes tiers (add_obs env q cfg cert refs pinned_api tier o before) after
      → Completes (tier ∷ tiers) before after
  extended tier tiers o before after e (completes a b c d) =
      let named : obs_names (before.tiers ++ (o ∷ []))
          ≡ obs_names before.tiers ++ (tier.name ∷ []) =
        map_append before.tiers o tier.name e in
      completes
        (a
          ∙ ap (λ ns. ns ++ tier_names tiers) named
          ∙ append_assoc (obs_names before.tiers) (tier.name ∷ []) (tier_names tiers))
        (b
          ∙ or_assoc before.contaminated (str_eq tier.model_id cfg.test_model)
              (codes_with cfg.test_model tiers))
        c d

  -- A loop that ends well.
  abbrev Completed : List (Tier F) → Record F → Result (Unit {0}) × Record F → Type ℓ
  Completed tiers rec p = p.0 ≡ ok tt → Completes tiers rec p.1

  profile_tiers-Completes :
      (k : ℕ) (tiers : List (Tier F)) (problem : String) (spec : Spec) (plan : String)
      (plan_usd : F) (rec : Record F) (w : Work W F)
      → Completed tiers rec
          (profile_tiers env q cfg cert refs pinned_api k tiers problem spec plan plan_usd rec w)
  unfolding profile_tiers
  profile_tiers-Completes k [] problem spec plan plan_usd rec w =
      λ h. completes (sym (append-nil (obs_names rec.tiers))) (or_false rec.contaminated) refl refl
  profile_tiers-Completes k (tier ∷ tiers) problem spec plan plan_usd rec w =
      let named = profile_tier-tier k tier problem spec plan plan_usd w in
      elim (Option-cases (env.expired w.world)) [
        | inr (e, f) ↦ rw (f, profile_tiers) (λ h. absurd cc)
        | inl f ↦
            rw (f, profile_tiers)
              (elim (Result-Came
                (profile_tier env q cfg cert refs pinned_api k tier problem spec plan plan_usd
                  w).0) [
                    | badly e g ↦ rw g (λ h. absurd cc)
                    | panicked g ↦ rw g (λ h. absurd cc)
                    | well o g ↦ rw g (λ h.
                        extended tier tiers o rec _ (named o g)
                          (profile_tiers-Completes (suc k) tiers problem spec plan plan_usd _ _ h))
                  ])
      ]

  -- A record of a problem that covers every configured tier, by position.
  pub data IsRectangular (id : String) (rec : Record F) : Type ℓ where
    rectangular :
        obs_names rec.tiers ≡ tier_names cfg.tiers
        → rec.contaminated
          ≡ str_eq cfg.planner_model cfg.test_model || codes_with cfg.test_model cfg.tiers
        → rec.id ≡ id
        → rec.shadow ≡ true
        → IsRectangular id rec

  Completes-IsRectangular :
      (id problem : String) (v : OracleVerdict) (rec : Record F)
      → Completes cfg.tiers
          (with_verdict v (blank_record env q cfg cert refs pinned_api id problem))
          rec
      → IsRectangular id rec
  Completes-IsRectangular id problem sound rec (completes a b c d) = rectangular a b c d
  Completes-IsRectangular id problem (unsound m) rec (completes a b c d) = rectangular a b c d
  Completes-IsRectangular id problem (inconclusive m) rec (completes a b c d) = rectangular a b c d

  profiled-IsRectangular :
      (id problem : String) (p : Result Spec × Session W F)
      → (profiled env q cfg cert refs pinned_api id problem p).0 ≡ ok tt
      → (rec : Record F) × (((profiled env q cfg cert refs pinned_api id problem p).1 ≡ some rec)
          × IsRectangular id rec)
  profiled-IsRectangular id problem (err e, s) h = absurd cc
  profiled-IsRectangular id problem (fault, s) h = absurd cc
  profiled-IsRectangular id problem (ok spec, s) h =
      let v = validate_oracle env q cfg cert refs pinned_api id spec s.work.world in
      let (plan, after) = draw_plan env cfg cert problem spec v.1 in
      let start = with_verdict v.0 (blank_record env q cfg cert refs pinned_api id problem) in
      let w = record (s.work) { world = after } in
      (
        (profile_tiers env q cfg cert refs pinned_api 0 cfg.tiers problem spec plan.reply.text
            plan.usd start w).1,
        (
          refl,
          Completes-IsRectangular id problem v.0 _
              (profile_tiers-Completes 0 cfg.tiers problem spec plan.reply.text plan.usd start w h),
        ),
      )

  -- If `Profile` ends without an error, it gives a record with the problem's id, whose observations
  -- are those of all configured tiers, one each and in their order; it is marked as a shadow sample,
  -- and as contaminated exactly if the tests' author is the planner of the whole cascade or writes
  -- the code of some tier. A tier's own planner makes no difference.
  pub profile-IsRectangular :
      (id problem : String) (s : Session W F)
      → (profile env q cfg cert refs pinned_api id problem s).0 ≡ ok tt
      → (rec : Record F) × (((profile env q cfg cert refs pinned_api id problem s).1 ≡ some rec)
          × IsRectangular id rec)
  unfolding profile
  profile-IsRectangular id problem s h =
      profiled-IsRectangular id problem (spec_phase env q cfg cert problem (pinned_api id) s) h
