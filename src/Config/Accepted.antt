-- ===== src/Config/Accepted.antt =====
-- What an accepted configuration has (`Validate` of internal/config/config.go).
use mathlib.Core.List.{Memᴰ}
use go_cascade.Base.{
  ltb, str_eq, is_empty, Bool-cases, Result, ok, err, fault, Sprintf, ℕ, suc, ◌≤◌, String, ◌≡◌,
  refl, ◌⊎◌, inl, inr, Bool, true, false, ◌&&◌, ◌||◌, List, [], ◌∷◌, All, arith,
}
use go_cascade.Float.{Float}
use go_cascade.Calibrate.Stats.{Math}
use go_cascade.Cascade.State.{Tier, Config}
use go_cascade.Config.{
  ◌then_check◌, reject_if, unanimous, max_attainable, check_admission_reachable, check_order,
  is_set, check_tier, check_tiers, validate,
}

then_check-ok : (r s : Result (Unit {0})) → (r then_check s) ≡ ok tt → (r ≡ ok tt) × (s ≡ ok tt)
then_check-ok (ok tt) s e = (refl, e)
then_check-ok (err m) s e = absurd cc
then_check-ok fault s e = absurd cc

reject_if-ok : (b : Bool) (m : String) → reject_if b m ≡ ok tt → b ≡ false
reject_if-ok true m e = absurd cc
reject_if-ok false m e = refl

-- What an accepted check rejects, and the rest of the chain.
passed :
    (b : Bool) (m : String) (s : Result (Unit {0}))
    → (reject_if b m then_check s) ≡ ok tt
    → (b ≡ false) × (s ≡ ok tt)
passed b m s e = let (f, g) = then_check-ok (reject_if b m) s e in (reject_if-ok b m f, g)

-- Not both of two, or: one at most.
at_most_one : (a b : Bool) → a && b ≡ false → (a ≡ false) ⊎ (b ≡ false)
at_most_one true b h = inr h
at_most_one false b h = inl refl

neither : (a b : Bool) → a || b ≡ false → (a ≡ false) × (b ≡ false)
neither true b h = absurd cc
neither false b h = (refl, h)

-- A model that is set is another than the tests' author.
abbrev pub IsOther : String → String → Type 0
IsOther model author = (str_eq model "" ≡ true) ⊎ (str_eq model author ≡ false)

IsOther-of :
    (model author : String) → is_set model && str_eq model author ≡ false → IsOther model author
IsOther-of model author h = elim (Bool-cases (str_eq model "")) [
  | inl e ↦ inl e
  | inr e ↦ inr (rw e at h)
]

module _ {ℓ} {F : Type ℓ} ⦃fl : Float F⦄ ⦃m : Math F⦄ (sqrt : F → F) (sprintf : Sprintf F) where
  open fl use {lit, lt, le}

  -- Each tier is at least as expensive as the one before.
  abbrev pub IsOrderedTiers : List (Tier F) → Type 0
  IsOrderedTiers [] = Unit
  IsOrderedTiers (a ∷ []) = Unit
  IsOrderedTiers (a ∷ b ∷ ts) = (lt b.in_per_mtok a.in_per_mtok ≡ false) × IsOrderedTiers (b ∷ ts)

  -- A tier draws a candidate, its planner is not the tests' author, and there is one planner at most.
  pub record IsFit (c : Config F) (t : Tier F) : Type 0 where
    pub draws : 1 ≤ t.samples
    pub other_planner : IsOther t.planner_model c.test_model
    pub one_planner : (str_eq c.planner_model "" ≡ true) ⊎ (str_eq t.planner_model "" ≡ true)

  -- There is a score that the cache takes: nothing is admitted, or everything, or what some tier comes to
  -- if all its candidates agree.
  abbrev pub IsReachable : Config F → Type ℓ
  IsReachable c =
      (c.cache_disabled ≡ true)
      ⊎ ((le c.cache_admit_at (lit 0 0) ≡ true)
          ⊎ ((t : Tier F) × (Memᴰ t c.tiers
                × (le c.cache_admit_at (unanimous sqrt t.samples) ≡ true))))

  pub record IsConsistent (c : Config F) : Type ℓ where
    pub tiered : is_empty c.tiers ≡ false
    pub one_target : (lt (lit 0 0) c.alpha ≡ false) ⊎ (lt (lit 0 0) c.budget_usd ≡ false)
    pub a_target : (le c.alpha (lit 0 0) ≡ false) ⊎ (le c.budget_usd (lit 0 0) ≡ false)
    pub risk : (lt c.alpha (lit 0 0) ≡ false) × (le (lit 1 0) c.alpha ≡ false)
    pub ordered : IsOrderedTiers c.tiers
    pub other_planner : IsOther c.planner_model c.test_model
    pub fit : All (IsFit c) c.tiers
    pub reachable : IsReachable c

  check_order-IsOrderedTiers :
      (ts : List (Tier F)) → check_order sqrt sprintf ts ≡ ok tt → IsOrderedTiers ts
  unfolding check_order
  check_order-IsOrderedTiers [] e = tt
  check_order-IsOrderedTiers (a ∷ []) e = tt
  check_order-IsOrderedTiers (a ∷ b ∷ ts) e =
      let (f, g) =
        passed (lt b.in_per_mtok a.in_per_mtok) _ (check_order sqrt sprintf (b ∷ ts)) e in
      (f, check_order-IsOrderedTiers (b ∷ ts) g)

  unset : (s : String) → is_set s ≡ false → str_eq s "" ≡ true
  unset s h = elim (Bool-cases (str_eq s "")) [
    | inl e ↦ e
    | inr e ↦ let no : true ≡ false = rw e at h in absurd cc
  ]

  check_tier-IsFit :
      (c : Config F) (i : ℕ) (t : Tier F) → check_tier sqrt sprintf c i t ≡ ok tt → IsFit c t
  check_tier-IsFit c i t e =
      let (few, e1) = passed (ltb t.samples 1) _ _ e in
      let (same, e2) =
        passed (is_set t.planner_model && str_eq t.planner_model c.test_model) _ _ e1 in
      record {
        draws = ground arith;
        other_planner = IsOther-of t.planner_model c.test_model same;
        one_planner =
            elim (at_most_one (is_set c.planner_model) (is_set t.planner_model)
              (reject_if-ok _ _ e2)) [
                | inl f ↦ inl (unset c.planner_model f)
                | inr f ↦ inr (unset t.planner_model f)
              ];
      }

  check_tiers-IsFit :
      (c : Config F) (i : ℕ) (ts : List (Tier F))
      → check_tiers sqrt sprintf c i ts ≡ ok tt
      → All (IsFit c) ts
  unfolding check_tiers
  check_tiers-IsFit c i [] e = tt
  check_tiers-IsFit c i (t ∷ ts) e =
      let (f, g) =
        then_check-ok (check_tier sqrt sprintf c i t) (check_tiers sqrt sprintf c (suc i) ts) e in
      (check_tier-IsFit c i t f, check_tiers-IsFit c (suc i) ts g)

  -- A greatest score `x` that some tier comes to.
  abbrev OfTier : F → List (Tier F) → Type ℓ
  OfTier x ts = (t : Tier F) × (Memᴰ t ts × (x ≡ unanimous sqrt t.samples))

  later :
      {x : F} (best : F) (t : Tier F) (ts : List (Tier F))
      → (x ≡ best) ⊎ OfTier x ts
      → (x ≡ best) ⊎ OfTier x (t ∷ ts)
  later best t ts (inl e) = inl e
  later best t ts (inr (u, (k, e))) = inr (u, (Memᴰ.tail k, e))

  here :
      {x : F} (t : Tier F) (ts : List (Tier F))
      → (x ≡ unanimous sqrt t.samples) ⊎ OfTier x ts
      → OfTier x (t ∷ ts)
  here t ts (inl e) = (t, (Memᴰ.head refl, e))
  here t ts (inr (u, (k, e))) = (u, (Memᴰ.tail k, e))

  -- The greatest score is the one that it started with, or some tier's.
  max_attainable-of :
      (best : F) (ts : List (Tier F))
      → (max_attainable sqrt best ts ≡ best) ⊎ OfTier (max_attainable sqrt best ts) ts
  unfolding max_attainable
  max_attainable-of best [] = inl refl
  max_attainable-of best (t ∷ ts) =
      let s = unanimous sqrt t.samples in
      elim (Bool-cases (lt best s)) [
        | inr e ↦ rw e (later best t ts (max_attainable-of best ts))
        | inl e ↦ rw e (inr (here t ts (max_attainable-of s ts)))
      ]

  refused : (e : String) → reject_if true e ≡ ok tt → ⊥
  refused e h = absurd cc

  reached :
      (c : Config F)
      → le c.cache_admit_at (lit 0 0) ≡ false
      → le c.cache_admit_at (max_attainable sqrt (lit 0 0) c.tiers) ≡ true
      → (max_attainable sqrt (lit 0 0) c.tiers ≡ lit 0 0)
        ⊎ OfTier (max_attainable sqrt (lit 0 0) c.tiers) c.tiers
      → (t : Tier F) × (Memᴰ t c.tiers × (le c.cache_admit_at (unanimous sqrt t.samples) ≡ true))
  reached c g h (inl e) = let no : le c.cache_admit_at (lit 0 0) ≡ true = rw e at h in absurd cc
  reached c g h (inr (t, (k, e))) = (t, (k, rw e at h))

  check_admission-IsReachable :
      (c : Config F) → check_admission_reachable sqrt sprintf c ≡ ok tt → IsReachable c
  unfolding check_admission_reachable
  check_admission-IsReachable c e = elim (Bool-cases c.cache_disabled) [
    | inl f ↦ inl f
    | inr f ↦ elim (Bool-cases (le c.cache_admit_at (lit 0 0))) [
      | inl g ↦ inr (inl g)
      | inr g ↦ elim (Bool-cases (le c.cache_admit_at (max_attainable sqrt (lit 0 0) c.tiers))) [
        | inl h ↦ inr (inr (reached c g h (max_attainable-of (lit 0 0) c.tiers)))
        | inr h ↦ absurd (refused _ (rw (f, g, h) at e))
      ]
    ]
  ]

  -- What Validate accepts is consistent: there are tiers, none with an input price below that of
  -- the one before, and each with a candidate to draw; `alpha` and `budget_usd` are not both
  -- above 0 and not both at most 0; `alpha` is neither below 0 nor at least 1; no planner is the
  -- tests' author, and no tier has one beside the cascade's; and if the cache is on and asks for
  -- a score that is not at most 0, some tier comes to it when its candidates are unanimous.
  -- (These are the comparisons of floats that the code makes, which a NaN passes.)
  pub validate-IsConsistent : (c : Config F) → validate sqrt sprintf c ≡ ok tt → IsConsistent c
  unfolding validate
  validate-IsConsistent c e =
      let (e1, r1) = passed (is_empty c.tiers) _ _ e in
      let (e2, r2) = passed (lt (lit 0 0) c.alpha && lt (lit 0 0) c.budget_usd) _ _ r1 in
      let (e3, r3) = passed (le c.alpha (lit 0 0) && le c.budget_usd (lit 0 0)) _ _ r2 in
      let (e4, r4) = passed (lt c.alpha (lit 0 0) || le (lit 1 0) c.alpha) _ _ r3 in
      let (e5, r5) = then_check-ok (check_order sqrt sprintf c.tiers) _ r4 in
      let (e6, r6) =
        passed (is_set c.planner_model && str_eq c.planner_model c.test_model) _ _ r5 in
      let (e7, e8) = then_check-ok (check_tiers sqrt sprintf c 0 c.tiers) _ r6 in
      record {
        tiered = e1;
        one_target = at_most_one _ _ e2;
        a_target = at_most_one _ _ e3;
        risk = neither (lt c.alpha (lit 0 0)) (le (lit 1 0) c.alpha) e4;
        ordered = check_order-IsOrderedTiers c.tiers e5;
        other_planner = IsOther-of c.planner_model c.test_model e6;
        fit = check_tiers-IsFit c 0 c.tiers e7;
        reachable = check_admission-IsReachable c e8;
      }
