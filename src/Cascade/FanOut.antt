-- ===== src/Cascade/FanOut.antt =====
-- The candidates of one fan-out: `sampleTierN` (internal/cascade/cascade.go).
use go_cascade.Base.{
  Option-cases, if_ind, Result, ok, err, fault, ◌>>=◌, Sum-cases, well, badly, panicked,
  Result-Came, ℕ, zero, suc, String, ◌≡◌, refl, ap, subst, inl, inr, List, [], ◌∷◌, ◌++◌,
}
use go_cascade.Float.{Float}
use go_cascade.Cluster.{Candidate}
use go_cascade.Cascade.State.{Tier, Config, Spec, Work, Services, two_stage}
use go_cascade.Cascade.Sampling.{
  verify_one, verify_source, code_text, sample_one, fan_out, remembered, sample_tier_n,
}

-- The numbers from `i` on, `n` of them.
abbrev pub numbers_from : ℕ → ℕ → List ℕ
numbers_from i zero = []
numbers_from i (suc n) = i ∷ numbers_from (suc i) n

abbrev pub indices : List Candidate → List ℕ
indices [] = []
indices (c ∷ cs) = c.index ∷ indices cs

-- A candidate of index `i`, if there is one.
abbrev Numbered : ℕ → Result Candidate → Type 0
Numbered i (ok c) = c.index ≡ i
Numbered i (err e) = Unit
Numbered i fault = Unit

abbrev AllNumbered : List ℕ → Result (List Candidate) → Type 0
AllNumbered is (ok cs) = indices cs ≡ is
AllNumbered is (err e) = Unit
AllNumbered is fault = Unit

module _ {ℓ} {W F : Type ℓ} ⦃fl : Float F⦄ (env : Services W F) (cfg : Config F) where
  verify_source-Numbered :
      (i : ℕ) (source : String) (spec : Spec) (w : Work W F)
      → Numbered i (verify_source env cfg i source spec w).0
  verify_source-Numbered i source spec w =
      elim (Option-cases (verify_one env cfg source spec w.world).0) [
        | inl e ↦ rw (e, verify_source) tt
        | inr (v, e) ↦ rw (e, verify_source) refl
      ]

  sample_one-Numbered :
      (tier : Tier F) (problem : String) (spec : Spec) (avoid : List String) (plan : String)
      (nonce : ℕ) (w : Work W F)
      → Numbered nonce (sample_one env cfg tier problem spec avoid plan nonce w).0
  unfolding sample_one
  sample_one-Numbered tier problem spec avoid plan nonce w =
      let text = code_text env cfg problem spec avoid plan nonce in
      elim (Sum-cases (env.generate tier.model_id text nonce w.world).0) [
        | inl (m, e) ↦ rw (e, sample_one) tt
        | inr (resp, e) ↦
            rw (e, sample_one)
              (elim (Sum-cases (env.extract_code resp.text)) [
                | inl (m, f) ↦ rw f refl
                | inr (source, f) ↦ rw f (verify_source-Numbered nonce source spec _)
              ])
      ]

  cons-AllNumbered :
      (c : Candidate) (i : ℕ) (is : List ℕ) (r : Result (List Candidate))
      → c.index ≡ i
      → AllNumbered is r
      → AllNumbered (i ∷ is) (r >>= (λ cs. ok (c ∷ cs)))
  cons-AllNumbered c i is (ok cs) e h = rw e (ap (◌∷◌ i) h)
  cons-AllNumbered c i is (err m) e h = tt
  cons-AllNumbered c i is fault e h = tt

  fan_out-AllNumbered :
      (n i : ℕ) (tier : Tier F) (problem : String) (spec : Spec) (avoid : List String)
      (plan : String) (w : Work W F)
      → AllNumbered (numbers_from i n) (fan_out env cfg n i tier problem spec avoid plan w).0
  unfolding fan_out
  fan_out-AllNumbered zero i tier problem spec avoid plan w = refl
  fan_out-AllNumbered (suc n) i tier problem spec avoid plan w =
      let s = sample_one env cfg tier problem spec avoid plan i w in
      let numbered = sample_one-Numbered tier problem spec avoid plan i w in
      elim (Result-Came s.0) [
        | well c e ↦
            rw (e, fan_out)
              (cons-AllNumbered c i (numbers_from (suc i) n) _ (subst (Numbered i) e numbered)
                (fan_out-AllNumbered n (suc i) tier problem spec avoid plan s.1))
        | badly m e ↦ rw (e, fan_out) tt
        | panicked e ↦ rw (e, fan_out) tt
      ]

  sample_tier_n-AllNumbered :
      (n seed : ℕ) (tier : Tier F) (problem : String) (spec : Spec) (carried : List String)
      (plan : String) (w : Work W F)
      → AllNumbered
          (numbers_from seed n)
          (sample_tier_n env cfg n seed tier problem spec carried plan w).0
  unfolding sample_tier_n
  sample_tier_n-AllNumbered n seed tier problem spec carried plan w =
      let avoid = carried ++ remembered env cfg w problem in
      if_ind {A = Result (List Candidate) × Work W F} (λ p. AllNumbered (numbers_from seed n) p.0)
        (two_stage tier)
        (λ _.
          elim (Sum-cases
            (env.generate tier.planner_model (env.plan_user problem spec.api) 0 w.world).0) [
              | inl (m, e) ↦ rw e tt
              | inr (resp, e) ↦
                  rw e (fan_out-AllNumbered n seed tier problem spec avoid resp.text _)
            ])
        (λ _. fan_out-AllNumbered n seed tier problem spec avoid plan w)

  -- A fan-out that ends without error has drawn exactly as many candidates as asked for, and their
  -- indices are the numbers from the seed on, in order: no two share an index.
  pub sample_tier_n-indices :
      (n seed : ℕ) (tier : Tier F) (problem : String) (spec : Spec) (carried : List String)
      (plan : String) (w : Work W F) (cands : List Candidate)
      → (sample_tier_n env cfg n seed tier problem spec carried plan w).0 ≡ ok cands
      → indices cands ≡ numbers_from seed n
  sample_tier_n-indices n seed tier problem spec carried plan w cands e =
      subst (AllNumbered (numbers_from seed n)) e
        (sample_tier_n-AllNumbered n seed tier problem spec carried plan w)
