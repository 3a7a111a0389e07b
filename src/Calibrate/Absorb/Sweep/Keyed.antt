-- ===== src/Calibrate/Absorb/Sweep/Keyed.antt =====
-- The combinations of a sweep and the rows that its loops collect for them
-- (internal/calibrate/absorb.go).
use go_cascade.Base.{
  >>=-ok, Result, ok, ◌>>=◌, All, All-append, String, ◌≡◌, refl, ap, ◌∙◌, List, [], ◌∷◌, ◌++◌, map,
}
use go_cascade.Calibrate.Absorb.Sweep.{AbsorptionSweep, AbsorptionOptions, collect}

module _ {ℓ κ} {A : Type ℓ} {B : Type κ} where
  abbrev pub cross : (A → List B) → List A → List B
  cross g [] = []
  cross g (x ∷ xs) = g x ++ cross g xs

map-append {ℓ κ} :
    {A : Type ℓ} {B : Type κ} (f : A → B) (xs ys : List A) → map f (xs ++ ys) ≡ map f xs ++ map f ys
map-append f [] ys = refl
map-append f (x ∷ xs) ys = ap (◌∷◌ (f x)) (map-append f xs ys)

module _ {ℓ} {F : Type ℓ} where
  -- The pattern, the absorption rate and the shadow rate of a row.
  abbrev pub key : AbsorptionSweep F → String × F × F
  key row = (row.pattern_, row.rho, row.epsilon)

  -- The combinations, patterns outermost.
  abbrev pub combinations : AbsorptionOptions F → List (String × F × F)
  combinations opts =
      cross (λ pat. cross (λ rho. cross (λ eps. (pat, rho, eps) ∷ []) opts.epsilons) opts.rhos)
        opts.patterns

module _ {κ} {F : Type κ} (P : AbsorptionSweep F → Type κ) where
  -- Rows with some keys, each of which is as `P` says.
  abbrev pub Keyed : List (String × F × F) → List (AbsorptionSweep F) → Type κ
  Keyed ks rows = (map key rows ≡ ks) × All P rows

module _ {ℓ κ} {A : Type ℓ} {F : Type κ} (P : AbsorptionSweep F → Type κ) where
  pub collect-Keyed :
      (f : A → Result (List (AbsorptionSweep F))) (g : A → List (String × F × F))
      → ((x : A) (rows : List (AbsorptionSweep F)) → f x ≡ ok rows → Keyed P (g x) rows)
      → (xs : List A) (rows : List (AbsorptionSweep F)) → collect f xs ≡ ok rows
      → Keyed P (cross g xs) rows
  unfolding collect
  collect-Keyed f g step [] rows h = let e : rows ≡ [] = cc in rw e (refl, tt)
  collect-Keyed f g step (x ∷ xs) rows h =
      let (ys, p) = >>=-ok (f x) (λ ys. collect f xs >>= (λ zs. ok (ys ++ zs))) h in
      let (zs, q) = >>=-ok (collect f xs) (λ zs. ok (ys ++ zs)) p.1 in
      let here = step x ys p.0 in
      let there = collect-Keyed f g step xs zs q.0 in
      let whole : rows ≡ ys ++ zs = cc (q.1) in
      rw whole (
        map-append key ys zs ∙ ap (λ k. k ++ map key zs) here.0 ∙ ap (λ k. g x ++ k) there.0,
        All-append P ys zs here.1 there.1,
      )
