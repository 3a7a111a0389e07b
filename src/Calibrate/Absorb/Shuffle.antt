-- ===== src/Calibrate/Absorb/Shuffle.antt =====
-- The seeded shuffle of internal/calibrate/absorb.go permutes, and so do the absorbed records and
-- the residual stream together.
use mathlib.Core.List.{Perm, Permᴰ, perm-cons, append_assoc}
use native.Mathlib.Nat.{ℕ_set}
use mathlib.Core.List.Perm
use mathlib.Core.Logic.{∥∥₁_elim, ∥∥₁_prop}
use go_cascade.Base.{
  >>=-ok, Result, ok, err, fault, length, get_elem?, length-append, ℕ, zero, suc, ◌%◌, ◌≡◌, refl,
  ap, ◌∙◌, Option, none, some, List, [], ◌∷◌, ◌++◌, arith,
}
use go_cascade.Calibrate.Absorb.{
  set, swapped_with, swapped, put_first, pick, splitmix, shuffle, indices_from, permutation,
}

module _ {ℓ} {A : Type ℓ} where
  -- A write moves the old item out and the new one in.
  set-perm :
      (xs : List A) (i : ℕ) (a b : A) → get_elem? xs i ≡ some a → Perm (a ∷ set xs i b) (b ∷ xs)
  set-perm [] i a b h = absurd cc
  set-perm (x ∷ xs) zero a b h = let e : x ≡ a = cc in rw e (Perm.swap b a xs)
  set-perm (x ∷ xs) (suc i) a b h =
      Perm.trans (Perm.swap x a (set xs i b))
        (Perm.trans (Perm.cons x (set-perm xs i a b h)) (Perm.swap b x xs))

  -- What stands at `j` once `b`, which stood there, has been written at `i`.
  get_elem?-set :
      (xs : List A) (i j : ℕ) (b : A) → get_elem? xs j ≡ some b → get_elem? (set xs i b) j ≡ some b
  get_elem?-set [] i j b h = h
  get_elem?-set (x ∷ xs) zero zero b h = refl
  get_elem?-set (x ∷ xs) zero (suc j) b h = h
  get_elem?-set (x ∷ xs) (suc i) zero b h = h
  get_elem?-set (x ∷ xs) (suc i) (suc j) b h = get_elem?-set xs i j b h

  swapped_with-ok :
      (xs : List A) (i j : ℕ) (x y : Option A) (ys : List A)
      → swapped_with xs i j x y ≡ ok ys
      → (a b : A) × ((x ≡ some a) × ((y ≡ some b) × (ys ≡ set (set xs i b) j a)))
  swapped_with-ok xs i j none y ys h = absurd cc
  swapped_with-ok xs i j (some a) none ys h = absurd cc
  swapped_with-ok xs i j (some a) (some b) ys h = (a, b, (refl, (refl, cc)))

  swapped-perm : (xs : List A) (i j : ℕ) (ys : List A) → swapped xs i j ≡ ok ys → Perm ys xs
  unfolding swapped
  swapped-perm xs i j ys h =
      let (a, b, p) = swapped_with-ok xs i j (get_elem? xs i) (get_elem? xs j) ys h in
      rw p.1.1 (
        (perm-cons b).0 (
          Perm.trans (set-perm (set xs i b) j b a (get_elem?-set xs i j b p.1.0))
            (set-perm xs i a b p.0)))

shuffle-perm : (i s : ℕ) (idx out : List ℕ) → shuffle i s idx ≡ ok out → Perm out idx
unfolding shuffle
shuffle-perm zero s idx out h = let e : out ≡ idx = cc in rw e (Perm.refl idx)
shuffle-perm (suc i) s idx out h =
    let (next, p) =
      >>=-ok (swapped idx (suc i) ((splitmix s).1 % suc (suc i)))
        (λ next. shuffle i (splitmix s).0 next) h in
    Perm.trans (shuffle-perm i (splitmix s).0 next out p.1)
      (swapped-perm idx (suc i) ((splitmix s).1 % suc (suc i)) next p.0)

-- The seeded permutation permutes the numbers below `n`.
pub permutation-perm :
    (n seed : ℕ) (idx : List ℕ) → permutation n seed ≡ ok idx → Perm idx (indices_from 0 n)
unfolding permutation
permutation-perm n seed idx h = shuffle-perm _ _ (indices_from 0 n) idx h

-- Picking at permuted indices: the picked items are those of the other order, permuted.
module _ {ℓ} {A : Type ℓ} where
  abbrev Picks : List A → List ℕ → List A → Type ℓ
  Picks xs is out = ∥ ((ys : List A) × (pick xs is ≡ ok ys) × Perm ys out) ∥₁

  put_first-ok :
      (x : Option A) (r : Result (List A)) (out : List A)
      → put_first x r ≡ ok out
      → (a : A) × ((ys : List A) × ((x ≡ some a) × ((r ≡ ok ys) × (out ≡ a ∷ ys))))
  put_first-ok none r out h = absurd cc
  put_first-ok (some a) (ok ys) out h = (a, (ys, (refl, (refl, cc))))
  put_first-ok (some a) (err e) out h = absurd cc
  put_first-ok (some a) fault out h = absurd cc

  pick-cons :
      (xs : List A) (i : ℕ) (is : List ℕ) (a : A) (ys : List A)
      → get_elem? xs i ≡ some a
      → pick xs is ≡ ok ys
      → pick xs (i ∷ is) ≡ ok (a ∷ ys)
  unfolding pick
  pick-cons xs i is a ys e f = rw (e, f) refl

  pick-Picks :
      {is js : List ℕ} (xs : List A) (out : List A)
      → Permᴰ is js
      → pick xs js ≡ ok out
      → Picks xs is out
  unfolding pick
  pick-Picks xs out Permᴰ.nil h = ∣ (out, h, Perm.refl out) ∣₁
  pick-Picks xs out (Permᴰ.cons {a = i} {b = j} {l₁ = is} {l₂ = js} e p) h =
      let (a, (ys, q)) = put_first-ok (get_elem? xs j) (pick xs js) out h in
      ∥∥₁_elim (pick-Picks xs ys p q.1.0) ∥∥₁_prop
        (λ t. ∣ (a ∷ t.0, pick-cons xs i is a t.0 (rw e q.0) t.1, rw q.1.1 (Perm.cons a t.2)) ∣₁)
  pick-Picks xs out (Permᴰ.swap {a = i} {b = j} {a' = i'} {b' = j'} {l = is} e f) h =
      let (a, (ys, q)) = put_first-ok (get_elem? xs i') (pick xs (j' ∷ is)) out h in
      let (b, (zs, r)) = put_first-ok (get_elem? xs j') (pick xs is) ys q.1.0 in
      ∣ (
        b ∷ a ∷ zs,
        pick-cons xs i (j ∷ is) b (a ∷ zs) (rw e r.0) (pick-cons xs j is a zs (rw f q.0) r.1.0),
        rw (q.1.1, r.1.1) (Perm.swap a b zs),
      ) ∣₁
  pick-Picks xs out (Permᴰ.trans {l₁ = is} {l₂ = ms} {l₃ = js} p q) h =
      ∥∥₁_elim (pick-Picks xs out q h) ∥∥₁_prop (λ t.
        ∥∥₁_elim (pick-Picks xs t.0 p t.1) ∥∥₁_prop (λ u. ∣ (u.0, u.1, Perm.trans u.2 t.2) ∣₁))

  get_elem?-append :
      (zs : List A) (x : A) (xs : List A) → get_elem? (zs ++ (x ∷ xs)) (length zs) ≡ some x
  get_elem?-append [] x xs = refl
  get_elem?-append (z ∷ zs) x xs = get_elem?-append zs x xs

  -- All items, at all indices.
  pick_all : (zs xs : List A) → pick (zs ++ xs) (indices_from (length zs) (length xs)) ≡ ok xs
  unfolding pick
  pick_all zs [] = refl
  pick_all zs (x ∷ xs) =
      let more : length (zs ++ (x ∷ [])) ≡ suc (length zs) =
        omega (arith, length-append zs (x ∷ [])) in
      let rest = pick_all (zs ++ (x ∷ [])) xs in
      pick-cons (zs ++ (x ∷ xs)) (length zs) _ x xs (get_elem?-append zs x xs)
        (rw (more, append_assoc zs (x ∷ []) xs) at rest)

  -- What is picked at a permutation of all indices is a permutation of all items.
  pub pick-permutation :
      (seed : ℕ) (xs : List A) (idx : List ℕ)
      → permutation (length xs) seed ≡ ok idx
      → Picks xs idx xs
  pick-permutation seed xs idx h =
      ∥∥₁_elim (permutation-perm (length xs) seed idx h) ∥∥₁_prop
        (λ p. pick-Picks xs xs p (pick_all [] xs))

  -- Picking at two runs of indices.
  pub pick-append :
      (xs : List A) (is js : List ℕ) (out : List A)
      → pick xs (is ++ js) ≡ ok out
      → (ys zs : List A) × ((pick xs is ≡ ok ys) × ((pick xs js ≡ ok zs) × (out ≡ ys ++ zs)))
  unfolding pick
  pick-append xs [] js out h = ([], out, (refl, (h, refl)))
  pick-append xs (i ∷ is) js out h =
      let (a, (rest, q)) = put_first-ok (get_elem? xs i) (pick xs (is ++ js)) out h in
      let (ys, zs, r) = pick-append xs is js rest q.1.0 in
      (a ∷ ys, zs, (pick-cons xs i is a ys q.0 r.0, (r.1.0, rw (q.1.1, r.1.1) refl)))

  pub length-pick :
      (xs : List A) (is : List ℕ) (out : List A) → pick xs is ≡ ok out → length out ≡ length is
  unfolding pick
  length-pick xs [] out h = let e : out ≡ [] = cc in rw e refl
  length-pick xs (i ∷ is) out h =
      let (a, (rest, q)) = put_first-ok (get_elem? xs i) (pick xs is) out h in
      rw q.1.1 (omega (arith, length-pick xs is rest q.1.0))

  length-Permᴰ : {xs ys : List A} → Permᴰ xs ys → length xs ≡ length ys
  length-Permᴰ Permᴰ.nil = refl
  length-Permᴰ (Permᴰ.cons e p) = ap suc (length-Permᴰ p)
  length-Permᴰ (Permᴰ.swap e f) = refl
  length-Permᴰ (Permᴰ.trans p q) = length-Permᴰ p ∙ length-Permᴰ q

  pub length-perm : {xs ys : List A} → Perm xs ys → length xs ≡ length ys
  length-perm p = ∥∥₁_elim p (ℕ_set _ _) length-Permᴰ
