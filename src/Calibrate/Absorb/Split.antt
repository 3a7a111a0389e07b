-- ===== src/Calibrate/Absorb/Split.antt =====
-- What the cache absorbs and what the router still sees (`absorb` of internal/calibrate/absorb.go).
use Prim.Native.Nat.{bit_xor}
use native.Mathlib.Nat.{ℕ_set}
use mathlib.Core.List.{Perm}
use mathlib.Core.Logic.{∥∥₁_elim, ∥∥₁_prop}
use go_cascade.Base.{
  str_eq, leb, leb→le, Bool-cases, >>=-ok, Result, ok, err, fault, ◌>>=◌, length, length-take, take,
  drop, take-append-drop, length-append, sort_stable, sort_stable-perm, ℤ, pos, negsuc, Sprintf, ℕ,
  zero, suc, ◌+◌, ◌<◌, String, ◌≡◌, refl, inl, inr, Bool, true, ◌||◌, List, ◌++◌, arith,
}
use go_cascade.Float.{Float}
use go_cascade.Calibrate.Records.{Record}
use go_cascade.Calibrate.Stats.{Math}
use go_cascade.Calibrate.Absorb.{
  slice_from, pick, permutation, drop_count, capped, noted, absorb, uniform, easy_first,
  cheap_accept,
}
use go_cascade.Calibrate.Absorb.Shuffle.{pick-permutation, pick-append, length-pick, length-perm}

module _ {ℓ} {A : Type ℓ} where
  -- The kept items, with `d` others, are the items.
  abbrev pub Splits : ℕ → List A → List A → Type ℓ
  Splits d xs kept = ∥ ((gone : List A) × (length gone ≡ d) × Perm (gone ++ kept) xs) ∥₁

  slice_from-ok :
      (z : ℤ) (xs out : List A)
      → slice_from z xs ≡ ok out
      → (d : ℕ) × ((z ≡ pos d) × ((leb d (length xs) ≡ true) × (out ≡ drop d xs)))
  unfolding slice_from
  slice_from-ok (negsuc k) xs out h = absurd cc
  slice_from-ok (pos d) xs out h = elim (Bool-cases (leb d (length xs))) [
    | inl e ↦ (d, (refl, (e, cc (rw e at h))))
    | inr e ↦ absurd (cc (rw e at h))
  ]

  Splits-drop :
      (d : ℕ) (xs ys : List A) → leb d (length xs) ≡ true → Perm xs ys → Splits d ys (drop d xs)
  Splits-drop d xs ys h p = ∣ (
    take d xs,
    omega (arith, length-take d xs, leb→le d (length xs) h),
    rw (take-append-drop d xs) p,
  ) ∣₁

  -- Over a sorted copy.
  sorted-Splits :
      (less : A → A → Bool) (z : ℤ) (d : ℕ) (xs out : List A)
      → z ≡ pos d
      → slice_from z (sort_stable less xs) ≡ ok out
      → Splits d xs out
  sorted-Splits less z d xs out e h =
      let (d', p) = slice_from-ok z (sort_stable less xs) out h in
      let same : d' ≡ d = cc in
      rw p.1.1 (
        rw same
          (Splits-drop d (sort_stable less xs) xs (rw same at p.1.0) (sort_stable-perm less xs)))

module _ {ℓ} {A : Type ℓ} where
  -- Over a shuffled copy.
  shuffled-Splits :
      (seed : ℕ) (z : ℤ) (d : ℕ) (xs : List A) (idx is : List ℕ) (out : List A)
      → z ≡ pos d
      → permutation (length xs) seed ≡ ok idx
      → slice_from z idx ≡ ok is
      → pick xs is ≡ ok out
      → Splits d xs out
  shuffled-Splits seed z d xs idx is out e f g h =
      let (d', p) = slice_from-ok z idx is g in
      let same : d' ≡ d = cc in
      let kept : is ≡ drop d idx = rw same at p.1.1 in
      ∥∥₁_elim (pick-permutation seed xs idx f) ∥∥₁_prop (λ t.
        let split : pick xs (take d idx ++ drop d idx) ≡ ok t.0 = rw (take-append-drop d idx) t.1 in
        let (ys, zs, q) = pick-append xs (take d idx) (drop d idx) t.0 split in
        let out_ : out ≡ zs = cc (h, kept, q.1.0) in
        ∣ (
          ys,
          omega (
            arith,
            length-pick xs (take d idx) ys q.0,
            length-take d idx,
            leb→le d (length idx) (rw same at p.1.0),
          ),
          rw (out_, ← q.1.1) t.2,
        ) ∣₁)

module _ {ℓ} {F : Type ℓ} ⦃fl : Float F⦄ ⦃m : Math F⦄ (bits : F → ℕ) (seed : ℕ) (tau : List F) where
  capped-lt : (n d : ℕ) (z : ℤ) → 0 < n → capped bits seed tau n z ≡ pos d → d < n
  capped-lt zero d z h e = absurd (omega arith)
  capped-lt (suc n) d (negsuc k) h e = absurd cc
  capped-lt (suc n) d (pos k) h e = ground arith

  noted-ok :
      (note : String) (r : Result (List (Record F))) (out : List (Record F)) (note' : String)
      → noted bits seed tau note r ≡ ok (out, note')
      → r ≡ ok out
  noted-ok note (ok xs) out note' h = cc
  noted-ok note (err e) out note' h = absurd cc
  noted-ok note fault out note' h = absurd cc

  -- Whatever the pattern: a stream that `absorb` gives lacks exactly as many records as the rate
  -- asks for.
  absorb-Splits :
      (sprintf : Sprintf F) (recs : List (Record F)) (pat : String) (rho : F) (d : ℕ)
      (residual : List (Record F)) (note : String)
      → drop_count bits seed tau (length recs) rho ≡ pos d
      → absorb bits seed tau sprintf recs pat rho ≡ ok (residual, note)
      → Splits d recs residual
  unfolding absorb
  absorb-Splits sprintf recs pat rho d residual note e h =
      elim (Bool-cases (fl.lt rho (fl.lit 0 0) || fl.le (fl.lit 1 0) rho)) [
        | inl b ↦ absurd (cc (rw b at h))
        | inr b ↦ elim (Bool-cases (str_eq pat uniform)) [
          | inl u ↦
              let idx = permutation (length recs) (bit_xor seed (bits rho)) in
              let from =
                λ (is : List ℕ). slice_from (drop_count bits seed tau (length recs) rho) is in
              let (is, p) =
                >>=-ok (idx >>= from) (λ is. pick recs is)
                  (noted-ok "" _ residual note (rw (b, u) at h)) in
              let (ix, q) = >>=-ok idx from p.0 in
              shuffled-Splits _ _ d recs ix is residual e q.0 q.1 p.1
          | inr u ↦ elim (Bool-cases (str_eq pat easy_first)) [
            | inl v ↦
                sorted-Splits _ _ d recs residual e
                  (noted-ok "" _ residual note (rw (b, u, v) at h))
            | inr v ↦ elim (Bool-cases (str_eq pat cheap_accept)) [
              | inl w ↦
                  sorted-Splits _ _ d recs residual e
                    (noted-ok _ _ residual note (rw (b, u, v, w) at h))
              | inr w ↦ absurd (cc (rw (b, u, v, w) at h))
            ]
          ]
        ]
      ]

  Splits-length :
      (d : ℕ) (recs residual : List (Record F))
      → Splits d recs residual
      → d + length residual ≡ length recs
  Splits-length d recs residual s =
      ∥∥₁_elim s (ℕ_set _ _) (λ t. omega (arith, length-append t.0 residual, length-perm t.2, t.1))

  -- Whatever the pattern: of a stream that is not empty, the cache absorbs exactly as many records as
  -- the rate, rounded and capped, asks for, and the router still sees all others, at least one; the
  -- absorbed records and the residual stream are together the records that were there, each as often.
  pub absorb-split :
      (sprintf : Sprintf F) (recs : List (Record F)) (pat : String) (rho : F) (d : ℕ)
      (residual : List (Record F)) (note : String)
      → 0 < length recs
      → drop_count bits seed tau (length recs) rho ≡ pos d
      → absorb bits seed tau sprintf recs pat rho ≡ ok (residual, note)
      → (d + length residual ≡ length recs) × (0 < length residual) × Splits d recs residual
  unfolding drop_count
  absorb-split sprintf recs pat rho d residual note h e f =
      let s = absorb-Splits sprintf recs pat rho d residual note e f in
      let n = Splits-length d recs residual s in
      let under = capped-lt (length recs) d _ h e in (n, omega (arith, n, under), s)
