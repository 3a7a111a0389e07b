-- ===== src/Cache/Kept.antt =====
-- What package cache gives back of what it was given (internal/cache/cache.go).
use go_cascade.Base.{
  lt→ltb, ltb, str_eq, if◌then◌else◌, Bool-cases, if_ind, length, take, All, length-take,
  insert_sorted, sort_stable, ℕ, zero, suc, ◌≤◌, ◌<◌, String, ◌≡◌, refl, sym, ap, ◌∙◌, ◌⊎◌, ◌≢◌,
  inl, inr, Bool, true, false, ◌&&◌, some, List, [], ◌∷◌, arith, eq_iff,
}
use go_cascade.Float.{Float}
use go_cascade.Cache.Entries.{
  by_name, Entry, Hit, Directory, read_file, write_file, candidates_for, better, retrieve,
}

-- A text that equals one of two equal texts equals the other.
str_eq_swap : (k name other : String) → str_eq k name ≡ true → str_eq k other ≡ str_eq name other
str_eq_swap k name other e = ap (λ x. str_eq x other) ((eq_iff k name).0 e)

apart :
    (k name other : String)
    → str_eq k name ≡ false
    → str_eq k other ≡ true
    → str_eq name other ≡ true
    → ⊥
apart k name other e f g =
    let same : k ≡ name = (eq_iff k other).0 f ∙ sym ((eq_iff name other).0 g) in
    let equal : str_eq k name ≡ true = (eq_iff k name).1 same in cc

module _ {ℓ} {A : Type ℓ} where
  -- A file reads back as it was last written; the others are as they were.
  pub read_file-write_file :
      (name other : String) (v : A) (files : Directory A)
      → read_file other (write_file name v files)
        ≡ (if str_eq name other then some v else read_file other files)
  unfolding read_file write_file
  read_file-write_file name other v [] = refl
  read_file-write_file name other v ((k, w) ∷ files) = elim (Bool-cases (str_eq k name)) [
    | inl e ↦ elim (Bool-cases (str_eq name other)) [
      | inl f ↦ rw (e, f) refl
      | inr f ↦ rw (e, f, str_eq_swap k name other e ∙ f) refl
    ]
    | inr e ↦ rw e (elim (Bool-cases (str_eq k other)) [
      | inl f ↦ rw f (elim (Bool-cases (str_eq name other)) [
        | inl g ↦ absurd (apart k name other e f g)
        | inr g ↦ rw g refl
      ])
      | inr f ↦ rw f (read_file-write_file name other v files)
    ])
  ]

module _ {ℓ κ} {A : Type ℓ} (P : A → Type κ) where
  All-take : (k : ℕ) (xs : List A) → All P xs → All P (take k xs)
  All-take zero xs ps = tt
  All-take (suc k) [] ps = tt
  All-take (suc k) (x ∷ xs) (p, ps) = (p, All-take k xs ps)

  All-insert_sorted :
      (less : A → A → Bool) (x : A) (xs : List A) → P x → All P xs → All P (insert_sorted less x xs)
  unfolding insert_sorted
  All-insert_sorted less x [] p ps = (p, tt)
  All-insert_sorted less x (y ∷ ys) p (q, qs) =
      if_ind {A = List A} (All P) (less y x) (λ _. (q, All-insert_sorted less x ys p qs))
        (λ _. (p, (q, qs)))

  All-sort_stable : (less : A → A → Bool) (xs : List A) → All P xs → All P (sort_stable less xs)
  unfolding sort_stable
  All-sort_stable less [] ps = tt
  All-sort_stable less (x ∷ xs) (p, ps) =
      All-insert_sorted less x (sort_stable less xs) p (All-sort_stable less xs ps)

module _ {ℓ} {A : Type ℓ} where
  at_most :
      (k : ℕ) (xs : List A)
      → 0 < k
      → length (if ltb 0 k && ltb k (length xs) then take k xs else xs) ≤ k
  at_most k xs h = elim (Bool-cases (ltb k (length xs))) [
    | inl e ↦ rw (lt→ltb 0 k h, e) (omega (arith, length-take k xs))
    | inr e ↦ rw (lt→ltb 0 k h, e) (ground arith)
  ]

module _ {ℓ κ} {F : Type ℓ} ⦃fl : Float F⦄ (P : Entry F → Type κ) (similarity : String → String → F)
    (problem target : String) (min_sim : F) where
  -- What `Retrieve` promises of a hit: its entry has what the files have, and either it is of the
  -- same problem and as like as can be, or it is of another one, as like as the two problems are, and
  -- not below the floor.
  abbrev pub IsEligible : Hit F → Type (ℓ ⊔ κ)
  IsEligible h =
      P h.entry
      × (((h.entry.problem_hash ≡ target) × (h.likeness ≡ fl.lit 1 0))
          ⊎ ((h.entry.problem_hash ≢ target)
              × (h.likeness ≡ similarity problem h.entry.problem)
              × (fl.lt h.likeness min_sim ≡ false)))

  candidates_for-IsEligible :
      (files : Directory (Entry F))
      → All (λ x. P x.1) files
      → All IsEligible (candidates_for similarity problem target min_sim files)
  unfolding candidates_for
  candidates_for-IsEligible [] ps = tt
  candidates_for-IsEligible ((k, e) ∷ files) (p, ps) =
      let rest = candidates_for-IsEligible files ps in
      elim (Bool-cases (str_eq e.problem_hash target)) [
        | inl same ↦ rw same ((p, inl ((eq_iff e.problem_hash target).0 same, refl)), rest)
        | inr other ↦ elim (Bool-cases (fl.lt (similarity problem e.problem) min_sim)) [
          | inl low ↦ rw (other, low) rest
          | inr high ↦
              let differs : e.problem_hash ≢ target =
                λ q. let yes = (eq_iff e.problem_hash target).1 q in cc in
              rw (other, high) ((p, inr (differs, refl, high)), rest)
        ]
      ]

  -- `Retrieve` gives only entries of its directory, in the sense that they have every property that
  -- all of its files have; a hit of the same problem has the likeness 1, and a hit of another one has
  -- the likeness of the two problems, which is not below the floor; they are at most `k`, if `k` is
  -- not 0; and a disabled cache gives none.
  pub retrieve-IsEligible :
      (disabled : Bool) (k : ℕ) (files : Directory (Entry F))
      → All (λ x. P x.1) files
      → All IsEligible (retrieve similarity disabled problem target k min_sim files)
        × (0 < k → length (retrieve similarity disabled problem target k min_sim files) ≤ k)
        × (disabled ≡ true → retrieve similarity disabled problem target k min_sim files ≡ [])
  unfolding retrieve
  retrieve-IsEligible true k files ps = (tt, λ h. omega arith, λ _. refl)
  retrieve-IsEligible false k files ps =
      let found = sort_stable (better similarity) (
        candidates_for similarity problem target min_sim
          (sort_stable (by_name similarity) files)) in
      let eligible = All-sort_stable IsEligible (better similarity) _ (
        candidates_for-IsEligible _ (All-sort_stable (λ x. P x.1) (by_name similarity) files ps)) in
      (
        if_ind {A = List (Hit F)} (All IsEligible) (ltb 0 k && ltb k (length found))
            (λ _. All-take IsEligible k found eligible) (λ _. eligible),
        λ h. at_most k found h,
        λ h. absurd cc,
      )
