-- ===== src/Calibrate/Replay/Raising.antt =====
-- How the decision and the cost move when thresholds are raised.
use go_cascade.Base.{
  length, get_elem?, All, ℕ, zero, suc, ◌≤◌, ◌<◌, ◌≡◌, ◌≢◌, inl, inr, true, false, some, List, [],
  ◌∷◌, arith,
}
use go_cascade.Float.{Float, IsOrdered}
use go_cascade.Calibrate.Records.{TierObs, Record}
use go_cascade.Calibrate.Replay.{clears, replay}
use go_cascade.Calibrate.Replay.Decision.{AcceptsAt, spent_to, replay_decision}

module _ {ℓ} {F : Type ℓ} ⦃fl : Float F⦄ where
  -- Pointwise, no threshold of the first vector is above that of the second.
  abbrev pub Below : List F → List F → Type 0
  Below tau [] = Unit
  Below [] (y ∷ ys) = ⊥
  Below (x ∷ xs) (y ∷ ys) = (fl.le x y ≡ true) × Below xs ys

  clears-Below :
      (laws : IsOrdered F) (tau tau' : List F) (i : ℕ) (s : F)
      → Below tau tau'
      → clears s (get_elem? tau' i) ≡ true
      → clears s (get_elem? tau i) ≡ true
  clears-Below laws tau [] i s b c = cc
  clears-Below laws [] (y ∷ ys) i s b c = absurd b
  clears-Below laws (x ∷ xs) (y ∷ ys) zero s b c = laws.le_trans x y s b.0 c
  clears-Below laws (x ∷ xs) (y ∷ ys) (suc i) s b c = clears-Below laws xs ys i s b.1 c

  get_elem?-lt :
      (ts : List (TierObs F)) (j : ℕ) (t : TierObs F) → get_elem? ts j ≡ some t → j < length ts
  get_elem?-lt [] j t e = cc
  get_elem?-lt (u ∷ us) zero t e = omega arith
  get_elem?-lt (u ∷ us) (suc j) t e = omega (arith, get_elem?-lt us j t e)

  not_earlier :
      (laws : IsOrdered F) (ts : List (TierObs F)) (tau tau' : List F) (j j' : ℕ) (t t' : TierObs F)
      → Below tau tau'
      → AcceptsAt ts tau j t
      → AcceptsAt ts tau' j' t'
      → ¬ (j' < j)
  not_earlier laws ts tau tau' j j' t t' b a a' l = elim a'.stops [
    | inl last ↦ absurd (omega (arith, get_elem?-lt ts j t a.at))
    | inr c ↦
        let yes_ = clears-Below laws tau tau' j' t'.score b c in
        let no_ = a.earlier j' t' l a'.at in cc
  ]

  AcceptsAt-mono :
      (laws : IsOrdered F) (ts : List (TierObs F)) (tau tau' : List F)
      → Below tau tau'
      → (j j' : ℕ) (t t' : TierObs F) → AcceptsAt ts tau j t
      → AcceptsAt ts tau' j' t'
      → j ≤ j'
  AcceptsAt-mono laws ts tau tau' b j j' t t' a a' =
      omega (arith, not_earlier laws ts tau tau' j j' t t' b a a')

  -- Adding the cost of the tier does not lower a sum, as adding a float that is not negative.
  abbrev pub Adds : TierObs F → Type ℓ
  Adds t = (x : F) → fl.le x x ≡ true → fl.le x (fl.add x t.cost) ≡ true

  module _ (laws : IsOrdered F) where
    spent_to-ge :
        (ts : List (TierObs F)) (cost : F) (j : ℕ)
        → fl.le cost cost ≡ true
        → All Adds ts
        → fl.le cost (spent_to cost j ts) ≡ true
    spent_to-ge [] cost j c g = c
    spent_to-ge (t ∷ ts) cost zero c (g, gs) = g cost c
    spent_to-ge (t ∷ ts) cost (suc j) c (g, gs) =
        let up = g cost c in
        laws.le_trans _ _ _ up
          (spent_to-ge ts (fl.add cost t.cost) j (laws.le_refl_right _ _ up) gs)

    spent_to_mono :
        (ts : List (TierObs F)) (cost : F) (j j' : ℕ)
        → j ≤ j'
        → fl.le cost cost ≡ true
        → All Adds ts
        → fl.le (spent_to cost j ts) (spent_to cost j' ts) ≡ true
    spent_to_mono [] cost j j' l c g = c
    spent_to_mono (t ∷ ts) cost zero zero l c (g, gs) = laws.le_refl_right _ _ (g cost c)
    spent_to_mono (t ∷ ts) cost zero (suc j') l c (g, gs) =
        spent_to-ge ts (fl.add cost t.cost) j' (laws.le_refl_right _ _ (g cost c)) gs
    spent_to_mono (t ∷ ts) cost (suc j) zero l c g = absurd (omega arith)
    spent_to_mono (t ∷ ts) cost (suc j) (suc j') l c (g, gs) =
        spent_to_mono ts (fl.add cost t.cost) j j' (omega arith) (laws.le_refl_right _ _ (g cost c))
          gs

    -- Raising thresholds never makes the replay of a problem cheaper, and never makes it accept at
    -- an earlier tier: if no threshold of `tau` is above that of `tau'`, and adding a tier's cost
    -- never lowers a sum, then `Replay` under `tau` costs at most what it costs under `tau'`.
    pub replay_mono :
        (r : Record F) (tau tau' : List F)
        → r.cache_hit ≡ false
        → r.tiers ≢ []
        → Below tau tau'
        → All Adds r.tiers
        → (fl.le (replay r tau).cost (replay r tau').cost ≡ true)
          × ((j j' : ℕ) (t t' : TierObs F)
              → AcceptsAt r.tiers tau j t
              → AcceptsAt r.tiers tau' j' t'
              → j ≤ j')
    replay_mono r tau tau' miss some_tier b g =
        let (j, t, a, e, _, _) = replay_decision r tau miss some_tier in
        let (j', t', a', e', _, _) = replay_decision r tau' miss some_tier in
        let later = AcceptsAt-mono laws r.tiers tau tau' b in
        let cost =
          spent_to_mono r.tiers (fl.lit 0 0) j j' (later j j' t t' a a') laws.le_refl_zero g in
        (rw (e, e') cost, later)
