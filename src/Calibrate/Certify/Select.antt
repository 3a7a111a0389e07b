-- ===== src/Calibrate/Certify/Select.antt =====
-- What the two selections choose among the evaluated threshold vectors.
use mathlib.Core.List.{foldl, Memᴰ}
use go_cascade.Base.{
  Bool-cases, All, insert_sorted, sort_stable, ◌≡◌, refl, sym, ap, subst, ◌⊎◌, inl, inr, Bool, true,
  false, Option, none, some, List, [], ◌∷◌, ◌++◌,
}
use go_cascade.Float.{Float, IsOrdered}
use go_cascade.Calibrate.Certify.{Cand, cheaper, fixed_sequence}

module _ {ℓ κ} {A : Type ℓ} (P : A → Type κ) where
  pub All-Memᴰ : (xs : List A) (a : A) → All P xs → Memᴰ a xs → P a
  All-Memᴰ [] a _ k = elim k [ ]
  All-Memᴰ (x ∷ xs) a (p, ps) (Memᴰ.head e) = subst P (sym e) p
  All-Memᴰ (x ∷ xs) a (p, ps) (Memᴰ.tail m) = All-Memᴰ xs a ps m

  pub All-prefix : (xs ys : List A) → All P (xs ++ ys) → All P xs
  All-prefix [] ys h = tt
  All-prefix (x ∷ xs) ys (p, ps) = (p, All-prefix xs ys ps)

  module _ (less : A → A → Bool) where
    All-insert_sorted : (x : A) (ys : List A) → P x → All P ys → All P (insert_sorted less x ys)
    unfolding insert_sorted
    All-insert_sorted x [] p ps = (p, tt)
    All-insert_sorted x (y ∷ ys) p (q, qs) =
        let ih = All-insert_sorted x ys p qs in
        elim (Bool-cases (less y x)) [ inl e ↦ rw e (q, ih) | inr e ↦ rw e (p, (q, qs)) ]

    pub All-sort_stable : (xs : List A) → All P xs → All P (sort_stable less xs)
    unfolding sort_stable
    All-sort_stable [] h = tt
    All-sort_stable (x ∷ xs) (p, ps) =
        All-insert_sorted x (sort_stable less xs) p (All-sort_stable xs ps)

module _ {ℓ} {F : Type ℓ} ⦃fl : Float F⦄ where
  -- The candidate is one of the list, and none of the list costs less.
  abbrev pub IsCheapest : Cand F → List (Cand F) → Type ℓ
  IsCheapest b cs = Memᴰ b cs × All (λ c. fl.lt c.cost b.cost ≡ false) cs

  abbrev cheapest_from : Option (Cand F) → List (Cand F) → Option (Cand F)
  cheapest_from best cs = foldl cheaper best cs

  -- The accumulated best is the one before, or one of the list that beats it.
  abbrev Comes : Cand F → Cand F → List (Cand F) → Type ℓ
  Comes b r cs = (r ≡ b) ⊎ (Memᴰ r cs × (fl.lt r.cost b.cost ≡ true))

  module _ (laws : IsOrdered F) where
    beats : (c b r : F) → fl.lt c b ≡ false → (r ≡ b) ⊎ (fl.lt r b ≡ true) → fl.lt c r ≡ false
    beats c b r h (inl e) = rw e h
    beats c b r h (inr l) = elim (Bool-cases (fl.lt c r)) [
      | inl k ↦ let t = laws.lt_trans c r b k l in cc
      | inr k ↦ k
    ]

    costs :
        (b r : Cand F) (cs : List (Cand F))
        → Comes b r cs
        → (r.cost ≡ b.cost) ⊎ (fl.lt r.cost b.cost ≡ true)
    costs b r cs (inl e) = inl (ap (λ (x : Cand F). x.cost) e)
    costs b r cs (inr (m, k)) = inr k

    Comes-replaced :
        (b c r : Cand F) (cs : List (Cand F))
        → fl.lt c.cost b.cost ≡ true
        → Comes c r cs
        → Comes b r (c ∷ cs)
    Comes-replaced b c r cs l (inl e) = inr (Memᴰ.head e, rw e l)
    Comes-replaced b c r cs l (inr (m, k)) =
        inr (Memᴰ.tail m, laws.lt_trans r.cost c.cost b.cost k l)

    Comes-kept : (b c r : Cand F) (cs : List (Cand F)) → Comes b r cs → Comes b r (c ∷ cs)
    Comes-kept b c r cs (inl e) = inl e
    Comes-kept b c r cs (inr (m, k)) = inr (Memᴰ.tail m, k)

    improves :
        (b : Cand F) (cs : List (Cand F))
        → (r : Cand F) × (cheapest_from (some b) cs ≡ some r)
          × Comes b r cs
          × All (λ c. fl.lt c.cost r.cost ≡ false) cs
    improves b [] = (b, refl, inl refl, tt)
    improves b (c ∷ cs) = elim (Bool-cases (fl.lt c.cost b.cost)) [
      | inl l ↦
          let (r, e, from, least) = improves c cs in
          (
            r,
            rw l e,
            Comes-replaced b c r cs l from,
            (beats c.cost c.cost r.cost (laws.lt_irrefl c.cost) (costs c r cs from), least),
          )
      | inr l ↦
          let (r, e, from, least) = improves b cs in
          (
            r,
            rw l e,
            Comes-kept b c r cs from,
            (beats c.cost b.cost r.cost l (costs b r cs from), least),
          )
    ]

    cheapest_mem : (c r : Cand F) (cs : List (Cand F)) → Comes c r cs → Memᴰ r (c ∷ cs)
    cheapest_mem c r cs (inl e) = Memᴰ.head e
    cheapest_mem c r cs (inr (m, k)) = Memᴰ.tail m

    -- The accumulation over a list that is not empty ends with a cheapest candidate of it.
    pub cheapest :
        (c : Cand F) (cs : List (Cand F))
        → (r : Cand F) × (cheapest_from none (c ∷ cs) ≡ some r) × IsCheapest r (c ∷ cs)
    cheapest c cs =
        let (r, e, from, least) = improves c cs in
        (
          r,
          e,
          (
            cheapest_mem c r cs from,
            (beats c.cost c.cost r.cost (laws.lt_irrefl c.cost) (costs c r cs from), least),
          ),
        )

  -- The walk of the fixed sequence: what stands before the first failure to reject, and the rest.
  pub record Walk (delta : F) (cs pre post : List (Cand F)) : Type ℓ where
    pub split : cs ≡ pre ++ post
    pub rejected : All (λ (c : Cand F). fl.lt delta c.p ≡ false) pre
    pub stopped :
        (post ≡ [])
        ⊎ ((c : Cand F) × (rest : List (Cand F)) × (post ≡ c ∷ rest) × (fl.lt delta c.p ≡ true))

  pub fixed_sequence-Walk :
      (delta : F) (cs : List (Cand F)) (best : Option (Cand F))
      → (pre post : List (Cand F)) × Walk delta cs pre post
        × (fixed_sequence delta cs best ≡ cheapest_from best pre)
  unfolding fixed_sequence
  fixed_sequence-Walk delta [] best =
      ([], [], record { split = refl; rejected = tt; stopped = inl refl }, refl)
  fixed_sequence-Walk delta (c ∷ cs) best =
      let (pre, post, w, e) = fixed_sequence-Walk delta cs (cheaper best c) in
      elim (Bool-cases (fl.lt delta c.p)) [
        | inl l ↦ (
          [],
          c ∷ cs,
          record { split = refl; rejected = tt; stopped = inr (c, cs, refl, l) },
          rw l,
        )
        | inr l ↦ (
          c ∷ pre,
          post,
          record { split = ap (◌∷◌ c) w.split; rejected = (l, w.rejected); stopped = w.stopped },
          rw l e,
        )
      ]
