-- ===== src/Cluster/Partition.antt =====
-- Where the candidates go in `Group` (internal/cluster/cluster.go).
use mathlib.Core.List.{Perm, perm_middle, append_assoc, append-nil}
use mathlib.Core.List.Perm
use go_cascade.Base.{
  str_eq, Bool-cases, insert_sorted, sort_stable, ℕ, String, sym, subst, inl, inr, Bool, List, [],
  ◌∷◌, ◌++◌, map,
}
use go_cascade.Float.{Float}
use go_cascade.Cluster.{
  Candidate, Cluster, Class, behaviour, put_class, classes, as_cluster, cluster_lt, group,
}

module _ {ℓ} {A : Type ℓ} where
  -- A member that joins some group of a pool joins the pool.
  join_perm : (x : A) (ids rest : List A) → Perm ((ids ++ (x ∷ [])) ++ rest) (x ∷ (ids ++ rest))
  join_perm x ids rest =
      subst (λ l. Perm l (x ∷ (ids ++ rest))) (sym (append_assoc ids (x ∷ []) rest))
        (perm_middle ids rest)

  -- The first two groups of a pool change places.
  swap_perm : (xs ys zs : List A) → Perm (xs ++ (ys ++ zs)) (ys ++ (xs ++ zs))
  swap_perm [] ys zs = Perm.refl _
  swap_perm (x ∷ xs) ys zs =
      Perm.trans (Perm.cons x (swap_perm xs ys zs)) (Perm.symm (perm_middle ys (xs ++ zs)))

  append_perm : (xs : List A) {ys zs : List A} → Perm ys zs → Perm (xs ++ ys) (xs ++ zs)
  append_perm [] p = p
  append_perm (x ∷ xs) p = Perm.cons x (append_perm xs p)

all_ids : List Class → List ℕ
all_ids [] = []
all_ids (k ∷ ks) = k.ids ++ all_ids ks

put_class-perm :
    (digest : String → String) (c : Candidate) (ks : List Class)
    → Perm (all_ids (put_class digest c ks)) (c.index ∷ all_ids ks)
unfolding put_class all_ids
put_class-perm digest c [] = Perm.refl _
put_class-perm digest c (k ∷ ks) = elim (Bool-cases (str_eq k.class_key (behaviour digest c))) [
  | inl e ↦ rw e (join_perm c.index k.ids (all_ids ks))
  | inr e ↦
      rw e (
        Perm.trans (append_perm k.ids (put_class-perm digest c ks))
          (perm_middle k.ids (all_ids ks)))
]

-- The candidates' indices, the last first.
classes-perm :
    (digest : String → String) (cs : List Candidate) (ks : List Class)
    → Perm (all_ids (classes digest cs ks)) (map (λ d. d.index) cs ++ all_ids ks)
unfolding classes
classes-perm digest [] ks = Perm.refl _
classes-perm digest (c ∷ cs) ks = Perm.trans (classes-perm digest cs (put_class digest c ks)) (
    Perm.trans (append_perm (map (λ d. d.index) cs) (put_class-perm digest c ks))
      (perm_middle (map (λ d. d.index) cs) (all_ids ks)))

module _ {ℓ} {F : Type ℓ} where
  -- The members of all clusters.
  abbrev pub pool : List (Cluster F) → List ℕ
  pool [] = []
  pool (c ∷ cs) = c.members ++ pool cs

module _ {ℓ} (F : Type ℓ) ⦃fl : Float F⦄ where
  insert-perm :
      (less : Cluster F → Cluster F → Bool) (c : Cluster F) (cs : List (Cluster F))
      → Perm (pool (insert_sorted less c cs)) (c.members ++ pool cs)
  unfolding insert_sorted
  insert-perm less c [] = Perm.refl _
  insert-perm less c (d ∷ ds) = elim (Bool-cases (less d c)) [
    | inl e ↦ rw e (
        Perm.trans (append_perm d.members (insert-perm less c ds))
          (swap_perm d.members c.members (pool ds)))
    | inr e ↦ rw e (Perm.refl _)
  ]

  sort-perm :
      (less : Cluster F → Cluster F → Bool) (cs : List (Cluster F))
      → Perm (pool (sort_stable less cs)) (pool cs)
  unfolding sort_stable
  sort-perm less [] = Perm.refl _
  sort-perm less (c ∷ cs) =
      Perm.trans (insert-perm less c (sort_stable less cs))
        (append_perm c.members (sort-perm less cs))

  pool-map :
      (cands : List Candidate) (ks : List Class)
      → Perm (pool (map (as_cluster {F = F} cands) ks)) (all_ids ks)
  unfolding as_cluster all_ids
  pool-map cands [] = Perm.refl _
  pool-map cands (k ∷ ks) = append_perm k.ids (pool-map cands ks)

  -- The members of the clusters are the indices of the candidates.
  pub group-perm :
      (digest : String → String) (cands : List Candidate)
      → Perm (pool {F = F} (group digest cands)) (map (λ d. d.index) cands)
  unfolding group all_ids
  group-perm digest cands =
      let ks = classes digest cands [] in
      let all = map (λ (d : Candidate). d.index) cands in
      Perm.trans (sort-perm cluster_lt (map (as_cluster cands) ks)) (
        Perm.trans (pool-map cands ks)
          (subst (λ l. Perm (all_ids ks) l) (append-nil all) (classes-perm digest cands [])))
