-- ===== src/Cluster/Mass.antt =====
-- The members of the clusters, and what the score is of (internal/cluster/cluster.go).
use mathlib.Core.List.{Perm}
use go_cascade.Cluster.Partition.{pool, group-perm}
use go_cascade.Base.{
  str_eq, if◌then◌else◌, Bool-cases, length, length-append, insert_sorted, sort_stable, ℕ, suc, ◌+◌,
  String, ◌≡◌, refl, ap, ◌∙◌, inl, inr, Bool, true, false, Option, none, some, List, [], ◌∷◌, map,
  arith,
}
use go_cascade.Float.{Float}
use go_cascade.Cluster.{
  Candidate, Cluster, Class, behaviour, put_class, classes, as_cluster, cluster_lt, group,
  total_members, first_verified, wilson_lcb, score,
}

class_members : List Class → ℕ
class_members [] = 0
class_members (k ∷ ks) = length k.ids + class_members ks

put_class_members :
    (digest : String → String) (c : Candidate) (ks : List Class)
    → class_members (put_class digest c ks) ≡ suc (class_members ks)
unfolding put_class class_members
put_class_members digest c [] = refl
put_class_members digest c (k ∷ ks) = elim (Bool-cases (str_eq k.class_key (behaviour digest c))) [
  | inl e ↦ rw e (omega (arith, length-append k.ids (c.index ∷ [])))
  | inr e ↦ rw e (omega (arith, put_class_members digest c ks))
]

classes_members :
    (digest : String → String) (cs : List Candidate) (ks : List Class)
    → class_members (classes digest cs ks) ≡ class_members ks + length cs
unfolding classes
classes_members digest [] ks = omega arith
classes_members digest (c ∷ cs) ks =
    omega (arith, classes_members digest cs (put_class digest c ks), put_class_members digest c ks)

module _ {ℓ} {F : Type ℓ} ⦃fl : Float F⦄ where
  insert_members :
      (less : Cluster F → Cluster F → Bool) (c : Cluster F) (cs : List (Cluster F))
      → total_members (insert_sorted less c cs) ≡ length c.members + total_members cs
  unfolding insert_sorted total_members
  insert_members less c [] = refl
  insert_members less c (d ∷ ds) = elim (Bool-cases (less d c)) [
    | inl e ↦ rw e (omega (arith, insert_members less c ds))
    | inr e ↦ rw e refl
  ]

  sort_members :
      (less : Cluster F → Cluster F → Bool) (cs : List (Cluster F))
      → total_members (sort_stable less cs) ≡ total_members cs
  unfolding sort_stable total_members
  sort_members less [] = refl
  sort_members less (c ∷ cs) =
      insert_members less c (sort_stable less cs)
      ∙ ap (λ n. length c.members + n) (sort_members less cs)

  first_verified_of :
      (o : Option (Cluster F)) (c d : Cluster F) (b : Bool)
      → d.verified ≡ b
      → (o ≡ some c → c.verified ≡ true)
      → (if b then some d else o) ≡ some c
      → c.verified ≡ true
  first_verified_of o c d true p f q = let same : some d ≡ some c = q in cc
  first_verified_of o c d false p f q = f q

  first_verified_lem :
      (cs : List (Cluster F)) (c : Cluster F) → first_verified cs ≡ some c → c.verified ≡ true
  unfolding first_verified
  first_verified_lem [] c e = cc
  first_verified_lem (d ∷ ds) c e =
      first_verified_of (first_verified ds) c d d.verified refl (first_verified_lem ds c) e

module _ {ℓ} (F : Type ℓ) ⦃fl : Float F⦄ where
  map_members :
      (cands : List Candidate) (ks : List Class)
      → total_members {F = F} (map (as_cluster cands) ks) ≡ class_members ks
  unfolding total_members class_members as_cluster
  map_members cands [] = refl
  map_members cands (k ∷ ks) = ap (λ n. length k.ids + n) (map_members cands ks)

  group_members :
      (digest : String → String) (cands : List Candidate)
      → total_members {F = F} (group digest cands) ≡ length cands
  unfolding group class_members total_members
  group_members digest cands =
      let ks = classes digest cands [] in
      let counted : class_members ks ≡ length cands =
        omega (arith, classes_members digest cands []) in
      sort_members cluster_lt (map (as_cluster cands) ks) ∙ map_members cands ks ∙ counted

module _ {ℓ} {F : Type ℓ} ⦃fl : Float F⦄ where
  module _ (sqrt : F → F) (min_of max_of : F → F → F) where
    scored :
        (o : Option (Cluster F)) (n : ℕ) (s : F) (c : Cluster F)
        → (let r : F × Option (Cluster F) = elim o [
          | none ↦ (fl.lit 0 0, none)
          | some d ↦ (wilson_lcb sqrt min_of max_of (length d.members) n (fl.lit 1645 3), some d)
        ] in
            r ≡ (s, some c))
        → (o ≡ some c) × (s ≡ wilson_lcb sqrt min_of max_of (length c.members) n (fl.lit 1645 3))
    scored none n s c e = let no : none ≡ some c = ap (λ p. p.1) e in absurd cc
    scored (some d) n s c e =
        let same : some d ≡ some c = ap (λ p. p.1) e in let what = ap (λ p. p.0) e in (same, cc)

    -- If `Score` finds a winner among the clusters of `Group`: every candidate is in exactly one
    -- cluster, in that the members of all clusters together are the candidates' indices in some
    -- order, and as many; the winner is verified; and the score is the Wilson bound on its
    -- members in the whole sample, refuted candidates included.
    pub score-group :
        (digest : String → String) (cands : List Candidate) (s : F) (c : Cluster F)
        → score sqrt min_of max_of (group digest cands) ≡ (s, some c)
        → Perm (pool {F = F} (group digest cands)) (map (λ d. d.index) cands)
          × (total_members {F = F} (group digest cands) ≡ length cands)
          × (c.verified ≡ true)
          × (s ≡ wilson_lcb sqrt min_of max_of (length c.members) (length cands) (fl.lit 1645 3))
    unfolding score
    score-group digest cands s c e =
        let (won, scored_) = scored _ (total_members (group digest cands)) s c e in
        let all = group_members F digest cands in
        (
          group-perm F digest cands,
          all,
          first_verified_lem (group digest cands) c won,
          rw (← all) scored_,
        )
