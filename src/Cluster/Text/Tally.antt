-- ===== src/Cluster/Text/Tally.antt =====
-- What the classes of the textual vote hold (internal/cluster/text.go).
use go_cascade.Base.{
  append-snoc, str_eq, any, Bool-cases, String, ◌≡◌, refl, sym, ap, ◌⊎◌, inl, inr, Bool, true,
  false, List, [], ◌∷◌, ◌++◌, All, All-append, All-imp, eq_iff, subst,
}
use go_cascade.Cluster.{Candidate}
use go_cascade.Cluster.Text.{Texts, Vote, put_vote, votes}
use go_cascade.Cluster.Text.Entries.{
  key_of, Entry, key_refl, key_sym, Entry-skip, Entry-hit, Entry-new,
}

All-imp2 {ℓ κ μ ν} :
    {A : Type ℓ} (P : A → Type κ) (Q : A → Type μ) (R : A → Type ν) (xs : List A)
    → ((a : A) → P a → Q a → R a)
    → All P xs
    → All Q xs
    → All R xs
All-imp2 P Q R [] f _ _ = tt
All-imp2 P Q R (x ∷ xs) f (p, ps) (q, qs) = (f x p q, All-imp2 P Q R xs f ps qs)

append-nil {ℓ} : {A : Type ℓ} (xs : List A) → xs ++ [] ≡ xs
append-nil [] = refl
append-nil (x ∷ xs) = ap (◌∷◌ x) (append-nil xs)

module _ (texts : Texts) where
  abbrev Unique : List Vote → Type 0
  Unique [] = Unit
  Unique (v ∷ vs) = All (λ u. str_eq v.key u.key ≡ false) vs × Unique vs

  abbrev pub has : List Vote → String → Bool
  has vs x = any (λ v. str_eq v.key x) vs

  pub record Tally (seen : List Candidate) (vs : List Vote) : Type 0 where
    pub unique : Unique vs
    pub entries : All (Entry texts seen) vs
    pub covered : All (λ d. has vs (key_of texts d) ≡ true) seen

  -- No class holds it, or it is of another key than the candidate.
  abbrev Missed : Candidate → List Candidate → List Vote → Type 0
  Missed c seen vs =
      All
        (λ d. (has vs (key_of texts d) ≡ true) ⊎ (str_eq (key_of texts c) (key_of texts d) ≡ false))
        seen

  missed-tail :
      (c d : Candidate) (v : Vote) (vs : List Vote)
      → str_eq v.key (key_of texts c) ≡ false
      → (has (v ∷ vs) (key_of texts d) ≡ true) ⊎ (str_eq (key_of texts c) (key_of texts d) ≡ false)
      → (has vs (key_of texts d) ≡ true) ⊎ (str_eq (key_of texts c) (key_of texts d) ≡ false)
  missed-tail c d v vs e (inr h) = inr h
  missed-tail c d v vs e (inl h) = elim (Bool-cases (str_eq v.key (key_of texts d))) [
    | inr f ↦ inl (rw f at h)
    | inl f ↦
        let same : v.key ≡ key_of texts d = (eq_iff v.key (key_of texts d)).0 f in
        inr (key_sym (key_of texts d) (key_of texts c) (rw same at e))
  ]

  apart-hit :
      (v u : Vote) (c : Candidate)
      → str_eq v.key (key_of texts c) ≡ true
      → str_eq v.key u.key ≡ false
      → str_eq u.key (key_of texts c) ≡ false
  apart-hit v u c e f =
      let same : v.key ≡ key_of texts c = (eq_iff v.key (key_of texts c)).0 e in
      key_sym (key_of texts c) u.key (rw same at f)

  nothing-missed :
      (c d : Candidate)
      → (has [] (key_of texts d) ≡ true) ⊎ (str_eq (key_of texts c) (key_of texts d) ≡ false)
      → str_eq (key_of texts c) (key_of texts d) ≡ false
  nothing-missed c d (inl h) = absurd cc
  nothing-missed c d (inr h) = h

  put_vote-entries :
      (seen : List Candidate) (c : Candidate) (vs : List Vote)
      → Unique vs
      → Missed c seen vs
      → All (Entry texts seen) vs
      → All (Entry texts (seen ++ (c ∷ []))) (put_vote texts c vs)
  unfolding put_vote
  put_vote-entries seen c [] u m h =
      (Entry-new texts seen c (All-imp _ _ seen (nothing-missed c) m), tt)
  put_vote-entries seen c (v ∷ vs) (a, u) m (h, hs) =
      elim (Bool-cases (str_eq v.key (key_of texts c))) [
        | inl e ↦ rw e (
          Entry-hit texts seen c v e h,
          All-imp2 _ _ _ vs (λ w f k. Entry-skip texts seen c w (apart-hit v w c e f) k) a hs,
        )
        | inr e ↦ rw e (
          Entry-skip texts seen c v e h,
          put_vote-entries seen c vs u (All-imp _ _ seen (λ d o. missed-tail c d v vs e o) m) hs,
        )
      ]

  put_vote-apart :
      (x : String) (c : Candidate) (vs : List Vote)
      → str_eq x (key_of texts c) ≡ false
      → All (λ u. str_eq x u.key ≡ false) vs
      → All (λ u. str_eq x u.key ≡ false) (put_vote texts c vs)
  unfolding put_vote
  put_vote-apart x c [] e h = (e, tt)
  put_vote-apart x c (v ∷ vs) e (h, hs) = elim (Bool-cases (str_eq v.key (key_of texts c))) [
    | inl f ↦ rw f (h, hs)
    | inr f ↦ rw f (h, put_vote-apart x c vs e hs)
  ]

  put_vote-Unique : (c : Candidate) (vs : List Vote) → Unique vs → Unique (put_vote texts c vs)
  unfolding put_vote
  put_vote-Unique c [] u = (tt, tt)
  put_vote-Unique c (v ∷ vs) (a, u) = elim (Bool-cases (str_eq v.key (key_of texts c))) [
    | inl e ↦ rw e (a, u)
    | inr e ↦ rw e (put_vote-apart v.key c vs e a, put_vote-Unique c vs u)
  ]

  put_vote-has :
      (x : String) (c : Candidate) (vs : List Vote)
      → has vs x ≡ true
      → has (put_vote texts c vs) x ≡ true
  unfolding put_vote
  put_vote-has x c [] h = absurd cc
  put_vote-has x c (v ∷ vs) h = elim (Bool-cases (str_eq v.key (key_of texts c))) [
    | inl e ↦ rw e h
    | inr e ↦ elim (Bool-cases (str_eq v.key x)) [
      | inl f ↦ rw (e, f) refl
      | inr f ↦ rw (e, f) (put_vote-has x c vs (rw f at h))
    ]
  ]

  put_vote_self :
      (c : Candidate) (vs : List Vote) → has (put_vote texts c vs) (key_of texts c) ≡ true
  unfolding put_vote
  put_vote_self c [] = rw (key_refl (key_of texts c)) refl
  put_vote_self c (v ∷ vs) = elim (Bool-cases (str_eq v.key (key_of texts c))) [
    | inl e ↦ rw e (rw e refl)
    | inr e ↦ rw e (rw e (put_vote_self c vs))
  ]

  pub votes-Tally :
      (cs seen : List Candidate) (vs : List Vote)
      → Tally seen vs
      → Tally (seen ++ cs) (votes texts cs vs)
  unfolding votes
  votes-Tally [] seen vs t = subst (λ all. Tally all vs) (sym (append-nil seen)) t
  votes-Tally (c ∷ cs) seen vs t =
      subst (λ all. Tally all (votes texts cs (put_vote texts c vs))) (append-snoc seen c cs)
        (votes-Tally cs (seen ++ (c ∷ [])) (put_vote texts c vs) (record {
          unique = put_vote-Unique c vs t.unique;
          entries =
              put_vote-entries seen c vs t.unique (All-imp _ _ seen (λ d h. inl h) t.covered)
                t.entries;
          covered =
              All-append _ seen (c ∷ [])
                (All-imp _ _ seen (λ d h. put_vote-has (key_of texts d) c vs h) t.covered)
                (put_vote_self c vs, tt);
        }))
