-- ===== src/Cluster/Text/Plurality.antt =====
-- The winner of the textual vote (`TextVote` of internal/cluster/text.go).
use mathlib.Core.List.{Memᴰ}
use go_cascade.Base.{
  str_eq, Bool-cases, length, ℕ, ◌≤◌, ◌<◌, ◌≡◌, refl, sym, ap, ◌∙◌, subst, ◌⊎◌, inl, inr, Bool,
  true, false, some, List, [], ◌∷◌, All, arith, eq_iff,
}
use go_cascade.Float.{Float}
use go_cascade.Calibrate.Certify.Select.{All-Memᴰ}
use go_cascade.Cluster.{Candidate}
use go_cascade.Cluster.Text.{Texts, Vote, votes, beats, best_vote, elected, text_vote}
use go_cascade.Cluster.Text.Entries.{key_of, count, Entry}
use go_cascade.Cluster.Text.Tally.{has, Tally, votes-Tally}

-- A class does not beat another: it is smaller, or of the same size and not of a lower index.
abbrev NotAbove : Vote → Vote → Type 0
NotAbove w v = (v.n < w.n) ⊎ ((v.n ≡ w.n) × (w.rep ≤ v.rep))

NotAbove-trans : (a b c : Vote) → NotAbove a b → NotAbove b c → NotAbove a c
NotAbove-trans a b c h k = ground arith

beats-NotAbove : (v best : Vote) → beats v best ≡ true → NotAbove v best
beats-NotAbove v best h = ground arith

kept-NotAbove : (v best : Vote) → beats v best ≡ false → NotAbove best v
kept-NotAbove v best h = ground arith

past-head : (w b v : Vote) (vs : List Vote) → Memᴰ w (b ∷ vs) → Memᴰ w (b ∷ v ∷ vs)
past-head w b v vs (Memᴰ.head e) = Memᴰ.head e
past-head w b v vs (Memᴰ.tail m) = Memᴰ.tail (Memᴰ.tail m)

-- No class is above it, and it is one of them.
abbrev Top : Vote → Vote → List Vote → Type 0
Top w best vs = NotAbove w best × (All (NotAbove w) vs × Memᴰ w (best ∷ vs))

best_vote-take :
    (best v : Vote) (vs : List Vote)
    → beats v best ≡ true
    → best_vote v vs ≡ best_vote best (v ∷ vs)
unfolding best_vote
best_vote-take best v vs e = rw e refl

best_vote-keep :
    (best v : Vote) (vs : List Vote)
    → beats v best ≡ false
    → best_vote best vs ≡ best_vote best (v ∷ vs)
unfolding best_vote
best_vote-keep best v vs e = rw e refl

best_vote-Top : (best : Vote) (vs : List Vote) → Top (best_vote best vs) best vs
unfolding best_vote
best_vote-Top best [] = (inr (refl, omega arith), (tt, Memᴰ.head refl))
best_vote-Top best (v ∷ vs) = elim (Bool-cases (beats v best)) [
  | inl e ↦
      let (top, (rest, in_)) = best_vote-Top v vs in
      subst (λ w. Top w best (v ∷ vs)) (best_vote-take best v vs e)
        (
          NotAbove-trans (best_vote v vs) v best top (beats-NotAbove v best e),
          ((top, rest), Memᴰ.tail in_),
        )
  | inr e ↦
      let (top, (rest, in_)) = best_vote-Top best vs in
      subst (λ w. Top w best (v ∷ vs)) (best_vote-keep best v vs e)
        (
          top,
          (
            (NotAbove-trans (best_vote best vs) best v top (kept-NotAbove v best e), rest),
            past-head (best_vote best vs) best v vs in_,
          ),
        )
]

everyone {ℓ κ} :
    {A : Type ℓ} (P : A → Type κ) (xs : List A) → ((a : A) → Memᴰ a xs → P a) → All P xs
everyone P [] f = tt
everyone P (x ∷ xs) f = (f x (Memᴰ.head refl), everyone P xs (λ a m. f a (Memᴰ.tail m)))

module _ (texts : Texts) where
  -- A candidate has no better claim than a chosen one: it agrees with fewer, or with as many and is of
  -- no lower index.
  abbrev pub Loses : List Candidate → Candidate → Candidate → Type 0
  Loses cands won d =
      (count texts (key_of texts d) cands < count texts (key_of texts won) cands)
      ⊎ ((count texts (key_of texts d) cands ≡ count texts (key_of texts won) cands)
          × (won.index ≤ d.index))

  -- A candidate that all others lose against, and the share of those that agree with it.
  pub record IsPlurality {ℓ} {F : Type ℓ} ⦃fl : Float F⦄ (cands : List Candidate) (i : ℕ) (mass : F)
      : Type ℓ where
    pub won : Candidate
    pub drawn : Memᴰ won cands
    pub index_ : won.index ≡ i
    pub mass_ :
        mass ≡ fl.div (fl.of_nat (count texts (key_of texts won) cands)) (fl.of_nat (length cands))
    pub top : All (Loses cands won) cands

  -- The class of a candidate, which the best class is not above.
  class_of :
      (cands : List Candidate) (w : Vote) (vs : List Vote) (d : Candidate)
      → All (Entry texts cands) vs
      → All (NotAbove w) vs
      → has texts vs (key_of texts d) ≡ true
      → (v : Vote) × ((v.key ≡ key_of texts d) × (Entry texts cands v × NotAbove w v))
  class_of cands w [] d hs ts f = absurd cc
  class_of cands w (v ∷ vs) d (h, hs) (t, ts) f =
      elim (Bool-cases (str_eq v.key (key_of texts d))) [
        | inl e ↦ (v, ((eq_iff v.key (key_of texts d)).0 e, (h, t)))
        | inr e ↦ class_of cands w vs d hs ts (rw e at f)
      ]

  lowest : {b : Bool} {i j : ℕ} → (b ≡ false) ⊎ (i ≤ j) → b ≡ true → i ≤ j
  lowest (inl f) e = absurd cc
  lowest (inr h) e = h

  above :
      (w v : Vote) {m n i j : ℕ}
      → NotAbove w v
      → v.n ≡ m
      → w.n ≡ n
      → i ≡ w.rep
      → v.rep ≤ j
      → (m < n) ⊎ ((m ≡ n) × (i ≤ j))
  above w v (inl h) a b c d = inl (omega arith)
  above w v (inr (h, k)) a b c d = inr (omega arith, omega arith)

  Loses-of :
      (cands : List Candidate) (w : Vote) (e : Entry texts cands w) (vs : List Vote) (d : Candidate)
      → Memᴰ d cands
      → All (Entry texts cands) vs
      → All (NotAbove w) vs
      → has texts vs (key_of texts d) ≡ true
      → Loses cands e.cand d
  Loses-of cands w e vs d m hs ts f =
      let (v, (same, (h, t))) = class_of cands w vs d hs ts f in
      let low : v.rep ≤ d.index =
        lowest (All-Memᴰ _ cands d h.least_ m) ((eq_iff v.key (key_of texts d)).1 same) in
      let many : v.n ≡ count texts (key_of texts d) cands =
        h.n_ ∙ ap (λ x. count texts x cands) same in
      let most : w.n ≡ count texts (key_of texts e.cand) cands =
        e.n_ ∙ ap (λ x. count texts x cands) e.key_ in
      above w v t many most e.rep_ low

  elected-IsPlurality {ℓ} :
      {F : Type ℓ} ⦃fl : Float F⦄ (cands : List Candidate) (vs : List Vote) (i : ℕ) (mass : F)
      → Tally texts cands vs
      → elected (length cands) vs ≡ some (i, mass)
      → IsPlurality cands i mass
  elected-IsPlurality cands [] i mass t e = absurd cc
  elected-IsPlurality ⦃fl = fl⦄ cands (v ∷ vs) i mass t e =
      let w = best_vote v vs in
      let (below, (rest, in_)) = best_vote-Top v vs in
      let ent = All-Memᴰ (Entry texts cands) (v ∷ vs) w t.entries in_ in
      let same_index : w.rep ≡ i = cc in
      let same_mass : fl.div (fl.of_nat w.n) (fl.of_nat (length cands)) ≡ mass = cc in
      record {
        won = ent.cand;
        drawn = ent.in_;
        index_ = ent.rep_ ∙ same_index;
        mass_ =
            sym same_mass
            ∙ ap (λ k. fl.div (fl.of_nat k) (fl.of_nat (length cands)))
                (ent.n_ ∙ ap (λ x. count texts x cands) ent.key_);
        top = everyone (Loses cands ent.cand) cands (λ d m.
            Loses-of cands w ent (v ∷ vs) d m t.entries (below, rest)
              (All-Memᴰ _ cands d t.covered m));
      }

  -- If `TextVote` elects an index, it is that of a candidate whose text, normalised, no other is written
  -- by more of the candidates; among the candidates of texts as frequent its index is the least. The
  -- mass is the share of the candidates that agree with it.
  pub text_vote-IsPlurality {ℓ} :
      {F : Type ℓ} ⦃fl : Float F⦄ (cands : List Candidate) (i : ℕ) (mass : F)
      → text_vote texts cands ≡ some (i, mass)
      → IsPlurality cands i mass
  unfolding text_vote
  text_vote-IsPlurality cands i mass e =
      elected-IsPlurality cands (votes texts cands []) i mass
        (votes-Tally texts cands [] [] (record { unique = tt; entries = tt; covered = tt })) e
