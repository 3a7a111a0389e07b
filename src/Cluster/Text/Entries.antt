-- ===== src/Cluster/Text/Entries.antt =====
-- A class of the textual vote and the candidates that it counts (internal/cluster/text.go).
use mathlib.Core.List.{Memᴰ}
use go_cascade.Base.{
  ltb, str_eq, if◌then◌else◌, Bool-cases, ℕ, suc, ◌≤◌, ◌<◌, ltb→lt, String, ◌≡◌, refl, sym, ap, ◌∙◌,
  ◌⊎◌, inl, inr, true, false, List, [], ◌∷◌, ◌++◌, All, All-append, All-imp, arith, eq_iff,
}
use go_cascade.Cluster.{Candidate}
use go_cascade.Cluster.Text.{Texts, Vote, text_key}

Memᴰ-snoc {ℓ} : {A : Type ℓ} (a x : A) (xs : List A) → Memᴰ a xs → Memᴰ a (xs ++ (x ∷ []))
Memᴰ-snoc a x [] m = elim m [ ]
Memᴰ-snoc a x (y ∷ ys) (Memᴰ.head e) = Memᴰ.head e
Memᴰ-snoc a x (y ∷ ys) (Memᴰ.tail m) = Memᴰ.tail (Memᴰ-snoc a x ys m)

Memᴰ-last {ℓ} : {A : Type ℓ} (x : A) (xs : List A) → Memᴰ x (xs ++ (x ∷ []))
Memᴰ-last x [] = Memᴰ.head refl
Memᴰ-last x (y ∷ ys) = Memᴰ.tail (Memᴰ-last x ys)

pub key_refl : (a : String) → str_eq a a ≡ true
key_refl a = (eq_iff a a).1 refl

pub key_sym : (a b : String) → str_eq a b ≡ false → str_eq b a ≡ false
key_sym a b h = elim (Bool-cases (str_eq b a)) [
  | inr e ↦ e
  | inl e ↦ let same : str_eq a b ≡ true = (eq_iff a b).1 (sym ((eq_iff b a).0 e)) in absurd cc
]

module _ (texts : Texts) where
  abbrev pub key_of : Candidate → String
  key_of c = text_key texts c.source

  -- How many candidates have a key.
  abbrev pub count : String → List Candidate → ℕ
  count x [] = 0
  count x (c ∷ cs) = let rest = count x cs in if str_eq x (key_of c) then suc rest else rest

  -- A class is right for the candidates so far: its number, and a member of the least index.
  pub record Entry (seen : List Candidate) (v : Vote) : Type 0 where
    pub n_ : v.n ≡ count v.key seen
    pub cand : Candidate
    pub in_ : Memᴰ cand seen
    pub key_ : v.key ≡ key_of cand
    pub rep_ : cand.index ≡ v.rep
    pub least_ : All (λ c. (str_eq v.key (key_of c) ≡ false) ⊎ (v.rep ≤ c.index)) seen

  count-hit :
      (x : String) (cs : List Candidate) (c : Candidate)
      → str_eq x (key_of c) ≡ true
      → count x (cs ++ (c ∷ [])) ≡ suc (count x cs)
  count-hit x [] c e = rw e refl
  count-hit x (d ∷ ds) c e = elim (Bool-cases (str_eq x (key_of d))) [
    | inl f ↦ rw f (ap suc (count-hit x ds c e))
    | inr f ↦ rw f (count-hit x ds c e)
  ]

  count-skip :
      (x : String) (cs : List Candidate) (c : Candidate)
      → str_eq x (key_of c) ≡ false
      → count x (cs ++ (c ∷ [])) ≡ count x cs
  count-skip x [] c e = rw e refl
  count-skip x (d ∷ ds) c e = elim (Bool-cases (str_eq x (key_of d))) [
    | inl f ↦ rw f (ap suc (count-skip x ds c e))
    | inr f ↦ rw f (count-skip x ds c e)
  ]

  count-none :
      (x : String) (cs : List Candidate)
      → All (λ d. str_eq x (key_of d) ≡ false) cs
      → count x cs ≡ 0
  count-none x [] h = refl
  count-none x (d ∷ ds) (h, hs) = rw h (count-none x ds hs)

  pub Entry-skip :
      (seen : List Candidate) (c : Candidate) (v : Vote)
      → str_eq v.key (key_of c) ≡ false
      → Entry seen v
      → Entry (seen ++ (c ∷ [])) v
  Entry-skip seen c v e h = record {
    n_ = h.n_ ∙ sym (count-skip v.key seen c e);
    cand = h.cand;
    in_ = Memᴰ-snoc h.cand c seen h.in_;
    key_ = h.key_;
    rep_ = h.rep_;
    least_ = All-append _ seen (c ∷ []) h.least_ (inl e, tt);
  }

  lower : {A : Type 0} {i j k : ℕ} → i < j → A ⊎ (j ≤ k) → A ⊎ (i ≤ k)
  lower h (inl a) = inl a
  lower h (inr g) = inr (omega arith)

  pub Entry-hit :
      (seen : List Candidate) (c : Candidate) (v : Vote)
      → str_eq v.key (key_of c) ≡ true
      → Entry seen v
      → Entry
          (seen ++ (c ∷ []))
          (record v { n = suc v.n; rep = if ltb c.index v.rep then c.index else v.rep })
  Entry-hit seen c v e h = elim (Bool-cases (ltb c.index v.rep)) [
    | inl l ↦ rw l (record {
      n_ = ap suc h.n_ ∙ sym (count-hit v.key seen c e);
      cand = c;
      in_ = Memᴰ-last c seen;
      key_ = (eq_iff v.key (key_of c)).0 e;
      rep_ = refl;
      least_ =
          All-append _ seen (c ∷ [])
            (All-imp _ _ seen (λ d o. lower (ltb→lt c.index v.rep l) o) h.least_)
            (inr (omega arith), tt);
    })
    | inr l ↦ rw l (record {
      n_ = ap suc h.n_ ∙ sym (count-hit v.key seen c e);
      cand = h.cand;
      in_ = Memᴰ-snoc h.cand c seen h.in_;
      key_ = h.key_;
      rep_ = h.rep_;
      least_ = All-append _ seen (c ∷ []) h.least_ (inr (ground arith), tt);
    })
  ]

  pub Entry-new :
      (seen : List Candidate) (c : Candidate)
      → All (λ d. str_eq (key_of c) (key_of d) ≡ false) seen
      → Entry (seen ++ (c ∷ [])) (record { key = key_of c; n = 1; rep = c.index })
  Entry-new seen c h = record {
    n_ =
        sym (
          count-hit (key_of c) seen c (key_refl (key_of c))
          ∙ ap suc (count-none (key_of c) seen h));
    cand = c;
    in_ = Memᴰ-last c seen;
    key_ = refl;
    rep_ = refl;
    least_ = All-append _ seen (c ∷ []) (All-imp _ _ seen (λ d e. inl e) h) (inr (omega arith), tt);
  }
