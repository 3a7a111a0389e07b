-- ===== src/Cluster/Text.antt =====
-- Agreement of texts: `TextKey`, `TextVote` (internal/cluster/text.go). The parsing of a file, the
-- sorting of its imports and its printing without comments are given, like `hash` and `strings.Fields`.
pub mod Entries
pub mod Tally
pub mod Plurality
use go_cascade.Base.{
  ltb, ◌==◌, str_eq, if◌then◌else◌, trim_space, length, ℕ, suc, String, ◌<>◌, Bool, ◌&&◌, ◌||◌,
  Option, none, some, List, [], ◌∷◌,
}
use go_cascade.Float.{Float}
use go_cascade.Cluster.{Candidate}
use go_cascade.Verify.Output.{split_lines}

pub record Texts : Type 0 where
  pub reprint : String → Option String
  pub digest : String → String
  pub fields : String → String

-- Without blank lines, and each line trimmed.
unfoldable pub fold_lines : List String → String
fold_lines [] = ""
fold_lines (l ∷ ls) =
    let line = trim_space l in
    let rest = fold_lines ls in if str_eq line "" then rest else line <> "\n" <> rest

-- A class of the vote: its key, its candidates' number, and its least index.
pub record Vote : Type 0 where
  pub key : String
  pub n : ℕ
  pub rep : ℕ

-- Whether a class takes the place of the best one so far.
abbrev pub beats : Vote → Vote → Bool
beats v best = ltb best.n v.n || (v.n == best.n && ltb v.rep best.rep)

-- The second loop, behind its first class.
unfoldable pub best_vote : Vote → List Vote → Vote
best_vote best [] = best
best_vote best (v ∷ vs) = best_vote (if beats v best then v else best) vs

module _ {ℓ} {F : Type ℓ} ⦃fl : Float F⦄ where
  abbrev pub elected : ℕ → List Vote → Option (ℕ × F)
  elected total [] = none
  elected total (v ∷ vs) =
      let b = best_vote v vs in some (b.rep, fl.div (fl.of_nat b.n) (fl.of_nat total))

module _ (texts : Texts) where
  open texts use {reprint, digest, fields}

  unfoldable pub normalize_go : String → Option String
  unfolding fold_lines
  normalize_go src = elim (reprint src) [
    | none ↦ none
    | some printed ↦ some (fold_lines (split_lines printed))
  ]

  unfoldable pub text_key : String → String
  unfolding normalize_go
  text_key src = elim (normalize_go src) [
    | none ↦ "raw:" <> digest (fields src)
    | some norm ↦ "src:" <> digest norm
  ]

  unfoldable pub put_vote : Candidate → List Vote → List Vote
  put_vote c [] = record { key = text_key c.source; n = 1; rep = c.index } ∷ []
  put_vote c (v ∷ vs) =
      let rest = put_vote c vs in
      if str_eq v.key (text_key c.source)
      then record v { n = suc v.n; rep = if ltb c.index v.rep then c.index else v.rep } ∷ vs
      else v ∷ rest

  -- The first loop: the classes in the order in which their keys are first seen.
  unfoldable pub votes : List Candidate → List Vote → List Vote
  unfolding put_vote
  votes [] vs = vs
  votes (c ∷ cs) vs = votes cs (put_vote c vs)

  -- The plurality class's index and share of the candidates; there is one unless there is no candidate.
  module _ {ℓ} {F : Type ℓ} ⦃fl : Float F⦄ where
    unfoldable pub text_vote : List Candidate → Option (ℕ × F)
    unfolding votes best_vote
    text_vote cands = elected (length cands) (votes cands [])
