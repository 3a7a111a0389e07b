-- ===== src/Cache/Similarity.antt =====
-- The retrieval measure of internal/cache/canonical.go: `trigrams` and `Similarity`. A rune is its
-- code point, a set of trigrams the list of its members without repeats.
use Prim.Native.Char.{code}
use go_cascade.Base.{
  ◌==◌, if◌then◌else◌, length, any, count_by, ℕ, ◌+◌, ◌-◌, String, Bool, ◌&&◌, List, [], ◌∷◌,
}
use go_cascade.Float.{Float}

abbrev pub runes : String → List ℕ
runes String.[] = []
runes (String.◌∷◌ c s) = code c ∷ runes s

-- The three code points of a trigram.
abbrev pub Trigram : Type 0
Trigram = ℕ × ℕ × ℕ

abbrev pub same : Trigram → Trigram → Bool
same (a, b, c) (x, y, z) = (a == x) && (b == y) && (c == z)

abbrev pub holds : Trigram → List Trigram → Bool
holds t ts = any (λ u. same t u) ts

-- The windows of three runes, each once.
unfoldable pub windows : List ℕ → List Trigram
windows [] = []
windows (a ∷ []) = []
windows (a ∷ b ∷ []) = []
windows (a ∷ b ∷ c ∷ rs) =
    let rest = windows (b ∷ c ∷ rs) in if holds (a, b, c) rest then rest else (a, b, c) ∷ rest

unfoldable pub shared_with : List Trigram → List Trigram → ℕ
shared_with ta tb = count_by (λ t. holds t tb) ta

module _ {ℓ} {F : Type ℓ} ⦃fl : Float F⦄ where
  -- Over the sets; the union counts what both have once.
  unfoldable pub jaccard : List Trigram → List Trigram → F
  unfolding shared_with
  jaccard [] tb = fl.lit 0 0
  jaccard (t ∷ ta) [] = fl.lit 0 0
  jaccard (t ∷ ta) (u ∷ tb) =
      let inter = shared_with (t ∷ ta) (u ∷ tb) in
      let union_ = length (t ∷ ta) + length (u ∷ tb) - inter in
      if union_ == 0 then fl.lit 0 0 else fl.div (fl.of_nat inter) (fl.of_nat union_)

  -- `normalize` is `NormalizeProblem`, which lowercases and folds the white space.
  unfoldable pub similarity : (String → String) → String → String → F
  unfolding windows jaccard
  similarity normalize a b = jaccard (windows (runes (normalize a))) (windows (runes (normalize b)))
