-- ===== src/Base/Text.antt =====
-- Texts: `strings.TrimSpace`, and `fmt.Sprintf` as far as the code relies on it.
use Prim.Native.Nat.{ℕ}
use Prim.Native.Char.{Char, code}
use Prim.Native.String.{String}
use mathlib.Core.Bool.{Bool, ◌&&◌, ◌||◌}
use mathlib.Core.List.{List}
use go_cascade.Base.Tests.{if◌then◌else◌, leb, ◌==◌}

-- `unicode.IsSpace`
unfoldable pub is_space : ℕ → Bool
is_space c =
    (leb 9 c && leb c 13)
    || c == 32
    || c == 0x85
    || c == 0xA0
    || c == 0x1680
    || (leb 0x2000 c && leb c 0x200a)
    || c == 0x2028
    || c == 0x2029
    || c == 0x202f
    || c == 0x205f
    || c == 0x3000

unfoldable pub trim_left : String → String
unfolding is_space
trim_left String.[] = String.[]
trim_left (String.◌∷◌ c s) =
    let rest = trim_left s in if is_space (code c) then rest else String.◌∷◌ c s

abbrev keep_char : Char → String → String
keep_char c String.[] = if is_space (code c) then String.[] else String.◌∷◌ c String.[]
keep_char c (String.◌∷◌ d s) = String.◌∷◌ c (String.◌∷◌ d s)

unfoldable pub trim_right : String → String
unfolding is_space
trim_right String.[] = String.[]
trim_right (String.◌∷◌ c s) = keep_char c (trim_right s)

unfoldable pub trim_space : String → String
unfolding trim_left trim_right
trim_space s = trim_right (trim_left s)

-- An argument of `fmt.Sprintf`.
pub data Arg {ℓ} (F : Type ℓ) : Type ℓ where
  int_arg : ℕ → Arg F
  float_arg : F → Arg F
  str_arg : String → Arg F

-- How a format and its arguments become a text. No theorem depends on it.
abbrev pub Sprintf {ℓ} : Type ℓ → Type ℓ
Sprintf F = String → List (Arg F) → String
