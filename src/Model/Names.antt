-- ===== src/Model/Names.antt =====
-- Profile names (`profileName`, `writeSlug` of internal/model/costtag.go), on the bytes of a text.
use Prim.Native.Nat.{bit_xor}
use go_cascade.Base.{
  ltb, leb, ◌==◌, if◌then◌else◌, Bool-cases, length, take, length-take, length-append, ℕ, zero, suc,
  ◌+◌, ◌-◌, ◌*◌, ◌/◌, ◌%◌, ◌^◌, ◌≤◌, ◌<◌, ◌≡◌, refl, ap, inl, inr, Bool, true, ◌&&◌, ◌||◌, List, [],
  ◌∷◌, ◌++◌, map, All, All-append, arith,
}

abbrev pub is_alnum : ℕ → Bool
is_alnum c = leb b'a' c && leb c b'z' || (leb b'A' c && leb c b'Z' || leb b'0' c && leb c b'9')

unfoldable pub write_slug : List ℕ → List ℕ
write_slug s = map (λ c. if is_alnum c then c else b'-') s

-- `fnv.New32a`
fnv32a : ℕ → List ℕ → ℕ
fnv32a h [] = h
fnv32a h (b ∷ bs) = fnv32a (bit_xor h b * 16_777_619 % 2 ^ 32) bs

abbrev hex_digit : ℕ → ℕ
hex_digit d = if ltb d 10 then b'0' + d else 87 + d

-- The last `k` hexadecimal digits.
hex_digits : ℕ → ℕ → List ℕ
hex_digits zero h = []
hex_digits (suc k) h = hex_digit (h / 16 ^ k % 16) ∷ hex_digits k h

abbrev hash_suffix : List ℕ → List ℕ
hash_suffix name = b'-' ∷ hex_digits 8 (fnv32a 2_166_136_261 name)

abbrev pub max_name : ℕ
max_name = 64

abbrev capped : List ℕ → List ℕ
capped name =
    let suffix = hash_suffix name in
    if ltb max_name (length name) then take (max_name - length suffix) name ++ suffix else name

unfoldable pub profile_name : (tag model_id : List ℕ) → List ℕ
unfolding write_slug fnv32a hex_digits
profile_name tag model_id = capped (write_slug tag ++ (b'-' ∷ write_slug model_id))

-- A byte that a profile's name may have.
abbrev pub IsNameByte : ℕ → Type 0
IsNameByte c = is_alnum c || c == b'-' ≡ true

hex_digit-IsNameByte : (d : ℕ) → d < 16 → IsNameByte (hex_digit d)
hex_digit-IsNameByte d h = ground arith

slug_byte-IsNameByte : (c : ℕ) → IsNameByte (if is_alnum c then c else b'-')
slug_byte-IsNameByte c = elim (Bool-cases (is_alnum c)) [
  | inl e ↦ rw e (rw e refl)
  | inr e ↦ rw e refl
]

write_slug-IsNameByte : (s : List ℕ) → All IsNameByte (write_slug s)
unfolding write_slug
write_slug-IsNameByte [] = tt
write_slug-IsNameByte (c ∷ cs) = (slug_byte-IsNameByte c, write_slug-IsNameByte cs)

hex_digits-IsNameByte : (k h : ℕ) → All IsNameByte (hex_digits k h)
unfolding hex_digits
hex_digits-IsNameByte zero h = tt
hex_digits-IsNameByte (suc k) h =
    (hex_digit-IsNameByte (h / 16 ^ k % 16) (omega arith), hex_digits-IsNameByte k h)

length-hex_digits : (k h : ℕ) → length (hex_digits k h) ≡ k
unfolding hex_digits
length-hex_digits zero h = refl
length-hex_digits (suc k) h = ap suc (length-hex_digits k h)

take-All : (n : ℕ) (xs : List ℕ) → All IsNameByte xs → All IsNameByte (take n xs)
take-All zero xs h = tt
take-All (suc n) [] h = tt
take-All (suc n) (x ∷ xs) (h, hs) = (h, take-All n xs hs)

abbrev pub IsName : List ℕ → Type 0
IsName name = (length name ≤ max_name) × All IsNameByte name

capped-IsName : (name : List ℕ) → All IsNameByte name → IsName (capped name)
capped-IsName name h =
    let hash = fnv32a 2_166_136_261 name in
    let suffix = hash_suffix name in
    let cut = max_name - length suffix in
    elim (Bool-cases (ltb max_name (length name))) [
      | inl e ↦ rw e (
        omega (
          arith,
          length-append (take cut name) suffix,
          length-take cut name,
          length-hex_digits 8 hash,
        ),
        All-append IsNameByte (take cut name) suffix (take-All cut name h)
            (refl, hex_digits-IsNameByte 8 hash),
      )
      | inr e ↦ rw e (ground arith, h)
    ]

-- A profile's name has 64 bytes at most, whatever the tag and the model are called, and only letters,
-- digits and dashes.
pub profile_name-IsName : (tag model_id : List ℕ) → IsName (profile_name tag model_id)
unfolding profile_name
profile_name-IsName tag model_id = capped-IsName (write_slug tag ++ (b'-' ∷ write_slug model_id)) (
    All-append IsNameByte (write_slug tag) (b'-' ∷ write_slug model_id) (write_slug-IsNameByte tag)
      (refl, write_slug-IsNameByte model_id))
