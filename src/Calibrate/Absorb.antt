-- ===== src/Calibrate/Absorb.antt =====
-- A cache that absorbs a share of recorded traffic (internal/calibrate/absorb.go): the streams. A
-- `uint64` is a natural number, wrapped. `bits` is `math.Float64bits`.
pub mod Shuffle
pub mod Split
pub mod Sweep
use Prim.Native.Nat.{bit_or, bit_xor}
use Prim.Native.Char.{code}
use go_cascade.Base.{
  leb, str_eq, if◌then◌else◌, Result, ok, err, fault, ◌>>=◌, length, get_elem?, take, drop,
  is_empty, filter_by, sort_stable, ℤ, pos, negsuc, float_arg, str_arg, Sprintf, ℕ, zero, suc, ◌+◌,
  ◌-◌, ◌*◌, ◌/◌, ◌%◌, ◌^◌, String, ◌<>◌, Bool, false, not, ◌||◌, Option, none, some, List, [], ◌∷◌,
  map,
}
use go_cascade.Float.{Float}
use go_cascade.Calibrate.Records.{TierObs, Record, bool_eq, truth}
use go_cascade.Calibrate.Stats.{Math}

-- A Go map's or slice's index out of range is a `fault`.
module _ {ℓ} {A : Type ℓ} where
  abbrev pub set : List A → ℕ → A → List A
  set [] i v = []
  set (x ∷ xs) zero v = v ∷ xs
  set (x ∷ xs) (suc i) v = x ∷ set xs i v

  abbrev pub swapped_with : List A → ℕ → ℕ → Option A → Option A → Result (List A)
  swapped_with xs i j (some a) (some b) = ok (set (set xs i b) j a)
  swapped_with xs i j (some a) none = fault
  swapped_with xs i j none b = fault

  -- `idx[i], idx[j] = idx[j], idx[i]`
  unfoldable pub swapped : List A → ℕ → ℕ → Result (List A)
  swapped xs i j = swapped_with xs i j (get_elem? xs i) (get_elem? xs j)

  abbrev pub put_first : Option A → Result (List A) → Result (List A)
  put_first none r = fault
  put_first (some a) r = r >>= (λ xs. ok (a ∷ xs))

  -- The records at some indices.
  unfoldable pub pick : List A → List ℕ → Result (List A)
  pick xs [] = ok []
  pick xs (i ∷ is) = put_first (get_elem? xs i) (pick xs is)

  -- `xs[d:]`
  unfoldable pub slice_from : ℤ → List A → Result (List A)
  slice_from (negsuc k) xs = fault
  slice_from (pos d) xs = if leb d (length xs) then ok (drop d xs) else fault

  -- `xs[:d]`
  unfoldable pub slice_to : ℕ → List A → Result (List A)
  slice_to d xs = if leb d (length xs) then ok (take d xs) else fault

abbrev pub word : ℕ
word = 2 ^ 64

abbrev pub mixed : ℕ → ℕ → ℕ → ℕ
mixed z shift factor = bit_xor z (z / 2 ^ shift) * factor % word

-- A step of splitmix64: the state, and the number drawn from it.
unfoldable pub splitmix : ℕ → ℕ × ℕ
splitmix s =
    let s' = (s + 0x9e3779b97f4a7c15) % word in
    let z = mixed (mixed s' 30 0xbf58476d1ce4e5b9) 27 0x94d049bb133111eb in
    (s', bit_xor z (z / 2 ^ 31))

-- The loop, from the index `i` down to 1.
unfoldable pub shuffle : ℕ → ℕ → List ℕ → Result (List ℕ)
unfolding splitmix swapped
shuffle zero s idx = ok idx
shuffle (suc i) s idx =
    let (s', z) = splitmix s in
    swapped idx (suc i) (z % suc (suc i)) >>= (λ next. shuffle i s' next)

-- `idx[i] = i`, from `k` on.
abbrev pub indices_from : ℕ → ℕ → List ℕ
indices_from k zero = []
indices_from k (suc n) = k ∷ indices_from (suc k) n

unfoldable pub permutation : ℕ → ℕ → Result (List ℕ)
unfolding shuffle
permutation n seed = shuffle (n - 1) (bit_or seed 1) (indices_from 0 n)

-- Over the bytes; the names of the patterns are ASCII.
abbrev hash_bytes : ℕ → String → ℕ
hash_bytes h String.[] = h
hash_bytes h (String.◌∷◌ c s) = hash_bytes (bit_xor h (code c) * 1099511628211 % word) s

unfoldable pub hash_string : String → ℕ
hash_string s = hash_bytes 1469598103934665603 s

unfoldable pub join_note : String → String → String
join_note a b = if str_eq a "" then b else if str_eq b "" then a else a <> "; " <> b

abbrev pub uniform : String
uniform = "uniform"

abbrev pub easy_first : String
easy_first = "easy-first"

abbrev pub cheap_accept : String
cheap_accept = "cheap-accept"

module _ {ℓ} {F : Type ℓ} where
  unfoldable pub usable_records : List (Record F) → List (Record F)
  usable_records recs = filter_by (λ r. not (r.contaminated || r.oracle_unsound)) recs

  unfoldable pub strip_shadow_flags : List (Record F) → List (Record F)
  strip_shadow_flags recs = map (λ (r : Record F). record r { shadow = false }) recs

  abbrev first_truth : List (TierObs F) → Bool
  first_truth [] = false
  first_truth (t ∷ ts) = truth t

  unfoldable pub tier0_correct : Record F → Bool
  tier0_correct r = first_truth r.tiers

module _ {ℓ} {F : Type ℓ} ⦃fl : Float F⦄ where
  abbrev first_score : List (TierObs F) → F
  first_score [] = fl.lit 0 0
  first_score (t ∷ ts) = t.score

  unfoldable pub tier0_score : Record F → F
  tier0_score r = first_score r.tiers

  abbrev served_by : List (TierObs F) → List F → Bool
  served_by [] tau = false
  served_by (t ∷ ts) [] = false
  served_by (t ∷ ts) (x ∷ tau) = fl.le x t.score

  unfoldable pub served_at_tier0 : List F → Record F → Bool
  served_at_tier0 tau r = served_by r.tiers tau

  abbrev count_correct : List (Record F) → F → F
  count_correct [] n = n
  count_correct (r ∷ rs) n = count_correct rs (if tier0_correct r then fl.add n (fl.lit 1 0) else n)

  unfoldable pub tier0_accuracy : List (Record F) → F
  tier0_accuracy [] = fl.lit 0 0
  tier0_accuracy (r ∷ rs) =
      fl.div (count_correct (r ∷ rs) (fl.lit 0 0)) (fl.of_nat (length (r ∷ rs)))

  -- The two sorts: first those of a kind, then by the score of tier 0.
  abbrev pub first_by : (Record F → Bool) → Record F → Record F → Bool
  first_by kind a b =
      if bool_eq (kind a) (kind b) then fl.lt (tier0_score b) (tier0_score a) else kind a

  module _ ⦃m : Math F⦄ (bits : F → ℕ) (seed : ℕ) (tau : List F) where
    -- `n - 1`
    abbrev before : ℕ → ℤ
    before zero = negsuc 0
    before (suc n) = pos n

    abbrev pub capped : ℕ → ℤ → ℤ
    capped n (negsuc k) = negsuc k
    capped n (pos d) = if leb n d then before n else pos d

    -- How many records are absorbed.
    unfoldable pub drop_count : ℕ → F → ℤ
    drop_count n rho = capped n (m.to_int (m.round (fl.mul rho (fl.of_nat n))))

    abbrev pub cheap_note : String
    cheap_note =
        if is_empty tau
        then "cheap-accept given no tau; fell back to ordering by tier-0 score alone, which is easy-first without the oracle label"
        else ""

    abbrev pub noted : String → Result (List (Record F)) → Result (List (Record F) × String)
    noted note r = r >>= (λ xs. ok (xs, note))

    unfoldable pub absorb :
        Sprintf F → List (Record F) → String → F → Result (List (Record F) × String)
    unfolding drop_count slice_from pick permutation tier0_score tier0_correct served_at_tier0
    absorb sprintf recs pat rho =
        let n = length recs in
        let d = drop_count n rho in
        if fl.lt rho (fl.lit 0 0) || fl.le (fl.lit 1 0) rho
        then err (sprintf "absorption rate rho must be in [0,1), got %v" (float_arg rho ∷ []))
        else if str_eq pat uniform
        then noted "" (
            permutation n (bit_xor seed (bits rho))
            >>= (λ idx. slice_from d idx)
            >>= (λ is. pick recs is))
        else if str_eq pat easy_first
        then noted "" (slice_from d (sort_stable (first_by tier0_correct) recs))
        else if str_eq pat cheap_accept
        then noted cheap_note (slice_from d (sort_stable (first_by (served_at_tier0 tau)) recs))
        else err (sprintf "unknown absorption pattern %q" (str_arg pat ∷ []))

    -- At least one record.
    abbrev pub wanted : ℤ → ℕ
    wanted (negsuc k) = 1
    wanted (pos zero) = 1
    wanted (pos (suc k)) = suc k

    unfoldable pub shadow_draw : List (Record F) → F → String → F → Result (List (Record F))
    unfolding hash_string permutation slice_to pick
    shadow_draw residual eps pat rho =
        let key = bit_xor (bit_xor (bit_xor seed (bits eps)) (bits rho)) (hash_string pat) in
        let want = wanted (m.to_int (m.round (fl.mul eps (fl.of_nat (length residual))))) in
        if fl.le (fl.lit 1 0) eps
        then ok residual
        else permutation (length residual) key
          >>= (λ idx. slice_to want idx)
          >>= (λ is. pick residual is)
