-- ===== src/Cache/Known.antt =====
-- What the failure layer keeps (internal/cache/cache.go).
use go_cascade.Base.{
  ltb, str_eq, ltb→lt, Bool-cases, if_ind, length, drop, any, All, length-append, length-drop, ℕ,
  zero, suc, ◌-◌, ◌≤◌, String, ◌≡◌, refl, ap, ◌∙◌, inl, inr, Bool, true, false, List, [], ◌∷◌, ◌++◌,
  arith, eq_iff,
}
use go_cascade.Cache.{Failure, Failures, failures, write_failures, newest, add_failure}

abbrev pub knows : String → List Failure → Bool
knows h fs = any (λ x. str_eq x.canon_hash h) fs

-- No list is longer than 64.
abbrev pub IsBounded : Failures → Type 0
IsBounded store = All (λ e. length e.1 ≤ 64) store

str_eq_refl : (s : String) → str_eq s s ≡ true
str_eq_refl s = (eq_iff s s).1 refl

newest_le : (fs : List Failure) → length (newest fs) ≤ 64
newest_le fs =
    if_ind (λ gs. length gs ≤ 64) (ltb 64 (length fs)) {x = drop (length fs - 64) fs} {y = fs}
      (λ e. omega (arith, length-drop (length fs - 64) fs, ltb→lt 64 (length fs) e))
      (λ e. ground (arith, e))

knows-last : (f : Failure) (fs : List Failure) → knows f.canon_hash (fs ++ (f ∷ [])) ≡ true
knows-last f [] = rw (str_eq_refl f.canon_hash)
knows-last f (g ∷ gs) = ground (arith, knows-last f gs)

knows-drop :
    (f : Failure) (n : ℕ) (fs : List Failure)
    → n ≤ length fs
    → knows f.canon_hash (drop n (fs ++ (f ∷ []))) ≡ true
knows-drop f zero fs h = knows-last f fs
knows-drop f (suc n) [] h = absurd (omega (arith, h))
knows-drop f (suc n) (g ∷ gs) h = knows-drop f n gs (omega (arith, h))

knows-newest :
    (f : Failure) (fs : List Failure) → knows f.canon_hash (newest (fs ++ (f ∷ []))) ≡ true
knows-newest f fs =
    if_ind (λ gs. knows f.canon_hash gs ≡ true) (ltb 64 (length (fs ++ (f ∷ []))))
      {x = drop (length (fs ++ (f ∷ [])) - 64) (fs ++ (f ∷ []))} {y = fs ++ (f ∷ [])}
      (λ _.
        knows-drop f (length (fs ++ (f ∷ [])) - 64) fs (omega (arith, length-append fs (f ∷ []))))
      (λ _. knows-last f fs)

write_failures-IsBounded :
    (ph : String) (fs : List Failure) (store : Failures)
    → length fs ≤ 64
    → IsBounded store
    → IsBounded (write_failures ph fs store)
unfolding write_failures
write_failures-IsBounded ph fs [] h _ = (h, tt)
write_failures-IsBounded ph fs ((k, gs) ∷ store) h (g, rest) =
    if_ind IsBounded (str_eq k ph) (λ _. (h, rest))
      (λ _. (g, write_failures-IsBounded ph fs store h rest))

failures-write_failures :
    (ph : String) (fs : List Failure) (store : Failures)
    → failures (write_failures ph fs store) ph ≡ fs
unfolding write_failures failures
failures-write_failures ph fs [] = rw (str_eq_refl ph)
failures-write_failures ph fs ((k, gs) ∷ store) = elim (Bool-cases (str_eq k ph)) [
  | inl e ↦ rw e (rw (str_eq_refl ph))
  | inr e ↦ rw e (rw e (failures-write_failures ph fs store))
]

failures-write_failures_other :
    (ph other : String) (fs : List Failure) (store : Failures)
    → str_eq ph other ≡ false
    → failures (write_failures ph fs store) other ≡ failures store other
unfolding write_failures failures
failures-write_failures_other ph other fs [] h = rw h
failures-write_failures_other ph other fs ((k, gs) ∷ store) h = elim (Bool-cases (str_eq k ph)) [
  | inl e ↦ let apart = ap (λ x. str_eq x other) ((eq_iff k ph).0 e) ∙ h in rw e (rw h (rw apart))
  | inr e ↦ rw e (rw (failures-write_failures_other ph other fs store h))
]

-- On an enabled cache of lists of at most 64 forms, `AddFailure` keeps every list at most 64
-- long; right after the call `Failures` of the problem holds the added form, and of any other
-- problem is as it was.
pub add_failure-IsBounded :
    (ph : String) (f : Failure) (store : Failures)
    → IsBounded store
    → let store' = add_failure false ph f store in
      IsBounded store'
      × (knows f.canon_hash (failures store' ph) ≡ true)
      × ((other : String) → str_eq ph other ≡ false → failures store' other ≡ failures store other)
unfolding add_failure
add_failure-IsBounded ph f store h = elim (Bool-cases (knows f.canon_hash (failures store ph))) [
  | inl e ↦ rw e (h, e, λ other apart. refl)
  | inr e ↦
      let fs = newest (failures store ph ++ (f ∷ [])) in
      rw e (
        write_failures-IsBounded ph fs store (newest_le (failures store ph ++ (f ∷ []))) h,
        rw (failures-write_failures ph fs store) (knows-newest f (failures store ph)),
        λ other apart. failures-write_failures_other ph other fs store apart,
      )
]

-- `AddFailure` keeps every list at most 64 long, whether the cache is enabled or not.
pub add_failure_kept :
    (disabled : Bool) (ph : String) (f : Failure) (store : Failures)
    → IsBounded store
    → IsBounded (add_failure disabled ph f store)
unfolding add_failure
add_failure_kept true ph f store h = h
add_failure_kept false ph f store h = (add_failure-IsBounded ph f store h).0
