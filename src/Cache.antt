-- ===== src/Cache.antt =====
-- Package cache (internal/cache). Here its failure layer, refuted canonical forms by problem (cache.go).
-- The files of the failures directory are an association list from the problem's hash.
pub mod Known
pub mod Entries
pub mod Similarity
pub mod Kept
use go_cascade.Base.{
  ltb, str_eq, if◌then◌else◌, length, drop, any, ◌-◌, String, Bool, ◌||◌, List, [], ◌∷◌, ◌++◌,
}

pub record Failure : Type 0 where
  pub canon_hash : String
  pub stage : String
  pub summary : String

abbrev pub Failures : Type 0
Failures = List (String × List Failure)

unfoldable pub failures : Failures → String → List Failure
failures [] ph = []
failures ((k, fs) ∷ store) ph = if str_eq k ph then fs else failures store ph

pub write_failures : String → List Failure → Failures → Failures
write_failures ph fs [] = (ph, fs) ∷ []
write_failures ph fs ((k, gs) ∷ store) =
    if str_eq k ph then (ph, fs) ∷ store else (k, gs) ∷ write_failures ph fs store

-- The last 64 of a list.
abbrev pub newest : List Failure → List Failure
newest fs = if ltb 64 (length fs) then drop (length fs - 64) fs else fs

-- A form that is known already is not added again.
unfoldable pub add_failure : Bool → String → Failure → Failures → Failures
unfolding write_failures failures
add_failure disabled ph f store =
    let fs = failures store ph in
    if disabled || any (λ x. str_eq x.canon_hash f.canon_hash) fs
    then store
    else write_failures ph (newest (fs ++ (f ∷ []))) store
