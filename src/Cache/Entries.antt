-- ===== src/Cache/Entries.antt =====
-- The contracts and the solutions of package cache (internal/cache/cache.go): `PutSpec`, `GetSpec`,
-- `PutSolution`, `Retrieve`. A directory of files is an association list by the file's name without
-- its extension; `CreatedAt` is a time and left out.
use go_cascade.Base.{
  ltb, str_eq, if◌then◌else◌, length, take, sort_stable, ℕ, String, ◌<>◌, Bool, not, ◌&&◌, ◌||◌,
  Option, none, some, List, [], ◌∷◌,
}
use go_cascade.Float.{Float}
use go_cascade.Cluster.{str_lt}

pub record CachedSpec : Type 0 where
  pub problem_hash : String
  pub api : String
  pub visible_tests : String
  pub hidden_tests : String
  pub author : String

pub record Entry {ℓ} (F : Type ℓ) : Type ℓ where
  pub id : String
  pub problem : String
  pub problem_hash : String
  pub api : String
  pub solution : String
  pub canon_hash : String
  pub tier : String
  pub score : F
  pub mutation_score : F

-- `Scored`: what `Retrieve` gives.
pub record Hit {ℓ} (F : Type ℓ) : Type ℓ where
  pub entry : Entry F
  pub likeness : F

abbrev pub Directory {ℓ} : Type ℓ → Type ℓ
Directory A = List (String × A)

module _ {ℓ} {A : Type ℓ} where
  unfoldable pub read_file : String → Directory A → Option A
  read_file name [] = none
  read_file name ((k, v) ∷ files) = if str_eq k name then some v else read_file name files

  unfoldable pub write_file : String → A → Directory A → Directory A
  write_file name v [] = (name, v) ∷ []
  write_file name v ((k, w) ∷ files) =
      if str_eq k name then (name, v) ∷ files else (k, w) ∷ write_file name v files

unfoldable pub put_spec : Bool → CachedSpec → Directory CachedSpec → Directory CachedSpec
put_spec disabled s specs = if disabled then specs else write_file s.problem_hash s specs

unfoldable pub get_spec : Bool → String → Directory CachedSpec → Option CachedSpec
get_spec disabled ph specs = if disabled then none else read_file ph specs

module _ {ℓ} {F : Type ℓ} ⦃fl : Float F⦄ where
  abbrev named : Entry F → Option String → Option (Entry F)
  named e none = none
  named e (some h) = some (record e { canon_hash = h; id = e.problem_hash <> "-" <> h })

  -- The entry as it is written, if its form has a hash.
  unfoldable pub stamped : (String → Option String) → Entry F → Option (Entry F)
  stamped canonical_hash e =
      named e (if str_eq e.canon_hash "" then canonical_hash e.solution else some e.canon_hash)

  abbrev store_entry : Option (Entry F) → Directory (Entry F) → Directory (Entry F)
  store_entry none files = files
  store_entry (some e) files = write_file e.id e files

  unfoldable pub put_solution :
      (String → Option String) → Bool → Entry F → Directory (Entry F) → Directory (Entry F)
  unfolding stamped
  put_solution canonical_hash disabled e files =
      if disabled then files else store_entry (stamped canonical_hash e) files

  module _ (similarity : String → String → F) where
    -- `sim` is 1.0 for the problem itself.
    abbrev pub likeness_to : String → String → Entry F → F
    likeness_to problem target e =
        if str_eq e.problem_hash target then fl.lit 1 0 else similarity problem e.problem

    abbrev pub clears_floor : String → F → Entry F → F → Bool
    clears_floor target min_sim e sim = str_eq e.problem_hash target || not (fl.lt sim min_sim)

    unfoldable pub candidates_for : String → String → F → Directory (Entry F) → List (Hit F)
    candidates_for problem target min_sim [] = []
    candidates_for problem target min_sim ((k, e) ∷ files) =
        let rest = candidates_for problem target min_sim files in
        let sim = likeness_to problem target e in
        if clears_floor target min_sim e sim
        then record { entry = e; likeness = sim } ∷ rest
        else rest

    -- The order of the final sort.
    unfoldable pub better : Hit F → Hit F → Bool
    better a b =
        if not (fl.eq a.likeness b.likeness)
        then fl.lt b.likeness a.likeness
        else fl.lt b.entry.score a.entry.score

    abbrev pub by_name : String × Entry F → String × Entry F → Bool
    by_name (a, e) (b, f) = str_lt (a <> ".json") (b <> ".json")

    -- `os.ReadDir` lists the files by name.
    unfoldable pub retrieve : Bool → String → String → ℕ → F → Directory (Entry F) → List (Hit F)
    unfolding candidates_for better
    retrieve disabled problem target k min_sim files =
        let found =
          sort_stable better (candidates_for problem target min_sim (sort_stable by_name files)) in
        if disabled then [] else if ltb 0 k && ltb k (length found) then take k found else found
