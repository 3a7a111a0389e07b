-- ===== src/Model/Resolver.antt =====
-- The resolver of tagged profiles: `resolve`, `ensureProfile`, `findProfile`, `wrapsModel`, `sourceARN`
-- (internal/model/costtag.go). Each listing of the control plane is a list of pages, a page an error or
-- its entries; warnings are kept as the list of the models that had one.
use Prim.Native.Char.{code}
use go_cascade.Base.{
  ◌==◌, str_eq, if◌then◌else◌, any, ℕ, String, ◌<>◌, ◌⊎◌, inl, inr, Bool, false, not, ◌||◌, Option,
  none, some, List, [], ◌∷◌,
}
use go_cascade.Model.Names.{profile_name}

pub record Summary : Type 0 where
  pub name : Option String
  pub id : Option String
  pub arn : Option String
  pub status : String
  pub models : List (Option String)

abbrev pub Pages : Type 0
Pages = List (String ⊎ List Summary)

pub record Created : Type 0 where
  pub arn : Option String
  pub status : String

-- The control plane, the bytes of a text, and a text quoted by `%q`.
pub record ProfileApi {ℓ} (W : Type ℓ) : Type ℓ where
  pub system_profiles : W → Pages × W
  pub application_profiles : W → Pages × W
  pub foundation_models : W → (String ⊎ List (Option String × Option String)) × W
  pub create : (name source tag : String) → W → (String ⊎ Created) × W
  pub bytes : String → List ℕ
  pub text : List ℕ → String
  pub quote : String → String

abbrev active : String
active = "ACTIVE"

-- Behind the last slash, if there is one.
after_slash : String → Option String
after_slash String.[] = none
after_slash (String.◌∷◌ c s) =
    let here = if code c == b'/' then some s else none in
    elim (after_slash s) [ some t ↦ some t | none ↦ here ]

unfoldable pub arn_tail : String → String
unfolding after_slash
arn_tail arn = elim (after_slash arn) [ some t ↦ t | none ↦ arn ]

-- A text without a prefix that it has.
unfoldable pub without_prefix : String → String → Option String
without_prefix String.[] s = some s
without_prefix (String.◌∷◌ c p) String.[] = none
without_prefix (String.◌∷◌ c p) (String.◌∷◌ d s) =
    let rest = without_prefix p s in if code c == code d then rest else none

abbrev pub cross_region_prefixes : List String
cross_region_prefixes = "us-gov." ∷ "us." ∷ "eu." ∷ "apac." ∷ "global." ∷ []

unfoldable pub strip_first : List String → String → String
unfolding without_prefix
strip_first [] id = id
strip_first (p ∷ ps) id =
    let rest = strip_first ps id in elim (without_prefix p id) [ some t ↦ t | none ↦ rest ]

unfoldable pub model_identity : String → String
unfolding arn_tail strip_first
model_identity arn = strip_first cross_region_prefixes (arn_tail arn)

abbrev is_same : String → Option String → Bool
is_same want none = false
is_same want (some s) = str_eq s want

abbrev tracks : String → Option String → Bool
tracks want none = false
tracks want (some arn) = str_eq (model_identity arn) want

unfoldable pub wraps_model : Summary → String → Bool
unfolding model_identity
wraps_model s source = any (tracks (model_identity source)) s.models

abbrev pub is_active : String → Bool
is_active status = str_eq status "" || str_eq status active

-- The verdict on the profile of the name.
abbrev pub usable : (name source : String) → Summary → String → String ⊎ String
usable name source s arn =
    if not (wraps_model s source)
    then inl ("profile " <> name <> " exists but does not wrap " <> source)
    else if not (is_active s.status)
    then inl ("profile " <> name <> " is " <> s.status <> ", not ACTIVE")
    else inr arn

abbrev pub named : String → Summary → Option String
named name s = if is_same name s.name then s.arn else none

unfoldable pub find_in_page : (name source : String) → List Summary → Option (String ⊎ String)
find_in_page name source [] = none
find_in_page name source (s ∷ ss) =
    let rest = find_in_page name source ss in
    elim (named name s) [ none ↦ rest | some arn ↦ some (usable name source s arn) ]

-- `findProfile`: an error, or the ARN if there is such a profile.
unfoldable pub find_profile : (name source : String) → Pages → String ⊎ Option String
unfolding find_in_page
find_profile name source [] = inr none
find_profile name source (inl e ∷ ps) = inl e
find_profile name source (inr page ∷ ps) =
    let rest = find_profile name source ps in
    elim (find_in_page name source page) [
      | none ↦ rest
      | some (inl e) ↦ inl e
      | some (inr arn) ↦ inr (some arn)
    ]

abbrev system_arn : String → Summary → Option String
system_arn model_id s = if is_same model_id s.id then s.arn else none

source_in_page : String → List Summary → Option String
source_in_page model_id [] = none
source_in_page model_id (s ∷ ss) =
    let rest = source_in_page model_id ss in
    elim (system_arn model_id s) [ none ↦ rest | some arn ↦ some arn ]

source_in_pages : String → Pages → String ⊎ Option String
unfolding source_in_page
source_in_pages model_id [] = inr none
source_in_pages model_id (inl e ∷ ps) = inl e
source_in_pages model_id (inr page ∷ ps) =
    let rest = source_in_pages model_id ps in
    elim (source_in_page model_id page) [ none ↦ rest | some arn ↦ inr (some arn) ]

foundation_arn : String → List (Option String × Option String) → Option String
foundation_arn model_id [] = none
foundation_arn model_id ((id, arn) ∷ ms) =
    let rest = foundation_arn model_id ms in
    elim (if is_same model_id id then arn else none) [ none ↦ rest | some a ↦ some a ]

abbrev found_or : String → Option String → String ⊎ String
found_or e none = inl e
found_or e (some arn) = inr arn

-- The state of a resolver; no tag, no resolution.
pub record State : Type 0 where
  pub tag : String
  pub arns : List (String × String)
  pub warned : List String

abbrev pub new_resolver : String → State
new_resolver tag = record { tag = tag; arns = []; warned = [] }

unfoldable pub lookup : String → List (String × String) → Option String
lookup k [] = none
lookup k ((j, v) ∷ m) = let rest = lookup k m in if str_eq j k then some v else rest

module _ {ℓ} {W : Type ℓ} (api : ProfileApi W) where
  open api use {system_profiles, application_profiles, foundation_models, create, bytes, text}

  unfoldable pub source_arn : String → W → (String ⊎ String) × W
  unfolding source_in_pages foundation_arn
  source_arn model_id w =
      let (pages, w') = system_profiles w in
      let (models, w'') = foundation_models w' in
      let missing =
        "no foundation model or system-defined profile with id " <> api.quote model_id in
      elim (source_in_pages model_id pages) [
        | inl e ↦ (inl e, w')
        | inr (some arn) ↦ (inr arn, w')
        | inr none ↦ elim models [
          | inl e ↦ (inl e, w'')
          | inr ms ↦ (found_or missing (foundation_arn model_id ms), w'')
        ]
      ]

  abbrev pub named_for : String → String → String
  named_for tag model_id = text (profile_name (bytes tag) (bytes model_id))

  abbrev made : String → Option String → String → String ⊎ String
  made name none status = inl ("created profile " <> name <> " has no ARN")
  made name (some arn) status =
      if is_active status
      then inr arn
      else inl ("profile " <> name <> " is " <> status <> ", not ACTIVE")

  abbrev pub from_created : String → String ⊎ Created → String ⊎ String
  from_created name (inl e) = inl e
  from_created name (inr c) = made name c.arn c.status

  -- Of the source of a model: its profile, found or created.
  unfoldable pub profile_of : (tag name source : String) → W → (String ⊎ String) × W
  unfolding find_profile
  profile_of tag name source w =
      let (pages, w') = application_profiles w in
      let (c, w'') = create name source tag w' in
      elim (find_profile name source pages) [
        | inl e ↦ (inl e, w')
        | inr (some arn) ↦ (inr arn, w')
        | inr none ↦ (from_created name c, w'')
      ]

  unfoldable pub ensure_profile : (tag model_id : String) → W → (String ⊎ String) × W
  unfolding source_arn profile_of
  ensure_profile tag model_id w =
      let (s, w') = source_arn model_id w in
      elim s [
        | inl e ↦ (inl e, w')
        | inr source ↦ profile_of tag (named_for tag model_id) source w'
      ]

  abbrev warn_once : String → List String → List String
  warn_once model_id warned = if any (str_eq model_id) warned then warned else model_id ∷ warned

  abbrev pub settled : State → String → (String ⊎ String) × W → String × (State × W)
  settled r model_id (inl e, w) = (
    model_id,
    (record r { arns = (model_id, model_id) ∷ r.arns; warned = warn_once model_id r.warned }, w),
  )
  settled r model_id (inr arn, w) = (arn, (record r { arns = (model_id, arn) ∷ r.arns }, w))

  -- What is sent for a model.
  unfoldable pub resolve : String → State → W → String × (State × W)
  unfolding ensure_profile lookup
  resolve model_id r w =
      if str_eq r.tag "" || str_eq model_id ""
      then (model_id, (r, w))
      else elim (lookup model_id r.arns) [
        | some arn ↦ (arn, (r, w))
        | none ↦ settled r model_id (ensure_profile r.tag model_id w)
      ]

  -- The state behind a sequence of calls.
  unfoldable pub resolve_all : List String → State → W → State × W
  unfolding resolve
  resolve_all [] r w = (r, w)
  resolve_all (m ∷ ms) r w = let out = resolve m r w in resolve_all ms out.1.0 out.1.1
