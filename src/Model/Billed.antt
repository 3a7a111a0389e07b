-- ===== src/Model/Billed.antt =====
-- What stands for a model (internal/model/costtag.go).
use mathlib.Core.List.{Memᴰ}
use go_cascade.Base.{
  Bool-cases, Option-cases, Sum-cases, String, ◌≡◌, refl, ◌⊎◌, inl, inr, true, none, some, List, [],
  ◌∷◌,
}
use go_cascade.Model.Resolver.{
  Summary, Pages, Created, ProfileApi, is_active, wraps_model, usable, named, find_in_page,
  find_profile, source_arn, named_for, from_created, profile_of, ensure_profile,
}

-- A profile of a listing.
abbrev pub InPages : Summary → Pages → Type 0
InPages s pages = (page : List Summary) × (Memᴰ (inr page) pages × Memᴰ s page)

-- A profile of that name, with that ARN, which is active and tracks the source.
pub record IsUsable (name source : String) (s : Summary) (arn : String) : Type 0 where
  pub named_ : named name s ≡ some arn
  pub wraps_ : wraps_model s source ≡ true
  pub active_ : is_active s.status ≡ true

usable-IsUsable :
    (name source : String) (s : Summary) (arn a : String)
    → named name s ≡ some arn
    → usable name source s arn ≡ inr a
    → IsUsable name source s a
usable-IsUsable name source s arn a n e = elim (Bool-cases (wraps_model s source)) [
  | inr f ↦ let no : inl _ ≡ inr a = rw f at e in absurd cc
  | inl f ↦ elim (Bool-cases (is_active s.status)) [
    | inr g ↦ let no : inl _ ≡ inr a = rw (f, g) at e in absurd cc
    | inl g ↦
        let same : inr arn ≡ inr a = rw (f, g) at e in
        let here : arn ≡ a = cc in record { named_ = rw here at n; wraps_ = f; active_ = g }
  ]
]

find_in_page-IsUsable :
    (name source : String) (ss : List Summary) (a : String)
    → find_in_page name source ss ≡ some (inr a)
    → (s : Summary) × (Memᴰ s ss × IsUsable name source s a)
unfolding find_in_page
find_in_page-IsUsable name source [] a e = absurd cc
find_in_page-IsUsable name source (s ∷ ss) a e = elim (Option-cases (named name s)) [
  | inl n ↦
      let (t, (m, u)) = find_in_page-IsUsable name source ss a (rw (find_in_page, n) at e) in
      (t, (Memᴰ.tail m, u))
  | inr (arn, n) ↦
      let same : some (usable name source s arn) ≡ some (inr a) = rw (find_in_page, n) at e in
      (s, (Memᴰ.head refl, usable-IsUsable name source s arn a n cc))
]

find_profile-IsUsable :
    (name source : String) (ps : Pages) (a : String)
    → find_profile name source ps ≡ inr (some a)
    → (s : Summary) × (InPages s ps × IsUsable name source s a)
unfolding find_profile
find_profile-IsUsable name source [] a e = let no : inr none ≡ inr (some a) = e in absurd cc
find_profile-IsUsable name source (inl m ∷ ps) a e = absurd cc
find_profile-IsUsable name source (inr page ∷ ps) a e =
    elim (Option-cases (find_in_page name source page)) [
      | inl n ↦
          let (s, ((p, (i, j)), u)) =
            find_profile-IsUsable name source ps a (rw (find_profile, n) at e) in
          (s, ((p, (Memᴰ.tail i, j)), u))
      | inr (inl m, n) ↦ let no : inl m ≡ inr (some a) = rw (find_profile, n) at e in absurd cc
      | inr (inr arn, n) ↦
          let same : inr (some arn) ≡ inr (some a) = rw (find_profile, n) at e in
          let here : arn ≡ a = cc in
          let (s, (j, u)) = find_in_page-IsUsable name source page a (rw here at n) in
          (s, ((page, (Memᴰ.head refl, j)), u))
    ]

module _ {ℓ} {W : Type ℓ} (api : ProfileApi W) where
  -- An ARN stands for a model: it is of a profile under the model's name whose source is the model's ARN, one that
  -- a listing has, which is active and tracks the source, or one that was created from it, and is active.
  pub data IsBilled (tag model_id arn : String) : Type ℓ where
    found :
        (source : String) (w v : W) (s : Summary)
        → (source_arn api model_id w).0 ≡ inr source
        → InPages s (api.application_profiles v).0
        → IsUsable (named_for api tag model_id) source s arn
        → IsBilled tag model_id arn
    created :
        (source : String) (w v : W) (c : Created)
        → (source_arn api model_id w).0 ≡ inr source
        → (api.create (named_for api tag model_id) source tag v).0 ≡ inr c
        → c.arn ≡ some arn
        → is_active c.status ≡ true
        → IsBilled tag model_id arn

  created-active :
      (name a : String) (o : String ⊎ Created)
      → from_created api name o ≡ inr a
      → (c : Created) × ((o ≡ inr c) × ((c.arn ≡ some a) × (is_active c.status ≡ true)))
  created-active name a (inl e) h = absurd cc
  created-active name a (inr c) h = elim (Option-cases c.arn) [
    | inl f ↦ let no : inl _ ≡ inr a = rw f at h in absurd cc
    | inr (arn, f) ↦ elim (Bool-cases (is_active c.status)) [
      | inr g ↦ let no : inl _ ≡ inr a = rw (f, g) at h in absurd cc
      | inl g ↦
          let same : inr arn ≡ inr a = rw (f, g) at h in
          let here : arn ≡ a = cc in (c, (refl, (rw here at f, g)))
    ]
  ]

  profile_of-IsBilled :
      (tag model_id source a : String) (w v : W)
      → (source_arn api model_id w).0 ≡ inr source
      → (profile_of api tag (named_for api tag model_id) source v).0 ≡ inr a
      → IsBilled tag model_id a
  unfolding profile_of
  profile_of-IsBilled tag model_id source a w v src e =
      let name = named_for api tag model_id in
      let pages = (api.application_profiles v).0 in
      elim (Sum-cases (find_profile name source pages)) [
        | inl (m, f) ↦ let no : inl m ≡ inr a = rw (profile_of, f) at e in absurd cc
        | inr (some arn, f) ↦
            let same : inr arn ≡ inr a = rw (profile_of, f) at e in
            let here : arn ≡ a = cc in
            let (s, (j, u)) = find_profile-IsUsable name source pages a (rw here at f) in
            IsBilled.found source w v s src j u
        | inr (none, f) ↦
            let u = (api.application_profiles v).1 in
            let (c, (made_, (arn, up))) =
              created-active name a (api.create name source tag u).0 (rw (profile_of, f) at e) in
            IsBilled.created source w u c src made_ arn up
      ]

  pub ensure_profile-IsBilled :
      (tag model_id a : String) (w : W)
      → (ensure_profile api tag model_id w).0 ≡ inr a
      → IsBilled tag model_id a
  unfolding ensure_profile
  ensure_profile-IsBilled tag model_id a w e = elim (Sum-cases (source_arn api model_id w).0) [
    | inl (m, f) ↦ let no : inl m ≡ inr a = rw (ensure_profile, f) at e in absurd cc
    | inr (source, f) ↦
        profile_of-IsBilled tag model_id source a w (source_arn api model_id w).1 f
          (rw (ensure_profile, f) at e)
  ]
