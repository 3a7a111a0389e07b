-- ===== src/Tests/Tagging.antt =====
-- A control plane with one model of a foundation, and no profile of its own.
use go_cascade.Base.{ℕ, suc, ◌⊎◌, ◌≡◌, refl, inr, some, [], ◌∷◌}
use go_cascade.Model.Names.{IsName, profile_name, profile_name-IsName}
use go_cascade.Model.Resolver.{ProfileApi, new_resolver, resolve, resolve_all}
use go_cascade.Model.Billed.{IsBilled}
use go_cascade.Model.Resolved.{resolve-IsBilled}

abbrev plane : ProfileApi ℕ
plane = record {
  system_profiles = λ w. (inr [] ∷ [], suc w);
  application_profiles = λ w. (inr [] ∷ [], suc w);
  foundation_models = λ w. (inr ((some "qwen", some "arn/qwen") ∷ []), suc w);
  create =
      λ name source tag w. (inr (record { arn = some "arn/profile"; status = "ACTIVE" }), suc w);
  bytes = λ s. b'q' ∷ [];
  text = λ b. "q";
  quote = λ s. s;
}

first_sent : (resolve plane "qwen" (new_resolver "study") 0).0 ≡ "arn/profile"
unfolding resolve
first_sent = refl

fallback_sent : (resolve plane "other" (new_resolver "study") 0).0 ≡ "other"
unfolding resolve
fallback_sent = refl

resolve-IsBilled_example :
    let (r, v) = resolve_all plane [] (new_resolver "study") 0 in
    let (a, later) = resolve plane "qwen" r v in
    let (r', v') = resolve_all plane ("other" ∷ "qwen" ∷ []) later.0 later.1 in
    ((a ≡ "qwen") ⊎ IsBilled plane "study" "qwen" a) × (resolve plane "qwen" r' v' ≡ (a, (r', v')))
resolve-IsBilled_example = resolve-IsBilled plane "study" "qwen" [] ("other" ∷ "qwen" ∷ []) 0

profile_name-IsName_example : IsName (profile_name (b'a' ∷ b'.' ∷ []) (b':' ∷ []))
profile_name-IsName_example = profile_name-IsName (b'a' ∷ b'.' ∷ []) (b':' ∷ [])
