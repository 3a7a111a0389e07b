-- ===== src/Model/Resolved.antt =====
-- What a resolver sends for a model (internal/model/costtag.go).
use go_cascade.Base.{
  str_eq, Bool-cases, Option-cases, String, ◌≡◌, refl, sym, ap, ◌∙◌, ◌⊎◌, inl, inr, true, false,
  ◌||◌, none, some, List, [], ◌∷◌, All, eq_iff, subst,
}
use go_cascade.Model.Resolver.{
  ProfileApi, State, lookup, ensure_profile, settled, new_resolver, resolve, resolve_all,
}
use go_cascade.Model.Billed.{IsBilled, ensure_profile-IsBilled}

module _ {ℓ} {W : Type ℓ} (api : ProfileApi W) where
  -- What a resolver has stored.
  abbrev IsHonest : State → Type ℓ
  IsHonest r = All (λ p. (p.1 ≡ p.0) ⊎ IsBilled api r.tag p.0 p.1) r.arns

  lookup-Honest :
      (tag m a : String) (arns : List (String × String))
      → All (λ p. (p.1 ≡ p.0) ⊎ IsBilled api tag p.0 p.1) arns
      → lookup m arns ≡ some a
      → (a ≡ m) ⊎ IsBilled api tag m a
  unfolding lookup
  lookup-Honest tag m a [] h e = absurd cc
  lookup-Honest tag m a ((k, x) ∷ ps) (h, hs) e = elim (Bool-cases (str_eq k m)) [
    | inr f ↦ lookup-Honest tag m a ps hs (rw (lookup, f) at e)
    | inl f ↦
        let same : some x ≡ some a = rw (lookup, f) at e in
        let here : x ≡ a = cc in
        let key : k ≡ m = (eq_iff k m).0 f in
        subst (λ z. (a ≡ z) ⊎ IsBilled api tag z a) key
          (subst (λ y. (y ≡ k) ⊎ IsBilled api tag k y) here h)
  ]

  settled-Honest :
      (r : State) (m : String) (o : (String ⊎ String) × W)
      → ((a : String) → o.0 ≡ inr a → IsBilled api r.tag m a)
      → IsHonest r
      → IsHonest (settled api r m o).1.0
        × (((settled api r m o).0 ≡ m) ⊎ IsBilled api r.tag m (settled api r m o).0)
  settled-Honest r m (inl e, w) f h = ((inl refl, h), inl refl)
  settled-Honest r m (inr a, w) f h = ((inr (f a refl), h), inr (f a refl))

  settled-tag :
      (r : State) (m : String) (o : (String ⊎ String) × W) → (settled api r m o).1.0.tag ≡ r.tag
  settled-tag r m (inl e, w) = refl
  settled-tag r m (inr a, w) = refl

  -- The ways of a call.
  resolve-off :
      (m : String) (r : State) (w : W)
      → str_eq r.tag "" || str_eq m "" ≡ true
      → (m, (r, w)) ≡ resolve api m r w
  unfolding resolve
  resolve-off m r w g = rw g refl

  resolve-known :
      (m a : String) (r : State) (w : W)
      → str_eq r.tag "" || str_eq m "" ≡ false
      → lookup m r.arns ≡ some a
      → (a, (r, w)) ≡ resolve api m r w
  unfolding resolve
  resolve-known m a r w g f = rw (g, f) refl

  resolve-new :
      (m : String) (r : State) (w : W)
      → str_eq r.tag "" || str_eq m "" ≡ false
      → lookup m r.arns ≡ none
      → settled api r m (ensure_profile api r.tag m w) ≡ resolve api m r w
  unfolding resolve
  resolve-new m r w g f = rw (g, f) refl

  -- An honest resolver stays so, and sends an honest name.
  abbrev Sends : State → String → String × (State × W) → Type ℓ
  Sends r m out =
      (IsHonest out.1.0 × (out.1.0.tag ≡ r.tag)) × ((out.0 ≡ m) ⊎ IsBilled api r.tag m out.0)

  resolve-Sends : (m : String) (r : State) (w : W) → IsHonest r → Sends r m (resolve api m r w)
  resolve-Sends m r w h = elim (Bool-cases (str_eq r.tag "" || str_eq m "")) [
    | inl g ↦ subst (Sends r m) (resolve-off m r w g) ((h, refl), inl refl)
    | inr g ↦ elim (Option-cases (lookup m r.arns)) [
      | inr (a, f) ↦
          subst (Sends r m) (resolve-known m a r w g f)
            ((h, refl), lookup-Honest r.tag m a r.arns h f)
      | inl f ↦
          let o = ensure_profile api r.tag m w in
          let (k, s) = settled-Honest r m o (λ a e. ensure_profile-IsBilled api r.tag m a w e) h in
          subst (Sends r m) (resolve-new m r w g f) ((k, settled-tag r m o), s)
    ]
  ]

  resolve_all-IsHonest :
      (ms : List String) (r : State) (w : W)
      → IsHonest r
      → IsHonest (resolve_all api ms r w).0 × ((resolve_all api ms r w).0.tag ≡ r.tag)
  unfolding resolve_all
  resolve_all-IsHonest [] r w h = (h, refl)
  resolve_all-IsHonest (m ∷ ms) r w h =
      let ((k, t), _) = resolve-Sends m r w h in
      let (k', t') = resolve_all-IsHonest ms (resolve api m r w).1.0 (resolve api m r w).1.1 k in
      (k', t' ∙ t)

  -- The answer for a model is decided.
  abbrev Decided : String → String → State → Type 0
  Decided m a r =
      ((str_eq r.tag "" || str_eq m "" ≡ true) × (a ≡ m))
      ⊎ ((str_eq r.tag "" || str_eq m "" ≡ false) × (lookup m r.arns ≡ some a))

  lookup_self : (m x : String) (ps : List (String × String)) → lookup m ((m, x) ∷ ps) ≡ some x
  unfolding lookup
  lookup_self m x ps = rw ((eq_iff m m).1 refl) refl

  lookup-past :
      (m a k x : String) (ps : List (String × String))
      → lookup k ps ≡ none
      → lookup m ps ≡ some a
      → lookup m ((k, x) ∷ ps) ≡ some a
  unfolding lookup
  lookup-past m a k x ps n e = elim (Bool-cases (str_eq k m)) [
    | inr f ↦ rw f e
    | inl f ↦
        let key : k ≡ m = (eq_iff k m).0 f in
        let no : none ≡ some a = sym n ∙ ap (λ z. lookup z ps) key ∙ e in absurd cc
  ]

  settled-Decided :
      (m : String) (r : State) (o : (String ⊎ String) × W)
      → str_eq r.tag "" || str_eq m "" ≡ false
      → Decided m (settled api r m o).0 (settled api r m o).1.0
  settled-Decided m r (inl e, w) g = inr (g, lookup_self m m r.arns)
  settled-Decided m r (inr a, w) g = inr (g, lookup_self m a r.arns)

  settled-keeps :
      (m a k : String) (r : State) (o : (String ⊎ String) × W)
      → lookup k r.arns ≡ none
      → Decided m a r
      → Decided m a (settled api r k o).1.0
  settled-keeps m a k r (inl e, w) n (inl d) = inl d
  settled-keeps m a k r (inr x, w) n (inl d) = inl d
  settled-keeps m a k r (inl e, w) n (inr (g, f)) = inr (g, lookup-past m a k k r.arns n f)
  settled-keeps m a k r (inr x, w) n (inr (g, f)) = inr (g, lookup-past m a k x r.arns n f)

  resolve-Decided :
      (m : String) (r : State) (w : W) → Decided m (resolve api m r w).0 (resolve api m r w).1.0
  resolve-Decided m r w = elim (Bool-cases (str_eq r.tag "" || str_eq m "")) [
    | inl g ↦ subst (λ out. Decided m out.0 out.1.0) (resolve-off m r w g) (inl (g, refl))
    | inr g ↦ elim (Option-cases (lookup m r.arns)) [
      | inr (a, f) ↦ subst (λ out. Decided m out.0 out.1.0) (resolve-known m a r w g f) (inr (g, f))
      | inl f ↦
          subst (λ out. Decided m out.0 out.1.0) (resolve-new m r w g f)
            (settled-Decided m r (ensure_profile api r.tag m w) g)
    ]
  ]

  resolve-keeps :
      (m a k : String) (r : State) (w : W) → Decided m a r → Decided m a (resolve api k r w).1.0
  resolve-keeps m a k r w d = elim (Bool-cases (str_eq r.tag "" || str_eq k "")) [
    | inl g ↦ subst (λ out. Decided m a out.1.0) (resolve-off k r w g) d
    | inr g ↦ elim (Option-cases (lookup k r.arns)) [
      | inr (x, f) ↦ subst (λ out. Decided m a out.1.0) (resolve-known k x r w g f) d
      | inl f ↦
          subst (λ out. Decided m a out.1.0) (resolve-new k r w g f)
            (settled-keeps m a k r (ensure_profile api r.tag k w) f d)
    ]
  ]

  resolve_all-keeps :
      (m a : String) (ks : List String) (r : State) (w : W)
      → Decided m a r
      → Decided m a (resolve_all api ks r w).0
  unfolding resolve_all
  resolve_all-keeps m a [] r w d = d
  resolve_all-keeps m a (k ∷ ks) r w d =
      resolve_all-keeps m a ks (resolve api k r w).1.0 (resolve api k r w).1.1
        (resolve-keeps m a k r w d)

  Decided-again :
      (m a : String) (r : State) (w : W) → Decided m a r → resolve api m r w ≡ (a, (r, w))
  Decided-again m a r w (inl (g, e)) = sym (resolve-off m r w g) ∙ ap (λ x. (x, (r, w))) (sym e)
  Decided-again m a r w (inr (g, f)) = sym (resolve-known m a r w g f)

  -- A new resolver, whatever it has resolved before, sends for a model its own name or the ARN of an active
  -- profile that stands for it; and from then on, whatever else it resolves, it sends the same
  -- for that model, and neither calls the control plane again nor changes.
  pub resolve-IsBilled :
      (tag m : String) (before after : List String) (w : W)
      → let (r, v) = resolve_all api before (new_resolver tag) w in
        let (a, later) = resolve api m r v in
        let (r', v') = resolve_all api after later.0 later.1 in
        ((a ≡ m) ⊎ IsBilled api tag m a) × (resolve api m r' v' ≡ (a, (r', v')))
  resolve-IsBilled tag m before after w =
      let (r, v) = resolve_all api before (new_resolver tag) w in
      let (a, later) = resolve api m r v in
      let (r', v') = resolve_all api after later.0 later.1 in
      let (h, t) = resolve_all-IsHonest before (new_resolver tag) w tt in
      (
        subst (λ z. (a ≡ m) ⊎ IsBilled api z m a) t (resolve-Sends m r v h).1,
        Decided-again m a r' v'
            (resolve_all-keeps m a after later.0 later.1 (resolve-Decided m r v)),
      )
