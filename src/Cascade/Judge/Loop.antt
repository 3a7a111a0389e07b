-- ===== src/Cascade/Judge/Loop.antt =====
-- The rule for the loops over the tiers of the judge's arms (internal/cascade/judge.go).
use mathlib.Core.List.{append_assoc, append-nil}
use go_cascade.Base.{
  Option-cases, Result, ok, well, badly, panicked, Result-Came, ℕ, suc, String, ◌≡◌, sym, subst,
  inl, inr, Option, List, [], ◌∷◌, ◌++◌,
}
use go_cascade.Cascade.State.{Tier, Work}
use go_cascade.Cascade.Judge.{tier_loop}

module _ {ℓ κ μ} {W F : Type ℓ} {S : Type κ} (expired : W → Option String)
    (body : ℕ → Tier F → S → Work W F → Result (Unit {0}) × S × Work W F)
    (P : List (Tier F) → S → Type μ) where
  -- What every body that ends well keeps, of the tiers done and what is collected, a loop that ends
  -- well keeps.
  pub tier_loop-keeps :
      ((k : ℕ) (done : List (Tier F)) (tier : Tier F) (s : S) (w : Work W F)
        → P done s
        → (body k tier s w).0 ≡ ok tt
        → P (done ++ (tier ∷ [])) (body k tier s w).1)
      → (k : ℕ) (done tiers : List (Tier F)) (s : S) (w : Work W F) → P done s
      → (tier_loop expired body k tiers s w).0 ≡ ok tt
      → P (done ++ tiers) (tier_loop expired body k tiers s w).1
  unfolding tier_loop
  tier_loop-keeps step k done [] s w h e = subst (λ ts. P ts s) (sym (append-nil done)) h
  tier_loop-keeps step k done (tier ∷ tiers) s w h e = elim (Option-cases (expired w.world)) [
    | inr (m, f) ↦ absurd (cc (rw (f, tier_loop) at e))
    | inl f ↦ elim (Result-Came (body k tier s w).0) [
      | badly m g ↦ absurd (cc (rw (f, g, tier_loop) at e))
      | panicked g ↦ absurd (cc (rw (f, g, tier_loop) at e))
      | well u g ↦
          rw (f, g, tier_loop)
            (subst
              (λ ts.
                P ts
                  (tier_loop expired body (suc k) tiers (body k tier s w).1 (body k tier s w).2).1)
              (append_assoc done (tier ∷ []) tiers)
              (tier_loop-keeps step (suc k) (done ++ (tier ∷ [])) tiers (body k tier s w).1
                (body k tier s w).2 (step k done tier s w h g) (rw (f, g, tier_loop) at e)))
    ]
  ]
