-- ===== src/Cascade/Observed.antt =====
-- What the merge of the speculative topology leaves out
-- (internal/cascade/cascade.go).
use go_cascade.Base.{String, ◌≡◌, refl, Option, List, [], ◌∷◌}
use go_cascade.Float.{Float}
use go_cascade.Calibrate.Certify.{Certificate}
use go_cascade.Cascade.State.{Tier, Config, Spec, Work, Services}
use go_cascade.Cascade.Speculative.{merge_cost, sample_local, gather}

module _ {ℓ} {W F : Type ℓ} ⦃fl : Float F⦄ (env : Services W F) (cfg : Config F) where
  module _ (cert : Option (Certificate F)) where
    -- The time that the verifier takes in the fan-outs of the speculative topology is not added to
    -- the query's: `VerifierTime` is as it was, however many candidates were verified.
    pub gather_verifier_time :
        (tiers : List (Tier F)) (problem : String) (spec : Spec) (plan : String) (w : Work W F)
        → (gather env cfg cert tiers problem spec plan w).1.cost.verifier_time
          ≡ w.cost.verifier_time
    unfolding gather sample_local merge_cost
    gather_verifier_time [] problem spec plan w = refl
    gather_verifier_time (tier ∷ tiers) problem spec plan w =
        gather_verifier_time tiers problem spec plan
          (sample_local env cfg cert tier problem spec plan w).1
