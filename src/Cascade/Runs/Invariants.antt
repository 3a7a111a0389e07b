-- ===== src/Cascade/Runs/Invariants.antt =====
-- What every run of the router keeps (internal/cascade/cascade.go, internal/cascade/trace.go).
use go_cascade.Base.{◌+◌, ◌≤◌, String, ◌≡◌, refl, ap, ◌∙◌, Option, List, [], ◌∷◌, ◌++◌, arith}
use go_cascade.Float.{Float}
use go_cascade.Cache.Known.{IsBounded, add_failure_kept}
use go_cascade.Calibrate.Certify.{Certificate}
use go_cascade.Cascade.State.{Config, Cost, Step, Spec, Work, Services, add_model, add_compute}
use go_cascade.Cascade.Sequential.{sequential}
use go_cascade.Cascade.Runs.{calls, pays, computes, logs, fails, Runs, stays, then_}
use go_cascade.Cascade.Runs.Tiers.{sequential-Runs}

module _ {ℓ} {F : Type ℓ} ⦃fl : Float F⦄ where
  -- The total is the sum of the two currencies.
  abbrev pub IsBalanced : Cost F → Type ℓ
  IsBalanced c = c.total_usd ≡ fl.add c.model_usd c.compute_usd

-- From one state to a later one: steps were added behind the trace, and no counter went down.
pub record Grows {ℓ} {W F : Type ℓ} (w u : Work W F) : Type ℓ where
  pub added_steps : (more : List (Step F)) × (u.trace ≡ w.trace ++ more)
  pub more_calls : w.cost.model_calls ≤ u.cost.model_calls
  pub more_time : w.cost.verifier_time ≤ u.cost.verifier_time
  pub more_tokens :
      w.cost.input_tokens + w.cost.output_tokens ≤ u.cost.input_tokens + u.cost.output_tokens

module _ {ℓ} {W F : Type ℓ} ⦃fl : Float F⦄ (env : Services W F) (cfg : Config F) where
  Runs-IsBalanced : {w u : Work W F} → Runs env cfg w u → IsBalanced w.cost → IsBalanced u.cost
  unfolding add_model add_compute
  Runs-IsBalanced stays h = h
  Runs-IsBalanced (then_ r (calls world)) h = Runs-IsBalanced r h
  Runs-IsBalanced (then_ r (pays resp usd)) h = refl
  Runs-IsBalanced (then_ r (computes d)) h = refl
  Runs-IsBalanced (then_ r (logs st e)) h = Runs-IsBalanced r h
  Runs-IsBalanced (then_ r (fails ph f)) h = Runs-IsBalanced r h

  Runs-IsBounded : {w u : Work W F} → Runs env cfg w u → IsBounded w.store → IsBounded u.store
  Runs-IsBounded stays h = h
  Runs-IsBounded (then_ r (calls world)) h = Runs-IsBounded r h
  Runs-IsBounded (then_ r (pays resp usd)) h = Runs-IsBounded r h
  Runs-IsBounded (then_ r (computes d)) h = Runs-IsBounded r h
  Runs-IsBounded (then_ r (logs st e)) h = Runs-IsBounded r h
  Runs-IsBounded (then_ r (fails ph f)) h =
      add_failure_kept cfg.cache_disabled ph f _ (Runs-IsBounded r h)

  append_nil : {A : Type ℓ} (xs : List A) → xs ≡ xs ++ []
  append_nil [] = refl
  append_nil (x ∷ xs) = ap (◌∷◌ x) (append_nil xs)

  append_assoc : {A : Type ℓ} (xs ys zs : List A) → (xs ++ ys) ++ zs ≡ xs ++ (ys ++ zs)
  append_assoc [] ys zs = refl
  append_assoc (x ∷ xs) ys zs = ap (◌∷◌ x) (append_assoc xs ys zs)

  Runs-Grows : {w u : Work W F} → Runs env cfg w u → Grows w u
  unfolding add_model add_compute
  Runs-Grows {w = w} stays = record {
    added_steps = ([], append_nil w.trace);
    more_calls = omega arith;
    more_time = omega arith;
    more_tokens = omega arith;
  }
  Runs-Grows (then_ r (calls world)) =
      let g = Runs-Grows r in
      record {
        added_steps = g.added_steps;
        more_calls = g.more_calls;
        more_time = g.more_time;
        more_tokens = g.more_tokens;
      }
  Runs-Grows (then_ r (pays resp usd)) =
      let g = Runs-Grows r in
      record {
        added_steps = g.added_steps;
        more_calls = omega (arith, g.more_calls);
        more_time = g.more_time;
        more_tokens = omega (arith, g.more_tokens);
      }
  Runs-Grows (then_ r (computes d)) =
      let g = Runs-Grows r in
      record {
        added_steps = g.added_steps;
        more_calls = g.more_calls;
        more_time = omega (arith, g.more_time);
        more_tokens = g.more_tokens;
      }
  Runs-Grows {w = w} (then_ r (logs st e)) =
      let g = Runs-Grows r in
      let (more, p) = g.added_steps in
      record {
        added_steps =
            (more ++ (st ∷ []), ap (λ t. t ++ (st ∷ [])) p ∙ append_assoc w.trace more (st ∷ []));
        more_calls = g.more_calls;
        more_time = g.more_time;
        more_tokens = g.more_tokens;
      }
  Runs-Grows (then_ r (fails ph f)) =
      let g = Runs-Grows r in
      record {
        added_steps = g.added_steps;
        more_calls = g.more_calls;
        more_time = g.more_time;
        more_tokens = g.more_tokens;
      }

  module _ (cert : Option (Certificate F)) where
    -- If the total is the sum of the model's and the verifier's dollars before the sequential
    -- topology runs, then it is after, however the run ends.
    pub sequential-IsBalanced :
        (problem : String) (spec : Spec) (w : Work W F)
        → IsBalanced w.cost
        → IsBalanced (sequential env cfg cert problem spec w).1.cost
    sequential-IsBalanced problem spec w h =
        Runs-IsBalanced (sequential-Runs env cfg cert problem spec) h

    -- If no list of the failure cache is longer than 64 before the sequential topology runs, then
    -- none is after, however the run ends.
    pub sequential-IsBounded :
        (problem : String) (spec : Spec) (w : Work W F)
        → IsBounded w.store
        → IsBounded (sequential env cfg cert problem spec w).1.store
    sequential-IsBounded problem spec w h =
        Runs-IsBounded (sequential-Runs env cfg cert problem spec) h

    -- However the sequential topology ends, the trace before is a prefix of the trace after, and the
    -- numbers of model calls and of tokens and the verifier's time have not gone down.
    pub sequential-Grows :
        (problem : String) (spec : Spec) (w : Work W F)
        → Grows w (sequential env cfg cert problem spec w).1
    sequential-Grows problem spec w = Runs-Grows (sequential-Runs env cfg cert problem spec)
