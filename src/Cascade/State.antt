-- ===== src/Cascade/State.antt =====
-- What the router carries: costs, the trace, the answer (internal/cascade/trace.go), and what it
-- takes of its configuration (internal/config/config.go) and of the packages that it calls.
use go_cascade.Base.{
  str_eq, if◌then◌else◌, get_elem?, Sprintf, ℕ, zero, suc, ◌+◌, String, ◌⊎◌, ◌∷◌, Bool, true, false,
  not, ◌||◌, Option, none, some, List, [],
}
use go_cascade.Float.{Float}
use go_cascade.Verify.Stages.{Static, Report}
use go_cascade.Verify.Stages
use go_cascade.Verify.Workspace.{Toolchain}
use go_cascade.Cluster.{Cluster}
use go_cascade.Cache.{Failures}
use go_cascade.Calibrate.Certify.{Certificate}

pub record Tier {ℓ} (F : Type ℓ) : Type ℓ where
  pub name : String
  pub model_id : String
  pub in_per_mtok : F
  pub out_per_mtok : F
  pub samples : ℕ
  pub repair_depth : ℕ
  pub planner_model : String
  pub planner_in_per_mtok : F
  pub planner_out_per_mtok : F

pub record Config {ℓ} (F : Type ℓ) : Type ℓ where
  pub tiers : List (Tier F)
  pub test_model : String
  pub planner_model : String
  pub planner_in_per_mtok : F
  pub planner_out_per_mtok : F
  pub compute_rate : F
  pub cache_disabled : Bool
  pub test_in_cost : F
  pub test_out_cost : F
  pub alpha : F
  pub budget_usd : F
  pub deadline : ℕ
  pub mutants : ℕ
  pub cache_top_k : ℕ
  pub cache_min_sim : F
  pub cache_admit_at : F
  pub shadow_rate : F
  pub opts : Stages.Options

pub record Cost {ℓ} (F : Type ℓ) : Type ℓ where
  pub model_usd : F
  pub compute_usd : F
  pub total_usd : F
  pub input_tokens : ℕ
  pub output_tokens : ℕ
  pub verifier_time : ℕ
  pub model_calls : ℕ

pub data Action : Type 0 where
  accepted repaired escalated rejected : Action

pub record Step {ℓ} (F : Type ℓ) : Type ℓ where
  pub stage : String
  pub tier : String
  pub action : Action
  pub score : F
  pub threshold : F
  pub clusters : List (Cluster F)
  pub reason : String
  pub diagnostic : String
  pub cost_so_far : F
  pub timed_out : Bool

-- The part of `Result` that an acceptance sets.
pub record Answer {ℓ} (F : Type ℓ) : Type ℓ where
  pub solution : String
  pub solved : Bool
  pub accepted_at : String
  pub score : F
  pub static : Option Static
  pub certified : Bool
  pub certificate : Option (Certificate F)
  pub oracle_contaminated : Bool

-- The contract of a query: `prompt.Spec`.
pub record Spec : Type 0 where
  pub api : String
  pub visible_tests : String
  pub hidden_tests : String

pub record Response : Type 0 where
  pub text : String
  pub input_tokens : ℕ
  pub output_tokens : ℕ

-- What changes while the tiers run: the world outside, the costs, the trace, the failure cache.
pub record Work {ℓ} (W : Type ℓ) (F : Type ℓ) : Type ℓ where
  pub world : W
  pub cost : Cost F
  pub trace : List (Step F)
  pub store : Failures

-- The packages and services that the router calls. A call may depend on all that happened before.
pub record Services {ℓ} (W : Type ℓ) (F : Type ℓ) : Type ℓ where
  pub generate : (model text : String) → ℕ → W → (String ⊎ Response) × W
  pub new_workspace : (source visible hidden : String) → W → Option Toolchain × W
  pub expired : W → Option String
  pub extract_code : String → String ⊎ String
  pub canonical_hash : String → Option String
  pub problem_hash : String → String
  pub digest : String → String
  pub code_user : (problem api : String) → ℕ → List String → String
  pub code_user_from_plan : (problem api plan : String) → ℕ → List String → String
  pub plan_user : (problem api : String) → String
  pub repair_user : (problem api source stage diagnostic : String) → String
  pub first_line : String → String
  pub sqrt : F → F
  pub min_of : F → F → F
  pub max_of : F → F → F
  pub seconds : ℕ → F
  pub sprintf : Sprintf F

module _ {ℓ} {F : Type ℓ} ⦃fl : Float F⦄ where
  open fl use {lit, of_nat, add, mul, div}

  unfoldable pub add_model : ℕ → ℕ → F → Cost F → Cost F
  add_model inp out usd c =
      let m = add c.model_usd usd in
      record c {
        input_tokens = c.input_tokens + inp;
        output_tokens = c.output_tokens + out;
        model_usd = m;
        total_usd = add m c.compute_usd;
        model_calls = c.model_calls + 1;
      }

  -- `secs` is `d.Seconds()`.
  unfoldable pub add_compute : ℕ → F → F → Cost F → Cost F
  add_compute d secs rate c =
      let v = add c.compute_usd (mul secs rate) in
      record c {
        verifier_time = c.verifier_time + d;
        compute_usd = v;
        total_usd = add c.model_usd v;
      }

  unfoldable pub tier_cost : Tier F → ℕ → ℕ → F
  tier_cost t inp out =
      add (mul (div (of_nat inp) (lit 1_000_000 0)) t.in_per_mtok)
        (mul (div (of_nat out) (lit 1_000_000 0)) t.out_per_mtok)

  unfoldable pub planner_cost : Tier F → ℕ → ℕ → F
  planner_cost t inp out =
      let pin =
        if fl.eq t.planner_in_per_mtok (lit 0 0) then t.in_per_mtok else t.planner_in_per_mtok in
      let pout =
        if fl.eq t.planner_out_per_mtok (lit 0 0) then t.out_per_mtok else t.planner_out_per_mtok in
      add (mul (div (of_nat inp) (lit 1_000_000 0)) pin)
        (mul (div (of_nat out) (lit 1_000_000 0)) pout)

  abbrev first_price : (Tier F → F) → List (Tier F) → F → F
  first_price price [] x = x
  first_price price (t ∷ ts) x = if fl.eq x (lit 0 0) then price t else x

  -- The price of the plan that the whole cascade shares.
  unfoldable pub plan_cost : Config F → ℕ → ℕ → F
  plan_cost cfg inp out =
      let pin = first_price (λ t. t.in_per_mtok) cfg.tiers cfg.planner_in_per_mtok in
      let pout = first_price (λ t. t.out_per_mtok) cfg.tiers cfg.planner_out_per_mtok in
      add (mul (div (of_nat inp) (lit 1_000_000 0)) pin)
        (mul (div (of_nat out) (lit 1_000_000 0)) pout)

  unfoldable pub two_stage : Tier F → Bool
  two_stage t = not (str_eq t.planner_model "")

  -- The oracle's author also wrote the code.
  unfoldable pub contaminated_by : Config F → Tier F → Bool
  contaminated_by cfg t =
      str_eq t.model_id cfg.test_model
      || str_eq t.planner_model cfg.test_model
      || str_eq cfg.planner_model cfg.test_model

  abbrev cert_valid : Option (Certificate F) → Bool
  cert_valid none = false
  cert_valid (some c) = c.valid

  unfoldable pub calibrated : Option (Certificate F) → Bool
  calibrated cert = cert_valid cert

  abbrev cert_thresholds : Option (Certificate F) → List F
  cert_thresholds none = []
  cert_thresholds (some c) = c.thresholds

  abbrev prior : ℕ → F
  prior zero = lit 6 1
  prior (suc k) = lit 5 1

  abbrev threshold_or : Option F → ℕ → F × Bool
  threshold_or none k = (prior k, false)
  threshold_or (some t) k = (t, true)

  -- The threshold of tier `k`, and whether a certificate gives it.
  unfoldable pub threshold : Option (Certificate F) → ℕ → F × Bool
  unfolding calibrated
  threshold cert k =
      threshold_or (if calibrated cert then get_elem? (cert_thresholds cert) k else none) k
