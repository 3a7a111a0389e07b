-- ===== src/Calibrate/Certify.antt =====
-- `Calibrate` (internal/calibrate/ltt.go): Learn-then-Test over the grid, and its certificate.
-- `CreatedAt` is left out; `MutationMean` is not set here.
pub mod Select
pub mod Certified
use go_cascade.Base.{
  fault, ltb, leb, str_eq, if◌then◌else◌, Result, ok, err, length, filter_by, sort_stable,
  trim_space, int_arg, float_arg, str_arg, Sprintf, ℕ, suc, ◌-◌, String, ◌<>◌, Bool, true, false,
  not, ◌&&◌, ◌||◌, Option, none, some, List, [], ◌∷◌, map,
}
use go_cascade.Float.{Float}
use go_cascade.Calibrate.Records.{Record, count_timed_out}
use go_cascade.Calibrate.Replay.{risk, realized_risk}
use go_cascade.Calibrate.Stats.{Math, hoeffding_bentkus}
use go_cascade.Calibrate.Grid.{build_grid}

abbrev pub bonferroni_method : String
bonferroni_method = "bonferroni"

pub record Certificate {ℓ} (F : Type ℓ) : Type ℓ where
  pub valid : Bool
  pub alpha : F
  pub delta : F
  pub n : ℕ
  pub n_shadow : ℕ
  pub n_excluded : ℕ
  pub n_oracle_unsound : ℕ
  pub n_oracle_inconclusive : ℕ
  pub n_timed_out : ℕ
  pub method : String
  pub grid_size : ℕ
  pub tiers : List String
  pub thresholds : List F
  pub empirical_risk : F
  pub realized_risk : F
  pub p_value : F
  pub expected_cost : F
  pub note : String

pub record Options {ℓ} (F : Type ℓ) : Type ℓ where
  pub alpha : F
  pub delta : F
  pub step : F
  pub method : String

-- The tallies of the exclusion loop, and the records that it keeps.
pub record Kept {ℓ} (F : Type ℓ) : Type ℓ where
  pub kept : List (Record F)
  pub excluded : ℕ
  pub unsound : ℕ
  pub inconclusive : ℕ

pub record Cand {ℓ} (F : Type ℓ) : Type ℓ where
  pub tau : List F
  pub risk : F
  pub cost : F
  pub p : F

module _ {ℓ} {F : Type ℓ} where
  abbrev keep_if_inconclusive : Record F → Kept F → Kept F
  keep_if_inconclusive r k =
      if r.oracle_inconclusive
      then record k { kept = r ∷ k.kept; inconclusive = suc k.inconclusive }
      else record k { kept = r ∷ k.kept }

  unfoldable pub exclude : List (Record F) → Kept F
  exclude [] = record { kept = []; excluded = 0; unsound = 0; inconclusive = 0 }
  exclude (r ∷ rs) =
      let k = exclude rs in
      if r.contaminated
      then record k { excluded = suc k.excluded }
      else if r.oracle_unsound
      then record k { unsound = suc k.unsound }
      else keep_if_inconclusive r k

  -- The shadow stream is preferred from 30 records on.
  unfoldable pub preferred : List (Record F) → List (Record F)
  preferred use_ =
      let shadow = filter_by (λ r. r.shadow) use_ in if leb 30 (length shadow) then shadow else use_

module _ {ℓ} {F : Type ℓ} ⦃fl : Float F⦄ where
  unfoldable pub sum_from : F → List F → F
  sum_from s [] = s
  sum_from s (x ∷ xs) = sum_from (fl.add s x) xs

  unfoldable pub sum : List F → F
  unfolding sum_from
  sum xs = sum_from (fl.lit 0 0) xs

  -- `cmp.Compare(x, y) < 0` and `> 0`, in which NaN is below every number.
  abbrev pub cmp_lt : F → F → Bool
  cmp_lt x y = (not (fl.eq x x) && fl.eq y y) || fl.lt x y

  -- `slices.Compare(xs, ys) < 0`
  unfoldable pub slice_lt : List F → List F → Bool
  slice_lt xs [] = false
  slice_lt [] (y ∷ ys) = true
  slice_lt (x ∷ xs) (y ∷ ys) =
      let rest = slice_lt xs ys in if cmp_lt x y then true else if cmp_lt y x then false else rest

  -- The order of the fixed sequence: most conservative first. It reads the thresholds alone.
  unfoldable pub more_conservative : List F → List F → Bool
  more_conservative ta tb =
      if not (fl.eq (sum ta) (sum tb)) then fl.lt (sum tb) (sum ta) else slice_lt tb ta

  -- Sorting the indices of `eval` by what they stand for is sorting `eval`.
  unfoldable pub fixed_order : List (Cand F) → List (Cand F)
  fixed_order eval = sort_stable (λ a b. more_conservative a.tau b.tau) eval

  abbrev pub cheaper : Option (Cand F) → Cand F → Option (Cand F)
  cheaper none c = some c
  cheaper (some b) c = if fl.lt c.cost b.cost then some c else some b

  unfoldable pub fixed_sequence : F → List (Cand F) → Option (Cand F) → Option (Cand F)
  fixed_sequence delta [] best = best
  fixed_sequence delta (c ∷ cs) best =
      let rest = fixed_sequence delta cs (cheaper best c) in if fl.lt delta c.p then best else rest

  unfoldable pub bonferroni : F → List (Cand F) → Option (Cand F) → Option (Cand F)
  bonferroni thresh [] best = best
  bonferroni thresh (c ∷ cs) best =
      bonferroni thresh cs (if fl.le c.p thresh then cheaper best c else best)

  unfoldable pub select : String → F → List (Cand F) → Option (Cand F)
  select method delta eval =
      if str_eq method bonferroni_method
      then bonferroni (fl.div delta (fl.of_nat (length eval))) eval none
      else fixed_sequence delta (fixed_order eval) none

  -- `slices.MinFunc` by the risk: the first of the least.
  unfoldable pub least_risk : Cand F → List (Cand F) → Cand F
  least_risk c [] = c
  least_risk c (d ∷ ds) = least_risk (if fl.lt d.risk c.risk then d else c) ds

module _ {ℓ} {F : Type ℓ} ⦃fl : Float F⦄ ⦃m : Math F⦄ where
  unfoldable pub evaluate : List (Record F) → F → List F → Cand F
  evaluate use_ alpha tau =
      let (r, c) = risk use_ tau in
      record { tau = tau; risk = r; cost = c; p = hoeffding_bentkus r (length use_) alpha }

  -- `Step` and `Delta` fall back to 0.1.
  abbrev pub defaulted : F → F
  defaulted x = if fl.le x (fl.lit 0 0) then fl.lit 1 1 else x

  module _ (sprintf : Sprintf F) where
    unfoldable pub flag_if_nominal : Certificate F → Certificate F
    flag_if_nominal cert =
        let msg =
          sprintf
            "WARNING: realized (ground-truth) risk %.3f exceeds alpha %.3f. The oracle certified against its own verdicts, not against execution truth; this certificate is nominal only. This is the judge-oracle noise floor of §3.1"
            (float_arg cert.realized_risk ∷ float_arg cert.alpha ∷ []) in
        if fl.le cert.realized_risk (fl.add cert.alpha (fl.lit 1 9))
        then cert
        else if str_eq cert.note ""
        then record cert { note = msg }
        else record cert { note = trim_space cert.note <> ". " <> msg }

    unfoldable pub shadow_note : ℕ → String
    shadow_note n =
        if leb 30 n
        then "calibrated on the cache-bypass shadow stream"
        else if ltb 0 n
        then sprintf
            "only %d shadow records; calibrated on the full sample, which may be optimistic once the cache warms"
            (int_arg n ∷ [])
        else "no shadow records: calibration assumes a cold cache and will drift as it warms"

    -- The certificate's fields that do not depend on the selection.
    abbrev pub blank : Kept F → ℕ → ℕ → List String → Options F → F → Certificate F
    blank k shadow grid_size tiers opts delta =
        let use_ = preferred k.kept in
        record {
          valid = false;
          alpha = opts.alpha;
          delta = delta;
          n = length use_;
          n_shadow = shadow;
          n_excluded = k.excluded;
          n_oracle_unsound = k.unsound;
          n_oracle_inconclusive = k.inconclusive;
          n_timed_out = count_timed_out use_;
          method = opts.method;
          grid_size = grid_size;
          tiers = tiers;
          thresholds = [];
          empirical_risk = fl.lit 0 0;
          realized_risk = fl.lit 0 0;
          p_value = fl.lit 0 0;
          expected_cost = fl.lit 0 0;
          note = shadow_note shadow;
        }

    -- Set from the candidate that the certificate stands on.
    abbrev pub filled : Certificate F → List (Record F) → Bool → Cand F → Certificate F
    filled cert use_ valid best = record cert {
      valid = valid;
      thresholds = best.tau;
      empirical_risk = best.risk;
      p_value = best.p;
      expected_cost = best.cost;
      realized_risk = realized_risk use_ best.tau;
    }

    refused_note : String → Options F → F → ℕ → F → String
    refused_note note opts delta n least =
        sprintf
          "%s; no threshold vector certifies alpha=%.3f at delta=%.3f with n=%d. Lowest achievable empirical risk is %.3f. Raise alpha, add calibration data, or add a tier."
          (str_arg note ∷ float_arg opts.alpha ∷ float_arg delta ∷ int_arg n ∷ float_arg least ∷ [])

    -- From `if best == nil` on: the certificate for what was selected.
    unfoldable pub conclude :
        Certificate F
        → List (Record F)
        → Options F
        → F
        → Cand F
        → List (Cand F)
        → Option (Cand F)
        → Certificate F
    unfolding refused_note
    conclude cert use_ opts delta first others none =
        let least = least_risk first others in
        record (filled cert use_ false least) {
          note = refused_note cert.note opts delta (length use_) least.risk;
        }
    conclude cert use_ opts delta first others (some best) =
        flag_if_nominal (filled cert use_ true best)

    -- From the evaluation of the grid on, over a grid that is not empty.
    unfoldable pub certify :
        Certificate F → List (Record F) → Options F → F → List F → List (List F) → Certificate F
    certify cert use_ opts delta tau taus =
        let first = evaluate use_ opts.alpha tau in
        let others = map (evaluate use_ opts.alpha) taus in
        conclude cert use_ opts delta first others (select opts.method delta (first ∷ others))

    abbrev pub free_tiers : List String → ℕ
    free_tiers tiers = length tiers - 1

    no_records : ℕ → ℕ → String
    no_records excluded unsound =
        if ltb 0 excluded
        then sprintf
            "all %d calibration records were excluded as contaminated: the test model also appears as a code tier, so every oracle shares an author with the code it judges. Set test_model to a model that is not in the tier list"
            (int_arg excluded ∷ [])
        else if ltb 0 unsound
        then sprintf
            "all %d calibration records were excluded as oracle-unsound: every generated test suite refuted its reference solution. The spec model is producing broken tests; inspect them before trusting any risk number"
            (int_arg unsound ∷ [])
        else "no calibration records"

    -- From `cert := &Certificate{…}` on, with the grid built.
    unfoldable pub calibrate_on :
        List (List F) → Kept F → List String → Options F → F → Certificate F
    calibrate_on grid k tiers opts delta =
        let use_ = preferred k.kept in
        let cert =
          blank k (length (filter_by (λ r. r.shadow) k.kept)) (length grid) tiers opts delta in
        elim grid [
          | [] ↦
              let (r, c) = risk use_ [] in
              flag_if_nominal (record cert {
                valid = true;
                empirical_risk = r;
                expected_cost = c;
                realized_risk = realized_risk use_ [];
              })
          | tau ∷ taus ↦ certify cert use_ opts delta tau taus
        ]

    -- A `fault` is a grid whose loop uses up the fuel.
    unfoldable pub calibrate :
        ℕ → List (Record F) → List String → Options F → Result (Certificate F)
    unfolding no_records
    calibrate fuel recs tiers opts =
        let k = exclude recs in
        if leb (length (preferred k.kept)) 0
        then err (no_records k.excluded k.unsound)
        else elim (build_grid fuel (free_tiers tiers) (defaulted opts.step)) [
          | none ↦ fault
          | some grid ↦ ok (calibrate_on grid k tiers opts (defaulted opts.delta))
        ]
