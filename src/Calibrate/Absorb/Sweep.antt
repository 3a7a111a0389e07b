-- ===== src/Calibrate/Absorb/Sweep.antt =====
-- The sweep over absorption rates and shadow rates: `SweepAbsorption`, `EstimateNullEnvelope`
-- (internal/calibrate/absorb.go). A row that no certificate was attempted for is a row too.

pub mod Keyed
pub mod Rows
use Prim.Native.Nat.{bit_or, bit_xor}
use go_cascade.Base.{
  ltb, if◌then◌else◌, not, Result, ok, err, fault, ◌>>=◌, length, is_empty, filter_by, ℤ, pos,
  negsuc, int_arg, float_arg, Sprintf, ℕ, zero, suc, ◌+◌, ◌/◌, ◌%◌, ◌^◌, String, ◌<>◌, Bool, true,
  false, ◌||◌, Option, none, some, List, [], ◌∷◌, ◌++◌,
}
use go_cascade.Float.{Float}
use go_cascade.Calibrate.Records.{Record}
use go_cascade.Calibrate.Replay.{realized_risk}
use go_cascade.Calibrate.Stats.{Math, min_calibration_size}
use go_cascade.Calibrate.Certify.{Certificate, Options, calibrate}
use go_cascade.Calibrate.Absorb.{
  word, mixed, usable_records, strip_shadow_flags, tier0_accuracy, join_note, uniform, easy_first,
  absorb, shadow_draw,
}

-- A row of the result.
pub record AbsorptionSweep {ℓ} (F : Type ℓ) : Type ℓ where
  pub pattern_ : String
  pub rho : F
  pub epsilon : F
  pub n_residual : ℕ
  pub n_shadow : ℕ
  pub n_calibration : ℕ
  pub tier0_accuracy_d : F
  pub tier0_accuracy_residual : F
  pub calibrated_risk : F
  pub deployed_risk : F
  pub risk_gap : F
  pub certified : Bool
  pub thresholds : List F
  pub underpowered : Bool
  pub note : String

pub record AbsorptionOptions {ℓ} (F : Type ℓ) : Type ℓ where
  pub rhos : List F
  pub epsilons : List F
  pub patterns : List String
  pub tiers : List String
  pub ltt : Options F
  pub seed : ℕ
  pub tau_for_cheap_accept : List F

-- A loop whose body may end it with an error, and the rows that it appends.
unfoldable pub collect {ℓ κ} :
    {A : Type ℓ} {B : Type κ} → (A → Result (List B)) → List A → Result (List B)
collect f [] = ok []
collect f (x ∷ xs) = f x >>= (λ ys. collect f xs >>= (λ zs. ok (ys ++ zs)))

-- `n < floor`
abbrev pub below : ℕ → ℤ → Bool
below n (negsuc k) = false
below n (pos k) = ltb n k

abbrev whole : ℤ → ℕ
whole (negsuc k) = 0
whole (pos k) = k

abbrev pub or_else {ℓ} : {A : Type ℓ} → List A → List A → List A
or_else default xs = if is_empty xs then default else xs

module _ {ℓ} {F : Type ℓ} ⦃fl : Float F⦄ ⦃m : Math F⦄ (bits : F → ℕ) (sprintf : Sprintf F)
    (fuel : ℕ) where
  abbrev pub defaults : AbsorptionOptions F → AbsorptionOptions F
  defaults opts = record opts {
    rhos = or_else (fl.lit 0 0 ∷ fl.lit 2 1 ∷ fl.lit 4 1 ∷ fl.lit 6 1 ∷ fl.lit 8 1 ∷ []) opts.rhos;
    epsilons = or_else (fl.lit 0 0 ∷ fl.lit 5 2 ∷ []) opts.epsilons;
    patterns = or_else (uniform ∷ easy_first ∷ []) opts.patterns;
  }

  module _ (use_ : List (Record F)) (opts : AbsorptionOptions F) (pat : String) (rho : F)
      (residual : List (Record F)) where
    abbrev pub fresh_row : String → F → AbsorptionSweep F
    fresh_row note eps = record {
      pattern_ = pat;
      rho = rho;
      epsilon = eps;
      n_residual = length residual;
      n_shadow = 0;
      n_calibration = 0;
      tier0_accuracy_d = tier0_accuracy use_;
      tier0_accuracy_residual = tier0_accuracy residual;
      calibrated_risk = fl.lit 0 0;
      deployed_risk = fl.lit 0 0;
      risk_gap = fl.lit 0 0;
      certified = false;
      thresholds = [];
      underpowered = false;
      note = note;
    }

    abbrev pub add_note : String → AbsorptionSweep F → AbsorptionSweep F
    add_note text row = record row { note = join_note row.note text }

    -- A calibration sample that is too small for the bound is flagged.
    abbrev pub flagged : F → AbsorptionSweep F → AbsorptionSweep F
    flagged eps row =
        let floor = min_calibration_size opts.ltt.alpha opts.ltt.delta in
        let text =
          sprintf
            "calibrated on only %d records (epsilon=%.2f of a %d-record residual); certifying alpha=%.3f at delta=%.3f needs >= %d even with zero observed errors, so this row is sample-size noise, not evidence about the correction"
            (int_arg row.n_calibration
              ∷ float_arg eps
              ∷ int_arg (length residual)
              ∷ float_arg opts.ltt.alpha
              ∷ float_arg opts.ltt.delta
              ∷ int_arg (whole floor)
              ∷ []) in
        let under = below row.n_calibration floor in
        record row {
          underpowered = row.underpowered || under;
          note = if under then join_note row.note text else row.note;
        }

    abbrev pub with_certificate : AbsorptionSweep F → Certificate F → AbsorptionSweep F
    with_certificate row cert =
        let deployed = realized_risk residual cert.thresholds in
        record row {
          certified = cert.valid;
          thresholds = cert.thresholds;
          calibrated_risk = cert.empirical_risk;
          deployed_risk = deployed;
          risk_gap = fl.sub deployed cert.empirical_risk;
        }

    abbrev pub certified_row :
        AbsorptionSweep F → Result (Certificate F) → Result (AbsorptionSweep F)
    certified_row row (ok cert) = ok (with_certificate row cert)
    certified_row row (err e) = ok (add_note ("calibration failed: " <> e) row)
    certified_row row fault = fault

    -- The row once the calibration stream is known.
    abbrev pub calibrated_row : F → AbsorptionSweep F → List (Record F) → Result (AbsorptionSweep F)
    calibrated_row eps row stream =
        let counted = record row {
          n_shadow = if fl.lt (fl.lit 0 0) eps then length stream else 0;
          n_calibration = length stream;
        } in
        let row' = flagged eps counted in
        let text =
          sprintf "only %d calibration records; no certificate attempted"
            (int_arg (length stream) ∷ []) in
        if ltb (length stream) 2
        then ok (add_note text row')
        else certified_row row'
            (calibrate sprintf fuel (strip_shadow_flags stream) opts.tiers opts.ltt)

    -- The body of the innermost loop.
    unfoldable pub sweep_row : String → F → Result (AbsorptionSweep F)
    sweep_row note eps =
        let row = fresh_row note eps in
        let text =
          sprintf "only %d residual records; no certificate attempted"
            (int_arg (length residual) ∷ []) in
        let stream : Result (List (Record F)) =
          if fl.lt (fl.lit 0 0) eps
          then shadow_draw bits opts.seed opts.tau_for_cheap_accept residual eps pat rho
          else ok use_ in
        if ltb (length residual) 2
        then ok (add_note text row)
        else stream >>= calibrated_row eps row

  -- The rows of one pattern and one rate.
  unfoldable pub sweep_rate :
      List (Record F) → AbsorptionOptions F → String → F → Result (List (AbsorptionSweep F))
  unfolding sweep_row collect
  sweep_rate use_ opts pat rho =
      absorb bits opts.seed opts.tau_for_cheap_accept sprintf use_ pat rho >>= (λ p.
        collect (λ eps. sweep_row use_ opts pat rho p.0 p.1 eps >>= (λ row. ok (row ∷ [])))
          opts.epsilons)

  unfoldable pub sweep_rows :
      List (Record F) → AbsorptionOptions F → Result (List (AbsorptionSweep F))
  unfolding sweep_rate collect
  sweep_rows use_ opts = collect (λ pat. collect (sweep_rate use_ opts pat) opts.rhos) opts.patterns

  unfoldable pub sweep_absorption :
      List (Record F) → AbsorptionOptions F → Result (List (AbsorptionSweep F))
  unfolding sweep_rows
  sweep_absorption recs opts =
      let use_ = usable_records recs in
      if is_empty use_
      then err (
          sprintf "no usable records: all %d were excluded as contaminated or oracle-unsound"
            (int_arg (length recs) ∷ []))
      else if is_empty opts.tiers
      then err "no tier names given; the grid arity comes from them"
      else sweep_rows use_ (defaults opts)

pub record NullEnvelope {ℓ} (F : Type ℓ) : Type ℓ where
  pub seeds : List ℕ
  pub rhos : List F
  pub n_draw : ℕ
  pub max_abs_gap : F
  pub mean_abs_gap : F
  pub at_rho : F
  pub at_seed : ℕ

-- A step of the seeds' generator: the state, and the seed.
abbrev seed_step : ℕ → ℕ × ℕ
seed_step s =
    let s' = (s + 0x9e3779b97f4a7c15) % word in
    let z = mixed (mixed s' 30 0xbf58476d1ce4e5b9) 27 0x94d049bb133111eb in
    (s', bit_xor z (z / 2 ^ 31))

module _ {ℓ} {F : Type ℓ} ⦃fl : Float F⦄ ⦃m : Math F⦄ where
  -- The rows of one seed, added to the envelope and to the total of the gaps.
  unfoldable pub widen : ℕ → List (AbsorptionSweep F) → NullEnvelope F × F → NullEnvelope F × F
  widen seed [] (env, total) = (env, total)
  widen seed (row ∷ rows) (env, total) =
      let g = m.abs row.risk_gap in
      let drawn = record env { n_draw = suc env.n_draw } in
      let wider =
        if fl.lt env.max_abs_gap g
        then record drawn { max_abs_gap = g; at_rho = row.rho; at_seed = seed }
        else drawn in
      widen seed rows
        (if row.underpowered || not row.certified then (env, total) else (wider, fl.add total g))

  module _ (bits : F → ℕ) (sprintf : Sprintf F) (fuel : ℕ) where
    -- The loop over the seeds.
    unfoldable pub envelope_loop :
        ℕ
        → ℕ
        → List (Record F)
        → AbsorptionOptions F
        → List F
        → NullEnvelope F × F
        → Result (NullEnvelope F × F)
    unfolding widen
    envelope_loop zero s recs opts rhos acc = ok acc
    envelope_loop (suc left) s recs opts rhos acc =
        let (s', z) = seed_step s in
        let sub : AbsorptionOptions F = record opts {
          seed = z;
          rhos = rhos;
          epsilons = fl.lit 0 0 ∷ [];
          patterns = uniform ∷ [];
        } in
        sweep_absorption bits sprintf fuel recs sub >>= (λ rows.
          envelope_loop left s' recs opts rhos
            (widen z rows (record (acc.0) { seeds = acc.0.seeds ++ (z ∷ []) }, acc.1)))

    abbrev averaged : NullEnvelope F × F → NullEnvelope F
    averaged (env, total) =
        if ltb 0 env.n_draw
        then record env { mean_abs_gap = fl.div total (fl.of_nat env.n_draw) }
        else env

    -- `nil, nil` is `none`.
    unfoldable pub estimate_null_envelope :
        List (Record F) → AbsorptionOptions F → ℕ → Result (Option (NullEnvelope F))
    unfolding envelope_loop
    estimate_null_envelope recs opts n_seeds =
        let rhos = filter_by (λ r. fl.lt (fl.lit 0 0) r) opts.rhos in
        let start : NullEnvelope F = record {
          seeds = [];
          rhos = rhos;
          n_draw = 0;
          max_abs_gap = fl.lit 0 0;
          mean_abs_gap = fl.lit 0 0;
          at_rho = fl.lit 0 0;
          at_seed = 0;
        } in
        if not (ltb 0 n_seeds)
        then ok none
        else if is_empty rhos
        then ok none
        else envelope_loop n_seeds (bit_or opts.seed 1) recs opts rhos (start, fl.lit 0 0)
          >>= (λ acc. ok (some (averaged acc)))
