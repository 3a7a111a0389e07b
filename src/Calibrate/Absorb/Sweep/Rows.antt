-- ===== src/Calibrate/Absorb/Sweep/Rows.antt =====
-- What the rows of a sweep say (internal/calibrate/absorb.go): there is one for each combination, and
-- the flag that a row is underpowered means what it says but for a residual below two records.
use go_cascade.Base.{
  ltb, ltb→lt, if◌then◌else◌, Bool-cases, >>=-ok, Result, ok, err, fault, ◌>>=◌, length, is_empty,
  All, Sprintf, int_arg, ◌<>◌, ℕ, ◌≤◌, ◌<◌, String, ◌≡◌, ◌⊎◌, refl, inl, inr, true, false, List, [],
  ◌∷◌, map, arith,
}
use go_cascade.Float.{Float}
use go_cascade.Calibrate.Records.{Record}
use go_cascade.Calibrate.Stats.{Math, min_calibration_size}
use go_cascade.Calibrate.Certify.{Certificate, calibrate}
use go_cascade.Calibrate.Replay.{realized_risk}
use go_cascade.Calibrate.Absorb.{usable_records, strip_shadow_flags, absorb, shadow_draw}
use go_cascade.Calibrate.Absorb.Sweep.{
  AbsorptionSweep, AbsorptionOptions, below, defaults, fresh_row, flagged, with_certificate,
  certified_row, calibrated_row, add_note, sweep_row, sweep_rate, sweep_rows, sweep_absorption,
}
use go_cascade.Calibrate.Absorb.Sweep.Keyed.{key, combinations, Keyed, collect-Keyed, cross}

module _ {ℓ} {F : Type ℓ} ⦃fl : Float F⦄ ⦃m : Math F⦄ (bits : F → ℕ) (sprintf : Sprintf F)
    (fuel : ℕ) (use_ : List (Record F)) (opts : AbsorptionOptions F) where
  -- The residual of a row: what absorption at the row's rate leaves of the usable records.
  abbrev pub IsResidual : AbsorptionSweep F → List (Record F) → Type ℓ
  IsResidual row residual =
      (row.n_residual ≡ length residual)
      × ((note : String) × (absorb bits opts.seed opts.tau_for_cheap_accept sprintf use_
              row.pattern_ row.rho
            ≡ ok (residual, note)))

  -- What a row is calibrated on: the shadow draw from its residual if its shadow rate is positive,
  -- and otherwise all usable records.
  abbrev pub IsStream : F → String → F → List (Record F) → List (Record F) → Type ℓ
  IsStream eps pat rho residual stream =
      ((fl.lt (fl.lit 0 0) eps ≡ true)
        × (shadow_draw bits opts.seed opts.tau_for_cheap_accept residual eps pat rho ≡ ok stream))
      ⊎ ((fl.lt (fl.lit 0 0) eps ≡ false) × (stream ≡ use_))

  -- The row says what the certificate says, and the realized risk of its thresholds on the residual.
  abbrev pub Says : AbsorptionSweep F → List (Record F) → Certificate F → Type ℓ
  Says row residual cert =
      (row.certified ≡ cert.valid)
      × (row.thresholds ≡ cert.thresholds)
      × (row.calibrated_risk ≡ cert.empirical_risk)
      × (row.deployed_risk ≡ realized_risk residual cert.thresholds)
      × (row.risk_gap ≡ fl.sub (realized_risk residual cert.thresholds) cert.empirical_risk)

  abbrev pub calibration : List (Record F) → Result (Certificate F)
  calibration stream = calibrate sprintf fuel (strip_shadow_flags stream) opts.tiers opts.ltt

  -- What a row says of its calibration.
  pub data IsReported (row : AbsorptionSweep F) : Type ℓ where
    too_few :
        (residual : List (Record F))
        → IsResidual row residual
        → length residual < 2
        → row.certified ≡ false
        → row.underpowered ≡ false
        → IsReported row
    calibrated :
        (residual stream : List (Record F))
        → IsResidual row residual
        → 2 ≤ length residual
        → IsStream row.epsilon row.pattern_ row.rho residual stream
        → row.n_calibration ≡ length stream
        → row.underpowered
          ≡ below (length stream) (min_calibration_size opts.ltt.alpha opts.ltt.delta)
        → ((length stream < 2) × (row.certified ≡ false))
          ⊎ ((2 ≤ length stream)
              × ((((e : String) × (calibration stream ≡ err e)) × (row.certified ≡ false))
                  ⊎ ((cert : Certificate F) × (calibration stream ≡ ok cert)
                      × Says row residual cert)))
        → IsReported row

  module _ (pat : String) (rho : F) (residual : List (Record F)) (note : String)
      (left : absorb bits opts.seed opts.tau_for_cheap_accept sprintf use_ pat rho
        ≡ ok (residual, note)) where
    abbrev IsRow : F → AbsorptionSweep F → Type ℓ
    IsRow eps row = Keyed IsReported ((pat, rho, eps) ∷ []) (row ∷ [])

    -- The row with its calibration stream, and no certificate yet.
    abbrev counted_row : F → ℕ → AbsorptionSweep F
    counted_row eps n =
        flagged bits sprintf fuel use_ opts pat rho residual eps
          (record (fresh_row bits sprintf fuel use_ opts pat rho residual note eps) {
            n_shadow = if fl.lt (fl.lit 0 0) eps then n else 0;
            n_calibration = n;
          })

    certified_row-IsRow :
        (eps : F) (stream : List (Record F)) (c : Result (Certificate F)) (row : AbsorptionSweep F)
        → 2 ≤ length residual
        → 2 ≤ length stream
        → IsStream eps pat rho residual stream
        → calibration stream ≡ c
        → certified_row bits sprintf fuel use_ opts pat rho residual
            (counted_row eps (length stream))
            c
          ≡ ok row
        → IsRow eps row
    certified_row-IsRow eps stream (ok cert) row h k drawn e f =
        let is : row
            ≡ with_certificate bits sprintf fuel use_ opts pat rho residual
                (counted_row eps (length stream)) cert =
          cc in
        let says = inr (k, inr (cert, e, (refl, refl, refl, refl, refl))) in
        rw is (refl, (calibrated residual stream (refl, (note, left)) h drawn refl refl says, tt))
    certified_row-IsRow eps stream (err m) row h k drawn e f =
        let is : row
            ≡ add_note bits sprintf fuel use_ opts pat rho residual ("calibration failed: " <> m)
                (counted_row eps (length stream)) =
          cc in
        let says = inr (k, inl ((m, e), refl)) in
        rw is (refl, (calibrated residual stream (refl, (note, left)) h drawn refl refl says, tt))
    certified_row-IsRow eps stream fault row h k drawn e f = absurd cc

    calibrated_row-IsRow :
        (eps : F) (stream : List (Record F)) (row : AbsorptionSweep F)
        → 2 ≤ length residual
        → IsStream eps pat rho residual stream
        → calibrated_row bits sprintf fuel use_ opts pat rho residual eps
            (fresh_row bits sprintf fuel use_ opts pat rho residual note eps)
            stream
          ≡ ok row
        → IsRow eps row
    calibrated_row-IsRow eps stream row h drawn f = elim (Bool-cases (ltb (length stream) 2)) [
      | inl k ↦
          let is : row
              ≡ add_note bits sprintf fuel use_ opts pat rho residual
                  (sprintf "only %d calibration records; no certificate attempted"
                    (int_arg (length stream) ∷ []))
                  (counted_row eps (length stream)) =
            cc (rw k at f) in
          let says = inl (ltb→lt _ _ k, refl) in
          rw is (refl, (calibrated residual stream (refl, (note, left)) h drawn refl refl says, tt))
      | inr k ↦
          certified_row-IsRow eps stream (calibration stream) row h (ground arith) drawn refl
            (rw k at f)
    ]

    drawn-IsStream :
        (eps : F) (stream : List (Record F))
        → (if fl.lt (fl.lit 0 0) eps
            then shadow_draw bits opts.seed opts.tau_for_cheap_accept residual eps pat rho
            else ok use_)
          ≡ ok stream
        → IsStream eps pat rho residual stream
    drawn-IsStream eps stream h = elim (Bool-cases (fl.lt (fl.lit 0 0) eps)) [
      | inl e ↦ inl (e, rw e at h)
      | inr e ↦ let all : ok use_ ≡ ok stream = rw e at h in inr (e, cc)
    ]

    sweep_row-IsRow :
        (eps : F) (row : AbsorptionSweep F)
        → sweep_row bits sprintf fuel use_ opts pat rho residual note eps ≡ ok row
        → IsRow eps row
    unfolding sweep_row
    sweep_row-IsRow eps row h = elim (Bool-cases (ltb (length residual) 2)) [
      | inl e ↦
          let is : row
              ≡ add_note bits sprintf fuel use_ opts pat rho residual
                  (sprintf "only %d residual records; no certificate attempted"
                    (int_arg (length residual) ∷ []))
                  (fresh_row bits sprintf fuel use_ opts pat rho residual note eps) =
            cc (rw e at h) in
          rw is (refl, (too_few residual (refl, (note, left)) (ltb→lt _ _ e) refl refl, tt))
      | inr e ↦
          let (stream, p) =
            >>=-ok
              (if fl.lt (fl.lit 0 0) eps
                then shadow_draw bits opts.seed opts.tau_for_cheap_accept residual eps pat rho
                else ok use_)
              (calibrated_row bits sprintf fuel use_ opts pat rho residual eps
                (fresh_row bits sprintf fuel use_ opts pat rho residual note eps))
              (rw e at h) in
          calibrated_row-IsRow eps stream row (ground arith) (drawn-IsStream eps stream p.0) p.1
    ]

    singly :
        (eps : F) (rows : List (AbsorptionSweep F))
        → sweep_row bits sprintf fuel use_ opts pat rho residual note eps >>= (λ row. ok (row ∷ []))
          ≡ ok rows
        → Keyed IsReported ((pat, rho, eps) ∷ []) rows
    singly eps rows h =
        let (row, p) =
          >>=-ok (sweep_row bits sprintf fuel use_ opts pat rho residual note eps)
            (λ row. ok (row ∷ [])) h in
        let is : rows ≡ row ∷ [] = cc (p.1) in rw is (sweep_row-IsRow eps row p.0)

  sweep_rate-Keyed :
      (pat : String) (rho : F) (rows : List (AbsorptionSweep F))
      → sweep_rate bits sprintf fuel use_ opts pat rho ≡ ok rows
      → Keyed IsReported (cross (λ eps. (pat, rho, eps) ∷ []) opts.epsilons) rows
  unfolding sweep_rate
  sweep_rate-Keyed pat rho rows h =
      let (p, q) =
        >>=-ok (absorb bits opts.seed opts.tau_for_cheap_accept sprintf use_ pat rho) _ h in
      collect-Keyed IsReported _ _ (singly pat rho p.0 p.1 q.0) opts.epsilons rows q.1

  sweep_rows-Keyed :
      (rows : List (AbsorptionSweep F))
      → sweep_rows bits sprintf fuel use_ opts ≡ ok rows
      → Keyed IsReported (combinations opts) rows
  unfolding sweep_rows
  sweep_rows-Keyed rows h =
      collect-Keyed IsReported _ _
        (λ pat. collect-Keyed IsReported _ _ (sweep_rate-Keyed pat) opts.rhos) opts.patterns rows h

module _ {ℓ} {F : Type ℓ} ⦃fl : Float F⦄ ⦃m : Math F⦄ (bits : F → ℕ) (sprintf : Sprintf F)
    (fuel : ℕ) where
  -- A sweep that ends without error has a row for each combination of a pattern, an absorption rate
  -- and a shadow rate, in that order, with the defaults for a list that is empty. A row whose residual
  -- (what absorption leaves of the usable records) has fewer than two records is neither certified nor
  -- flagged as underpowered. Any other has a stream: the shadow draw from its residual if its shadow
  -- rate is positive, all usable records if not. It is flagged exactly if the stream is shorter than
  -- the least size for its alpha and delta; and if the stream has two records at least and its
  -- calibration gives a certificate, it has the validity, the thresholds and the risk of that
  -- certificate, and the realized risk of those thresholds on the residual; else it is not certified.
  pub sweep_absorption-rows :
      (recs : List (Record F)) (opts : AbsorptionOptions F) (rows : List (AbsorptionSweep F))
      → sweep_absorption bits sprintf fuel recs opts ≡ ok rows
      → (map key rows ≡ combinations (defaults bits sprintf fuel opts))
        × All
            (IsReported bits sprintf fuel (usable_records recs) (defaults bits sprintf fuel opts))
            rows
  unfolding sweep_absorption
  sweep_absorption-rows recs opts rows h = elim (Bool-cases (is_empty (usable_records recs))) [
    | inl e ↦ absurd (cc (rw e at h))
    | inr e ↦ elim (Bool-cases (is_empty opts.tiers)) [
      | inl t ↦ absurd (cc (rw (e, t) at h))
      | inr t ↦
          sweep_rows-Keyed bits sprintf fuel (usable_records recs) (defaults bits sprintf fuel opts)
            rows (rw (e, t) at h)
    ]
  ]
