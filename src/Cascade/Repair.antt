-- ===== src/Cascade/Repair.antt =====
-- The repair loop: `repairLoop` (internal/cascade/cascade.go).
use go_cascade.Base.{
  Option-cases, if_ind, Sum-cases, well, badly, panicked, Result-Came, Result, ok, err, fault, ap,
  sym, ◌∙◌, subst, not, [], ℕ, zero, suc, ◌+◌, ◌≤◌, String, ◌≡◌, refl, inl, inr, true, Option, none,
  some, arith,
}
use go_cascade.Float.{Float}
use go_cascade.Verify.Stages.{Report}
use go_cascade.Verify.Workspace.{Toolchain}
use go_cascade.Verify.Ladder.{run_ladder}
use go_cascade.Cluster.{Candidate, is_verified}
use go_cascade.Cascade.State.{Tier, Config, Spec, Work, Services, add_model, add_compute, tier_cost}
use go_cascade.Cascade.Sampling.{
  Verified, verified_in, verify_one, charge_model, verify_source, report_stage, report_diag,
  repair_loop,
}

module _ {ℓ} {W F : Type ℓ} ⦃fl : Float F⦄ (env : Services W F) (cfg : Config F) where
  open env use {new_workspace}

  -- `source` cleared the ladder in the last workspace that was opened before the world `after`, and
  -- `report` is what that run reported.
  abbrev pub Cleared : Spec → String → Option Report → W → Type ℓ
  Cleared spec source report after =
      (before : W) × (tc : Toolchain) × (new_workspace source spec.visible_tests spec.hidden_tests
          before
        ≡ (some tc, after))
      × (report ≡ some (run_ladder tc cfg.opts [] source).report)
      × ((run_ladder tc cfg.opts [] source).report.ok_ ≡ true)

  abbrev pub IsRepaired : Spec → Option Candidate → W → Type ℓ
  IsRepaired spec none after = Unit
  IsRepaired spec (some c) after = Cleared spec c.source c.report after

  -- What comes out of `left` rounds that start with `calls` model calls made.
  abbrev pub Within : Spec → ℕ → ℕ → Option Candidate × Work W F → Type ℓ
  Within spec left calls p = IsRepaired spec p.0 p.1.world × (p.1.cost.model_calls ≤ calls + left)

  abbrev source_in : Result Candidate → String
  source_in (ok c) = c.source
  source_in (err e) = ""
  source_in fault = ""

  abbrev report_in : Result Candidate → Option Report
  report_in (ok c) = c.report
  report_in (err e) = none
  report_in fault = none

  -- Whether the held-out partition was run or not, the report is that of the visible one.
  verified_in_report :
      (tc : Toolchain) (source : String)
      → (verified_in env cfg tc source).report ≡ (run_ladder tc cfg.opts [] source).report
  verified_in_report tc source =
      if_ind {A = Verified} (λ v. v.report ≡ (run_ladder tc cfg.opts [] source).report)
        (not (run_ladder tc cfg.opts [] source).report.ok_) (λ _. refl) (λ _. refl)

  verify_source-Cleared :
      (i : ℕ) (source : String) (spec : Spec) (w : Work W F) (c : Candidate)
      → (verify_source env cfg i source spec w).0 ≡ ok c
      → is_verified c.report ≡ true
      → Cleared spec c.source c.report (verify_source env cfg i source spec w).1.world
  unfolding verify_one
  verify_source-Cleared i source spec w c e fine =
      let opened = new_workspace source spec.visible_tests spec.hidden_tests w.world in
      elim (Option-cases opened.0) [
        | inl f ↦
            let no : err "workspace" ≡ ok c = rw (f, verify_source, verify_one) at e in absurd cc
        | inr (tc, f) ↦
            let out = run_ladder tc cfg.opts [] source in
            let made = rw (f, verify_source, verify_one) at e in
            let source_of : source ≡ c.source = ap (λ r. source_in r) made in
            let report_of : some out.report ≡ c.report =
              sym (ap some (verified_in_report tc source)) ∙ ap (λ r. report_in r) made in
            let clear : out.report.ok_ ≡ true = ap is_verified report_of ∙ fine in
            let cleared : Cleared spec source c.report opened.1 =
              (w.world, tc, ap (λ t. (t, opened.1)) f, sym report_of, clear) in
            let named : Cleared spec c.source c.report opened.1 =
              subst (λ text. Cleared spec text c.report opened.1) source_of cleared in
            rw (f, verify_source, verify_one) named
      ]

  verify_source_calls :
      (i : ℕ) (source : String) (spec : Spec) (w : Work W F)
      → (verify_source env cfg i source spec w).1.cost.model_calls ≡ w.cost.model_calls
  unfolding add_compute
  verify_source_calls i source spec w =
      elim (Option-cases (verify_one env cfg source spec w.world).0) [
        | inl e ↦ rw (e, verify_source) refl
        | inr (v, e) ↦ rw (e, verify_source) refl
      ]

  -- A candidate that the repair loop returns carries the report of a run of the ladder on its
  -- source, in the last workspace that the loop opened, which held that source and the contract's
  -- tests; and that run did not refute it. The loop makes at most as many model calls as it has
  -- rounds.
  pub repair_loop-IsRepaired :
      (left round : ℕ) (tier : Tier F) (problem : String) (spec : Spec) (cur : Candidate)
      (w : Work W F)
      → Within spec left w.cost.model_calls (repair_loop env cfg left round tier problem spec cur w)
  unfolding repair_loop add_model
  repair_loop-IsRepaired zero round tier problem spec cur w = (tt, omega arith)
  repair_loop-IsRepaired (suc left) round tier problem spec cur w =
      let text =
        env.repair_user problem spec.api cur.source (report_stage env cfg cur.report)
          (report_diag env cfg cur.report) in
      let answer = env.generate tier.model_id text 0 w.world in
      elim (Sum-cases answer.0) [
        | inl (m, e) ↦ rw (e, repair_loop) (tt, omega arith)
        | inr (resp, e) ↦
            let u : Work W F =
              charge_model env cfg resp (tier_cost tier resp.input_tokens resp.output_tokens)
                (record w { world = answer.1 }) in
            rw (e, repair_loop)
              (elim (Sum-cases (env.extract_code resp.text)) [
                | inl (m, f) ↦ rw f (tt, omega arith)
                | inr (source, f) ↦
                    let calls = verify_source_calls (1000 + round) source spec u in
                    rw f
                      (elim (Result-Came (verify_source env cfg (1000 + round) source spec u).0) [
                        | badly m g ↦ rw g (tt, omega (arith, calls))
                        | panicked g ↦ rw g (tt, omega (arith, calls))
                        | well c g ↦ rw g (
                            if_ind {A = Option Candidate × Work W F}
                              (Within spec (suc left) w.cost.model_calls) (is_verified c.report)
                              (λ fine. (
                                verify_source-Cleared (1000 + round) source spec u c g fine,
                                omega (arith, calls),
                              ))
                              (λ _.
                                let (fine, few) =
                                  repair_loop-IsRepaired left (suc round) tier problem spec c _ in
                                (fine, omega (arith, calls, few))))
                      ])
              ])
      ]
