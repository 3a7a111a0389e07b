-- ===== src/Tests/Calibrating.antt =====
-- Replays, grids and certificates of small samples.
use Prim.Native.Nat.{min, max}
use go_cascade.Base.{
  sort_stable, filter_by, leb, All, pos, Sprintf, ℕ, ◌+◌, ◌*◌, ◌/◌, ◌≤◌, String, ◌≡◌, refl, ◌≢◌,
  Bool, true, false, some, List, [], ◌∷◌, arith,
}
use go_cascade.Float.{Milli, of_milli, milli_float, Milli-IsOrdered, Milli-IsCounting}
use go_cascade.Calibrate.Records.{TierObs, Record, truth}
use go_cascade.Calibrate.Replay.{
  realized_loop, replay, replay_truth, cascade_spend, risk_loop, risk, realized_risk,
}
use go_cascade.Calibrate.Replay.Decision.{AcceptsAt, spent_to, replay_decision}
use go_cascade.Calibrate.Replay.Raising.{Adds, replay_mono}
use go_cascade.Calibrate.Replay.Truth.{realized_risk_sound, wrong, risk-count}
use go_cascade.Calibrate.Stats.{h1, binom_cdf, hoeffding_bentkus, Math}
use go_cascade.Calibrate.Certify.{
  flag_if_nominal, bonferroni_method, evaluate, slice_lt, Cand, sum, more_conservative, fixed_order,
  fixed_sequence, bonferroni, exclude, select, conclude, blank, Options, certify, Certificate,
}
use go_cascade.Calibrate.Certify.Certified.{certify_bonferroni, evaluated, valid-risk, StandsOn}

-- An exponential that is 0 makes every p-value 0 or 1, by whether the risk is below alpha.
instance abbrev pub milli_math : Math Milli
milli_math = record {
  exp = λ x. of_milli 0;
  log = λ x. of_milli 0;
  lgamma = λ x. of_milli 0;
  abs = λ x. x;
  neg = λ x. of_milli 0;
  ceil = λ x. of_milli ((x.milli + 999) / 1000 * 1000);
  round = λ x. of_milli ((x.milli + 500) / 1000 * 1000);
  floor = λ x. of_milli (x.milli / 1000 * 1000);
  min_of = λ x y. of_milli (min x.milli y.milli);
  max_of = λ x y. of_milli (max x.milli y.milli);
  inf = of_milli 1_000_000_000;
  euler = of_milli 2718;
  to_int = λ x. pos (x.milli / 1000);
}

abbrev pub format : Sprintf Milli
format f args = f

abbrev obs : String → ℕ → Bool → ℕ → TierObs Milli
obs tier score correct cost = record {
  tier = tier;
  score = of_milli score;
  correct = correct;
  true_correct = some correct;
  cost = of_milli cost;
  disagreement_source = "";
  timed_out = false;
}

abbrev profiled : List (TierObs Milli) → Record Milli
profiled tiers = record {
  id = "p1";
  problem = "reverse a list";
  tiers = tiers;
  cache_hit = false;
  cache_correct = false;
  cache_cost = of_milli 0;
  contaminated = false;
  oracle_unsound = false;
  oracle_unsound_diag = "";
  oracle_inconclusive = false;
  shadow = false;
}

abbrev pub hard : Record Milli
hard = profiled (obs "small" 400 false 1 ∷ obs "mid" 600 false 5 ∷ obs "large" 300 true 20 ∷ [])

abbrev pub easy : Record Milli
easy = profiled (obs "small" 900 true 1 ∷ obs "mid" 900 true 5 ∷ obs "large" 900 true 20 ∷ [])

abbrev pub half : List Milli
half = of_milli 500 ∷ of_milli 500 ∷ []

abbrev strict : List Milli
strict = of_milli 800 ∷ of_milli 700 ∷ []

some_tiers : hard.tiers ≢ []
some_tiers e = cc

escalates : (replay hard half).accepted_at ≡ "mid"
unfolding replay
escalates = refl

replay_decision_example :
    (j : ℕ) × (t : TierObs Milli) × AcceptsAt hard.tiers half j t
    × (replay hard half ≡ record {
      correct = t.correct;
      cost = spent_to (of_milli 0) j hard.tiers;
      accepted_at = t.tier;
    })
    × (replay_truth hard half ≡ truth t)
    × (cascade_spend hard half ≡ spent_to (of_milli 0) j hard.tiers)
replay_decision_example = replay_decision hard half refl some_tiers

replay_mono_example :
    (leb (replay hard half).cost.milli (replay hard strict).cost.milli ≡ true)
    × ((j j' : ℕ) (t t' : TierObs Milli)
        → AcceptsAt hard.tiers half j t
        → AcceptsAt hard.tiers strict j' t'
        → j ≤ j')
replay_mono_example =
    replay_mono Milli-IsOrdered hard half strict refl some_tiers (refl, (refl, tt)) grows
  where
    grows : All Adds hard.tiers
    grows = ground arith

realized_risk_sound_example :
    realized_risk (hard ∷ easy ∷ []) half ≡ (risk (hard ∷ easy ∷ []) half).0
unfolding truth
realized_risk_sound_example =
    realized_risk_sound (hard ∷ easy ∷ []) half
      ((refl, (refl, (refl, tt))), ((refl, (refl, (refl, tt))), tt))

risk-count_example :
    (risk (hard ∷ easy ∷ []) half).0 ≡ of_milli (wrong half (hard ∷ easy ∷ []) * 1000 * 1000 / 2000)
risk-count_example = risk-count Milli-IsCounting (hard ∷ easy ∷ []) half (λ e. cc) (omega arith)

half_risk : (risk (hard ∷ easy ∷ []) half).0 ≡ of_milli 500
unfolding risk risk_loop replay
half_risk = refl

abbrev pub opts_for : String → Options Milli
opts_for method = record {
  alpha = of_milli 400;
  delta = of_milli 100;
  step = of_milli 500;
  method = method;
}

abbrev uncertified : String → Certificate Milli
uncertified method =
    blank format (exclude (hard ∷ easy ∷ [])) 0 2 ("small" ∷ "mid" ∷ "large" ∷ []) (opts_for method)
      (of_milli 100)

abbrev issued : String → Certificate Milli
issued method =
    certify format (uncertified method) (hard ∷ easy ∷ []) (opts_for method) (of_milli 100) half
      (strict ∷ [])

-- Only the strict vector is certified: under the other the hard problem is answered wrongly.
issues_strict :
    ((issued "fixed-sequence").valid ≡ true)
    × ((issued "fixed-sequence").thresholds ≡ strict)
    × ((issued bonferroni_method).thresholds ≡ strict)
unfolding certify conclude select bonferroni fixed_sequence fixed_order more_conservative sum
    slice_lt evaluate risk risk_loop replay realized_risk realized_loop replay_truth truth
    hoeffding_bentkus binom_cdf h1 flag_if_nominal sort_stable
issues_strict = (refl, refl, refl)

certify_bonferroni_example :
    StandsOn format
      (uncertified bonferroni_method)
      (hard ∷ easy ∷ [])
      (opts_for bonferroni_method)
      (of_milli 100)
      half
      (strict ∷ [])
      (filter_by
        (λ (c : Cand Milli). leb c.p.milli 50)
        (evaluated format
          (uncertified bonferroni_method)
          (hard ∷ easy ∷ [])
          (opts_for bonferroni_method)
          (of_milli 100)
          half
          (strict ∷ [])))
certify_bonferroni_example =
    certify_bonferroni format (uncertified bonferroni_method) (hard ∷ easy ∷ [])
      (opts_for bonferroni_method) (of_milli 100) half (strict ∷ []) Milli-IsOrdered refl

valid-risk_example : leb 400 (issued "fixed-sequence").empirical_risk.milli ≡ false
valid-risk_example =
    valid-risk format (uncertified "fixed-sequence") (hard ∷ easy ∷ []) (opts_for "fixed-sequence")
      (of_milli 100) half (strict ∷ []) Milli-IsOrdered refl refl issues_strict.0
