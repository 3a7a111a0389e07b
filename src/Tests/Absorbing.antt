-- ===== src/Tests/Absorbing.antt =====
-- Two records, a cache that absorbs half of them, and the comparison of the policies.
use go_cascade.Base.{
  ok, err, fault, Result, sort_stable, length, get_elem?, filter_by, pos, ℕ, ◌+◌, ◌<◌, ◌≡◌, refl,
  All, some, List, [], ◌∷◌, map, arith,
}
use go_cascade.Float.{Milli, of_milli, milli_float}
use go_cascade.Calibrate.Records.{truth}
use go_cascade.Calibrate.Replay.{realized_risk, risk}
use go_cascade.Calibrate.Baseline.{baselines}
use go_cascade.Calibrate.Baseline.Agreement.{tiered, baselines-cascade}
use go_cascade.Calibrate.Absorb.{
  tier0_score, tier0_correct, slice_from, drop_count, absorb, easy_first, usable_records,
}
use go_cascade.Calibrate.Absorb.Split.{Splits, absorb-split}
use go_cascade.Calibrate.Absorb.Sweep.{
  AbsorptionSweep, AbsorptionOptions, collect, defaults, sweep_row, sweep_rate, sweep_rows,
  sweep_absorption,
}
use go_cascade.Calibrate.Absorb.Sweep.Keyed.{key, combinations}
use go_cascade.Calibrate.Absorb.Sweep.Rows.{IsReported, sweep_absorption-rows}
use go_cascade.Tests.Calibrating.{milli_math, format, easy, hard, half, opts_for}

abbrev bits : Milli → ℕ
bits x = x.milli

-- The easy record is absorbed.
half_absorbed :
    absorb bits 7 [] format (hard ∷ easy ∷ []) easy_first (of_milli 500) ≡ ok (hard ∷ [], "")
unfolding absorb drop_count slice_from tier0_correct tier0_score sort_stable truth
half_absorbed = refl

half_dropped : drop_count bits 7 [] 2 (of_milli 500) ≡ pos 1
unfolding drop_count
half_dropped = refl

absorb-split_example :
    (1 + length (hard ∷ []) ≡ length (hard ∷ easy ∷ []))
    × (0 < length (hard ∷ []))
    × Splits 1 (hard ∷ easy ∷ []) (hard ∷ [])
absorb-split_example =
    absorb-split bits 7 [] format (hard ∷ easy ∷ []) easy_first (of_milli 500) 1 (hard ∷ []) ""
      (omega arith) half_dropped half_absorbed

abbrev sweep_opts : AbsorptionOptions Milli
sweep_opts = record {
  rhos = of_milli 500 ∷ [];
  epsilons = of_milli 0 ∷ of_milli 200 ∷ [];
  patterns = easy_first ∷ [];
  tiers = "small" ∷ "mid" ∷ "large" ∷ [];
  ltt = opts_for "fixed-sequence";
  seed = 7;
  tau_for_cheap_accept = [];
}

abbrev rows_of : Result (List (AbsorptionSweep Milli)) → List (AbsorptionSweep Milli)
rows_of (ok rows) = rows
rows_of (err e) = []
rows_of fault = []

abbrev rows : List (AbsorptionSweep Milli)
rows = rows_of (sweep_absorption bits format 20 (hard ∷ easy ∷ []) sweep_opts)

swept : sweep_absorption bits format 20 (hard ∷ easy ∷ []) sweep_opts ≡ ok rows
unfolding sweep_absorption sweep_rows sweep_rate sweep_row collect absorb drop_count slice_from
    tier0_correct tier0_score sort_stable truth usable_records
swept = refl

sweep_absorption-rows_example :
    (map key rows ≡ combinations (defaults bits format 20 sweep_opts))
    × All
        (IsReported bits format 20
          (usable_records (hard ∷ easy ∷ []))
          (defaults bits format 20 sweep_opts))
        rows
sweep_absorption-rows_example =
    sweep_absorption-rows bits format 20 (hard ∷ easy ∷ []) sweep_opts rows swept

baselines-cascade_example :
    get_elem? (baselines (hard ∷ easy ∷ []) half) 1
    ≡ some (record {
      name = "cascade";
      risk = realized_risk (filter_by tiered (hard ∷ easy ∷ [])) half;
      mean_usd = (risk (filter_by tiered (hard ∷ easy ∷ [])) half).1;
      n = length (filter_by tiered (hard ∷ easy ∷ []));
    })
baselines-cascade_example = baselines-cascade (hard ∷ easy ∷ []) half (omega arith)
