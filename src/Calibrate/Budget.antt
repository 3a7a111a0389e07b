-- ===== src/Calibrate/Budget.antt =====
-- What a matched budget buys: `SelfConsistencyBudget`, `SelfConsistencyBudgets`, `mean`
-- (internal/calibrate/selfconsistency.go). The maps by tier and by problem are association lists.
use go_cascade.Base.{
  ltb, ◌==◌, str_eq, if◌then◌else◌, not, is_empty, sort_stable, get_elem?, Result, ok, err, fault,
  ◌>>=◌, length, Sprintf, int_arg, float_arg, str_arg, ℤ, pos, negsuc, ℕ, suc, ◌*◌, ◌/◌, String,
  Bool, true, false, ◌||◌, none, some, List, [], ◌∷◌, ◌++◌, map,
}
use go_cascade.Float.{Float}
use go_cascade.Calibrate.Records.{TierObs, Record}
use go_cascade.Calibrate.Replay.{cascade_spend}
use go_cascade.Calibrate.Stats.{Math}
use go_cascade.Calibrate.Absorb.{usable_records}

pub record Feasibility {ℓ} (F : Type ℓ) : Type ℓ where
  pub tier : String
  pub samples : ℕ
  pub mean_budget_usd : F
  pub mean_unit_usd : F
  pub median_fanout : ℤ
  pub p10_fanout : ℤ
  pub p90_fanout : ℤ
  pub degenerate : ℕ
  pub degenerate_frac : F
  pub n : ℕ
  pub estimated_run_usd : F
  pub verdict : String

abbrev int_lt : ℤ → ℤ → Bool
int_lt (pos a) (pos b) = ltb a b
int_lt (pos a) (negsuc b) = false
int_lt (negsuc a) (pos b) = true
int_lt (negsuc a) (negsuc b) = ltb b a

-- `MinVote`
abbrev min_vote : ℤ
min_vote = pos 3

unfoldable pub fanout_of : String → List (String × ℕ) → ℕ
fanout_of tier [] = 0
fanout_of tier ((k, n) ∷ m) = let rest = fanout_of tier m in if str_eq k tier then n else rest

module _ {ℓ} {F : Type ℓ} ⦃fl : Float F⦄ ⦃m : Math F⦄ (sprintf : Sprintf F) where
  open fl use {lit, of_nat, add, mul, div, lt, le}

  -- `units[k] = append(units[k], x)`
  unfoldable pub push_unit : String → F → List (String × List F) → List (String × List F)
  push_unit k x [] = (k, x ∷ []) ∷ []
  push_unit k x ((j, xs) ∷ us) =
      if str_eq j k then (j, xs ++ (x ∷ [])) ∷ us else (j, xs) ∷ push_unit k x us

  units_of : String → List (String × List F) → List F
  units_of k [] = []
  units_of k ((j, xs) ∷ us) = let rest = units_of k us in if str_eq j k then xs else rest

  sum_from : F → List F → F
  sum_from s [] = s
  sum_from s (x ∷ xs) = sum_from (add s x) xs

  unfoldable pub mean : List F → F
  unfolding sum_from
  mean xs = if is_empty xs then lit 0 0 else div (sum_from (lit 0 0) xs) (of_nat (length xs))

  unfoldable pub tier_units :
      List (String × ℕ)
      → List (TierObs F)
      → List (String × List F)
      → Result (List (String × List F))
  unfolding push_unit fanout_of
  tier_units samples [] us = ok us
  tier_units samples (t ∷ ts) us =
      let n = fanout_of t.tier samples in
      let rest = tier_units samples ts (push_unit t.tier (div t.cost (of_nat n)) us) in
      if ltb n 1
      then err (
          sprintf
            "tier %q has no configured fan-out in samplesPerTier; per-sample cost is unrecoverable and the budget would be off by that factor"
            (str_arg t.tier ∷ []))
      else rest

  abbrev served : Record F → Bool
  served r = r.cache_hit || is_empty r.tiers

  -- The budgets of the problems, and what a sample of each tier cost on each.
  unfoldable pub collect_units :
      List F
      → List (String × ℕ)
      → List (Record F)
      → List F
      → List (String × List F)
      → Result (List F × List (String × List F))
  unfolding tier_units
  collect_units tau samples [] bs us = ok (bs, us)
  collect_units tau samples (r ∷ rs) bs us =
      let next = λ (vs : List (String × List F)).
        collect_units tau samples rs (bs ++ (cascade_spend r tau ∷ [])) vs in
      let skipped = collect_units tau samples rs bs us in
      if served r
      then skipped
      else elim (tier_units samples r.tiers us) [ ok vs ↦ next vs | err e ↦ err e | fault ↦ fault ]

  abbrev fan : F → F → ℤ
  fan b u = if lt (lit 0 0) u then m.to_int (m.floor (div b u)) else pos 0

  fans : List F → List F → List ℤ
  fans [] us = []
  fans (b ∷ bs) [] = []
  fans (b ∷ bs) (u ∷ us) = fan b u ∷ fans bs us

  degenerates : List ℤ → ℕ
  degenerates [] = 0
  degenerates (f ∷ fs) = let rest = degenerates fs in if int_lt f min_vote then suc rest else rest

  abbrev int_of : ℤ → ℕ
  int_of (pos n) = n
  int_of (negsuc n) = 0

  abbrev verdict_on : F → ℤ → String
  verdict_on frac median =
      if le (lit 5 1) frac
      then sprintf
          "NOT WORTH RUNNING: the matched budget buys < %d samples on %.1f%% of problems, so the arm collapses into a single draw from this tier — that is arm (a) or (d) relabelled, and reporting it as self-consistency would report a degenerate configuration as a result about the method"
          (int_arg 3 ∷ float_arg (mul (lit 100 0) frac) ∷ [])
      else if lt (lit 0 0) frac
      then sprintf
          "RUNNABLE WITH A CAVEAT: %.1f%% of problems fall below a %d-sample vote and must be reported separately rather than pooled"
          (float_arg (mul (lit 100 0) frac) ∷ int_arg 3 ∷ [])
      else sprintf
          "RUNNABLE: every problem affords at least %d samples (median %d), so the vote is a vote"
          (int_arg 3 ∷ int_arg (int_of median) ∷ [])

  abbrev feasibility :
      List (String × ℕ) → String → List F → List F → List ℤ → ℤ → ℤ → ℤ → Feasibility F
  feasibility samples name bs us fs p10 p50 p90 =
      let d = degenerates fs in
      let frac = div (of_nat d) (of_nat (length bs)) in
      record {
        tier = name;
        samples = fanout_of name samples;
        mean_budget_usd = mean bs;
        mean_unit_usd = mean us;
        median_fanout = p50;
        p10_fanout = p10;
        p90_fanout = p90;
        degenerate = d;
        degenerate_frac = frac;
        n = length bs;
        estimated_run_usd = sum_from (lit 0 0) bs;
        verdict = verdict_on frac p50;
      }

  abbrev at_index : List ℤ → ℕ → Result ℤ
  at_index xs i = elim (get_elem? xs i) [ none ↦ fault | some x ↦ ok x ]

  -- One tier of the table.
  unfoldable pub feasibility_of :
      List (String × ℕ) → List F → List (String × List F) → String → Result (Feasibility F)
  unfolding mean units_of fans degenerates sum_from fanout_of
  feasibility_of samples bs units name =
      let us = units_of name units in
      let sorted = sort_stable int_lt (fans bs us) in
      let n = length bs in
      if not (length us == n)
      then err (
          sprintf
            "tier %q appears in %d records but %d budgets were computed; the records are not rectangular and a per-problem match is not defined"
            (str_arg name ∷ int_arg (length us) ∷ int_arg n ∷ []))
      else at_index sorted (n / 2) >>= (λ p50. at_index sorted (n / 10) >>= (λ p10.
        at_index sorted (9 * n / 10)
        >>= (λ p90. ok (feasibility samples name bs us (fans bs us) p10 p50 p90))))

  unfoldable pub table :
      List (String × ℕ)
      → List F
      → List (String × List F)
      → List String
      → Result (List (Feasibility F))
  unfolding feasibility_of
  table samples bs units [] = ok []
  table samples bs units (name ∷ names) =
      feasibility_of samples bs units name
      >>= (λ f. table samples bs units names >>= (λ fs. ok (f ∷ fs)))

  abbrev first_tiers : List (Record F) → List String
  first_tiers [] = []
  first_tiers (r ∷ rs) = map (λ t. t.tier) r.tiers

  abbrev none_usable : ℕ → String
  none_usable n =
      sprintf "no usable records: all %d were excluded as contaminated or oracle-unsound"
        (int_arg n ∷ [])

  abbrev pub nothing_to_match : String
  nothing_to_match = "every usable record was a cache hit or had no tiers; no budget to match"

  unfoldable pub self_consistency_budget :
      List (Record F) → List F → List (String × ℕ) → Result (List (Feasibility F))
  unfolding collect_units table
  self_consistency_budget recs tau samples =
      let used = usable_records recs in
      if is_empty used
      then err (none_usable (length recs))
      else if is_empty samples
      then err
          "samplesPerTier is required: a TierObs cost covers the whole configured fan-out, so per-sample cost cannot be recovered without it"
      else collect_units tau samples used [] [] >>= (λ p.
        if is_empty p.0 then err nothing_to_match else table samples p.0 p.1 (first_tiers used))

  unfoldable pub put_budget : String → F → List (String × F) → List (String × F)
  put_budget id x [] = (id, x) ∷ []
  put_budget id x ((k, y) ∷ bs) = if str_eq k id then (id, x) ∷ bs else (k, y) ∷ put_budget id x bs

  unfoldable pub budgets_from :
      List F → List (Record F) → List (String × F) → Result (List (String × F))
  unfolding put_budget
  budgets_from tau [] out = ok out
  budgets_from tau (r ∷ rs) out =
      let skipped = budgets_from tau rs out in
      let next = budgets_from tau rs (put_budget r.id (cascade_spend r tau) out) in
      if served r
      then skipped
      else if str_eq r.id ""
      then err "a usable record has no id; budgets cannot be matched to problems"
      else next

  unfoldable pub self_consistency_budgets : List (Record F) → List F → Result (List (String × F))
  unfolding budgets_from
  self_consistency_budgets recs tau =
      let used = usable_records recs in
      if is_empty used
      then err (none_usable (length recs))
      else budgets_from tau used []
        >>= (λ out. if is_empty out then err nothing_to_match else ok out)
