-- ===== src/Calibrate/Baseline.antt =====
-- The cascade beside the two single-model policies: `Baselines` (internal/calibrate/baseline.go).
pub mod Agreement
use go_cascade.Base.{
  ltb, leb, ◌==◌, str_eq, if◌then◌else◌, ==_iff, Bool-cases, and-true, Option-cases, if_ind, Result,
  ok, err, fault, ◌>>=◌, ◌>>◌, is_none, Sum-cases, Came, well, badly, panicked, Result-Came, length,
  get_elem?, take, drop, is_empty, filter_by, any, All, count_by, length-append, length-drop,
  length-take, take-append-drop, length-map, All-append, All-imp, insert_sorted, sort_stable,
  sort_stable-perm, ℤ, pos, negsuc, is_space, trim_left, trim_right, trim_space, Arg, int_arg,
  float_arg, str_arg, Sprintf, ℕ, zero, suc, ◌+◌, ◌-◌, ◌*◌, ◌/◌, ◌%◌, ◌^◌, ◌≤◌, ◌<◌, String, ◌<>◌,
  ◌≡◌, refl, sym, ap, ◌∙◌, subst, ◌≢◌, ◌↔◌, ◌⊎◌, inl, inr, Bool, true, false, not, ◌&&◌, ◌||◌,
  Option, none, some, List, [], ◌∷◌, ◌++◌, map, arith, eq_iff,
}
use go_cascade.Float.{Float}
use go_cascade.Calibrate.Records.{
  TierObs, Record, bool_eq, truth_of, differs, truth, disagrees, retain_source_on_disagreement,
  mark_timed_out, count_timed_out,
}
use go_cascade.Calibrate.Replay.{
  Outcome, tail, clears, accepts, replay_from, replay, replay_truth_from, replay_truth,
  cascade_spend_from, cascade_spend, risk_loop, risk, realized_loop, realized_risk,
}

pub record Policy {ℓ} (F : Type ℓ) : Type ℓ where
  pub name : String
  pub risk : F
  pub mean_usd : F
  pub n : ℕ

-- What the loop has counted for one policy.
pub record Tally {ℓ} (F : Type ℓ) : Type ℓ where
  pub bad : F
  pub cost : F
  pub n : ℕ

-- The tallies of always-cheapest, the cascade and always-frontier.
pub record Tallies {ℓ} (F : Type ℓ) : Type ℓ where
  pub cheap : Tally F
  pub casc : Tally F
  pub front : Tally F

module _ {ℓ} {F : Type ℓ} ⦃fl : Float F⦄ where
  -- `r.Tiers[last]`
  abbrev pub last_of : TierObs F → List (TierObs F) → TierObs F
  last_of t [] = t
  last_of t (u ∷ us) = last_of u us

  -- The inner loop: the cost so far, and the tier that accepts.
  unfoldable pub route : F → TierObs F → List (TierObs F) → List F → F × TierObs F
  route cost t [] tau = (fl.add cost t.cost, t)
  route cost t (u ∷ us) tau =
      let spent = fl.add cost t.cost in
      let rest = route spent u us (tail tau) in
      if clears t.score (get_elem? tau 0) then (spent, t) else rest

  abbrev pub counted : TierObs F → F → Tally F → Tally F
  counted t cost a = record {
    bad = if not (truth t) then fl.add a.bad (fl.lit 1 0) else a.bad;
    cost = fl.add a.cost cost;
    n = suc a.n;
  }

  abbrev pub tally : TierObs F → List (TierObs F) → List F → Tallies F → Tallies F
  tally t ts tau a =
      let (cost, accepted) = route (fl.lit 0 0) t ts tau in
      record {
        cheap = counted t t.cost a.cheap;
        casc = counted accepted cost a.casc;
        front = counted (last_of t ts) (last_of t ts).cost a.front;
      }

  abbrev tally_record : Record F → List (TierObs F) → List F → Tallies F → Tallies F
  tally_record r [] tau a = a
  tally_record r (t ∷ ts) tau a = if r.cache_hit then a else tally t ts tau a

  unfoldable pub baseline_loop : List (Record F) → List F → Tallies F → Tallies F
  unfolding route
  baseline_loop [] tau a = a
  baseline_loop (r ∷ rs) tau a = baseline_loop rs tau (tally_record r r.tiers tau a)

  abbrev pub no_tally : Tally F
  no_tally = record { bad = fl.lit 0 0; cost = fl.lit 0 0; n = 0 }

  -- `mk`
  unfoldable pub policy_of : String → Tally F → Policy F
  policy_of name a =
      let empty : Policy F = record {
        name = name;
        risk = fl.lit 0 0;
        mean_usd = fl.lit 0 0;
        n = a.n;
      } in
      if ltb 0 a.n
      then record empty {
        risk = fl.div a.bad (fl.of_nat a.n);
        mean_usd = fl.div a.cost (fl.of_nat a.n);
      }
      else empty

  unfoldable pub baselines : List (Record F) → List F → List (Policy F)
  unfolding baseline_loop policy_of
  baselines recs tau =
      let a =
        baseline_loop recs tau (record { cheap = no_tally; casc = no_tally; front = no_tally }) in
      policy_of "always-cheapest" a.cheap
      ∷ policy_of "cascade" a.casc
      ∷ policy_of "always-frontier" a.front
      ∷ []
