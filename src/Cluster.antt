-- ===== src/Cluster.antt =====
-- Package cluster (internal/cluster/cluster.go): candidates grouped by observed behaviour, and the
-- routing score. SHA-256 and `math.Sqrt` are given.
pub mod Partition
pub mod Mass
pub mod Text
use Prim.Native.String.{len, compare}
use text.Mathlib.Text.{is_lt}
use go_cascade.Base.{
  ltb, leb, ◌==◌, str_eq, if◌then◌else◌, is_none, length, sort_stable, ℕ, ◌+◌, ◌*◌, ◌/◌, ◌^◌,
  String, ◌<>◌, Bool, true, false, not, ◌&&◌, Option, none, some, List, [], ◌∷◌, ◌++◌, map,
}
use go_cascade.Float.{Float}
use go_cascade.Verify.Stages.{stage_name, Static, Outcomes, Report}

-- `Elapsed` is never set, and left out.
pub record Candidate : Type 0 where
  pub index : ℕ
  pub source : String
  pub report : Option Report

-- `Mass` is the number of members over the number of candidates.
pub record Cluster {ℓ} (F : Type ℓ) : Type ℓ where
  pub key : String
  pub members : List ℕ
  pub mass : F
  pub verified : Bool
  pub rep : ℕ

abbrev pub str_lt : String → String → Bool
str_lt a b = is_lt (compare a b)

outcome_text : Outcomes → String
outcome_text [] = ""
outcome_text ((n, v) ∷ ts) = n <> "=" <> (if v then "true" else "false") <> ";" <> outcome_text ts

-- A class while it is collected: its key, its members in order, and whether it is verified.
pub record Class : Type 0 where
  pub class_key : String
  pub ids : List ℕ
  pub verified_ : Bool

abbrev pub is_verified : Option Report → Bool
is_verified none = false
is_verified (some r) = r.ok_

module _ (digest : String → String) where
  abbrev behaviour_of : Option Report → String
  behaviour_of none = "nil"
  behaviour_of (some r) =
      let vector = outcome_text (sort_stable (λ a b. str_lt a.0 b.0) r.tests) in
      if not r.ok_ then "refuted:" <> stage_name r.failed_at else "ok:" <> digest ("ok:" <> vector)

  unfoldable pub behaviour : Candidate → String
  unfolding outcome_text
  behaviour c = behaviour_of c.report

  put_class : Candidate → List Class → List Class
  put_class c [] =
      record { class_key = behaviour c; ids = c.index ∷ []; verified_ = is_verified c.report } ∷ []
  put_class c (k ∷ ks) =
      if str_eq k.class_key (behaviour c)
      then record k { ids = k.ids ++ (c.index ∷ []) } ∷ ks
      else k ∷ put_class c ks

  -- The first loop of `Group`: the classes in the order in which their keys are first seen.
  unfoldable pub classes : List Candidate → List Class → List Class
  unfolding put_class behaviour
  classes [] ks = ks
  classes (c ∷ cs) ks = classes cs (put_class c ks)

-- `byIndex[m]`: the last candidate of that index.
by_index : ℕ → List Candidate → Option Candidate
by_index m [] = none
by_index m (c ∷ cs) =
    let rest = by_index m cs in if is_none rest && c.index == m then some c else rest

abbrev simplicity_of : Option Static → String → ℕ
simplicity_of none src = 2 ^ 29
simplicity_of (some st) src = st.max_complexity * 1000 + len src / 100

abbrev report_simplicity : Option Report → String → ℕ
report_simplicity none src = 2 ^ 29
report_simplicity (some r) src = simplicity_of r.static src

abbrev simplicity : Option Candidate → ℕ
simplicity none = 2 ^ 29
simplicity (some c) = report_simplicity c.report c.source

-- The simplest representative: the first member of least score.
simplest : List Candidate → List ℕ → ℕ → ℕ → ℕ
unfolding by_index
simplest cands [] best score = best
simplest cands (m ∷ ms) best score =
    let s = simplicity (by_index m cands) in
    simplest cands ms (if ltb s score then m else best) (if ltb s score then s else score)

representative : List Candidate → List ℕ → ℕ
unfolding simplest
representative cands [] = 0
representative cands (m ∷ ms) = simplest cands (m ∷ ms) m (2 ^ 30)

module _ {ℓ} {F : Type ℓ} ⦃fl : Float F⦄ where
  -- The comparison of the final sort.
  unfoldable pub cluster_lt : Cluster F → Cluster F → Bool
  cluster_lt a b =
      if a.verified && not b.verified
      then true
      else if not a.verified && b.verified
      then false
      else if length a.members == length b.members
      then str_lt a.key b.key
      else ltb (length b.members) (length a.members)

  as_cluster : List Candidate → Class → Cluster F
  unfolding representative
  as_cluster cands k = record {
    key = k.class_key;
    members = k.ids;
    mass = fl.div (fl.of_nat (length k.ids)) (fl.of_nat (length cands));
    verified = k.verified_;
    rep = representative cands k.ids;
  }

  unfoldable pub group : (String → String) → List Candidate → List (Cluster F)
  unfolding classes as_cluster cluster_lt
  group digest cands = sort_stable cluster_lt (map (as_cluster cands) (classes digest cands []))

  unfoldable pub total_members : List (Cluster F) → ℕ
  total_members [] = 0
  total_members (c ∷ cs) = length c.members + total_members cs

  unfoldable pub first_verified : List (Cluster F) → Option (Cluster F)
  first_verified [] = none
  first_verified (c ∷ cs) = let rest = first_verified cs in if c.verified then some c else rest

  module _ (sqrt : F → F) (min_of max_of : F → F → F) where
    open fl use {lit, of_nat, add, sub, mul, div}

    unfoldable pub wilson_lcb : ℕ → ℕ → F → F
    wilson_lcb k n z =
        let fn = of_nat n in
        let p = div (of_nat k) fn in
        let z2 = mul z z in
        let centre = add p (div z2 (mul (lit 2 0) fn)) in
        let spread =
          mul z
            (sqrt (add (div (mul p (sub (lit 1 0) p)) fn) (div z2 (mul (mul (lit 4 0) fn) fn)))) in
        let lcb = div (sub centre spread) (add (lit 1 0) (div z2 fn)) in
        if leb n 0 then lit 0 0 else max_of (lit 0 0) (min_of (lit 1 0) lcb)

    -- The score, and the winning cluster if one is verified.
    unfoldable pub score : List (Cluster F) → F × Option (Cluster F)
    unfolding total_members first_verified
    score cs = elim (first_verified cs) [
      | none ↦ (lit 0 0, none)
      | some c ↦ (wilson_lcb (length c.members) (total_members cs) (lit 1645 3), some c)
    ]

    unfoldable pub unanimous_score : ℕ → F
    unanimous_score n = wilson_lcb n n (lit 1645 3)
