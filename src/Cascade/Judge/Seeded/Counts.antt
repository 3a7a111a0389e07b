-- ===== src/Cascade/Judge/Seeded/Counts.antt =====
-- The tallies of a seeded row (`ProfileSeeded` of internal/cascade/judge.go).
use go_cascade.Base.{
  str_eq, Bool-cases, Option-cases, ◌≤◌, String, ◌≡◌, refl, ap, ◌∙◌, inl, inr, Bool, true, false,
  some, List, [], ◌∷◌, map, All, arith, subst, eq_iff,
}
use go_cascade.Cascade.Judge.Levels.{assign, change}
use go_cascade.Cascade.Judge.Seeded.{
  SeededVerdict, Tallies, fresh_verdict, counted, fresh_tallies, tally_of, flush,
}

-- No more passes than verdicts.
abbrev pub IsBounded : SeededVerdict → Type 0
IsBounded v = v.false_accept ≤ v.judged

-- A tally stands under its level.
abbrev pub IsFiled : String × SeededVerdict → Type 0
IsFiled p = IsBounded p.1 × (p.1.level ≡ p.0)

abbrev pub AllBounded : Tallies → Type 0
AllBounded ts = All IsFiled ts

counted-IsBounded : (b : Bool) (v : SeededVerdict) → IsBounded v → IsBounded (counted b v)
counted-IsBounded true v h = omega arith
counted-IsBounded false v h = omega arith

pub change-AllBounded :
    (l : String) (b : Bool) (ts : Tallies) → AllBounded ts → AllBounded (change l (counted b) ts)
unfolding change
change-AllBounded l b [] h = tt
change-AllBounded l b ((k, v) ∷ ts) (h, hs) = elim (Bool-cases (str_eq k l)) [
  | inl e ↦ rw e ((counted-IsBounded b v h.0, h.1), hs)
  | inr e ↦ rw e (h, change-AllBounded l b ts hs)
]

assign-AllBounded :
    (l : String) (v : SeededVerdict) (ts : Tallies)
    → IsFiled (l, v)
    → AllBounded ts
    → AllBounded (assign l v ts)
unfolding assign
assign-AllBounded l v [] h hs = (h, tt)
assign-AllBounded l v ((k, x) ∷ ts) h (g, gs) = elim (Bool-cases (str_eq k l)) [
  | inl e ↦ rw e (h, gs)
  | inr e ↦ rw e (g, assign-AllBounded l v ts h gs)
]

pub fresh_tallies-AllBounded : (ls : List String) → AllBounded (fresh_tallies ls)
unfolding fresh_tallies
fresh_tallies-AllBounded [] = tt
fresh_tallies-AllBounded (l ∷ ls) =
    assign-AllBounded l (fresh_verdict l) (fresh_tallies ls) (omega arith, refl)
      (fresh_tallies-AllBounded ls)

tally_of-IsFiled :
    (l : String) (ts : Tallies) (v : SeededVerdict)
    → AllBounded ts
    → tally_of l ts ≡ some v
    → IsFiled (l, v)
unfolding tally_of
tally_of-IsFiled l [] v h e = absurd cc
tally_of-IsFiled l ((k, x) ∷ ts) v (h, hs) e = elim (Bool-cases (str_eq k l)) [
  | inr f ↦ tally_of-IsFiled l ts v hs (rw (tally_of, f) at e)
  | inl f ↦
      let same : some x ≡ some v = rw (tally_of, f) at e in
      let here : x ≡ v = cc in
      subst (λ z. IsFiled (z, v)) ((eq_iff k l).0 f) (subst (λ y. IsFiled (k, y)) here h)
]

pub flush-IsFiled :
    (ls : List String) (ts : Tallies)
    → AllBounded ts
    → All IsBounded (flush ls ts) × (map (λ v. v.level) (flush ls ts) ≡ ls)
unfolding flush
flush-IsFiled [] ts h = (tt, refl)
flush-IsFiled (l ∷ ls) ts h =
    let (all, same) = flush-IsFiled ls ts h in
    elim (Option-cases (tally_of l ts)) [
      | inl f ↦ rw f ((omega arith, all), ap (◌∷◌ l) same)
      | inr (v, f) ↦
          let (b, k) = tally_of-IsFiled l ts v h f in
          rw f ((b, all), ap (λ z. z ∷ map (λ u. u.level) (flush ls ts)) k ∙ ap (◌∷◌ l) same)
    ]
