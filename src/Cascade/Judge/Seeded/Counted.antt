-- ===== src/Cascade/Judge/Seeded/Counted.antt =====
-- What the tallies of a seeded row count (`ProfileSeeded` of internal/cascade/judge.go).
use go_cascade.Base.{
  str_eq, if◌then◌else◌, Bool-cases, count_by, All, All-imp, ◌+◌, String, ◌≡◌, refl, sym, ap, ◌∙◌,
  inl, inr, Bool, true, false, ◌&&◌, some, List, [], ◌∷◌, ◌++◌, arith, eq_iff,
}
use go_cascade.Cascade.Judge.Levels.{assign, change}
use go_cascade.Cascade.Judge.Seeded.{
  SeededVerdict, Tallies, fresh_verdict, counted, fresh_tallies, tally_of, flush,
}

-- The verdicts of a run, in order.
abbrev pub Log : Type 0
Log = List (String × Bool)

-- The tallies behind a log.
abbrev pub tallied : Log → Tallies → Tallies
tallied [] ts = ts
tallied ((l, pass) ∷ log) ts = tallied log (change l (counted pass) ts)

pub tallied-append :
    (xs ys : Log) (ts : Tallies) → tallied (xs ++ ys) ts ≡ tallied ys (tallied xs ts)
tallied-append [] ys ts = refl
tallied-append ((l, pass) ∷ xs) ys ts = tallied-append xs ys (change l (counted pass) ts)

-- A tally has all verdicts of its level, and counts as false acceptances those that passed.
abbrev pub Counts : Log → SeededVerdict → Type 0
Counts log v =
    (v.judged ≡ count_by (λ p. str_eq p.0 v.level) log)
    × (v.false_accept ≡ count_by (λ p. str_eq p.0 v.level && p.1) log)

differ : (k l : String) → (k ≡ l → ⊥) → str_eq k l ≡ false
differ k l h = elim (Bool-cases (str_eq k l)) [ inl e ↦ absurd (h ((eq_iff k l).0 e)) | inr e ↦ e ]

equal_no : (k l : String) → str_eq k l ≡ false → k ≡ l → ⊥
equal_no k l e h = let yes : str_eq k l ≡ true = (eq_iff k l).1 h in cc

tally_of-change :
    (l k : String) (f : SeededVerdict → SeededVerdict) (ts : Tallies) (v : SeededVerdict)
    → tally_of l ts ≡ some v
    → tally_of l (change k f ts) ≡ some (if str_eq k l then f v else v)
unfolding tally_of change
tally_of-change l k f [] v e = absurd cc
tally_of-change l k f ((j, x) ∷ ts) v e = elim (Bool-cases (str_eq j l)) [
  | inl at ↦
      let found : some x ≡ some v = rw (tally_of, at) at e in
      let same : x ≡ v = cc in
      elim (Bool-cases (str_eq j k)) [
        | inl h ↦
            let kl : str_eq k l ≡ true = ap (λ z. str_eq z l) (sym ((eq_iff j k).0 h)) ∙ at in
            rw (h, kl, tally_of, at, same) refl
        | inr h ↦
            let kl = differ k l (λ z. equal_no j k h ((eq_iff j l).0 at ∙ sym z)) in
            rw (h, kl, tally_of, at, same) refl
      ]
  | inr at ↦
      let rest : tally_of l ts ≡ some v = rw (tally_of, at) at e in
      elim (Bool-cases (str_eq j k)) [
        | inl h ↦
            let kl : str_eq k l ≡ false = ap (λ z. str_eq z l) (sym ((eq_iff j k).0 h)) ∙ at in
            rw (h, kl, tally_of, at, rest) refl
        | inr h ↦ rw (h, tally_of, at) (tally_of-change l k f ts v rest)
      ]
]

-- How much a log adds to a tally.
Grown : Log → SeededVerdict → SeededVerdict → Type 0
Grown log v v' =
    (v'.level ≡ v.level)
    × (v'.judged ≡ v.judged + count_by (λ p. str_eq p.0 v.level) log)
    × (v'.false_accept ≡ v.false_accept + count_by (λ p. str_eq p.0 v.level && p.1) log)

tally_of-tallied :
    (l : String) (log : Log) (ts : Tallies) (v : SeededVerdict)
    → v.level ≡ l
    → tally_of l ts ≡ some v
    → (v' : SeededVerdict) × (tally_of l (tallied log ts) ≡ some v') × Grown log v v'
unfolding Grown
tally_of-tallied l [] ts v n e = (v, e, (refl, omega arith, omega arith))
tally_of-tallied l ((k, pass) ∷ log) ts v n e =
    let step = tally_of-change l k (counted pass) ts v e in
    elim (Bool-cases (str_eq k l)) [
      | inr h ↦
          let kept : tally_of l (change k (counted pass) ts) ≡ some v = rw h at step in
          let kv : str_eq k v.level ≡ false = ap (λ z. str_eq k z) n ∙ h in
          let (v', at, (a, b, c)) = tally_of-tallied l log (change k (counted pass) ts) v n kept in
          (v', at, (a, rw kv (omega (arith, b)), rw kv (omega (arith, c))))
      | inl h ↦
          let more : tally_of l (change k (counted pass) ts) ≡ some (counted pass v) =
            rw h at step in
          let kv : str_eq k v.level ≡ true = ap (λ z. str_eq k z) n ∙ h in
          let (v', at, (a, b, c)) =
            tally_of-tallied l log (change k (counted pass) ts) (counted pass v) n more in
          (
            v',
            at,
            (
              a,
              rw kv (omega (arith, b)),
              elim (Bool-cases pass) [
                | inl p ↦ rw (kv, p) (omega (arith, rw p at c))
                | inr p ↦ rw (kv, p) (omega (arith, rw p at c))
              ],
            ),
          )
    ]

Fresh : Tallies → String → Type 0
Fresh ts l = tally_of l ts ≡ some (fresh_verdict l)

assign-Fresh : (k l : String) (ts : Tallies) → Fresh ts l → Fresh (assign k (fresh_verdict k) ts) l
unfolding Fresh tally_of assign
assign-Fresh k l [] e = absurd cc
assign-Fresh k l ((j, x) ∷ ts) e = elim (Bool-cases (str_eq j k)) [
  | inl h ↦ elim (Bool-cases (str_eq k l)) [
    | inl kl ↦ rw (h, tally_of, kl) (ap (λ z. some (fresh_verdict z)) ((eq_iff k l).0 kl))
    | inr kl ↦
        let jl : str_eq j l ≡ false = ap (λ z. str_eq z l) ((eq_iff j k).0 h) ∙ kl in
        rw (h, tally_of, kl) (rw (tally_of, jl) at e)
  ]
  | inr h ↦ elim (Bool-cases (str_eq j l)) [
    | inl jl ↦ rw (h, tally_of, jl) (rw (tally_of, jl) at e)
    | inr jl ↦ rw (h, tally_of, jl) (assign-Fresh k l ts (rw (tally_of, jl) at e))
  ]
]

assign-Fresh_same : (k : String) (ts : Tallies) → Fresh (assign k (fresh_verdict k) ts) k
unfolding Fresh tally_of assign
assign-Fresh_same k [] = rw ((eq_iff k k).1 refl) refl
assign-Fresh_same k ((j, x) ∷ ts) = elim (Bool-cases (str_eq j k)) [
  | inl h ↦ rw (h, tally_of, (eq_iff k k).1 refl) refl
  | inr h ↦ rw (h, tally_of, h) (assign-Fresh_same k ts)
]

fresh_tallies-Fresh : (ls : List String) → All (Fresh (fresh_tallies ls)) ls
unfolding fresh_tallies
fresh_tallies-Fresh [] = tt
fresh_tallies-Fresh (l ∷ ls) = (
  assign-Fresh_same l (fresh_tallies ls),
  All-imp (Fresh (fresh_tallies ls)) (Fresh (fresh_tallies (l ∷ ls))) ls
      (λ k h. assign-Fresh l k (fresh_tallies ls) h) (fresh_tallies-Fresh ls),
)

flush-All :
    (log : Log) (ls : List String) (ts : Tallies)
    → All (Fresh ts) ls
    → All (Counts log) (flush ls (tallied log ts))
unfolding flush Fresh Grown
flush-All log [] ts h = tt
flush-All log (l ∷ ls) ts (h, hs) =
    let (v, at, (a, b, c)) = tally_of-tallied l log ts (fresh_verdict l) refl h in
    rw at ((rw a (omega (arith, b)), rw a (omega (arith, c))), flush-All log ls ts hs)

-- Every tally that comes out counts the verdicts of the log.
pub flush-Counts :
    (log : Log) (ls : List String) → All (Counts log) (flush ls (tallied log (fresh_tallies ls)))
flush-Counts log ls = flush-All log ls (fresh_tallies ls) (fresh_tallies-Fresh ls)
