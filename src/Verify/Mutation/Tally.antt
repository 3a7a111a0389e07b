-- ===== src/Verify/Mutation/Tally.antt =====
-- What becomes of the mutants of a run, one by one (`Mutate` of internal/verify/mutation.go).
use mathlib.Core.List.{append_assoc, append-nil}
use go_cascade.Base.{
  ltb, if_ind, is_none, Bool-cases, Option-cases, ok, fault, ℤ, ℕ, suc, ◌+◌, ◌*◌, String, ◌≡◌, ◌∙◌,
  refl, sym, inl, inr, Bool, true, false, Option, none, some, List, [], ◌∷◌, ◌++◌, arith,
}
use go_cascade.Float.{Float}
use go_cascade.Calibrate.Stats.{Math}
use go_cascade.Verify.Ladder.{second}
use go_cascade.Verify.Workspace.{Spawn, Toolchain, run}
use go_cascade.Verify.Mutation.Sites.{Source, Site}
use go_cascade.Verify.Mutation.Harvest.{
  MutationScore, Bench, site_at, mutant, built, tested, refuted, tried, mutate_loop, rated, unrated,
}

module _ (bench : Bench) (src : Source) (timeout : ℕ) where
  -- What the numbered sites of a file come to, from what was spawned before on: `valid` counts the
  -- mutants that were written and built, `killed` those of them that the tests then refuted, and the
  -- others are named as survivors; a mutant that is not written or does not build counts nowhere.
  pub data Tally (sites : List Site)
      : List ℤ → List Spawn → (valid killed : ℕ) → List String → Type 0 where
    over : (ran : List Spawn) → Tally sites [] ran 0 0 []
    stopped :
        (is : List ℤ) (ran : List Spawn) → bench.cancelled ran ≡ true → Tally sites is ran 0 0 []
    unwritten :
        {i : ℤ} {is : List ℤ} {ran : List Spawn} {v k : ℕ} {left : List String} (s : Site)
        → site_at sites i ≡ some s
        → mutant bench src s ≡ none
        → Tally sites is ran v k left
        → Tally sites (i ∷ is) ran v k left
    broken :
        {i : ℤ} {is : List ℤ} {ran : List Spawn} {v k : ℕ} {left : List String} (s : Site)
        (text : String) (tc : Toolchain)
        → site_at sites i ≡ some s
        → mutant bench src s ≡ some (text, tc)
        → is_none (run tc ran (60 * second) false ("build" ∷ "./..." ∷ [])).error ≡ false
        → Tally sites is (built bench tc ran).1 v k left
        → Tally sites (i ∷ is) ran v k left
    dead :
        {i : ℤ} {is : List ℤ} {ran : List Spawn} {v k : ℕ} {left : List String} (s : Site)
        (text : String) (tc : Toolchain)
        → site_at sites i ≡ some s
        → mutant bench src s ≡ some (text, tc)
        → is_none (run tc ran (60 * second) false ("build" ∷ "./..." ∷ [])).error ≡ true
        → refuted (run tc (built bench tc ran).1 timeout true ("test" ∷ "-count=1" ∷ "./..." ∷ []))
          ≡ true
        → Tally sites is (tested bench tc timeout (built bench tc ran).1).1 v k left
        → Tally sites (i ∷ is) ran (suc v) (suc k) left
    alive :
        {i : ℤ} {is : List ℤ} {ran : List Spawn} {v k : ℕ} {left : List String} (s : Site)
        (text : String) (tc : Toolchain)
        → site_at sites i ≡ some s
        → mutant bench src s ≡ some (text, tc)
        → is_none (run tc ran (60 * second) false ("build" ∷ "./..." ∷ [])).error ≡ true
        → refuted (run tc (built bench tc ran).1 timeout true ("test" ∷ "-count=1" ∷ "./..." ∷ []))
          ≡ false
        → Tally sites is (tested bench tc timeout (built bench tc ran).1).1 v k left
        → Tally sites (i ∷ is) ran (suc v) k (s.desc ∷ left)

  -- The same counts under other names.
  renamed :
      (sites : List Site) (is : List ℤ) {v k a b : ℕ} {left c : List String}
      → a ≡ 0 + v
      → b ≡ 0 + k
      → c ≡ left
      → Tally sites is [] v k left
      → Tally sites is [] a b c
  renamed sites is {v = v} {k = k} {a = a} {b = b} nv nk nl t =
      let ea : a ≡ v = omega (arith, nv) in let eb : b ≡ k = omega (arith, nk) in rw (ea, eb, nl) t

  module _ {ℓ} {F : Type ℓ} ⦃fl : Float F⦄ ⦃m : Math F⦄ where
    -- What a loop that starts from some counts adds to them.
    Adds : List Site → List ℤ → List Spawn → MutationScore F → MutationScore F → Type 0
    Adds sites is ran ms out =
        (v k : ℕ) × (left : List String) × Tally sites is ran v k left
        × (out.valid ≡ ms.valid + v)
        × (out.killed ≡ ms.killed + k)
        × (out.survivors ≡ ms.survivors ++ left)

    tried-Adds :
        (sites : List Site) (i : ℤ) (is : List ℤ) (ran : List Spawn) (s : Site)
        (t : Option (String × Toolchain)) (ms out : MutationScore F)
        → site_at sites i ≡ some s
        → mutant bench src s ≡ t
        → Adds sites is
            (tried bench src timeout s t ms ran).1
            (tried bench src timeout s t ms ran).0
            out
        → Adds sites (i ∷ is) ran ms out
    unfolding Adds
    tried-Adds sites i is ran s none ms out at e (v, k, left, t, nv, nk, nl) =
        (v, k, left, unwritten s at e t, nv, nk, nl)
    tried-Adds sites i is ran s (some (text, tc)) ms out at e h =
        elim (Bool-cases (is_none (built bench tc ran).0.error)) [
          | inr b ↦
              let (v, k, left, t, nv, nk, nl) = rw b at h in
              (v, k, left, broken s text tc at e b t, nv, nk, nl)
          | inl b ↦ elim (Bool-cases (refuted (tested bench tc timeout (built bench tc ran).1).0)) [
            | inl d ↦
                let (v, k, left, t, nv, nk, nl) = rw (b, d) at h in
                (
                  suc v,
                  suc k,
                  left,
                  dead s text tc at e b d t,
                  omega (arith, nv),
                  omega (arith, nk),
                  nl,
                )
            | inr d ↦
                let (v, k, left, t, nv, nk, nl) = rw (b, d) at h in
                (
                  suc v,
                  k,
                  s.desc ∷ left,
                  alive s text tc at e b d t,
                  omega (arith, nv),
                  nk,
                  nl ∙ append_assoc ms.survivors (s.desc ∷ []) left,
                )
          ]
        ]

    mutate_loop-Adds :
        (sites : List Site) (is : List ℤ) (ms : MutationScore F) (ran : List Spawn)
        (out : Bool × MutationScore F)
        → mutate_loop bench src timeout sites is ms ran ≡ ok out
        → Adds sites is ran ms out.1
    unfolding mutate_loop Adds
    mutate_loop-Adds sites [] ms ran out e =
        let same : out ≡ (true, ms) = cc in
        rw same (0, 0, [], over ran, omega arith, omega arith, sym (append-nil ms.survivors))
    mutate_loop-Adds sites (i ∷ is) ms ran out e = elim (Bool-cases (bench.cancelled ran)) [
      | inl stop ↦
          let run : ok (false, ms) ≡ ok out = rw stop at e in
          let same : out ≡ (false, ms) = cc in
          rw same (
            0,
            0,
            [],
            stopped (i ∷ is) ran stop,
            omega arith,
            omega arith,
            sym (append-nil ms.survivors),
          )
      | inr go ↦ elim (Option-cases (site_at sites i)) [
        | inl at ↦ let no : fault ≡ ok out = rw (go, at) at e in absurd cc
        | inr (s, at) ↦
            let t = tried bench src timeout s (mutant bench src s) ms ran in
            tried-Adds sites i is ran s (mutant bench src s) ms out.1 at refl
              (mutate_loop-Adds sites is t.0 t.1 out (rw (go, at) at e))
      ]
    ]

    -- A run from no counts: they are the tally itself.
    pub mutate_loop-Tally :
        (sites : List Site) (is : List ℤ) (n : ℕ) (out : Bool × MutationScore F)
        → mutate_loop bench src timeout sites is (unrated bench src timeout n) [] ≡ ok out
        → Tally sites is [] out.1.valid out.1.killed out.1.survivors
    unfolding Adds
    mutate_loop-Tally sites is n out e =
        let (v, k, left, t, nv, nk, nl) =
          mutate_loop-Adds sites is (unrated bench src timeout n) [] out e in
        renamed sites is nv nk nl t

    -- The score at the end leaves the counts as they are.
    pub rated-Tally :
        (sites : List Site) (is : List ℤ) (out : Bool × MutationScore F)
        → Tally sites is [] out.1.valid out.1.killed out.1.survivors
        → let ms = rated bench src timeout out in Tally sites is [] ms.valid ms.killed ms.survivors
    rated-Tally sites is (false, ms) t = t
    rated-Tally sites is (true, ms) t =
        if_ind {A = MutationScore F} (λ x. Tally sites is [] x.valid x.killed x.survivors)
          (ltb 0 ms.valid) (λ _. t) (λ _. t)
