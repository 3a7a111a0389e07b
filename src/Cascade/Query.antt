-- ===== src/Cascade/Query.antt =====
-- A whole query: `spec`, `tryCache`, `finish`, `record`, `Solve` (internal/cascade/cascade.go). Times
-- are left out. A deadline that has passed is an error text of its own.
use go_cascade.Base.{
  str_eq, if◌then◌else◌, Result, ok, err, length, is_empty, int_arg, float_arg, ℕ, String, ◌<>◌,
  ◌⊎◌, inl, inr, Bool, true, false, ◌&&◌, Option, none, some, List, [], ◌∷◌,
}
use go_cascade.Float.{Float}
use go_cascade.Cache.Entries.{CachedSpec, Entry, Hit, Directory, put_spec, get_spec, retrieve}
use go_cascade.Calibrate.Certify.{Certificate}
use go_cascade.Calibrate.Records.{Record}
use go_cascade.Cascade.State.{
  Config, Action, accepted, escalated, Step, Answer, Spec, Response, Work, Services,
}
use go_cascade.Cascade.Sampling.{
  Verified, verify_one, charge_compute, charge_model, plain_step, push,
}
use go_cascade.Cascade.Sequential.{passes}

-- The score of a mutation run, and its time.
pub record MutationRun {ℓ} (F : Type ℓ) : Type ℓ where
  pub mutation_score : F
  pub elapsed : ℕ

-- What a query calls beyond what its tiers call.
pub record Queries {ℓ} (W : Type ℓ) (F : Type ℓ) : Type ℓ where
  pub coin : W → F × W
  pub spec_user : (problem pinned : String) → String
  pub parse_spec : String → String ⊎ Spec
  pub similarity_to : String → String → F
  pub mutate : (source : String) → Spec → ℕ → W → Option (MutationRun F) × W
  pub is_deadline : String → Bool

-- What a query changes: the state of its tiers, the files of the cache, and its result.
pub record Session {ℓ} (W : Type ℓ) (F : Type ℓ) : Type ℓ where
  pub work : Work W F
  pub specs : Directory CachedSpec
  pub solutions : Directory (Entry F)
  pub answer : Answer F
  pub shadow : Bool
  pub mutation : Option (MutationRun F)
  pub observed : List (Record F)

-- Both partitions passed.
abbrev pub both_pass : Verified → Bool
both_pass v = v.report.ok_ && passes v.acceptance

module _ {ℓ} {W F : Type ℓ} ⦃fl : Float F⦄ (env : Services W F) (q : Queries W F) (cfg : Config F)
    (cert : Option (Certificate F)) where
  open env use {problem_hash, canonical_hash, sprintf}

  abbrev pub log_step : Step F → Session W F → Session W F
  log_step st s = record s { work = push env cfg st s.work }

  abbrev pub phase_step : String → Action → String → F → Step F
  phase_step stage action reason cost = plain_step env cfg stage "" action reason cost

  -- The cache key of a problem, salted by a pinned API.
  abbrev pub spec_key : String → String → String
  spec_key problem pinned =
      if str_eq pinned ""
      then problem_hash problem
      else problem_hash (problem <> "\0pinned\0" <> pinned)

  abbrev pub as_spec : CachedSpec → Spec
  as_spec c = record { api = c.api; visible_tests = c.visible_tests; hidden_tests = c.hidden_tests }

  unfoldable pub spec_cost : Response → F
  spec_cost resp =
      fl.add (fl.mul (fl.div (fl.of_nat resp.input_tokens) (fl.lit 1_000_000 0)) cfg.test_in_cost)
        (fl.mul (fl.div (fl.of_nat resp.output_tokens) (fl.lit 1_000_000 0)) cfg.test_out_cost)

  abbrev pub written : String → Spec → Session W F → Session W F
  written key spec s =
      let kept : CachedSpec = record {
        problem_hash = key;
        api = spec.api;
        visible_tests = spec.visible_tests;
        hidden_tests = spec.hidden_tests;
        author = cfg.test_model;
      } in
      log_step
        (phase_step "spec" accepted ("oracle generated by " <> cfg.test_model)
          s.work.cost.total_usd)
        (record s { specs = put_spec cfg.cache_disabled kept s.specs })

  -- The contract from a reply of the test model.
  abbrev pub parsed_spec : String → String ⊎ Spec → Session W F → Result Spec × Session W F
  parsed_spec key (inl e) s = (err e, s)
  parsed_spec key (inr spec) s = (ok spec, written key spec s)

  unfoldable pub spec_phase : String → String → Session W F → Result Spec × Session W F
  spec_phase problem pinned s =
      let key = spec_key problem pinned in
      let (answer, world) =
        env.generate cfg.test_model (q.spec_user problem pinned) 0 s.work.world in
      let asked = record s { work = record (s.work) { world = world } } in
      elim (get_spec cfg.cache_disabled key s.specs) [
        | some c ↦ (
          ok (as_spec c),
          log_step
              (phase_step "spec" accepted "test cache hit: oracle reused at zero model cost"
                (fl.lit 0 0))
              s,
        )
        | none ↦ elim answer [
          | inl e ↦ (err e, asked)
          | inr resp ↦
              parsed_spec key (q.parse_spec resp.text)
                (record asked { work = charge_model env cfg resp (spec_cost resp) asked.work })
        ]
      ]

  abbrev pub cached_answer : String → Verified → Answer F → Answer F
  cached_answer source v a = record a {
    solution = source;
    solved = true;
    accepted_at = "cache";
    score = fl.lit 1 0;
    static = v.report.static;
  }

  abbrev pub cache_hit : Hit F → Verified → Session W F → Session W F
  cache_hit h v s =
      log_step
        (record (phase_step "cache" accepted
          (sprintf
            "verified transfer from a prior solution (similarity %.2f); executed against this query's tests, not predicted"
            (float_arg h.likeness ∷ []))
          s.work.cost.total_usd) { score = fl.lit 1 0 })
        (record s { answer = cached_answer h.entry.solution v s.answer })

  -- The loop over the retrieved solutions: whether one of them was accepted.
  unfoldable pub try_hits : List (Hit F) → Spec → Session W F → Bool × Session W F
  try_hits [] spec s = (false, s)
  try_hits (h ∷ hs) spec s =
      let (v, world) = verify_one env cfg h.entry.solution spec s.work.world in
      let next = λ (d : ℕ).
        try_hits hs spec
          (record s { work = charge_compute env cfg d (record (s.work) { world = world }) }) in
      elim v [
        | none ↦ next 0
        | some v ↦
            if both_pass v
            then (
              true,
              cache_hit h v (record s {
                work = charge_compute env cfg v.cpu (record (s.work) { world = world });
              }),
            )
            else next v.cpu
      ]

  abbrev pub all_refuted : ℕ → Bool × Session W F → Bool × Session W F
  all_refuted n (true, s) = (true, s)
  all_refuted n (false, s) = (
    false,
    log_step
        (phase_step "cache" escalated
          (sprintf "%d retrieved solutions all refuted by this query's tests" (int_arg n ∷ []))
          s.work.cost.total_usd)
        s,
  )

  unfoldable pub try_cache : String → Spec → Session W F → Bool × Session W F
  try_cache problem spec s =
      let hits =
        retrieve q.similarity_to cfg.cache_disabled problem (problem_hash problem) cfg.cache_top_k
          cfg.cache_min_sim s.solutions in
      if cfg.cache_disabled
      then (false, s)
      else if is_empty hits
      then (
        false,
        log_step
            (phase_step "cache" escalated "no candidate above the similarity floor" (fl.lit 0 0)) s,
      )
      else all_refuted (length hits) (try_hits hits spec s)
