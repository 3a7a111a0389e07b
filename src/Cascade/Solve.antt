-- ===== src/Cascade/Solve.antt =====
-- `finish`, `record` and `Solve` (internal/cascade/cascade.go).
use go_cascade.Base.{
  ltb, str_eq, if◌then◌else◌, Result, ok, err, fault, String, ◌<>◌, Bool, true, false, not, ◌&&◌,
  ◌||◌, Option, none, some, List, [], ◌∷◌, ◌++◌,
}
use go_cascade.Float.{Float}
use go_cascade.Cache.Entries.{Entry, put_solution}
use go_cascade.Calibrate.Certify.{Certificate}
use go_cascade.Calibrate.Records.{TierObs, Record}
use go_cascade.Cascade.State.{
  Config, Action, accepted, repaired, escalated, rejected, Step, Answer, Spec, Work, Services,
}
use go_cascade.Cascade.Sampling.{charge_compute, plain_step}
use go_cascade.Cascade.Sequential.{sequential}
use go_cascade.Cascade.Speculative.{no_cost, speculative}
use go_cascade.Cascade.Query.{MutationRun, Queries, Session, log_step, spec_phase, try_cache}

abbrev pub is_accepted : Action → Bool
is_accepted accepted = true
is_accepted repaired = false
is_accepted escalated = false
is_accepted rejected = false

abbrev pub is_repaired : Action → Bool
is_repaired accepted = false
is_repaired repaired = true
is_repaired escalated = false
is_repaired rejected = false

module _ {ℓ} {F : Type ℓ} ⦃fl : Float F⦄ where
  -- A step that `record` takes for the observation of a tier.
  unfoldable pub is_observed : Step F → Bool
  is_observed st = not (str_eq st.tier "" || is_repaired st.action)

  abbrev pub obs_of : Bool → Step F → TierObs F
  obs_of solved st = record {
    tier = st.tier;
    score = st.score;
    correct = is_accepted st.action && solved;
    true_correct = none;
    cost = st.cost_so_far;
    disagreement_source = "";
    timed_out = st.timed_out;
  }

  unfoldable pub observations : Bool → List (Step F) → List (TierObs F)
  observations solved [] = []
  observations solved (st ∷ trace) =
      let rest = observations solved trace in
      if is_observed st then obs_of solved st ∷ rest else rest

  abbrev pub blank_answer : Answer F
  blank_answer = record {
    solution = "";
    solved = false;
    accepted_at = "";
    score = fl.lit 0 0;
    static = none;
    certified = false;
    certificate = none;
    oracle_contaminated = false;
  }

module _ {ℓ} {W F : Type ℓ} ⦃fl : Float F⦄ (env : Services W F) (q : Queries W F) (cfg : Config F)
    (cert : Option (Certificate F)) where
  open env use {problem_hash, canonical_hash}

  -- The calibration record of a query.
  unfoldable pub record_of : String → Session W F → Record F
  unfolding observations
  record_of problem s =
      let base : Record F = record {
        id = problem_hash problem;
        problem = problem;
        tiers = [];
        cache_hit = false;
        cache_correct = false;
        cache_cost = fl.lit 0 0;
        contaminated = s.answer.oracle_contaminated;
        oracle_unsound = false;
        oracle_unsound_diag = "";
        oracle_inconclusive = false;
        shadow = s.shadow;
      } in
      if str_eq s.answer.accepted_at "cache"
      then record base {
        cache_hit = true;
        cache_correct = s.answer.solved;
        cache_cost = s.work.cost.total_usd;
      }
      else record base { tiers = observations s.answer.solved s.work.trace }

  abbrev pub mutated : Option (MutationRun F) × W → Session W F → Session W F
  mutated (none, world) s = record s { work = record (s.work) { world = world } }
  mutated (some m, world) s = record s {
    work = charge_compute env cfg m.elapsed (record (s.work) { world = world });
    mutation = some m;
  }

  abbrev mutation_of : Option (MutationRun F) → F
  mutation_of none = fl.lit 0 0
  mutation_of (some m) = m.mutation_score

  -- The condition of admission to the cache.
  unfoldable pub admits : Answer F → Bool
  admits a =
      not (str_eq a.accepted_at "cache")
      && fl.le cfg.cache_admit_at a.score
      && not a.oracle_contaminated

  unfoldable pub entry_of : String → Spec → Session W F → Entry F
  entry_of problem spec s = record {
    id = "";
    problem = problem;
    problem_hash = problem_hash problem;
    api = spec.api;
    solution = s.answer.solution;
    canon_hash = "";
    tier = s.answer.accepted_at;
    score = s.answer.score;
    mutation_score = mutation_of s.mutation;
  }

  abbrev pub admit : String → Spec → Session W F → Session W F
  admit problem spec s =
      if admits s.answer
      then record s {
        solutions =
            put_solution canonical_hash cfg.cache_disabled (entry_of problem spec s) s.solutions;
      }
      else s

  abbrev pub observe : String → Session W F → Session W F
  observe problem s = record s { observed = s.observed ++ (record_of problem s ∷ []) }

  unfoldable pub finish : String → Spec → Session W F → Session W F
  unfolding admits entry_of record_of
  finish problem spec s =
      let m = q.mutate s.answer.solution spec cfg.mutants s.work.world in
      let scored = if ltb 0 cfg.mutants then mutated m s else s in
      if not s.answer.solved then s else observe problem (admit problem spec scored)

  abbrev with_answer : Option (Answer F) → Work W F → Session W F → Session W F
  with_answer none w s = record s { work = w }
  with_answer (some a) w s = record s { work = w; answer = a }

  -- Behind the model cascade: a deadline that has passed is no error.
  abbrev pub settled :
      String
      → Spec
      → Session W F
      → Result (Option (Answer F)) × Work W F
      → Result Bool × Session W F
  settled problem spec s (ok a, w) =
      let t = finish problem spec (with_answer a w s) in (ok t.answer.solved, t)
  settled problem spec s (err e, w) =
      let u = record s { work = w } in
      let t = finish problem spec u in
      if q.is_deadline e then (ok t.answer.solved, t) else (err e, u)
  settled problem spec s (fault, w) = (fault, record s { work = w })

  -- The model cascade, in the topology that the deadline asks for.
  abbrev pub routed : String → Spec → Session W F → Result (Option (Answer F)) × Work W F
  routed problem spec s =
      if ltb 0 cfg.deadline
      then speculative env cfg cert problem spec s.work
      else sequential env cfg cert problem spec s.work

  abbrev pub cascade_phase : String → Spec → Session W F → Result Bool × Session W F
  cascade_phase problem spec s = settled problem spec s (routed problem spec s)

  abbrev pub after_cache : String → Spec → Bool × Session W F → Result Bool × Session W F
  after_cache problem spec (true, s) = let t = finish problem spec s in (ok t.answer.solved, t)
  after_cache problem spec (false, s) = cascade_phase problem spec s

  abbrev pub shadowed : Session W F → Session W F
  shadowed s =
      log_step env q cfg cert
        (plain_step env cfg "cache" "" escalated
          "shadow sample: routed past the cache to keep calibration unbiased" (fl.lit 0 0))
        s

  abbrev pub after_spec : String → Result Spec × Session W F → Result Bool × Session W F
  after_spec problem (err e, s) = (err ("spec phase: " <> e), s)
  after_spec problem (fault, s) = (fault, s)
  after_spec problem (ok spec, s) =
      if not s.shadow
      then after_cache problem spec (try_cache env q cfg cert problem spec s)
      else cascade_phase problem spec (shadowed s)

  abbrev pub fresh : Session W F → Session W F
  fresh s =
      let (x, world) = q.coin s.work.world in
      record s {
        work = record (s.work) { world = world; cost = no_cost; trace = [] };
        answer = blank_answer;
        shadow = fl.lt x cfg.shadow_rate;
        mutation = none;
      }

  -- A query, on the cache that earlier queries left: whether it is solved, or its error.
  unfoldable pub solve : String → Session W F → Result Bool × Session W F
  unfolding finish
  solve problem s = after_spec problem (spec_phase env q cfg cert problem "" (fresh s))
