-- ===== src/Lib.antt =====
-- Verification of go-cascade: a router that answers a programming problem with the cheapest model
-- tier whose candidates agree, on the verdict of tests that another model wrote.
--
-- The parts, and how they interact. `internal/cascade` draws candidates from a tier, has each
-- verified, groups the survivors by observed behaviour, scores the largest group, compares the
-- score with the tier's threshold, and either runs the held-out tests and accepts, or repairs, or
-- moves on to the next tier. `internal/verify` is the ladder of checks behind a verification.
-- `internal/cluster` is the grouping and the score. `internal/cache` remembers refuted forms.
-- `internal/calibrate` finds the thresholds from records of past queries, and issues the
-- certificate that the router reads.
--
-- Calibrate, for internal/calibrate: Records (the records and how they are tainted), Replay
-- (`Replay`, `Risk`, `RealizedRisk`, `replayTruth`, `cascadeSpend`), Stats (`HoeffdingBentkus` and
-- the incomplete beta function below it), Grid (`buildGrid`), Certify (`Calibrate`: the exclusions,
-- the evaluation of every threshold vector, the two selections, the certificate). Their child
-- modules hold the theorems. Absorb (`Absorb` with its shuffle, its patterns and its split,
-- `SweepAbsorption` and the null envelope in Sweep), Baseline (`Baselines`), Budget
-- (`SelfConsistencyBudget`, `SelfConsistencyBudgets`).
-- Verify, for internal/verify: Stages (the reports), Output (the reading of what `go test` prints),
-- Workspace (`run`), Ladder (`Run`, `Accept`, `RunAllTests`; the body of `Run` is cut at its early
-- returns into from_stdlib, from_types, from_build, from_vet, from_test, from_race, from_bench,
-- each of which is a stage and all behind it). A state of the ladder is the list of processes
-- spawned so far and the report. Mutation, for mutation.go: Sites and ScarFree (the edits that a
-- program offers, on a tree with the children in the order of `ast.Inspect`), Harvest (`Mutate`,
-- the four harvests, `sample`), Tally, Counts and Raced (what they return).
-- Cluster, for the package of that name; Partition and Mass are what its clusters hold, Text is `TextVote`, and its children what its classes hold
-- and who wins. Cache, for internal/cache: the failures, Entries (contracts and solutions, as
-- directories of files), Similarity (the trigrams).
-- Cascade, for internal/cascade: State (costs, trace, answer, the configuration's part that the
-- router reads), Sampling (`sampleTierN`, `verifyOne`, `acceptOne`, `repairLoop`, `recordFailure`,
-- `preferRepair`), Sequential (`sequential`; one turn of its loop is attempt, cut into draw,
-- rescue, judge and try_accept at the loop's `continue`s), Accepted (what an answer stands on),
-- FanOut, Repair, Runs (the run of the router as a sequence of elementary changes). The state that
-- is passed is Work: the outside world, the costs, the trace, the failure cache. Around it
-- Speculative (`speculative`), Query (`spec`, `tryCache`), Solve (`finish`, `record`, `Solve`), on
-- a Session: Work, the files of the cache, the result. Profile (`Profile`, `validateOracle`).
-- HeldOut, Honest, Vouched, Solved, Admission, Rounds and Observed are what a whole query guarantees
-- and leaves behind.
-- Judge is the arm whose oracle reads instead of running (`ProfileJudge`, `ProfilePaired`; Levels
-- is `ProfileStrictnessReplay`, Seeded is `ProfileSeeded`); tier_loop is the loop that they share.
-- SelfConsistency is the arm that votes on texts. Estimator is `EstimateOracleGap`.
-- Prompt, for internal/prompt: the users' prompts, `JudgeSystem`, and the reading of replies.
-- Config, for internal/config: `Validate` and what it calls, `Load`. Model, for
-- internal/model/costtag.go: Names (`profileName`), Resolver (`resolve` and what it calls; a
-- resolver is its tag, what it has stored and whom it has warned of), Billed and Resolved.
-- Base holds what all share; Float the interface of the floats; Tests the runs on small inputs.
--
-- What is given. The floats are any type with the operations of `Float`; a theorem that needs a law
-- of them takes it as a hypothesis (`IsOrdered`, `IsCounting`), and Milli, thousandths over the
-- natural numbers, shows that the laws can hold. Child processes, the model service, the Go parser
-- and type checker, JSON, hashes and `fmt.Sprintf` are arguments: a process or a model call may do
-- anything, also by all that happened before it.
--
-- Loops. The ranges are structural. Three loops of the source are not bounded by a range: the
-- levels of the grid, on fuel, of which one more is enough than the additions of the step that
-- carry the level past 1; the continued fraction, which the source itself bounds at 300 terms; and
-- the rounds of repair, which the tier bounds. `MinSamplesFor` has its bound in the source.
--
-- Not modelled: times (CreatedAt, Elapsed), files (a file of the cache is the value that its JSON
-- encodes, and the errors of reading and writing it are left out), and the interleavings of the goroutines of one
-- fan-out, and of the speculative tiers, which run here in the order of their index. The parsing
-- and printing of Go (`ExtractAPI`, `CanonicalHash`, the positions that `clearPositions` clears),
-- the system prompts (constant texts), the clients of the model service and the mock, and the
-- command line, which wires the packages and prints. A Go panic is the result `fault`.
pub mod Base
pub mod Cache
pub mod Calibrate
pub mod Cascade
pub mod Cluster
pub mod Float
pub mod Prompt
pub mod Config
pub mod Model
pub mod Tests
pub mod Verify
