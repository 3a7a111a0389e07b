-- ===== src/Cascade.antt =====
-- Package cascade (internal/cascade): the router.
pub mod State
pub mod Sampling
pub mod Sequential
pub mod Accepted
pub mod Runs
pub mod Repair
pub mod FanOut
pub mod Speculative
pub mod Query
pub mod Solve
pub mod HeldOut
pub mod Vouched
pub mod Honest
pub mod Solved
pub mod Admission
pub mod Rounds
pub mod Observed
pub mod Profile
pub mod Judge
pub mod SelfConsistency
pub mod Estimator
