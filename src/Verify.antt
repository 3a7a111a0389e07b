-- ===== src/Verify.antt =====
-- Package verify (internal/verify): the ladder that refutes candidates by execution.
pub mod Stages
pub mod Output
pub mod Workspace
pub mod Ladder
pub mod Mutation
