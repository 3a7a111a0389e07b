-- ===== src/Tests.antt =====
-- The theorems at concrete inputs, in thousandths for floats.
mod Calibrating
mod Laddering
mod Routing
mod Caching
mod Drawing
mod Voting
mod Querying
mod Profiling
mod Absorbing
mod Mutating
mod Judging
mod TextVoting
mod Tagging
mod Configuring
