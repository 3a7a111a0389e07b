-- ===== src/Calibrate.antt =====
-- Package calibrate (internal/calibrate).
pub mod Records
pub mod Replay
pub mod Stats
pub mod Grid
pub mod Certify
pub mod Baseline
pub mod Absorb
pub mod Budget
