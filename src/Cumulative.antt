-- ===== src/Cumulative.antt =====
-- The cumulative benchmark: wevibe_bench/cumulative.
pub mod Errors
pub mod Files
pub mod Phase
pub mod Gates
pub mod Records
pub mod Ordering
pub mod Progress
pub mod Convergence
pub mod Manifest
pub mod Artifacts
pub mod Sequencer
mod Tests
