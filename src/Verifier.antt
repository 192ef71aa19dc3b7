-- ===== src/Verifier.antt =====
-- The run verifier, tools/verify_run.py: it replays the persisted evidence of a run.
pub mod Rules
pub mod Audit
pub mod Fields
pub mod Table
pub mod Chart
pub mod Replay
pub mod Json
pub mod Manifest
pub mod Timing
pub mod Reading
pub mod Report
pub mod Spec
mod Tests
