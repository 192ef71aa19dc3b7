-- ===== src/Bridge.antt =====
-- The observation and keyboard bridge, `NativeVisionBridge` of examples/codex_vision_bridge.py.
pub mod State
pub mod Queue
pub mod Actions
pub mod Operations
pub mod Dispatch
pub mod Ledger
pub mod Steps
pub mod Timely
pub mod Snapshot
pub mod Png
pub mod Opening
mod Tests
