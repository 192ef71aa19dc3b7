-- ===== src/Evaluations.antt =====
-- The rest of tools/run_codex_evaluations.py around its trials: the image preflight `probe_vision`,
-- and `main`, which goes through models, efforts and repetitions.
pub mod Probe
pub mod Plan
pub mod Events
mod Tests
