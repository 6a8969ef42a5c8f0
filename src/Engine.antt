-- ===== src/Engine.antt =====
-- The package py2fw/engine.
pub mod Evaluate
pub mod Diff
