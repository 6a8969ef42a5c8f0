-- ===== src/Enforcement.antt =====
-- The package py2fw/enforcement.
pub mod Controls
pub mod Baseline
