-- ===== src/Verify.antt =====
-- The package py2fw/verify.
pub mod Regression
pub mod Tokens
pub mod Config
