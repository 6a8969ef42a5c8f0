-- ===== src/Release.antt =====
-- The package py2fw/release.
pub mod Audit
pub mod Content
pub mod Approvals
pub mod Summary
pub mod Plan
pub mod Verifying
pub mod Deploy
pub mod Lifecycle
