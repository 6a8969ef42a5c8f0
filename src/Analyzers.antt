-- ===== src/Analyzers.antt =====
-- The package py2fw/analyzers.
pub mod Models
pub mod RiskScore
pub mod DuplicateRules
pub mod Hygiene
pub mod ShadowRules
pub mod AttackSurface
pub mod Gate
pub mod UnusedObjects
pub mod Report
pub mod ExposureFacts
pub mod Compliance
