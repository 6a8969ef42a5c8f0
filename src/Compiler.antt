-- ===== src/Compiler.antt =====
-- The package py2fw/compiler.
pub mod PortRange
pub mod PortSpec
pub mod Ir
pub mod Query
pub mod Issues
pub mod Validator
pub mod Resolver
pub mod Builder
pub mod Hosts
pub mod Optimizer
