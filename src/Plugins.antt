-- ===== src/Plugins.antt =====
-- The exporters' interface and registry: py2fw/plugins.
pub mod Base
pub mod Registry
