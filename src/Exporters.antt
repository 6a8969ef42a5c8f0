-- ===== src/Exporters.antt =====
-- The package py2fw/exporters.
pub mod Helpers
pub mod Iptables
