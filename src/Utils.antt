-- ===== src/Utils.antt =====
-- The package py2fw/utils.
pub mod Ip
pub mod Digits
pub mod Spaces
pub mod Emptiness
