-- ===== src/Parser.antt =====
-- The package py2fw/parser.
pub mod SourceMap
pub mod Schema
