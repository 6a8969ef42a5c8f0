-- ===== src/Plugins/Base.antt =====
-- The class Exporter of py2fw/plugins/base.py: an instance is a record of its methods.
use py2fw.Common.{String, List}
use py2fw.Compiler.Ir.{FirewallIr}
use py2fw.Exporters.Helpers.{Capabilities}

pub record Exporter : Type 0 where
  pub name : String
  pub description : String
  pub capabilities : Capabilities
  pub export : FirewallIr → String
  pub check_syntax : String → List String
  -- A command is its program and the arguments; the text behind it is its input.
  pub native_checks : String → List ((String × List String) × String)
