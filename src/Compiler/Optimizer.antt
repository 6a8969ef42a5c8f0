-- ===== src/Compiler/Optimizer.antt =====
-- py2fw/compiler/optimizer.py
use py2fw.Compiler.Ir.{FirewallIr}

-- It keeps the policies as they are.
abbrev pub optimize_ir : FirewallIr → FirewallIr
optimize_ir ir = ir
