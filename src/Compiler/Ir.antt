-- ===== src/Compiler/Ir.antt =====
-- The records of py2fw/compiler/ir.py. A date is its ordinal, the number of its day.
use py2fw.Common.{ℕ, String, Bool, Option, List, Dict}
use py2fw.Parser.SourceMap.{SourceMap}
use py2fw.Compiler.PortSpec.{PortSpec}

pub record AddressIr : Type 0 where
  pub name : String
  pub values : List String
  pub line : Option ℕ

pub record ServiceIr : Type 0 where
  pub name : String
  pub protocol : String
  pub ports : PortSpec
  pub description : String
  pub line : Option ℕ

pub record PolicyIr : Type 0 where
  pub id : String
  pub name : String
  pub source : List String
  pub destination : List String
  pub services : List String
  pub action : String
  pub enabled : Bool
  pub description : String
  pub line : Option ℕ
  pub location : String
  pub owner : String
  pub ticket : String

pub record ExceptionIr : Type 0 where
  pub rule : String
  pub finding : String
  pub reason : String
  pub expires : ℕ
  pub ticket : String
  pub line : Option ℕ
  pub location : String

pub record FirewallIr : Type 0 where
  pub version : ℕ
  pub addresses : Dict String AddressIr
  pub services : Dict String ServiceIr
  pub policies : List PolicyIr
  pub groups : Dict String (List String)
  pub source_map : SourceMap
  pub exceptions : List ExceptionIr
