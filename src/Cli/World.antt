-- ===== src/Cli/World.antt =====
-- What the commands take from their surroundings: the text syntax of addresses, the hash, the
-- parsers of YAML, the clock, DNS, the environment variables, the exporters and the vendors' tools.
use py2fw.Common.{ℕ, String, Option, List, Dict}
use py2fw.IpAddress.{IpText}
use py2fw.Parser.Schema.{PolicyDocument}
use py2fw.Parser.SourceMap.{SourceMap}
use py2fw.Compiler.Hosts.{Lock}
use py2fw.Enforcement.Controls.{BaselineModel}
use py2fw.Plugins.Registry.{ExporterRegistry}
use py2fw.Verify.Tokens.{Classes}
use py2fw.Verify.Config.{ToolRun}

-- The files by their paths; a path is the text that `str` gives of it.
abbrev pub Files : Type 0
Files = Dict String String

pub record World : Type 0 where
  pub ip : IpText
  pub classes : Classes
  -- The SHA-256 of a text in UTF-8, as a hexadecimal text.
  pub sha256 : String → String
  pub str_date : ℕ → String
  pub today : ℕ
  -- parse_policy_with_source, from the path and the text of the file; `none` is the ParseError.
  pub parse_policy : String → String → Option (PolicyDocument × SourceMap)
  -- load_baseline, from the text of the file; `none` is the BaselineError.
  pub parse_baseline : String → Option BaselineModel
  -- The lock file of a policy's path, its path and the DNS lookup.
  pub lock : String → Lock
  pub lock_path : String → String
  -- The text that _write_lock gives a lock, with the time.
  pub lock_text : Lock → String
  pub lookup : String → Option (List String)
  -- `load_builtin_exporters()`
  pub registry : ExporterRegistry
  pub run_tool : String × List String → String → Option ToolRun
  -- The variable PY2FW_BASELINE, empty when it is not set.
  pub baseline_var : String
