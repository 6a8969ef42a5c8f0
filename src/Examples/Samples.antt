-- ===== src/Examples/Samples.antt =====
-- A policy of two rules, and the addresses it is about.
use py2fw.Common.{
  refl, String, true, Option, none, some, [], ◌∷◌, if◌then◌else◌, ◌==◌, ℕ_eq, String_eq,
}
use py2fw.Utils.Digits.{Numerals, isdigit, int}
use py2fw.IpAddress.{v4, Address, Network, IpText}
use py2fw.Parser.SourceMap
use py2fw.Compiler.Ir.{ServiceIr, PolicyIr, FirewallIr}
use py2fw.Engine.Evaluate.{Flow}

-- 10.0.0.0/8 and 10.1.0.0/16
abbrev pub corp_network : Network
corp_network = record { version = v4; network_address = 167772160; prefixlen = 8 }

abbrev pub lab_network : Network
lab_network = record { version = v4; network_address = 167837696; prefixlen = 16 }

-- 10.1.2.3 and 10.2.0.1
abbrev pub lab_host : Address
lab_host = record { version = v4; number = 167838211 }

abbrev pub corp_host : Address
corp_host = record { version = v4; number = 167903233 }

abbrev read_network : String → Option Network
read_network value =
    if value == "10.0.0.0/8"
    then some corp_network
    else if value == "10.1.0.0/16"
    then some lab_network
    else none

abbrev read_address : String → Option Address
read_address value =
    if value == "10.1.2.3"
    then some lab_host
    else if value == "10.2.0.1"
    then some corp_host
    else none

-- Digits of ASCII only.
abbrev pub ascii_numerals : Numerals
ascii_numerals = record { is_numeral = isdigit; to_int = int; to_int-ascii = λ value h. refl }

abbrev pub sample_text : IpText
sample_text = record {
  ip_network = read_network;
  ip_network_strict = read_network;
  ip_address = read_address;
  str_network = λ n. if n.prefixlen == 8 then "10.0.0.0/8" else "10.1.0.0/16";
  str_address = λ a. if a.number == 167838211 then "10.1.2.3" else "10.2.0.1";
  is_private = λ n. true;
  lower = λ value. value;
  numerals = ascii_numerals;
}

abbrev pub https : ServiceIr
https = record {
  name = "https";
  protocol = "tcp";
  ports = record { ranges = (record { start = 443; end = 443 }) ∷ [] };
  description = "";
  line = none;
}

abbrev pub sample_rule : String → String → String → PolicyIr
sample_rule name source action = record {
  id = name;
  name = name;
  source = source ∷ [];
  destination = "corp" ∷ [];
  services = "https" ∷ [];
  action = action;
  enabled = true;
  description = "";
  line = none;
  location = "";
  owner = "";
  ticket = "";
}

abbrev pub allow_corp : PolicyIr
allow_corp = sample_rule "allow-corp" "corp" "allow"

abbrev pub deny_lab : PolicyIr
deny_lab = sample_rule "deny-lab" "lab" "deny"

abbrev pub sample_ir : FirewallIr
sample_ir = record {
  version = 1;
  addresses =
      ("corp", record { name = "corp"; values = "10.0.0.0/8" ∷ []; line = none })
      ∷ ("lab", record { name = "lab"; values = "10.1.0.0/16" ∷ []; line = none })
      ∷ [];
  services = ("https", https) ∷ [];
  policies = allow_corp ∷ deny_lab ∷ [];
  groups = [];
  source_map = SourceMap.empty;
  exceptions = [];
}

abbrev pub sample_flow : Flow
sample_flow = record {
  source = "10.1.2.3";
  destination = "10.2.0.1";
  protocol = "tcp";
  port = some 443;
}
