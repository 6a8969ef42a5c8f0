-- ===== src/Exporters/Iptables.antt =====
-- The rules that py2fw/exporters/iptables/exporter.py writes. Its own checks of the text are not
-- modelled.
pub mod Families
use py2fw.Common.{
  String, Bool, true, false, not, ◌||◌, List, [], ◌∷◌, ◌++◌, map, flat_map, length, ltb,
  if◌then◌else◌, ◌==◌, String_eq, text, join,
}
use py2fw.IpAddress.{IpText}
use py2fw.Utils.Ip.{is_ipv6}
use py2fw.Compiler.PortSpec.{lacks_ports, is_all_ports}
use py2fw.Compiler.Ir.{ServiceIr, PolicyIr, FirewallIr}
use py2fw.Compiler.Query.{address_values, service_values}
use py2fw.Exporters.Helpers.{rule_comment, port_range_token}

-- `_TARGET.get(action, "DROP")`
abbrev pub jump_target : String → String
jump_target action =
    if action == "allow" then "ACCEPT" else if action == "reject" then "REJECT" else "DROP"

-- `"" if value == "any" else f" {flag} {value}"`
abbrev pub argument : String → String → String
argument flag value = if value == "any" then "" else text (" " ∷ flag ∷ " " ∷ value ∷ [])

abbrev pub port_tokens : ServiceIr → List String
port_tokens service =
    if lacks_ports service.ports || is_all_ports service.ports
    then "" ∷ []
    else map (λ r. text (" --dport " ∷ port_range_token r ":" ∷ [])) service.ports.ranges

-- `_rule_lines`
unfoldable pub rule_lines : String → String → String → ServiceIr → List String
rule_lines target src dst service =
    map
      (λ dport. text (
        "-A FORWARD"
        ∷ argument "-p" service.protocol
        ∷ argument "-s" src
        ∷ argument "-d" dst
        ∷ dport
        ∷ " -j "
        ∷ target
        ∷ []))
      (port_tokens service)

-- The two lists of lines of `export`.
pub record Tables : Type 0 where
  pub v4_lines : List String
  pub v6_lines : List String

abbrev pub header_lines : List String
header_lines =
    "*filter" ∷ ":INPUT ACCEPT [0:0]" ∷ ":FORWARD DROP [0:0]" ∷ ":OUTPUT ACCEPT [0:0]" ∷ []

-- `bucket.append(line)` for some lines.
unfoldable pub put_lines : Bool → List String → Tables → Tables
put_lines true lines tables = record tables { v6_lines = tables.v6_lines ++ lines }
put_lines false lines tables = record tables { v4_lines = tables.v4_lines ++ lines }

module _ (ip : IpText) (ir : FirewallIr) where
  -- The loops over the services, the destinations, the sources and the rules.
  unfoldable pub put_services : PolicyIr → String → String → List ServiceIr → Tables → Tables
  unfolding put_lines rule_lines rule_comment
  put_services rule src dst [] tables = tables
  put_services rule src dst (service ∷ services) tables = put_services rule src dst services (
      put_lines (is_ipv6 ip src || is_ipv6 ip dst)
        (flat_map (λ line. rule_comment rule ∷ line ∷ [])
          (rule_lines (jump_target rule.action) src dst service))
        tables)

  unfoldable pub put_destinations : PolicyIr → String → List String → Tables → Tables
  unfolding put_services service_values
  put_destinations rule src [] tables = tables
  put_destinations rule src (dst ∷ dsts) tables =
      put_destinations rule src dsts
        (put_services rule src dst (service_values ir rule.services) tables)

  unfoldable pub put_sources : PolicyIr → List String → List String → Tables → Tables
  unfolding put_destinations
  put_sources rule dsts [] tables = tables
  put_sources rule dsts (src ∷ srcs) tables =
      put_sources rule dsts srcs (put_destinations rule src dsts tables)

  unfoldable pub put_rule : PolicyIr → Tables → Tables
  unfolding put_lines put_sources address_values rule_comment
  put_rule rule tables =
      if not rule.enabled
      then put_lines false (text (rule_comment rule ∷ " disabled" ∷ []) ∷ []) tables
      else put_sources rule (address_values ir rule.destination) (address_values ir rule.source)
          tables

  unfoldable pub put_rules : List PolicyIr → Tables → Tables
  unfolding put_rule
  put_rules [] tables = tables
  put_rules (rule ∷ rules) tables = put_rules rules (put_rule rule tables)

  -- The tables before their last lines, for some rules of the policy.
  abbrev pub tables_of : List PolicyIr → Tables
  tables_of rules = put_rules rules (record { v4_lines = header_lines; v6_lines = header_lines })

  unfoldable pub export_iptables : String
  unfolding put_rules
  export_iptables =
      let tables : Tables = tables_of ir.policies in
      let v4_section : String = join "\n" (tables.v4_lines ++ "COMMIT" ∷ []) in
      if ltb 4 (length tables.v6_lines)
      then text (
          v4_section
          ∷ "\n\n# ip6tables-restore\n"
          ∷ join "\n" (tables.v6_lines ++ "COMMIT" ∷ [])
          ∷ [])
      else v4_section
