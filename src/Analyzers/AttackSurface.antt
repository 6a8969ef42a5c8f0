-- ===== src/Analyzers/AttackSurface.antt =====
-- py2fw/analyzers/attack_surface.py
use Prim.Native.Nat.{max}
use py2fw.Common.{
  ℕ, ◌+◌, ◌-◌, String, Bool, true, false, not, ◌&&◌, none, some, List, [], ◌∷◌, ◌++◌, any, map,
  elem, is_empty, select, flat_map, if◌then◌else◌, ltb, leb, ◌==◌, ℕ_eq, String_eq, text, str_ℕ,
  join,
}
use py2fw.IpAddress.{Network, IpText, v4, v6}
use py2fw.Compiler.PortRange.{PortRange}
use py2fw.Compiler.PortSpec
use py2fw.Compiler.PortSpec.{PortSpec}
use py2fw.Compiler.Ir.{ServiceIr, PolicyIr, FirewallIr}
use py2fw.Compiler.Query.{address_values, service_values}
use py2fw.Analyzers.Models.{Finding, rule_finding}

-- `BROAD_PREFIX_MAX_LEN[net.version]`
abbrev pub broad_prefix_max_len : Network → ℕ
broad_prefix_max_len n = elim n.version [ v4 ↦ 16 | v6 ↦ 48 ]

unfoldable pub is_broad_source : IpText → List String → Bool
is_broad_source ip [] = false
is_broad_source ip (value ∷ values) =
    let rest = is_broad_source ip values in
    if value == "any" then true else elim (ip.ip_network value) [
      | none ↦ rest
      | some n ↦
          if not (ip.is_private n) && leb n.prefixlen (broad_prefix_max_len n) then true else rest
    ]

abbrev pub database_ports : List ℕ
database_ports = 1433 ∷ 1521 ∷ 3306 ∷ 5432 ∷ 6379 ∷ 9042 ∷ 27017 ∷ []

abbrev pub high_risk_ports : List (ℕ × String)
high_risk_ports =
    (21, "Open FTP")
    ∷ (22, "Open SSH")
    ∷ (23, "Open Telnet")
    ∷ (445, "Open SMB")
    ∷ (3389, "Open RDP")
    ∷ (5900, "Open VNC")
    ∷ (5985, "Open WinRM")
    ∷ (5986, "Open WinRM")
    ∷ []

-- `CLEARTEXT_PORTS`, in the order of the names, in which `sorted` lists them.
abbrev pub cleartext_ports : List (ℕ × String)
cleartext_ports = (21, "FTP") ∷ (80, "HTTP") ∷ (161, "SNMP") ∷ (69, "TFTP") ∷ (23, "Telnet") ∷ []

abbrev pub wide_port_range : ℕ
wide_port_range = 1024

unfoldable pub covers_port : List ServiceIr → ℕ → Bool
covers_port services port = any (λ s. PortSpec.contains s.ports port) services

-- `sorted(_covered_ports(...))` for a sorted list of ports.
unfoldable pub covered_ports : List ServiceIr → List ℕ → List ℕ
unfolding covers_port
covered_ports services ports = select (covers_port services) ports

range_sizes : List PortRange → ℕ
range_sizes [] = 0
range_sizes (r ∷ rs) = (r.end - r.start + 1) + range_sizes rs

unfoldable pub port_count : List ServiceIr → ℕ
unfolding range_sizes
port_count [] = 0
port_count (s ∷ services) = max (range_sizes s.ports.ranges) (port_count services)

-- A finding, if a test holds.
abbrev pub find_if : Bool → Finding → List Finding
find_if true finding = finding ∷ []
find_if false finding = []

unfoldable pub has_all_ports : List ServiceIr → Bool
has_all_ports services = any (λ s. PortSpec.is_all_ports s.ports) services

unfoldable pub scope_findings : FirewallIr → PolicyIr → Bool → List Finding
unfolding has_all_ports port_count covers_port
scope_findings ir rule broad_source =
    let services = service_values ir rule.services in
    let all_ports = has_all_ports services in
    let cleartext =
      map (λ (p : ℕ × String). p.1) (select (λ p. covers_port services p.0) cleartext_ports) in
    (if all_ports && not broad_source
      then rule_finding rule "medium" "Allows all services"
          "Restrict to the ports actually required."
        ∷ []
      else find_if (not all_ports && ltb wide_port_range (port_count services)) (
          rule_finding rule "medium" "Wide port range"
            (text ("Service spans more than " ∷ str_ℕ wide_port_range ∷ " ports." ∷ []))))
    ++ (find_if (not broad_source && elem "any" (address_values ir rule.destination))
          (rule_finding rule "medium" "Any destination" "Rule allows traffic to every destination.")
        ++ find_if (not all_ports && not (is_empty cleartext))
            (rule_finding rule "low" "Cleartext protocol" (join ", " cleartext)))

unfoldable pub high_risk_findings : List ServiceIr → PolicyIr → List (ℕ × String) → List Finding
unfolding covers_port
high_risk_findings services rule [] = []
high_risk_findings services rule ((port, title) ∷ ports) =
    find_if (covers_port services port) (rule_finding rule "high" title "")
    ++ high_risk_findings services rule ports

unfoldable pub exposure_findings : FirewallIr → PolicyIr → List Finding
unfolding high_risk_findings covered_ports has_all_ports
exposure_findings ir rule =
    let services = service_values ir rule.services in
    let exposed_db = covered_ports services database_ports in
    high_risk_findings services rule high_risk_ports
    ++ (find_if (not (is_empty exposed_db)) (
          rule_finding rule "high" "Internet to internal database"
            (text ("Database ports: [" ∷ join ", " (map str_ℕ exposed_db) ∷ "]" ∷ [])))
        ++ find_if (has_all_ports services) (
            rule_finding rule "high" "Broad source to all ports"
              "Rule allows every port from an untrusted source."))

unfoldable pub rule_attack_surface : IpText → FirewallIr → PolicyIr → List Finding
unfolding is_broad_source scope_findings exposure_findings
rule_attack_surface ip ir rule =
    let broad_source = is_broad_source ip (address_values ir rule.source) in
    if not rule.enabled
    then rule_finding rule "medium" "Disabled rule" "" ∷ []
    else if not (rule.action == "allow")
    then []
    else find_if (broad_source && elem "any" (address_values ir rule.destination))
        (rule_finding rule "critical" "Any to Any" "")
      ++ (scope_findings ir rule broad_source
          ++ (if broad_source then exposure_findings ir rule else []))

unfoldable pub find_attack_surface : IpText → FirewallIr → List Finding
unfolding rule_attack_surface
find_attack_surface ip ir = flat_map (rule_attack_surface ip ir) ir.policies
