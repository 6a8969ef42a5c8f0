-- ===== src/Compiler/Builder.antt =====
-- py2fw/compiler/builder.py. The digest of hashlib is a parameter, `sha256_hex`.
pub mod Ports
use Prim.Native.String.{[] as no_text, ◌∷◌ as put_char}
use py2fw.Common.{
  ℕ, zero, suc, ◌+◌, String, Bool, true, false, Option, none, some, List, [], ◌∷◌, ◌++◌, map,
  flat_map, from_keys, is_empty, Dict, get, has, insert, if◌then◌else◌, ◌==◌, String_eq, text,
  str_ℕ,
}
use py2fw.IpAddress.{IpText}
use py2fw.Utils.Digits.{Numerals, has_char, before_char, after_char}
use py2fw.Parser.SourceMap
use py2fw.Parser.SourceMap.{SourceMap}
use py2fw.Parser.Schema.{
  PortValue, absent, number, written, several, ServiceModel, RuleModel, ExceptionModel,
  PolicyDocument,
}
use py2fw.Compiler.PortSpec
use py2fw.Compiler.PortSpec.{PortSpec, from_pairs}
use py2fw.Compiler.Ir.{AddressIr, ServiceIr, PolicyIr, ExceptionIr, FirewallIr}
use py2fw.Compiler.Resolver.{
  Resolved, ok, unknown, circular, exhausted, ◌>>=◌, resolve_rule_references,
}

-- `PortSpec.from_pairs([(int(start), int(end))])`
unfoldable pub spec_of_ends : Option ℕ → Option ℕ → Option PortSpec
unfolding from_pairs
spec_of_ends (some start) (some end) = from_pairs ((start, end) ∷ [])
spec_of_ends start end = none

-- `_port_spec`; `none` is the ValueError.
unfoldable pub port_spec : Numerals → PortValue → Option PortSpec
unfolding spec_of_ends has_char before_char after_char
port_spec numerals absent = some PortSpec.no_ports
port_spec numerals (number port) = from_pairs ((port, port) ∷ [])
port_spec numerals (several ports) = from_pairs (map (λ port. (port, port)) ports)
port_spec numerals (written value) =
    if has_char b'-' value
    then spec_of_ends (numerals.to_int (before_char b'-' value))
        (numerals.to_int (after_char b'-' value))
    else spec_of_ends (numerals.to_int value) (numerals.to_int value)

-- The first characters of a text, `text[:n]`.
take_chars : ℕ → String → String
take_chars zero s = no_text
take_chars (suc n) no_text = no_text
take_chars (suc n) (put_char c s) = put_char c (take_chars n s)

unfoldable pub rule_id : (String → String) → String → ℕ → String
unfolding take_chars
rule_id sha256_hex name index =
    text ("rule-" ∷ take_chars 12 (sha256_hex (text (str_ℕ index ∷ ":" ∷ name ∷ []))) ∷ [])

-- `host_map.get(value, (value,))`
host_values : Dict String (List String) → String → List String
host_values hosts value = elim (get value hosts) [ none ↦ value ∷ [] | some found ↦ found ]

unfoldable pub expand_hosts : Dict String (List String) → List String → List String
unfolding host_values get
expand_hosts hosts values =
    if is_empty hosts then values else from_keys (flat_map (host_values hosts) values)

module _ (sha256_hex : String → String) (document : PolicyDocument) (source : SourceMap)
    (hosts : Dict String (List String)) where
  address_line : String → Option ℕ
  unfolding has
  address_line name =
      SourceMap.line source
        (text ((if has name document.objects then "objects" else "groups") ∷ "." ∷ name ∷ []))

  unfoldable pub build_addresses : Dict String (List String) → Dict String AddressIr
  unfolding address_line expand_hosts
  build_addresses [] = []
  build_addresses ((name, values) ∷ resolved) =
      (name, record { name = name; values = expand_hosts hosts values; line = address_line name })
      ∷ build_addresses resolved

  unfoldable pub build_ports : Numerals → ServiceModel → Option PortSpec
  unfolding port_spec
  build_ports numerals service =
      if service.protocol == "any" then some PortSpec.all_ports else port_spec numerals service.port

  unfoldable pub build_services :
      Numerals → Dict String ServiceModel → Option (Dict String ServiceIr)
  unfolding build_ports
  build_services numerals [] = some []
  build_services numerals ((name, service) ∷ services) = elim (build_ports numerals service) [
    | none ↦ none
    | some ports ↦ (elim (build_services numerals services) [
      | none ↦ none
      | some rest ↦ some (
          (
            name,
            record {
              name = name;
              protocol = service.protocol;
              ports = ports;
              description = service.description;
              line = SourceMap.line source (text ("services." ∷ name ∷ []));
            },
          )
          ∷ rest)
    ])
  ]

  abbrev pub any_service : ServiceIr
  any_service = record {
    name = "any";
    protocol = "any";
    ports = PortSpec.all_ports;
    description = "";
    line = none;
  }

  -- The comprehension over `enumerate(document.policies)`, from an index on.
  unfoldable pub build_policies : ℕ → List RuleModel → List PolicyIr
  unfolding rule_id
  build_policies index [] = []
  build_policies index (rule ∷ rules) =
      let location = text ("policies[" ∷ str_ℕ index ∷ "]" ∷ []) in
      record {
        id = rule_id sha256_hex rule.name index;
        name = rule.name;
        source = rule.source;
        destination = rule.destination;
        services = rule.service;
        action = rule.action;
        enabled = rule.enabled;
        description = rule.description;
        line = SourceMap.line source location;
        location = location;
        owner = rule.owner;
        ticket = rule.ticket;
      }
      ∷ build_policies (index + 1) rules

  unfoldable pub build_exceptions : ℕ → List ExceptionModel → List ExceptionIr
  build_exceptions index [] = []
  build_exceptions index (exception ∷ exceptions) =
      let location = text ("exceptions[" ∷ str_ℕ index ∷ "]" ∷ []) in
      record {
        rule = exception.rule;
        finding = exception.finding;
        reason = exception.reason;
        expires = exception.expires;
        ticket = exception.ticket;
        line = SourceMap.line source location;
        location = location;
      }
      ∷ build_exceptions (index + 1) exceptions

  -- The record that `build_ir` returns, from the resolved addresses and the built services.
  unfoldable pub assemble : Dict String (List String) → Dict String ServiceIr → FirewallIr
  unfolding build_addresses build_policies build_exceptions insert
  assemble resolved services = record {
    version = document.version;
    addresses = build_addresses resolved;
    services = insert "any" any_service services;
    policies = build_policies 0 document.policies;
    groups = document.groups;
    source_map = source;
    exceptions = build_exceptions 0 document.exceptions;
  }

  -- `ok none` is the ValueError of a port.
  unfoldable pub build_ir : IpText → Resolved (Option FirewallIr)
  unfolding assemble build_services
  build_ir ip = do
    resolved ← resolve_rule_references ip document
    ok (elim (build_services ip.numerals document.services) [
      | none ↦ none
      | some services ↦ some (assemble resolved services)
    ])
