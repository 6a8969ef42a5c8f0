-- ===== src/Verify/Config.antt =====
-- The checks of a generated configuration: py2fw/verify/config.py. Running a vendor's tool is a
-- parameter. The order of a set of two ports is not modelled.
pub mod Intent
use Prim.Native.Nat.{◌^◌}
use py2fw.Common.{
  ℕ, ◌-◌, String, Bool, false, not, ◌&&◌, ◌||◌, Option, none, some, List, [], ◌∷◌, ◌++◌, elem,
  is_empty, select, flat_map, values, from_keys, sorted_texts, if◌then◌else◌, ◌==◌, ℕ_eq, String_eq,
  text, join, str_ℕ,
}
use py2fw.IpAddress.{IpText, Address, Network, max_prefixlen, num_addresses}
use py2fw.Utils.Spaces.{strip}
use py2fw.Compiler.PortRange.{PortRange}
use py2fw.Compiler.PortSpec.{is_all_ports}
use py2fw.Compiler.Ir.{ServiceIr, PolicyIr, FirewallIr}
use py2fw.Compiler.Query.{address_values, service_values}
use py2fw.Exporters.Helpers.{Capabilities}
use py2fw.Plugins.Base.{Exporter}
use py2fw.Verify.Tokens.{Classes, v4_tokens, v6_tokens, number_tokens}

pub data CheckKind : Type 0 where
  syntax native_syntax intent : CheckKind

pub record ConfigCheck : Type 0 where
  pub kind : CheckKind
  pub passed : Bool
  pub detail : String

-- `"; ".join(problems) or message`
abbrev pub joined_or : List String → String → String
joined_or problems message = if join "; " problems == "" then message else join "; " problems

-- A vendor's tool: not on the PATH, or its return code is 0 or not and it wrote the two texts.
pub data ToolRun : Type 0 where
  not_found : ToolRun
  finished : Bool → String → String → ToolRun

abbrev pub native_check : Bool → String → ConfigCheck
native_check passed detail = record { kind = native_syntax; passed = passed; detail = detail }

-- A check of one command, from its run.
abbrev pub tool_check : String × List String → ToolRun → ConfigCheck
tool_check (program, arguments) not_found =
    native_check false (text (program ∷ " not found on PATH" ∷ []))
tool_check (program, arguments) (finished success stderr stdout) =
    let output = strip (if stderr == "" then stdout else stderr) in
    native_check success
      (text (join " " (program ∷ arguments) ∷ ": " ∷ (if output == "" then "ok" else output) ∷ []))

module _ (run_tool : String × List String → String → Option ToolRun) where
  -- The loop of `_native`; `none` is the TimeoutExpired.
  unfoldable pub run_checks : List ((String × List String) × String) → Option (List ConfigCheck)
  run_checks [] = some []
  run_checks ((command, stdin) ∷ commands) =
      let rest = run_checks commands in
      elim (run_tool command stdin) [
        | none ↦ none
        | some run ↦ elim rest [
          | none ↦ none
          | some checks ↦ some (tool_check command run ∷ checks)
        ]
      ]

  -- `_native`
  unfoldable pub native_checks_of : Exporter → String → Option (List ConfigCheck)
  unfolding run_checks
  native_checks_of exporter rendered =
      if is_empty (exporter.native_checks rendered)
      then some (native_check false (text ("no vendor validator for " ∷ exporter.name ∷ [])) ∷ [])
      else run_checks (exporter.native_checks rendered)

  unfoldable pub check_syntax : Exporter → String → Bool → Option (List ConfigCheck)
  unfolding native_checks_of
  check_syntax exporter rendered native =
      let problems = exporter.check_syntax rendered in
      let built_in : ConfigCheck = record {
        kind = syntax;
        passed = is_empty problems;
        detail = joined_or problems "well-formed";
      } in
      if native
      then elim (native_checks_of exporter rendered) [
        | none ↦ none
        | some checks ↦ some (built_in ∷ checks)
      ]
      else some (built_in ∷ [])

abbrev pub network_address : Network → Address
network_address n = record { version = n.version; number = n.network_address }

abbrev pub netmask : Network → Address
netmask n = record { version = n.version; number = 2 ^ max_prefixlen n.version - num_addresses n }

abbrev pub hostmask : Network → Address
hostmask n = record { version = n.version; number = num_addresses n - 1 }

-- The addresses that a value contributes to `known`.
unfoldable pub value_tokens : IpText → String → List String
unfolding num_addresses
value_tokens ip value = if value == "any" then [] else elim (ip.ip_network value) [
  | none ↦ []
  | some net ↦
      ip.str_address (network_address net)
      ∷ ip.str_address (netmask net)
      ∷ ip.str_address (hostmask net)
      ∷ []
]

-- `_known_tokens`
unfoldable pub known_tokens : IpText → FirewallIr → List String
unfolding value_tokens
known_tokens ip ir =
    "0.0.0.0"
    ∷ "::"
    ∷ flat_map (λ address. flat_map (value_tokens ip) address.values) (values ir.addresses)

-- The text of an address as `ip_address` writes it, if it is one.
abbrev pub canonical_address : IpText → String → List String
canonical_address ip value = elim (ip.ip_address value) [
  | none ↦ []
  | some address ↦ ip.str_address address ∷ []
]

-- The set `present` of the addresses in the text.
unfoldable pub present_tokens : IpText → Classes → String → List String
unfolding v4_tokens v6_tokens
present_tokens ip classes rendered =
    v4_tokens classes rendered ++ flat_map (canonical_address ip) (v6_tokens classes rendered)

-- The problem of one address of a rule, where `present` is what the text has.
unfoldable pub address_problems : IpText → List String → PolicyIr → String → List String
address_problems ip present rule value = if value == "any" then [] else elim (ip.ip_network value) [
  | none ↦ []
  | some net ↦
      if elem (ip.str_address (network_address net)) present
      then []
      else text ("rule " ∷ rule.name ∷ ": address " ∷ value ∷ " missing" ∷ []) ∷ []
]

-- `{prange.start, prange.end}`
abbrev pub ends : PortRange → List ℕ
ends r = if r.start == r.end then r.start ∷ [] else r.start ∷ r.end ∷ []

abbrev pub port_problem : List String → PolicyIr → ℕ → List String
port_problem numbers rule port =
    if elem (str_ℕ port) numbers
    then []
    else text ("rule " ∷ rule.name ∷ ": port " ∷ str_ℕ port ∷ " missing" ∷ []) ∷ []

-- The problems of one service of a rule, where `numbers` is what the text has.
unfoldable pub service_problems : List String → PolicyIr → ServiceIr → List String
service_problems numbers rule service =
    if is_all_ports service.ports
    then []
    else flat_map (λ r. flat_map (port_problem numbers rule) (ends r)) service.ports.ranges

-- `rule.source + (rule.destination if caps.scopes_destination else ())`
abbrev pub sides : Capabilities → PolicyIr → List String
sides caps rule = rule.source ++ (if caps.scopes_destination then rule.destination else [])

abbrev pub is_skipped : Capabilities → PolicyIr → Bool
is_skipped caps rule = not rule.enabled || (caps.allow_only && not (rule.action == "allow"))

-- One round of the loop over the rules.
unfoldable pub rule_problems :
    IpText → FirewallIr → Capabilities → List String → List String → PolicyIr → List String
unfolding address_problems service_problems
rule_problems ip ir caps present numbers rule =
    if is_skipped caps rule
    then []
    else flat_map (address_problems ip present rule) (address_values ir (sides caps rule))
      ++ flat_map (service_problems numbers rule) (service_values ir rule.services)

-- `sorted(present - _known_tokens(ir))`
unfoldable pub unexpected : IpText → FirewallIr → List String → List String
unfolding known_tokens sorted_texts
unexpected ip ir present =
    sorted_texts (from_keys (select (λ t. not (elem t (known_tokens ip ir))) present))

abbrev pub unexpected_problem : List String → List String
unexpected_problem [] = []
unexpected_problem (t ∷ tokens) =
    text ("addresses not defined in the policy: " ∷ join ", " (t ∷ tokens) ∷ []) ∷ []

unfoldable pub intent_problems : IpText → Classes → FirewallIr → Exporter → String → List String
unfolding rule_problems unexpected
intent_problems ip classes ir exporter rendered =
    let present = present_tokens ip classes rendered in
    let numbers = number_tokens classes rendered in
    flat_map (rule_problems ip ir exporter.capabilities present numbers) ir.policies
    ++ unexpected_problem (unexpected ip ir present)

unfoldable pub check_intent : IpText → Classes → FirewallIr → Exporter → String → ConfigCheck
unfolding intent_problems
check_intent ip classes ir exporter rendered =
    let problems = intent_problems ip classes ir exporter rendered in
    record {
      kind = intent;
      passed = is_empty problems;
      detail = joined_or problems "matches policy";
    }
