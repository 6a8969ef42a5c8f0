-- ===== src/Verify/Regression.antt =====
-- py2fw/verify/regression.py
pub mod Passing
use py2fw.Common.{
  ℕ, ◌+◌, ◌-◌, String, Bool, true, false, not, ◌||◌, Option, none, some, List, [], ◌∷◌, is_empty,
  flat_map, from_keys, values, select, get, if◌then◌else◌, leb, ◌==◌, ℕ_eq, String_eq, text, str_ℕ,
}
use py2fw.IpAddress.{IpText, Version_eq, num_addresses, broadcast_address}
use py2fw.Utils.Digits.{has_char}
use py2fw.Parser.SourceMap
use py2fw.Parser.Schema.{FlowTestModel}
use py2fw.Compiler.Ir.{FirewallIr}
use py2fw.Engine.Evaluate.{Flow, Decision, evaluate}

pub record FlowTestResult : Type 0 where
  pub name : String
  pub origin : String
  pub passed : Bool
  pub detail : String
  pub location : String
  pub line : Option ℕ

unfoldable pub probes_of : IpText → String → List String
unfolding num_addresses broadcast_address
probes_of ip value = if value == "any" then "203.0.113.10" ∷ [] else elim (ip.ip_network value) [
  | none ↦ []
  | some net ↦
      (if leb (num_addresses net) 2
        then ip.str_address (record { version = net.version; number = net.network_address }) ∷ []
        else from_keys (
            ip.str_address (record { version = net.version; number = net.network_address + 1 })
            ∷ ip.str_address (record { version = net.version; number = broadcast_address net - 1 })
            ∷ []))
]

unfoldable pub endpoints : IpText → FirewallIr → String → List String
unfolding probes_of get
endpoints ip ir value =
    if value == "*"
    then from_keys (
        flat_map (probes_of ip)
          (select (λ v. not (v == "any")) (flat_map (λ a. a.values) (values ir.addresses))))
    else elim (get value ir.addresses) [
      | none ↦ value ∷ []
      | some address ↦ from_keys (flat_map (probes_of ip) address.values)
    ]

unfoldable pub describe : Flow → String
describe flow =
    let target : String = elim flow.port [
      | none ↦ flow.protocol
      | some port ↦ text (flow.protocol ∷ "/" ∷ str_ℕ port ∷ [])
    ] in
    text (flow.source ∷ " -> " ∷ flow.destination ∷ " " ∷ target ∷ [])

-- The state of the two loops: `failure`, empty while there is none, and `probes`.
pub record Probing : Type 0 where
  pub failure : String
  pub probes : ℕ

unfoldable pub actual : Decision → String
actual decision = if decision.allowed then "allow" else "deny"

pub decided_by : Decision → String
decided_by decision = elim decision.matched_rule [ none ↦ "default deny" | some rule ↦ rule.name ]

module _ (ip : IpText) (ir : FirewallIr) (test : FlowTestModel) where
  abbrev pub flow_between : String → String → Flow
  flow_between src dst = record {
    source = src;
    destination = dst;
    protocol = test.protocol;
    port = test.port;
  }

  pub not_an_address : String → String → String
  not_an_address src dst =
      text ("not an IP address: " ∷ (if has_char b'/' src then src else dst) ∷ [])

  pub mismatch : Flow → Decision → String
  unfolding describe actual decided_by
  mismatch flow decision = text (
      describe flow
      ∷ " is "
      ∷ actual decision
      ∷ " by "
      ∷ decided_by decision
      ∷ ", expected "
      ∷ test.expect
      ∷ [])

  -- The loop over the destinations for one source. `none` is a ValueError from the engine.
  unfoldable pub probe_destinations : String → List String → ℕ → Option Probing
  unfolding not_an_address mismatch
  probe_destinations src [] probes = some (record { failure = ""; probes = probes })
  probe_destinations src (dst ∷ dsts) probes = elim (ip.ip_address src) [
    | none ↦ some (record { failure = not_an_address src dst; probes = probes })
    | some source ↦ (elim (ip.ip_address dst) [
      | none ↦ some (record { failure = not_an_address src dst; probes = probes })
      | some destination ↦ (elim (source.version == destination.version) [
        | false ↦ probe_destinations src dsts probes
        | true ↦ (elim (evaluate ip ir (flow_between src dst)) [
          | none ↦ none
          | some decision ↦ (elim (actual decision == test.expect) [
            | true ↦ probe_destinations src dsts (probes + 1)
            | false ↦
                some (record {
                  failure = mismatch (flow_between src dst) decision;
                  probes = probes + 1;
                })
          ])
        ])
      ])
    ])
  ]

  -- The loop over the sources.
  unfoldable pub probe_sources : List String → List String → ℕ → Option Probing
  unfolding probe_destinations
  probe_sources [] dsts probes = some (record { failure = ""; probes = probes })
  probe_sources (src ∷ srcs) dsts probes = elim (probe_destinations src dsts probes) [
    | none ↦ none
    | some p ↦ (elim (p.failure == "") [ true ↦ probe_sources srcs dsts p.probes | false ↦ some p ])
  ]

  unfoldable pub run_flow_test : String → ℕ → Option FlowTestResult
  unfolding probe_sources endpoints
  run_flow_test origin index =
      let location =
        text
          ((if origin == "policy" then "tests[" else "baseline tests[") ∷ str_ℕ index ∷ "]" ∷ []) in
      let line = if origin == "policy" then SourceMap.line ir.source_map location else none in
      let result : Bool → String → FlowTestResult = λ passed detail. record {
        name = test.name;
        origin = origin;
        passed = passed;
        detail = detail;
        location = location;
        line = line;
      } in
      if is_empty (endpoints ip ir test.src) || is_empty (endpoints ip ir test.dst)
      then some (result false "no addresses to probe")
      else elim (probe_sources (endpoints ip ir test.src) (endpoints ip ir test.dst) 0) [
        | none ↦ none
        | some p ↦
            (if p.failure == ""
              then some (
                  result true
                    (text (str_ℕ p.probes ∷ " flow(s) got " ∷ test.expect ∷ " as expected" ∷ [])))
              else some (result false p.failure))
      ]

-- `run_flow_tests`, from an index on.
unfoldable pub run_tests_from :
    IpText → FirewallIr → String → ℕ → List FlowTestModel → Option (List FlowTestResult)
run_tests_from ip ir origin index [] = some []
run_tests_from ip ir origin index (test ∷ tests) = elim (run_flow_test ip ir test origin index) [
  | none ↦ none
  | some result ↦ (elim (run_tests_from ip ir origin (index + 1) tests) [
    | none ↦ none
    | some rest ↦ some (result ∷ rest)
  ])
]

unfoldable pub run_flow_tests :
    IpText → FirewallIr → List FlowTestModel → String → Option (List FlowTestResult)
unfolding run_tests_from run_flow_test
run_flow_tests ip ir tests origin = run_tests_from ip ir origin 0 tests
