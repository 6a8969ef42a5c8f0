-- ===== src/Compiler/Validator.antt =====
-- validate_document of py2fw/compiler/validator.py.
use py2fw.Common.{
  ℕ, ◌+◌, String, Bool, true, not, Option, none, some, ◌&&◌, ◌||◌, List, [], ◌∷◌, ◌++◌, map, elem,
  is_empty, is_none, Dict, has, if◌then◌else◌, ◌==◌, ℕ_eq, String_eq, pair_eq, text, str_ℕ, join,
}
use py2fw.IpAddress.{IpText}
use py2fw.Utils.Ip.{has_host_bits, is_hostname, is_valid_endpoint}
use py2fw.Compiler.Issues.{ValidationIssue, add_if, validate_port}
use py2fw.Parser.SourceMap.{SourceMap}
use py2fw.Parser.Schema.{
  PortValue, absent, number, written, several, ServiceModel, RuleModel, ExceptionModel,
  FlowTestModel, PolicyDocument, valid_actions, valid_protocols,
}

-- A reference is known: an object, a group or `any`.
unfoldable pub is_known : PolicyDocument → String → Bool
unfolding has
is_known document name = has name document.objects || has name document.groups || name == "any"

unfoldable pub is_flow_endpoint : IpText → String → PolicyDocument → Bool
unfolding has
is_flow_endpoint ip value document =
    if value == "*" || has value document.objects || has value document.groups
    then true
    else not (is_none (ip.ip_address value))

module _ (ip : IpText) (document : PolicyDocument) (source : SourceMap) where
  -- The loop over the values of one object, with the values seen so far.
  unfoldable pub check_values : String → List String → ℕ → List String → List ValidationIssue
  unfolding add_if
  check_values name seen index [] = []
  check_values name seen index (value ∷ values) =
      let loc = text ("objects." ∷ name ∷ "[" ∷ str_ℕ index ∷ "]" ∷ []) in
      add_if (elem value seen) source "warning" (text ("duplicate object value: " ∷ value ∷ [])) loc
      ++ ((if not (is_valid_endpoint ip value)
            then add_if true source "error" (text ("invalid IP, CIDR, or hostname: " ∷ value ∷ []))
                loc
            else if has_host_bits ip value
            then add_if true source "warning"
                (text ("CIDR " ∷ value ∷ " has host bits set; it is treated as its network" ∷ []))
                loc
            else add_if (is_hostname ip value) source "warning"
                (text (
                  "hostname '" ∷ value ∷ "' is passed through literally; pin to IP/CIDR or "
                  ∷ "compile with --resolve-hosts" ∷ []))
                loc)
          ++ check_values name (value ∷ seen) (index + 1) values)

  unfoldable pub check_objects : Dict String (List String) → List ValidationIssue
  unfolding check_values
  check_objects [] = []
  check_objects ((name, values) ∷ objects) =
      add_if (is_empty values) source "error" "object must contain at least one endpoint"
        (text ("objects." ∷ name ∷ []))
      ++ (check_values name [] 0 values ++ check_objects objects)

  unfoldable pub check_members : String → List String → List ValidationIssue
  unfolding add_if is_known
  check_members name [] = []
  check_members name (member ∷ members) =
      add_if (not (is_known document member)) source "error"
        (text ("unknown group member: " ∷ member ∷ [])) (text ("groups." ∷ name ∷ []))
      ++ check_members name members

  unfoldable pub check_groups : Dict String (List String) → List ValidationIssue
  unfolding check_members
  check_groups [] = []
  check_groups ((name, members) ∷ groups) =
      add_if (is_empty members) source "error" "group must not be empty"
        (text ("groups." ∷ name ∷ []))
      ++ (check_members name members ++ check_groups groups)

  -- `str(service.port)`
  unfoldable pub str_port : PortValue → String
  str_port absent = "None"
  str_port (number port) = str_ℕ port
  str_port (written value) = value
  str_port (several ports) = text ("[" ∷ join ", " (map str_ℕ ports) ∷ "]" ∷ [])

  unfoldable pub check_services :
      List (String × String) → Dict String ServiceModel → Option (List ValidationIssue)
  unfolding validate_port str_port
  check_services seen [] = some []
  check_services seen ((name, service) ∷ services) =
      let location = text ("services." ∷ name ∷ []) in
      let fingerprint : String × String = (service.protocol, str_port service.port) in
      elim (validate_port ip.numerals source name service.port) [
        | none ↦ none
        | some found ↦ (elim (check_services (fingerprint ∷ seen) services) [
          | none ↦ none
          | some later ↦ some (
              add_if (not (elem service.protocol valid_protocols)) source "error"
                (text ("invalid protocol: " ∷ service.protocol ∷ [])) location
              ++ (found
                  ++ (add_if (elem fingerprint seen) source "warning" "duplicate service definition"
                        location
                      ++ later)))
        ])
      ]

  unfoldable pub check_refs : String → List String → List ValidationIssue
  unfolding add_if is_known
  check_refs location [] = []
  check_refs location (ref ∷ refs) =
      add_if (not (is_known document ref)) source "error"
        (text ("unknown object reference: " ∷ ref ∷ [])) location
      ++ check_refs location refs

  unfoldable pub check_service_refs : String → List String → List ValidationIssue
  unfolding add_if has
  check_service_refs location [] = []
  check_service_refs location (ref ∷ refs) =
      add_if (not (has ref document.services || ref == "any")) source "error"
        (text ("unknown service reference: " ∷ ref ∷ [])) location
      ++ check_service_refs location refs

  unfoldable pub check_rules : List String → ℕ → List RuleModel → List ValidationIssue
  unfolding check_refs check_service_refs
  check_rules seen index [] = []
  check_rules seen index (rule ∷ rules) =
      let location = text ("policies[" ∷ str_ℕ index ∷ "]" ∷ []) in
      add_if (elem rule.name seen) source "warning"
        (text ("duplicate rule name: " ∷ rule.name ∷ [])) location
      ++ (add_if (is_empty rule.source) source "error" "missing source"
            (text (location ∷ ".source" ∷ []))
          ++ (add_if (is_empty rule.destination) source "error" "missing destination"
                (text (location ∷ ".destination" ∷ []))
              ++ (add_if (is_empty rule.service) source "error" "missing service"
                    (text (location ∷ ".service" ∷ []))
                  ++ (add_if (not (elem rule.action valid_actions)) source "error"
                        (text ("invalid action: " ∷ rule.action ∷ []))
                        (text (location ∷ ".action" ∷ []))
                      ++ (check_refs location (rule.source ++ rule.destination)
                          ++ (check_service_refs location rule.service
                              ++ check_rules (rule.name ∷ seen) (index + 1) rules))))))

  unfoldable pub check_exceptions :
      List String → List (String × String) → ℕ → List ExceptionModel → List ValidationIssue
  unfolding add_if
  check_exceptions rule_names waived index [] = []
  check_exceptions rule_names waived index (exception ∷ exceptions) =
      let location = text ("exceptions[" ∷ str_ℕ index ∷ "]" ∷ []) in
      let key : String × String = (exception.rule, exception.finding) in
      add_if (not (elem exception.rule rule_names)) source "error"
        (text ("exception references unknown rule: " ∷ exception.rule ∷ [])) location
      ++ (add_if (elem key waived) source "warning" "duplicate exception" location
          ++ check_exceptions rule_names (key ∷ waived) (index + 1) exceptions)

  unfoldable pub check_side : ℕ → String → String → List ValidationIssue
  unfolding add_if is_flow_endpoint
  check_side index side value =
      add_if (not (is_flow_endpoint ip value document)) source "error"
        (text ("test endpoint must be an IP, object/group name or '*': " ∷ value ∷ []))
        (text ("tests[" ∷ str_ℕ index ∷ "]." ∷ side ∷ []))

  unfoldable pub check_tests : ℕ → List FlowTestModel → List ValidationIssue
  unfolding check_side
  check_tests index [] = []
  check_tests index (test ∷ tests) =
      check_side index "src" test.src
      ++ (check_side index "dst" test.dst
          ++ (add_if ((test.protocol == "tcp" || test.protocol == "udp") && is_none test.port)
                source "error" (text (test.protocol ∷ " tests require a port" ∷ []))
                (text ("tests[" ∷ str_ℕ index ∷ "]" ∷ []))
              ++ check_tests (index + 1) tests))

  -- `none` is the ValueError of a port.
  unfoldable pub validate_document : Option (List ValidationIssue)
  unfolding check_objects check_groups check_services check_rules check_exceptions check_tests
  validate_document = elim (check_services [] document.services) [
    | none ↦ none
    | some services ↦ some (
        check_objects document.objects
        ++ (check_groups document.groups
            ++ (services
                ++ (check_rules [] 0 document.policies
                    ++ (check_exceptions (map (λ rule. rule.name) document.policies) [] 0
                          document.exceptions
                        ++ check_tests 0 document.tests)))))
  ]
