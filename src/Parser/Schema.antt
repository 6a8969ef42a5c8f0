-- ===== src/Parser/Schema.antt =====
-- py2fw/parser/schema.py: the models of a policy document, and their validators. What pydantic
-- does itself, reading fields and defaults, is not modelled; `none` is the ValueError of a
-- validator. A port that is written as a negative number is left out.
use py2fw.Common.{
  ℕ, String, Bool, true, false, not, ◌||◌, Option, none, some, List, [], ◌∷◌, all, elem, Dict,
  if◌then◌else◌, ◌==◌, String_eq,
}

-- `int | str | list[int] | None`
pub data PortValue : Type 0 where
  absent : PortValue
  number : ℕ → PortValue
  written : String → PortValue
  several : List ℕ → PortValue

pub record ServiceModel : Type 0 where
  pub protocol : String
  pub port : PortValue
  pub description : String

pub record RuleModel : Type 0 where
  pub name : String
  pub source : List String
  pub destination : List String
  pub service : List String
  pub action : String
  pub enabled : Bool
  pub description : String
  pub owner : String
  pub ticket : String

pub record ExceptionModel : Type 0 where
  pub rule : String
  pub finding : String
  pub reason : String
  pub expires : ℕ
  pub ticket : String

pub record FlowTestModel : Type 0 where
  pub name : String
  pub src : String
  pub dst : String
  pub protocol : String
  pub port : Option ℕ
  pub expect : String

pub record PolicyDocument : Type 0 where
  pub version : ℕ
  pub environment : String
  pub objects : Dict String (List String)
  pub groups : Dict String (List String)
  pub services : Dict String ServiceModel
  pub policies : List RuleModel
  pub exceptions : List ExceptionModel
  pub tests : List FlowTestModel

abbrev pub valid_actions : List String
valid_actions = "allow" ∷ "deny" ∷ "reject" ∷ []

abbrev pub valid_protocols : List String
valid_protocols = "tcp" ∷ "udp" ∷ "icmp" ∷ "any" ∷ []

-- `str.lower` and `str.strip` of the validators.
module _ (lower strip : String → String) where
  -- RuleModel.action_is_supported
  unfoldable pub action_is_supported : String → Option String
  action_is_supported value = if elem (lower value) valid_actions then some (lower value) else none

  -- ServiceModel.protocol_is_supported
  unfoldable pub protocol_is_supported : String → Option String
  protocol_is_supported value =
      if elem (lower value) valid_protocols then some (lower value) else none

  -- FlowTestModel.protocol_is_supported
  unfoldable pub test_protocol_is_supported : String → Option String
  test_protocol_is_supported value =
      if elem (lower value) ("tcp" ∷ "udp" ∷ "icmp" ∷ []) then some (lower value) else none

  -- ExceptionModel.reason_is_not_blank
  unfoldable pub reason_is_not_blank : String → Option String
  reason_is_not_blank value = if strip value == "" then none else some value

  -- PolicyDocument.names_are_not_empty
  unfoldable pub names_are_not_empty : List String → Bool
  names_are_not_empty names = all (λ name. not (strip name == "")) names

abbrev pub is_absent : PortValue → Bool
is_absent absent = true
is_absent (number n) = false
is_absent (written s) = false
is_absent (several ns) = false

-- ServiceModel.port_matches_protocol
unfoldable pub port_matches_protocol : ServiceModel → Option ServiceModel
port_matches_protocol service =
    if service.protocol == "icmp" || service.protocol == "any"
    then (if is_absent service.port then some service else none)
    else if is_absent service.port
    then none
    else some service
