-- ===== src/Exporters/Helpers.antt =====
-- py2fw/exporters/_helpers.py
pub mod Written
use py2fw.Common.{
  String, Bool, true, false, not, ◌&&◌, List, [], ◌∷◌, ◌++◌, is_empty, select, flat_map,
  if◌then◌else◌, ◌==◌, String_eq, text, str_ℕ, join, map,
}
use py2fw.IpAddress.{IpText}
use py2fw.Utils.Ip.{is_ipv6}
use py2fw.Compiler.PortRange.{PortRange, is_single}
use py2fw.Compiler.Ir.{PolicyIr, FirewallIr}
use py2fw.Compiler.Query.{address_values}

-- What a target can express.
pub record Capabilities : Type 0 where
  pub allow_only : Bool
  pub supports_reject : Bool
  pub supports_ipv6 : Bool
  pub supports_ranges : Bool
  pub scopes_destination : Bool

unfoldable pub rule_comment : PolicyIr → String
rule_comment rule = text ("# " ∷ rule.name ∷ " (" ∷ rule.id ∷ ")" ∷ [])

unfoldable pub port_range_token : PortRange → String → String
port_range_token r sep =
    if is_single r then str_ℕ r.start else text (str_ℕ r.start ∷ sep ∷ str_ℕ r.end ∷ [])

abbrev pub warn_if : Bool → String → List String
warn_if true message = message ∷ []
warn_if false message = []

-- `str` of a list of texts without quotes or backslashes
abbrev pub str_list : List String → String
str_list values = text ("[" ∷ join ", " (map (λ v. text ("'" ∷ v ∷ "'" ∷ [])) values) ∷ "]" ∷ [])

unfoldable pub rule_lossiness : IpText → FirewallIr → Capabilities → PolicyIr → List String
rule_lossiness ip ir caps rule =
    let v6 : List String =
      select (is_ipv6 ip) (address_values ir (rule.source ++ rule.destination)) in
    if not rule.enabled
    then []
    else warn_if (caps.allow_only && not (rule.action == "allow")) (
        text (
          "rule '" ∷ rule.name ∷ "': " ∷ rule.action
          ∷ " rule dropped (target only expresses allow rules)" ∷ []))
      ++ (warn_if (rule.action == "reject" && not caps.supports_reject) (
            text (
              "rule '" ∷ rule.name ∷ "': reject downgraded to deny/drop (target has no reject)"
              ∷ []))
          ++ warn_if (not caps.supports_ipv6 && not (is_empty v6)) (
              text (
                "rule '"
                ∷ rule.name
                ∷ "': IPv6 addresses "
                ∷ str_list v6
                ∷ " not supported by target"
                ∷ [])))

unfoldable pub describe_lossiness : IpText → FirewallIr → Capabilities → List String
unfolding rule_lossiness
describe_lossiness ip ir caps = flat_map (rule_lossiness ip ir caps) ir.policies
