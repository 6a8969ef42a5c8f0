-- ===== src/Engine/Evaluate/Loops.antt =====
-- The loops of py2fw/engine/evaluate.py are tests of single values and services.
use py2fw.Common.{
  ℕ, String, ◌≡◌, refl, Bool, false, ◌&&◌, ◌||◌, Option, none, some, List, [], ◌∷◌, any, ◌==◌,
  String_eq, arith,
}
use text.Mathlib.TextEquality.{eq_iff}
use py2fw.IpAddress
use py2fw.IpAddress.{Address, IpText}
use py2fw.Compiler.PortSpec
use py2fw.Compiler.Ir.{ServiceIr}
use py2fw.Engine.Evaluate.{Flow, addr_contains, services_match}

-- An address value takes in an address: it is `any`, or a network with that address.
abbrev pub value_contains : IpText → Address → String → Bool
value_contains ip target value =
    value == "any"
    || (elim (ip.ip_network value) [ none ↦ false | some n ↦ IpAddress.contains n target ])

abbrev pub port_allowed : ServiceIr → Option ℕ → Bool
port_allowed service (some port) = PortSpec.contains service.ports port
port_allowed service none = PortSpec.lacks_ports service.ports

-- A service takes in a flow: by its protocol, and by its ports unless it has them all or the
-- protocol is icmp.
abbrev pub service_allows : Flow → ServiceIr → Bool
service_allows flow service =
    service.protocol == "any"
    || (service.protocol == flow.protocol
        && (PortSpec.is_all_ports service.ports
            || flow.protocol == "icmp"
            || port_allowed service flow.port))

pub addr_contains-any :
    (ip : IpText) (values : List String) (target : Address)
    → addr_contains ip values target ≡ any (value_contains ip target) values
unfolding addr_contains
addr_contains-any ip [] target = refl
addr_contains-any ip (value ∷ values) target = ground (arith, addr_contains-any ip values target)

pub services_match-any :
    (services : List ServiceIr) (flow : Flow)
    → services_match services flow ≡ any (service_allows flow) services
unfolding services_match
services_match-any [] flow = refl
services_match-any (service ∷ services) flow = ground (
  arith,
  services_match-any services flow,
  eq_iff service.protocol flow.protocol,
  eq_iff flow.protocol "icmp",
  eq_iff service.protocol "icmp",
  eq_iff service.protocol "any",
)
