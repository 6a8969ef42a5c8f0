-- ===== src/Analyzers/ShadowRules/Services.antt =====
-- The service tests of py2fw/analyzers/shadow_rules.py against the evaluation engine.
use text.Mathlib.TextEquality.{eq_iff}
use py2fw.Common.{
  ℕ, ◌≤◌, String, ◌≡◌, ◌≢◌, ◌∙◌, sym, ap, true, false, ◌&&◌, ◌||◌, some, List, [], ◌∷◌, any, all,
  elem, map, flat_map, any-flat_map, ◌==◌, String_eq, list_eq, list_beq_iff, arith, Bool-cases, inl,
  inr, ◌⊎◌,
}
use py2fw.Compiler.PortRange
use py2fw.Compiler.PortRange.{PortRange, PortRange_eq, range_beq_iff}
use py2fw.Compiler.PortSpec
use py2fw.Compiler.PortSpec.{PortSpec, from_ranges, full_range, normalize_ranges}
use py2fw.Compiler.PortSpec.Members.{covers, covers-normalize_ranges}
use py2fw.Compiler.Ir.{ServiceIr, PolicyIr, FirewallIr}
use py2fw.Compiler.Query.{service_values}
use py2fw.Engine.Evaluate.{Flow}
use py2fw.Engine.Evaluate.Loops.{service_allows}
use py2fw.Analyzers.ShadowRules.{covers_specs, covers_services}

abbrev spec_of : List ServiceIr → List String × PortSpec
spec_of services =
    (map (λ s. s.protocol) services, from_ranges (flat_map (λ s. s.ports.ranges) services))

abbrev protos : List ServiceIr → List String
protos services = map (λ s. s.protocol) services

-- Pooling the services keeps their ports.
pooled :
    (services : List ServiceIr) (port : ℕ)
    → PortSpec.contains (spec_of services).1 port
      ≡ any (λ s. PortSpec.contains s.ports port) services
pooled services port =
    covers-normalize_ranges (flat_map (λ s. s.ports.ranges) services) port
    ∙ any-flat_map (λ r. PortRange.contains r port) (λ s. s.ports.ranges) services

-- A service that takes in a flow has a protocol of the flow, or `any`.
allows_protocol :
    (flow : Flow) (services : List ServiceIr)
    → any (service_allows flow) services ≡ true
    → (elem "any" (protos services) || elem flow.protocol (protos services)) ≡ true
allows_protocol flow [] h = cc
allows_protocol flow (s ∷ services) h = ground (arith, allows_protocol flow services)

any_protocol_allows :
    (flow : Flow) (services : List ServiceIr)
    → elem "any" (protos services) ≡ true
    → any (service_allows flow) services ≡ true
any_protocol_allows flow [] h = cc
any_protocol_allows flow (s ∷ services) h = ground (arith, any_protocol_allows flow services)

icmp_allows :
    (flow : Flow) (services : List ServiceIr)
    → flow.protocol ≡ "icmp"
    → elem flow.protocol (protos services) ≡ true
    → any (service_allows flow) services ≡ true
icmp_allows flow [] e h = cc
icmp_allows flow (s ∷ services) e h =
    ground (arith, eq_iff flow.protocol "icmp", icmp_allows flow services)

all-elem :
    (p : String) (xs ys : List String)
    → all (λ x. elem x ys) xs ≡ true
    → elem p xs ≡ true
    → elem p ys ≡ true
all-elem p [] ys h k = cc
all-elem p (x ∷ xs) ys h k = ground (arith, eq_iff x p, all-elem p xs ys)

full_covers :
    (spec : PortSpec) (port : ℕ)
    → PortSpec.is_all_ports spec ≡ true
    → 1 ≤ port
    → port ≤ 65535
    → PortSpec.contains spec port ≡ true
full_covers spec port h low high =
    let same = (list_beq_iff spec.ranges (full_range ∷ [])).0 h in rw same (ground arith)

-- A service that takes in a tcp or udp flow on a real port, other than by protocol `any`, has
-- the protocol of the flow and its port.
allows_port :
    (flow : Flow) (port : ℕ) (services : List ServiceIr)
    → flow.protocol ≢ "icmp"
    → flow.port ≡ some port
    → 1 ≤ port
    → port ≤ 65535
    → elem "any" (protos services) ≡ false
    → any (service_allows flow) services ≡ true
    → any (λ s. PortSpec.contains s.ports port) services ≡ true
allows_port flow port [] e f low high n h = cc
allows_port flow port (s ∷ services) e f low high n h = ground (
  arith,
  e,
  f,
  eq_iff flow.protocol "icmp",
  full_covers s.ports port,
  allows_port flow port services e f low high,
)

one_protocol :
    (q p : String) (services : List ServiceIr)
    → all (λ s. s.protocol == p) services ≡ true
    → elem q (protos services) ≡ true
    → p ≡ q
one_protocol q p [] same e = cc
one_protocol q p (s ∷ services) same e =
    ground (arith, eq_iff s.protocol p, eq_iff s.protocol q, one_protocol q p services)

port_allows :
    (flow : Flow) (port : ℕ) (services : List ServiceIr)
    → flow.port ≡ some port
    → all (λ s. s.protocol == flow.protocol) services ≡ true
    → any (λ s. PortSpec.contains s.ports port) services ≡ true
    → any (service_allows flow) services ≡ true
port_allows flow port [] f same h = cc
port_allows flow port (s ∷ services) f same h = ground (arith, f, port_allows flow port services f)

-- Ranges whose two ends lie in one range lie in it.
ends_in :
    (r : PortRange) (ranges : List PortRange) (port : ℕ)
    → all
        (λ q. (PortRange.contains r q.start || false) && (PortRange.contains r q.end || false))
        ranges
      ≡ true
    → covers ranges port ≡ true
    → PortRange.contains r port ≡ true
ends_in r [] port h k = cc
ends_in r (q ∷ ranges) port h k = ground (arith, ends_in r ranges port)

covers_specs-port :
    (outer_protos inner_protos : List String) (r : PortRange) (inner : PortSpec) (port : ℕ)
    → elem "any" outer_protos ≡ false
    → covers_specs (outer_protos, record { ranges = r ∷ [] }) (inner_protos, inner) ≡ true
    → 1 ≤ port
    → port ≤ 65535
    → PortSpec.contains inner port ≡ true
    → PortSpec.contains (record { ranges = r ∷ [] }) port ≡ true
unfolding covers_specs
covers_specs-port outer_protos inner_protos r inner port n c low high k =
    elim (Bool-cases (PortSpec.is_all_ports (record { ranges = r ∷ [] }))) [
      | inl full ↦ full_covers (record { ranges = r ∷ [] }) port full low high
      | inr partial ↦ ground (arith, n, c, partial, ends_in r inner.ranges port)
    ]

covers_specs-protocol :
    (p : String) (outer inner : List String × PortSpec)
    → covers_specs outer inner ≡ true
    → elem p inner.0 ≡ true
    → (elem "any" outer.0 || elem p outer.0) ≡ true
unfolding covers_specs
covers_specs-protocol p (outer_protos, outer) (inner_protos, inner) c k =
    ground (arith, all-elem p inner_protos outer_protos)

-- What is asked of a flow and of the services of an outer rule, beyond the analyzer's test.
-- Either the flow is icmp, or it names a port, and the outer services have one protocol and
-- their ports form one range.
abbrev pub Comparable : Flow → List ServiceIr → Type 0
Comparable flow services =
    (flow.protocol ≡ "icmp")
    ⊎ ((flow.protocol ≢ "icmp")
        × (port : ℕ) × (p : String) × (r : PortRange) × (flow.port ≡ some port)
        × (1 ≤ port)
        × (port ≤ 65535)
        × (all (λ s. s.protocol == p) services ≡ true)
        × (normalize_ranges (flat_map (λ s. s.ports.ranges) services) ≡ r ∷ []))

covers_pooled :
    (flow : Flow) (outer inner : List ServiceIr)
    → Comparable flow outer
    → covers_specs (spec_of outer) (spec_of inner) ≡ true
    → any (service_allows flow) inner ≡ true
    → any (service_allows flow) outer ≡ true
covers_pooled flow outer inner cmp c h = elim (Bool-cases (elem "any" (protos outer))) [
  | inl every ↦ any_protocol_allows flow outer every
  | inr some_only ↦ go cmp some_only
]
  where
    has_protocol : elem "any" (protos outer) ≡ false → elem flow.protocol (protos outer) ≡ true
    has_protocol n = ground (
      arith,
      n,
      h,
      allows_protocol flow inner,
      covers_specs-protocol flow.protocol (spec_of outer) (spec_of inner),
      covers_specs-protocol "any" (spec_of outer) (spec_of inner),
    )

    go :
        Comparable flow outer
        → elem "any" (protos outer) ≡ false
        → any (service_allows flow) outer ≡ true
    go (inl icmp) n = icmp_allows flow outer icmp (has_protocol n)
    go (inr (plain, port, p, r, f, low, high, same, single)) n =
        let inner_plain : elem "any" (protos inner) ≡ false =
          ground (arith, n, covers_specs-protocol "any" (spec_of outer) (spec_of inner) c) in
        let in_inner : PortSpec.contains (spec_of inner).1 port ≡ true =
          pooled inner port ∙ allows_port flow port inner plain f low high inner_plain h in
        let in_range : PortSpec.contains (record { ranges = r ∷ [] }) port ≡ true =
          covers_specs-port (protos outer) (protos inner) r (spec_of inner).1 port n
            (rw single at c) low high in_inner in
        let in_outer : any (λ s. PortSpec.contains s.ports port) outer ≡ true =
          sym (pooled outer port) ∙ (ap (λ rs. covers rs port) single ∙ in_range) in
        let protocol = one_protocol flow.protocol p outer same (has_protocol n) in
        port_allows flow port outer f (rw protocol at same) in_outer

-- Where the analyzer finds the services of one rule covered by those of another, the engine finds
-- a flow that the first services take in taken in by the second too, when the flow is icmp, or
-- when it names a real port and the second services have one protocol and one range of ports.
pub covers_services_sound :
    (ir : FirewallIr) (outer inner : PolicyIr) (flow : Flow)
    → Comparable flow (service_values ir outer.services)
    → covers_services ir outer inner ≡ true
    → any (service_allows flow) (service_values ir inner.services) ≡ true
    → any (service_allows flow) (service_values ir outer.services) ≡ true
covers_services_sound ir outer inner flow cmp c h =
    covers_pooled flow (service_values ir outer.services) (service_values ir inner.services) cmp
      (unfold covers_services in c) h
