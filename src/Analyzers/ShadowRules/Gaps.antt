-- ===== src/Analyzers/ShadowRules/Gaps.antt =====
-- Two classes of rules that _covers_services of py2fw/analyzers/shadow_rules.py takes for covered,
-- and that the engine does not.
use py2fw.Common.{
  ℕ, ◌≤◌, ◌<◌, String, ◌≡◌, ◌≢◌, refl, true, false, some, [], ◌∷◌, any, String_eq, arith,
}
use py2fw.Compiler.PortRange.{PortRange}
use py2fw.Compiler.PortSpec.{normalize_ranges}
use py2fw.Compiler.PortSpec.Members.{covers-normalize_ranges}
use py2fw.Compiler.Ir.{ServiceIr, PolicyIr, FirewallIr}
use py2fw.Compiler.Query.{service_values}
use py2fw.Engine.Evaluate.{Flow}
use py2fw.Engine.Evaluate.Loops.{service_allows}
use py2fw.Analyzers.ShadowRules.{covers_services}

abbrev pub range : ℕ → ℕ → PortRange
range start end = record { start = start; end = end }

-- A service on one range of ports of a protocol, with the name and the rest of a given one.
abbrev pub service_on : ServiceIr → String → ℕ → ℕ → ServiceIr
service_on service protocol start end = record service {
  protocol = protocol;
  ports = record { ranges = range start end ∷ [] };
}

abbrev pub flow_to : String → ℕ → Flow
flow_to protocol port = record {
  source = "10.0.0.1";
  destination = "10.0.0.2";
  protocol = protocol;
  port = some port;
}

normalize_single : (r : PortRange) → normalize_ranges (r ∷ []) ≡ r ∷ []
unfolding normalize_ranges
normalize_single r = refl

module _ (ir : FirewallIr) (outer inner : PolicyIr) where
  -- The ports are pooled over the protocols: for services of whatever names, tcp on one port with
  -- udp on another is taken to cover tcp on the second port, and the engine gives it to the inner
  -- rule alone.
  pub covers_services_mixes_protocols :
      (first second third : ServiceIr) (p q : ℕ)
      → p ≢ q
      → service_values ir outer.services
        ≡ service_on first "tcp" p p ∷ service_on second "udp" q q ∷ []
      → service_values ir inner.services ≡ service_on third "tcp" q q ∷ []
      → (covers_services ir outer inner ≡ true)
        × (any (service_allows (flow_to "tcp" q)) (service_values ir inner.services) ≡ true)
        × (any (service_allows (flow_to "tcp" q)) (service_values ir outer.services) ≡ false)
  unfolding covers_services
  covers_services_mixes_protocols first second third p q d o i =
      let pool = covers-normalize_ranges (range p p ∷ range q q ∷ []) q in
      (
        rw (o, i, normalize_single (range q q)) (ground (arith, pool)),
        rw i (ground arith),
        rw o (ground (arith, d)),
      )

  -- Only the two ends of a range are looked at: for services of whatever names, two tcp ranges
  -- with a gap are taken to cover the tcp range that spans both, and the engine gives a port of
  -- the gap to the inner rule alone.
  pub covers_services_misses_gap :
      (first second third : ServiceIr) (low a port b high : ℕ)
      → 1 < low
      → low ≤ a
      → a < port
      → port < b
      → b ≤ high
      → service_values ir outer.services
        ≡ service_on first "tcp" low a ∷ service_on second "tcp" b high ∷ []
      → service_values ir inner.services ≡ service_on third "tcp" low high ∷ []
      → (covers_services ir outer inner ≡ true)
        × (any (service_allows (flow_to "tcp" port)) (service_values ir inner.services) ≡ true)
        × (any (service_allows (flow_to "tcp" port)) (service_values ir outer.services) ≡ false)
  unfolding covers_services
  covers_services_misses_gap first second third low a port b high h1 h2 h3 h4 h5 o i =
      let at_low = covers-normalize_ranges (range low a ∷ range b high ∷ []) low in
      let at_high = covers-normalize_ranges (range low a ∷ range b high ∷ []) high in
      (
        rw (o, i, normalize_single (range low high)) (ground (arith, at_low, at_high)),
        rw i (ground arith),
        rw o (ground arith),
      )
