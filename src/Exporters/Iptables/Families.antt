-- ===== src/Exporters/Iptables/Families.antt =====
-- Which table a rule reaches: py2fw/exporters/iptables/exporter.py.
use mathlib.Core.List.{append-nil, append_assoc}
use py2fw.Common.{
  String, text, ◌≡◌, refl, sym, ap, ◌∙◌, inl, inr, Bool, true, false, ◌||◌, List, [], ◌∷◌, ◌++◌,
  any, arith, Bool-cases,
}
use py2fw.IpAddress.{IpText}
use py2fw.Utils.Ip.{is_ipv6}
use py2fw.Compiler.Ir.{ServiceIr, PolicyIr, FirewallIr}
use py2fw.Compiler.Query.{address_values, service_values}
use py2fw.Exporters.Helpers.{rule_comment}
use py2fw.Exporters.Iptables.{
  Tables, put_lines, put_services, put_destinations, put_sources, put_rule, put_rules, header_lines,
  tables_of,
}

module _ (ip : IpText) (ir : FirewallIr) where
  services_keep :
      (rule : PolicyIr) (src dst : String) (services : List ServiceIr) (tables : Tables)
      → (is_ipv6 ip src || is_ipv6 ip dst) ≡ false
      → (put_services ip ir rule src dst services tables).v6_lines ≡ tables.v6_lines
  unfolding put_services put_lines
  services_keep rule src dst [] tables h = refl
  services_keep rule src dst (service ∷ services) tables h =
      services_keep rule src dst services (put_lines _ _ tables) h ∙ rw h refl

  destinations_keep :
      (rule : PolicyIr) (src : String) (dsts : List String) (tables : Tables)
      → is_ipv6 ip src ≡ false
      → any (is_ipv6 ip) dsts ≡ false
      → (put_destinations ip ir rule src dsts tables).v6_lines ≡ tables.v6_lines
  unfolding put_destinations
  destinations_keep rule src [] tables h k = refl
  destinations_keep rule src (dst ∷ dsts) tables h k =
      destinations_keep rule src dsts
        (put_services ip ir rule src dst (service_values ir rule.services) tables) h
        (ground (arith, k))
      ∙ services_keep rule src dst (service_values ir rule.services) tables (ground (arith, h, k))

  sources_keep :
      (rule : PolicyIr) (dsts srcs : List String) (tables : Tables)
      → any (is_ipv6 ip) srcs ≡ false
      → any (is_ipv6 ip) dsts ≡ false
      → (put_sources ip ir rule dsts srcs tables).v6_lines ≡ tables.v6_lines
  unfolding put_sources
  sources_keep rule dsts [] tables h k = refl
  sources_keep rule dsts (src ∷ srcs) tables h k =
      sources_keep rule dsts srcs (put_destinations ip ir rule src dsts tables) (ground (arith, h))
        k
      ∙ destinations_keep rule src dsts tables (ground (arith, h)) k

  rule_keeps :
      (rule : PolicyIr) (tables : Tables)
      → any (is_ipv6 ip) (address_values ir rule.source) ≡ false
      → any (is_ipv6 ip) (address_values ir rule.destination) ≡ false
      → (put_rule ip ir rule tables).v6_lines ≡ tables.v6_lines
  unfolding put_rule put_lines
  rule_keeps rule tables h k = elim (Bool-cases rule.enabled) [
    | inl e ↦ ground (
      arith,
      e,
      sources_keep rule (address_values ir rule.destination) (address_values ir rule.source) tables
          h k,
    )
    | inr e ↦ ground (arith, e)
  ]

-- A step appends some lines to the IPv6 table, the same ones whatever stands there.
abbrev Adds : (Tables → Tables) → Type 0
Adds step =
    (lines : List String) × ((tables : Tables) → (step tables).v6_lines ≡ tables.v6_lines ++ lines)

then-Adds :
    (first second : Tables → Tables) → Adds first → Adds second → Adds (λ t. second (first t))
then-Adds first second (xs, f) (ys, s) =
    (xs ++ ys, λ t. s (first t) ∙ (ap (λ l. l ++ ys) (f t) ∙ append_assoc t.v6_lines xs ys))

nothing-Adds : Adds (λ t. t)
nothing-Adds = ([], λ t. sym (append-nil t.v6_lines))

put_lines-Adds : (b : Bool) (lines : List String) → Adds (put_lines b lines)
unfolding put_lines
put_lines-Adds true lines = (lines, λ t. refl)
put_lines-Adds false lines = ([], λ t. sym (append-nil t.v6_lines))

module _ (ip : IpText) (ir : FirewallIr) where
  services-Adds :
      (rule : PolicyIr) (src dst : String) (services : List ServiceIr)
      → Adds (put_services ip ir rule src dst services)
  unfolding put_services
  services-Adds rule src dst [] = nothing-Adds
  services-Adds rule src dst (service ∷ services) =
      then-Adds (put_lines (is_ipv6 ip src || is_ipv6 ip dst) _)
        (put_services ip ir rule src dst services) (put_lines-Adds _ _)
        (services-Adds rule src dst services)

  destinations-Adds :
      (rule : PolicyIr) (src : String) (dsts : List String)
      → Adds (put_destinations ip ir rule src dsts)
  unfolding put_destinations
  destinations-Adds rule src [] = nothing-Adds
  destinations-Adds rule src (dst ∷ dsts) =
      then-Adds (put_services ip ir rule src dst (service_values ir rule.services))
        (put_destinations ip ir rule src dsts)
        (services-Adds rule src dst (service_values ir rule.services))
        (destinations-Adds rule src dsts)

  sources-Adds :
      (rule : PolicyIr) (dsts srcs : List String) → Adds (put_sources ip ir rule dsts srcs)
  unfolding put_sources
  sources-Adds rule dsts [] = nothing-Adds
  sources-Adds rule dsts (src ∷ srcs) =
      then-Adds (put_destinations ip ir rule src dsts) (put_sources ip ir rule dsts srcs)
        (destinations-Adds rule src dsts) (sources-Adds rule dsts srcs)

  rule-Adds : (rule : PolicyIr) → Adds (put_rule ip ir rule)
  unfolding put_rule
  rule-Adds rule = elim (Bool-cases rule.enabled) [
    | inl e ↦
        rw e
          (sources-Adds rule (address_values ir rule.destination) (address_values ir rule.source))
    | inr e ↦ rw e (put_lines-Adds false (text (rule_comment rule ∷ " disabled" ∷ []) ∷ []))
  ]

  rules-Adds : (rules : List PolicyIr) → Adds (put_rules ip ir rules)
  unfolding put_rules
  rules-Adds [] = nothing-Adds
  rules-Adds (rule ∷ rules) =
      then-Adds (put_rule ip ir rule) (put_rules ip ir rules) (rule-Adds rule) (rules-Adds rules)

  rules_without :
      (before : List PolicyIr) (rule : PolicyIr) (after : List PolicyIr) (tables : Tables)
      → any (is_ipv6 ip) (address_values ir rule.source) ≡ false
      → any (is_ipv6 ip) (address_values ir rule.destination) ≡ false
      → (put_rules ip ir (before ++ rule ∷ after) tables).v6_lines
        ≡ (put_rules ip ir (before ++ after) tables).v6_lines
  unfolding put_rules
  rules_without [] rule after tables h k =
      let (lines, adds) = rules-Adds after in
      adds (put_rule ip ir rule tables)
      ∙ (ap (λ l. l ++ lines) (rule_keeps ip ir rule tables h k) ∙ sym (adds tables))
  rules_without (first ∷ before) rule after tables h k =
      rules_without before rule after (put_rule ip ir first tables) h k

  -- A rule without an IPv6 value among its sources and destinations, be it a deny rule from any to
  -- any in front of all others, can be taken out without a change to the lines for ip6tables.
  pub tables_of_without :
      (before : List PolicyIr) (rule : PolicyIr) (after : List PolicyIr)
      → any (is_ipv6 ip) (address_values ir rule.source) ≡ false
      → any (is_ipv6 ip) (address_values ir rule.destination) ≡ false
      → (tables_of ip ir (before ++ rule ∷ after)).v6_lines
        ≡ (tables_of ip ir (before ++ after)).v6_lines
  tables_of_without before rule after h k =
      rules_without before rule after (record { v4_lines = header_lines; v6_lines = header_lines })
        h k
