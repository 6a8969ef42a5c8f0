-- ===== src/Analyzers/ShadowRules/Addresses.antt =====
-- The address tests of py2fw/analyzers/shadow_rules.py against the evaluation engine.
use py2fw.Common.{
  ◌≤◌, String, ◌≡◌, refl, ◌∙◌, sym, true, ◌||◌, List, [], ◌∷◌, any, all, String_eq, arith,
  Bool-cases, inl, inr,
}
use py2fw.IpAddress
use py2fw.IpAddress.{
  Address, Network, IpText, v4, v6, Version_eq, any_v4, any_v6, broadcast_address,
}
use py2fw.Engine.Evaluate.{addr_contains}
use py2fw.Engine.Evaluate.Loops.{value_contains, addr_contains-any}
use py2fw.Analyzers.ShadowRules.{networks, is_subnet, covers_addresses}

-- The whole space of an address's version.
abbrev pub whole : Address → Network
whole t = elim t.version [ v4 ↦ any_v4 | v6 ↦ any_v6 ]

-- The number of an address fits its version.
abbrev pub IsAddress : Address → Type 0
IsAddress t = t.number ≤ broadcast_address (whole t)

any_holds :
    (t : Address)
    → IsAddress t
    → (IpAddress.contains any_v4 t || IpAddress.contains any_v6 t) ≡ true
any_holds t h = ground (arith, h)

-- The networks of the values hold exactly the addresses that the engine finds in the values.
pub networks_hold :
    (ip : IpText) (values : List String) (t : Address)
    → IsAddress t
    → any (value_contains ip t) values ≡ any (λ n. IpAddress.contains n t) (networks ip values)
unfolding networks
networks_hold ip [] t h = refl
networks_hold ip (value ∷ values) t h = ground (arith, any_holds t h, networks_hold ip values t h)

subnet_holds :
    (inner outer : Network) (t : Address)
    → is_subnet inner outer ≡ true
    → IpAddress.contains inner t ≡ true
    → IpAddress.contains outer t ≡ true
subnet_holds inner outer t s h = ground (
  arith,
  IpAddress.version_beq_iff inner.version outer.version,
  IpAddress.version_beq_iff t.version inner.version,
  IpAddress.version_beq_iff t.version outer.version,
)

any_outer :
    (inner : Network) (outers : List Network) (t : Address)
    → any (λ o. is_subnet inner o) outers ≡ true
    → IpAddress.contains inner t ≡ true
    → any (λ n. IpAddress.contains n t) outers ≡ true
any_outer inner [] t s h = cc
any_outer inner (o ∷ outers) t s h = elim (Bool-cases (is_subnet inner o)) [
  | inl here ↦ ground (arith, subnet_holds inner o t here h)
  | inr there ↦ ground (arith, any_outer inner outers t)
]

all_inner :
    (inners outers : List Network) (t : Address)
    → all (λ i. any (λ o. is_subnet i o) outers) inners ≡ true
    → any (λ n. IpAddress.contains n t) inners ≡ true
    → any (λ n. IpAddress.contains n t) outers ≡ true
all_inner [] outers t s h = cc
all_inner (i ∷ inners) outers t s h = elim (Bool-cases (IpAddress.contains i t)) [
  | inl here ↦ any_outer i outers t (ground (arith, s)) here
  | inr there ↦ all_inner inners outers t (ground (arith, s)) (ground (arith, h, there))
]

-- When the analyzer finds the inner values covered by the outer ones, the engine finds every
-- address of the inner values in the outer ones.
pub covers_addresses_sound :
    (ip : IpText) (outer inner : List String) (t : Address)
    → IsAddress t
    → covers_addresses ip outer inner ≡ true
    → addr_contains ip inner t ≡ true
    → addr_contains ip outer t ≡ true
unfolding covers_addresses
covers_addresses_sound ip outer inner t fits c h =
    rw (addr_contains-any ip outer t, networks_hold ip outer t fits)
      (all_inner (networks ip inner) (networks ip outer) t (ground (arith, c))
        (sym (networks_hold ip inner t fits) ∙ (sym (addr_contains-any ip inner t) ∙ h)))
