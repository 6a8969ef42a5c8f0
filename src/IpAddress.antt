-- ===== src/IpAddress.antt =====
-- What the program uses of Python's module ipaddress: the two classes of networks and addresses
-- by their documented attributes. The text syntax and the registry of private networks are a
-- parameter, `IpText`.
use Prim.Native.Nat.{◌^◌}
use py2fw.Common.{
  ℕ, ◌+◌, ◌-◌, String, Bool, true, false, ◌&&◌, ◌||◌, Option, leb, Eq, ◌==◌, ℕ_eq, ◌≡◌, ◌↔◌, arith,
}
use py2fw.Utils.Digits.{Numerals}

pub data Version : Type 0 where
  v4 v6 : Version

abbrev pub version_beq : Version → Version → Bool
version_beq v4 v4 = true
version_beq v6 v6 = true
version_beq _ _ = false

pub version_beq_iff : (a b : Version) → (version_beq a b ≡ true) ↔ (a ≡ b)
version_beq_iff v4 v4 = ground arith
version_beq_iff v4 v6 = ground arith
version_beq_iff v6 v4 = ground arith
version_beq_iff v6 v6 = ground arith

instance abbrev pub Version_eq : Eq Version
Version_eq = record { equal = version_beq; equal_iff = version_beq_iff }

abbrev pub max_prefixlen : Version → ℕ
max_prefixlen v4 = 32
max_prefixlen v6 = 128

-- IPv4Address and IPv6Address.
pub record Address : Type 0 where
  pub version : Version
  pub number : ℕ

-- IPv4Network and IPv6Network.
pub record Network : Type 0 where
  pub version : Version
  pub network_address : ℕ
  pub prefixlen : ℕ

unfoldable pub num_addresses : Network → ℕ
num_addresses n = 2 ^ (max_prefixlen n.version - n.prefixlen)

unfoldable pub broadcast_address : Network → ℕ
unfolding num_addresses
broadcast_address n = n.network_address + num_addresses n - 1

-- `target.version == network.version and target in network`
abbrev pub contains : Network → Address → Bool
contains n t =
    t.version == n.version && (leb n.network_address t.number && leb t.number (broadcast_address n))

-- `inner.subnet_of(outer)`, for networks of one version.
abbrev pub subnet_of : Network → Network → Bool
subnet_of inner outer =
    leb outer.network_address inner.network_address
    && leb (broadcast_address inner) (broadcast_address outer)

abbrev pub holds : Network → ℕ → Bool
holds n number = leb n.network_address number && leb number (broadcast_address n)

-- `a.overlaps(b)`, for networks of one version.
abbrev pub overlaps : Network → Network → Bool
overlaps a b =
    holds a b.network_address
    || holds a (broadcast_address b)
    || holds b a.network_address
    || holds b (broadcast_address a)

-- `ip_network("0.0.0.0/0")` and `ip_network("::/0")`
abbrev pub any_v4 : Network
any_v4 = record { version = v4; network_address = 0; prefixlen = 0 }

abbrev pub any_v6 : Network
any_v6 = record { version = v6; network_address = 0; prefixlen = 0 }

-- The text syntax of addresses, and what else is taken from Python's texts; `none` is the
-- ValueError.
pub record IpText : Type 0 where
  -- `ip_network(value, strict=False)`
  pub ip_network : String → Option Network
  -- `ip_network(value)`
  pub ip_network_strict : String → Option Network
  pub ip_address : String → Option Address
  -- `str(network)` and `str(address)`
  pub str_network : Network → String
  pub str_address : Address → String
  -- the attribute is_private
  pub is_private : Network → Bool
  -- `value.lower()`
  pub lower : String → String
  pub numerals : Numerals
