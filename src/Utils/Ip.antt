-- ===== src/Utils/Ip.antt =====
-- py2fw/utils/ip.py
use py2fw.Common.{
  ℕ, suc, String, Bool, true, false, not, ◌&&◌, ◌||◌, none, some, List, [], ◌∷◌, elem, is_none, leb,
  if◌then◌else◌, ◌==◌, ℕ_eq, String_eq, list_eq,
}
use py2fw.IpAddress.{IpText, v6, Version_eq}
use py2fw.Utils.Digits.{codes, has_char, is_digit}

unfoldable pub is_any : IpText → String → Bool
is_any ip value = elem (ip.lower value) ("any" ∷ "0.0.0.0/0" ∷ "::/0" ∷ [])

unfoldable pub is_valid_ip_or_cidr : IpText → String → Bool
unfolding is_any
is_valid_ip_or_cidr ip value = is_any ip value || not (is_none (ip.ip_network value))

unfoldable pub has_host_bits : IpText → String → Bool
unfolding is_any is_valid_ip_or_cidr has_char
has_host_bits ip value =
    if not (has_char b'/' value) || is_any ip value
    then false
    else elim (ip.ip_network_strict value) [
      | none ↦ is_valid_ip_or_cidr ip value
      | some network ↦ false
    ]

unfoldable pub is_ipv6 : IpText → String → Bool
is_ipv6 ip value = elim (ip.ip_network value) [ none ↦ false | some n ↦ n.version == v6 ]

-- `[A-Za-z0-9-]`
label_char : ℕ → Bool
label_char c = (leb b'A' c && leb c b'Z') || (leb b'a' c && leb c b'z') || is_digit c || c == b'-'

-- `HOSTNAME_RE` from within a label with `size` characters so far, the first label or a later
-- one, where `hyphen` says whether its last character was a hyphen. A first label may not end
-- in one. `$` also stands before a newline at the end.
hostname_tail : Bool → ℕ → Bool → List ℕ → Bool
hostname_tail first size hyphen [] = leb 1 size && leb size 63 && not (first && hyphen)
hostname_tail first size hyphen (c ∷ rest) =
    let closes = leb 1 size && leb size 63 && not (first && hyphen) in
    let next_label = hostname_tail false 0 false rest in
    let longer = hostname_tail first (suc size) (c == b'-') rest in
    if c == b'.'
    then closes && next_label
    else if c == 10
    then closes && (rest == [])
    else label_char c && longer

-- `(?=.{1,253}$)`: the characters before the end or before a newline there
line_length : List ℕ → ℕ
line_length [] = 0
line_length (c ∷ rest) = let more = line_length rest in if c == 10 then 0 else suc more

-- `bool(HOSTNAME_RE.match(value))`
unfoldable pub hostname_re : String → Bool
unfolding label_char hostname_tail line_length
hostname_re value =
    leb 1 (line_length (codes value))
    && leb (line_length (codes value)) 253
    && (elim (codes value) [
      | [] ↦ false
      | c ∷ rest ↦ not (c == b'-') && hostname_tail true 0 false (c ∷ rest)
    ])

unfoldable pub is_valid_hostname : IpText → String → Bool
unfolding hostname_re is_valid_ip_or_cidr
is_valid_hostname ip value = hostname_re value && not (is_valid_ip_or_cidr ip value)

unfoldable pub is_valid_endpoint : IpText → String → Bool
unfolding is_valid_ip_or_cidr is_valid_hostname
is_valid_endpoint ip value = is_valid_ip_or_cidr ip value || is_valid_hostname ip value

abbrev pub is_hostname : IpText → String → Bool
is_hostname ip value = is_valid_hostname ip value

unfoldable pub normalize_network : IpText → String → String
unfolding is_any
normalize_network ip value =
    if is_any ip value
    then "any"
    else elim (ip.ip_network value) [ none ↦ ip.lower value | some n ↦ ip.str_network n ]
