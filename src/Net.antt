-- ===== src/Net.antt =====
-- The standard library's addresses, as the program uses them (src/ingress.rs, src/upstream.rs,
-- src/protection.rs): the octets of an `Ipv4Addr` or `Ipv6Addr`, and an IPv4-mapped IPv6 address
-- taken to its IPv4 form.
use symphony.Prelude.{
  length, take, drop, length-drop, Bytes, eq_bytes, if◌then◌else◌, Option-cases, ℕ, ◌≡◌, inl, inr,
  Option, none, some, [], ◌∷◌, arith,
}

-- Octets, four for `v4` and sixteen for `v6`.
pub data IpAddr : Type 0 where
  v4 : Bytes → IpAddr
  v6 : Bytes → IpAddr

pub record SocketAddr : Type 0 where
  pub ip : IpAddr
  pub port : ℕ

-- ::ffff:0:0/96
abbrev pub mapped_prefix : Bytes
mapped_prefix = 0 ∷ 0 ∷ 0 ∷ 0 ∷ 0 ∷ 0 ∷ 0 ∷ 0 ∷ 0 ∷ 0 ∷ 255 ∷ 255 ∷ []

-- `Ipv6Addr::to_ipv4_mapped`
unfoldable pub to_ipv4_mapped : Bytes → Option Bytes
to_ipv4_mapped octets =
    if eq_bytes (take 12 octets) mapped_prefix then some (drop 12 octets) else none

-- `IpAddr::to_canonical`
unfoldable pub to_canonical : IpAddr → IpAddr
to_canonical (v4 octets) = v4 octets
to_canonical (v6 octets) = elim (to_ipv4_mapped octets) [ some four ↦ v4 four | none ↦ v6 octets ]

abbrev pub IsIp : IpAddr → Type 0
IsIp (v4 octets) = length octets ≡ 4
IsIp (v6 octets) = length octets ≡ 16

pub length-to_ipv4_mapped : (o q : Bytes) → length o ≡ 16 → to_ipv4_mapped o ≡ some q → length q ≡ 4
unfolding to_ipv4_mapped
length-to_ipv4_mapped o q h e = ground (arith, length-drop 12 o)

pub to_canonical-IsIp : (ip : IpAddr) → IsIp ip → IsIp (to_canonical ip)
unfolding to_canonical
to_canonical-IsIp (v4 o) h = h
to_canonical-IsIp (v6 o) h = elim (Option-cases (to_ipv4_mapped o)) [
  | inl e ↦ rw (e, to_canonical) h
  | inr (q, e) ↦ rw (e, to_canonical) (length-to_ipv4_mapped o q h e)
]

pub to_canonical-v6 :
    (octets : Bytes) → to_ipv4_mapped octets ≡ none → to_canonical (v6 octets) ≡ v6 octets
unfolding to_canonical
to_canonical-v6 octets h = rw (h, to_canonical)
