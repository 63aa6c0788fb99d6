-- ===== src/Upstream.antt =====
-- src/upstream.rs: the PROXY v2 header that is written to an upstream in front of a connection.
-- The bytes handed to `write_all` are the result; writing them is I/O.
pub mod HeaderRoundTrip
pub mod Framing
mod Tests
use symphony.Prelude.{
  length, Bytes, be16, Result, ◌>>=◌, ok, err, ltb, if◌then◌else◌, ℕ, ◌+◌, Option, none, some, List,
  [], ◌∷◌, ◌++◌, map,
}
use symphony.Net.{IpAddr, SocketAddr, v4, v6, to_ipv4_mapped}
use mathlib.Core.Option
use symphony.Ingress.{signature}

-- `std::io::Error` of kind `InvalidInput`, by its message
pub data WriteError : Type 0 where
  tlv_too_long header_too_long : WriteError

pub data V2Addr : Type 0 where
  V4 : Bytes → V2Addr
  V6 : Bytes → V2Addr

pub normalize_v2_addr : IpAddr → V2Addr
normalize_v2_addr (v4 octets) = V4 octets
normalize_v2_addr (v6 octets) = elim (to_ipv4_mapped octets) [
  | some four ↦ V4 four
  | none ↦ V6 octets
]

abbrev pub localhost_v4 : Bytes
localhost_v4 = 127 ∷ 0 ∷ 0 ∷ 1 ∷ []

-- `Ipv6Addr::LOCALHOST`
abbrev pub localhost_v6 : Bytes
localhost_v6 = 0 ∷ 0 ∷ 0 ∷ 0 ∷ 0 ∷ 0 ∷ 0 ∷ 0 ∷ 0 ∷ 0 ∷ 0 ∷ 0 ∷ 0 ∷ 0 ∷ 0 ∷ 1 ∷ []

-- The destination address, in the family of the source.
destination_v4 : Option V2Addr → Bytes
destination_v4 (some (V4 ip)) = ip
destination_v4 (some (V6 ip)) = localhost_v4
destination_v4 none = localhost_v4

destination_v6 : Option V2Addr → Bytes
destination_v6 (some (V6 ip)) = ip
destination_v6 (some (V4 ip)) = localhost_v6
destination_v6 none = localhost_v6

-- The family byte and the address block.
pub address_block : V2Addr → Option V2Addr → ℕ → ℕ → ℕ × Bytes
address_block (V4 src) dst src_port dst_port =
    (0x11, src ++ (destination_v4 dst ++ (be16 src_port ++ be16 dst_port)))
address_block (V6 src) dst src_port dst_port =
    (0x21, src ++ (destination_v6 dst ++ (be16 src_port ++ be16 dst_port)))

-- The TLV section; the first value that is too long ends it.
pub tlv_block : List (ℕ × Bytes) → Result WriteError Bytes
tlv_block [] = ok []
tlv_block ((ty, []) ∷ tlvs) = tlv_block tlvs
tlv_block ((ty, b ∷ bytes) ∷ tlvs) =
    let further =
      tlv_block tlvs >>= λ block. ok (ty ∷ (be16 (length (b ∷ bytes)) ++ ((b ∷ bytes) ++ block))) in
    if ltb 65535 (length (b ∷ bytes)) then err tlv_too_long else further

pub dst_port : Option SocketAddr → ℕ
dst_port none = 0
dst_port (some a) = a.port

pub write_proxy_v2_header :
    SocketAddr → Option SocketAddr → List (ℕ × Bytes) → Result WriteError Bytes
unfolding normalize_v2_addr address_block destination_v4 destination_v6 dst_port
write_proxy_v2_header peer_addr local_addr tlvs =
    let dst = Option.map (λ (a : SocketAddr). normalize_v2_addr a.ip) local_addr in
    let (family, addresses) =
      address_block (normalize_v2_addr peer_addr.ip) dst peer_addr.port (dst_port local_addr) in
    tlv_block tlvs >>= λ block.
    let len = length addresses + length block in
    if ltb 65535 len
    then err header_too_long
    else ok (signature ++ (0x21 ∷ family ∷ (be16 len ++ (addresses ++ block))))
