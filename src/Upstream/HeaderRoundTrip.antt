-- ===== src/Upstream/HeaderRoundTrip.antt =====
-- src/upstream.rs against src/ingress.rs: what an ingress listener reads from a written header.
use symphony.Prelude.{
  length, length-append, Bytes, bind-eq-ok, ok, Option-cases, ℕ, ◌+◌, ◌≤◌, ◌<◌, ◌≡◌, refl, ap, inl,
  inr, Bool, Option, none, some, List, ◌++◌, arith,
}
use mathlib.Core.Option
use symphony.Net.{
  IpAddr, SocketAddr, v4, v6, to_ipv4_mapped, to_canonical, IsIp, length-to_ipv4_mapped,
}
use symphony.Ingress.{proxy, read_proxy_v2, max_payload}
use symphony.Ingress.Reading.{stream}
use symphony.Ingress.Forwarded.{
  ports, proxy_header, parse_source-v4, parse_source-v6, length-addresses,
  read_proxy_v2-proxy_header,
}
use symphony.Upstream.{
  V2Addr, V4, V6, normalize_v2_addr, destination_v4, destination_v6, address_block, dst_port,
  tlv_block, write_proxy_v2_header,
}

-- Octets of a normalised address; a `V6` is not an IPv4-mapped one.
abbrev IsNormal : V2Addr → Type 0
IsNormal (V4 octets) = length octets ≡ 4
IsNormal (V6 octets) = (length octets ≡ 16) × (to_ipv4_mapped octets ≡ none)

abbrev as_ip : V2Addr → IpAddr
as_ip (V4 octets) = v4 octets
as_ip (V6 octets) = v6 octets

normalize_v2_addr-IsNormal :
    (ip : IpAddr)
    → IsIp ip
    → IsNormal (normalize_v2_addr ip) × (as_ip (normalize_v2_addr ip) ≡ to_canonical ip)
unfolding normalize_v2_addr to_canonical
normalize_v2_addr-IsNormal (v4 o) h = (h, refl)
normalize_v2_addr-IsNormal (v6 o) h = elim (Option-cases (to_ipv4_mapped o)) [
  | inl e ↦ rw (e, normalize_v2_addr, to_canonical) ((h, e), refl)
  | inr (q, e) ↦ rw (e, normalize_v2_addr, to_canonical) (length-to_ipv4_mapped o q h e, refl)
]

abbrev AllNormal : Option V2Addr → Type 0
AllNormal none = Unit {0}
AllNormal (some a) = IsNormal a

length-destination_v4 : (dst : Option V2Addr) → AllNormal dst → length (destination_v4 dst) ≡ 4
unfolding destination_v4
length-destination_v4 none h = refl
length-destination_v4 (some (V4 o)) h = h
length-destination_v4 (some (V6 o)) h = refl

length-destination_v6 : (dst : Option V2Addr) → AllNormal dst → length (destination_v6 dst) ≡ 16
unfolding destination_v6
length-destination_v6 none h = refl
length-destination_v6 (some (V4 o)) h = refl
length-destination_v6 (some (V6 o)) h = h.0

-- The address block of a normal source, with the address that the reader makes of it.
module _ (dst : Option V2Addr) (src_port dst_port : ℕ) (hd : AllNormal dst)
    (hp : src_port < 65536) where
  abbrev block_of : V2Addr → ℕ × Bytes
  block_of src = address_block src dst src_port dst_port

  read_address_block :
      (src : V2Addr) (block rest : Bytes) (closed : Bool)
      → IsNormal src
      → length (block_of src).1 + length block ≤ max_payload
      → read_proxy_v2 (stream (proxy_header (block_of src).0 (block_of src).1 block ++ rest) closed)
        ≡ ok (proxy (record { ip = as_ip src; port = src_port }), stream rest closed)
  unfolding address_block
  read_address_block (V4 o) block rest closed h small =
      let to = destination_v4 dst in
      let size = length-destination_v4 dst hd in
      read_proxy_v2-proxy_header 0x11 (o ++ (to ++ ports src_port dst_port)) block rest closed _
        (inl refl) (length-addresses o to (ports src_port dst_port) 4 h size) small
        (parse_source-v4 o to src_port dst_port hp h size)
  read_address_block (V6 o) block rest closed h small =
      let to = destination_v6 dst in
      let size = length-destination_v6 dst hd in
      read_proxy_v2-proxy_header 0x21 (o ++ (to ++ ports src_port dst_port)) block rest closed _
        (inr refl) (length-addresses o to (ports src_port dst_port) 16 h.0 size) small
        (parse_source-v6 o to src_port dst_port hp h.0 size h.1)

-- A well-formed socket address.
abbrev pub IsSocketAddr : SocketAddr → Type 0
IsSocketAddr a = IsIp a.ip × (a.port < 65536)

abbrev pub AllSocketAddr : Option SocketAddr → Type 0
AllSocketAddr none = Unit {0}
AllSocketAddr (some a) = IsSocketAddr a

abbrev pub destination : Option SocketAddr → Option V2Addr
destination = Option.map (λ (a : SocketAddr). normalize_v2_addr a.ip)

destination-AllNormal :
    (local_addr : Option SocketAddr) → AllSocketAddr local_addr → AllNormal (destination local_addr)
destination-AllNormal none h = tt
destination-AllNormal (some a) h = (normalize_v2_addr-IsNormal a.ip h.0).0

-- What a written header is made of.
pub write_proxy_v2_header-eq-ok :
    (peer : SocketAddr) (local_addr : Option SocketAddr) (tlvs : List (ℕ × Bytes)) {bytes : Bytes}
    → write_proxy_v2_header peer local_addr tlvs ≡ ok bytes
    → let (family, addresses) =
        address_block
          (normalize_v2_addr peer.ip)
          (destination local_addr)
          peer.port
          (dst_port local_addr) in
      (block : Bytes) × (tlv_block tlvs ≡ ok block)
      × (length addresses + length block ≤ 65535)
      × (bytes ≡ proxy_header family addresses block)
unfolding write_proxy_v2_header
write_proxy_v2_header-eq-ok peer local_addr tlvs h =
    let (block, e, k) = bind-eq-ok (tlv_block tlvs) _ h in (block, e, ground arith, ground arith)

-- Whatever header is written for a well-formed client address, with at most 512 bytes behind the
-- fixed ones, an ingress listener reads as a forwarded connection from that client: the same port,
-- and the same address with an IPv4-mapped one in its IPv4 form. The TLVs are read past, and the
-- bytes behind the header stay unread.
pub read_proxy_v2-write_proxy_v2_header :
    (peer : SocketAddr) (local_addr : Option SocketAddr) (tlvs : List (ℕ × Bytes)) (rest : Bytes)
    (closed : Bool) {bytes : Bytes}
    → IsSocketAddr peer
    → AllSocketAddr local_addr
    → write_proxy_v2_header peer local_addr tlvs ≡ ok bytes
    → length bytes ≤ 16 + max_payload
    → read_proxy_v2 (stream (bytes ++ rest) closed)
      ≡ ok (proxy (record { ip = to_canonical peer.ip; port = peer.port }), stream rest closed)
read_proxy_v2-write_proxy_v2_header peer local_addr tlvs rest closed {bytes} hp hl written small =
    let (block, _, _, e) = write_proxy_v2_header-eq-ok peer local_addr tlvs written in
    let normal = normalize_v2_addr-IsNormal peer.ip hp.0 in
    let src = normalize_v2_addr peer.ip in
    let (family, addresses) =
      address_block src (destination local_addr) peer.port (dst_port local_addr) in
    let fits : length addresses + length block ≤ max_payload =
      omega (arith, ap (length {A = ℕ}) e, length-append addresses block) in
    rw (e, ← normal.1)
      (read_address_block (destination local_addr) peer.port (dst_port local_addr)
        (destination-AllNormal local_addr hl) hp.1 src block rest closed normal.0 fits)
