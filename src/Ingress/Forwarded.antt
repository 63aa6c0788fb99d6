-- ===== src/Ingress/Forwarded.antt =====
-- src/ingress.rs: a forwarded connection's header, read from the parts that it is written from.
use symphony.Prelude.{
  length, get_or, take, length-append, take-length, get_or-append_ge, Bytes, be16, u16_of-be16, ok,
  ℕ, ◌+◌, ◌-◌, ◌≤◌, ◌<◌, ◌≡◌, refl, ◌∙◌, subst, ◌⊎◌, Bool, none, ◌∷◌, ◌++◌, append_assoc, arith,
}
use symphony.Net.{SocketAddr, v4, v6, to_ipv4_mapped, to_canonical-v6}
use symphony.Ingress.{
  proxy_command, signature, proxy, parse_fixed, proxy_length, parse_source, read_payload,
  read_proxy_v2, max_payload,
}
use symphony.Ingress.Reading.{stream, read_exact-append, discard-append}
use symphony.Ingress.Exactness.{proxy_addresses}

-- The ports stand behind two addresses of one size.
module _ (src dst ports : Bytes) (n : ℕ) (hs : length src ≡ n) (hd : length dst ≡ n) where
  port_behind : (i : ℕ) → get_or (src ++ (dst ++ ports)) (n + (n + i)) 0 ≡ get_or ports i 0
  port_behind i =
      subst (λ k. get_or (src ++ (dst ++ ports)) (k + (n + i)) 0 ≡ get_or ports i 0) hs
        (get_or-append_ge src (dst ++ ports) (n + i) 0
          ∙ subst (λ k. get_or (dst ++ ports) (k + i) 0 ≡ get_or ports i 0) hd
              (get_or-append_ge dst ports i 0))

  pub length-addresses : length (src ++ (dst ++ ports)) ≡ n + (n + length ports)
  length-addresses = omega (arith, length-append src (dst ++ ports), length-append dst ports)

  take_source : take n (src ++ (dst ++ ports)) ≡ src
  take_source =
      subst (λ k. take k (src ++ (dst ++ ports)) ≡ src) hs (take-length src (dst ++ ports))

abbrev pub ports : ℕ → ℕ → Bytes
ports src_port dst_port = be16 src_port ++ be16 dst_port

module _ (src dst : Bytes) (src_port dst_port : ℕ) (hp : src_port < 65536) where
  pub parse_source-v4 :
      length src ≡ 4
      → length dst ≡ 4
      → parse_source 0x11 (src ++ (dst ++ ports src_port dst_port))
        ≡ ok (record { ip = v4 src; port = src_port })
  unfolding parse_source
  parse_source-v4 hs hd =
      let both = ports src_port dst_port in
      rw (
        port_behind src dst both 4 hs hd 0,
        port_behind src dst both 4 hs hd 1,
        take_source src dst both 4 hs hd,
        u16_of-be16 src_port hp,
      )

  pub parse_source-v6 :
      length src ≡ 16
      → length dst ≡ 16
      → to_ipv4_mapped src ≡ none
      → parse_source 0x21 (src ++ (dst ++ ports src_port dst_port))
        ≡ ok (record { ip = v6 src; port = src_port })
  unfolding parse_source
  parse_source-v6 hs hd unmapped =
      let both = ports src_port dst_port in
      rw (
        port_behind src dst both 16 hs hd 0,
        port_behind src dst both 16 hs hd 1,
        take_source src dst both 16 hs hd,
        u16_of-be16 src_port hp,
        to_canonical-v6 src unmapped,
      )

-- A PROXY v2 header with the PROXY command.
abbrev pub proxy_header : ℕ → Bytes → Bytes → Bytes
proxy_header family addresses block =
    signature ++ (0x21 ∷ family ∷ (be16 (length addresses + length block) ++ (addresses ++ block)))

abbrev proxy_fixed : ℕ → ℕ → Bytes
proxy_fixed family len = signature ++ (0x21 ∷ family ∷ be16 len)

parse_fixed-proxy_fixed :
    (family len : ℕ)
    → (family ≡ 0x11) ⊎ (family ≡ 0x21)
    → proxy_addresses family ≤ len
    → len ≤ max_payload
    → parse_fixed (proxy_fixed family len) ≡ ok (proxy_command len)
unfolding parse_fixed proxy_length
parse_fixed-proxy_fixed family len f lo hi = rw (u16_of-be16 len (omega arith)) (ground arith)

-- The reader takes a header apart into the parts that it was put together from, as long as the
-- parts behind the fixed bytes stay within 512 bytes.
pub read_proxy_v2-proxy_header :
    (family : ℕ) (addresses block rest : Bytes) (closed : Bool) (source : SocketAddr)
    → (family ≡ 0x11) ⊎ (family ≡ 0x21)
    → length addresses ≡ proxy_addresses family
    → length addresses + length block ≤ max_payload
    → parse_source family addresses ≡ ok source
    → read_proxy_v2 (stream (proxy_header family addresses block ++ rest) closed)
      ≡ ok (proxy source, stream rest closed)
unfolding read_proxy_v2 read_payload
read_proxy_v2-proxy_header family addresses block rest closed source f size small parsed =
    let len = length addresses + length block in
    let m = len - proxy_addresses family in
    rw (
      read_exact-append 16 (proxy_fixed family len) ((addresses ++ block) ++ rest) closed refl,
      parse_fixed-proxy_fixed family len f (omega arith) small,
      append_assoc addresses block rest,
      read_exact-append (proxy_addresses family) addresses (block ++ rest) closed size,
      discard-append m m block rest closed (omega arith) (omega arith),
      parsed,
    )
