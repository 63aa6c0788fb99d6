-- ===== src/Upstream/Tests.antt =====
-- src/upstream.rs: headers written for concrete addresses, and the theorems applied to them.
use symphony.Prelude.{
  length, drop, Bytes, ok, ℕ, ◌+◌, ◌≡◌, refl, false, none, List, [], ◌∷◌, ◌++◌, arith,
}
use symphony.Net.{SocketAddr, v6, mapped_prefix, to_ipv4_mapped, to_canonical}
use symphony.Ingress.{proxy, read_proxy_v2}
use symphony.Ingress.Exactness.{declared}
use symphony.Ingress.Reading.{stream}
use symphony.Upstream.{tlv_block, write_proxy_v2_header}
use symphony.Upstream.HeaderRoundTrip.{read_proxy_v2-write_proxy_v2_header}
use symphony.Upstream.Framing.{Framed, present, write_proxy_v2_header-Framed}

program : Unit {0}
unfolding to_ipv4_mapped to_canonical write_proxy_v2_header tlv_block
program = tt

-- ::ffff:10.1.2.3, port 443
abbrev client : SocketAddr
client = record { ip = v6 (mapped_prefix ++ (10 ∷ 1 ∷ 2 ∷ 3 ∷ [])); port = 443 }

-- A JA3 TLV with a value and a JA4 TLV without one.
abbrev tlvs : List (ℕ × Bytes)
tlvs = (0xE0, b'a' ∷ b'b' ∷ []) ∷ (0xE1, []) ∷ []

abbrev written : Bytes
written =
    0x0D ∷ 0x0A ∷ 0x0D ∷ 0x0A ∷ 0x00 ∷ 0x0D ∷ 0x0A ∷ 0x51 ∷ 0x55 ∷ 0x49 ∷ 0x54 ∷ 0x0A ∷ 0x21 ∷ 0x11
    ∷ 0 ∷ 17 ∷ 10 ∷ 1 ∷ 2 ∷ 3 ∷ 127 ∷ 0 ∷ 0 ∷ 1 ∷ 1 ∷ 187 ∷ 0 ∷ 0 ∷ 0xE0 ∷ 0 ∷ 2 ∷ b'a' ∷ b'b' ∷ []

header_is_written : write_proxy_v2_header client none tlvs ≡ ok written
unfolding program
header_is_written = refl

read_proxy_v2-write_proxy_v2_header_example :
    read_proxy_v2 (stream (written ++ (0x16 ∷ [])) false)
    ≡ ok (proxy (record { ip = to_canonical client.ip; port = 443 }), stream (0x16 ∷ []) false)
read_proxy_v2-write_proxy_v2_header_example =
    read_proxy_v2-write_proxy_v2_header client none tlvs (0x16 ∷ []) false (refl, omega arith) tt
      header_is_written (omega arith)

write_proxy_v2_header-Framed_example :
    (length written ≡ 16 + declared written)
    × ((addresses block : Bytes) × (drop 16 written ≡ addresses ++ block)
        × Framed block (present tlvs))
write_proxy_v2_header-Framed_example =
    write_proxy_v2_header-Framed client none tlvs header_is_written
