-- ===== src/Ingress/Tests.antt =====
-- src/ingress.rs: runs of the header reader at concrete input, and the theorems applied to it.
use symphony.Prelude.{
  length, take, Bytes, ok, err, ◌≤◌, ◌≡◌, refl, inl, true, false, none, some, [], ◌∷◌, ◌++◌, map,
  arith,
}
use symphony.Utf8.{is_utf8}
use symphony.Ingress.{
  proxy_command, load_query, timeout, local, v1, encode_load_query, parse_fixed, read_proxy_v2,
  valid_name, parse_load_query, parse_source, read_exact, discard, proxy,
}
use symphony.Net.{v4}
use symphony.Ingress.Reading.{stream}
use symphony.Ingress.Query.{read_proxy_v2-encode_load_query, heard}
use symphony.Ingress.Exactness.{read_proxy_v2-eq-ok, read_proxy_v2-starved, advanced}
use symphony.Ingress.Forwarded.{proxy_header, read_proxy_v2-proxy_header}

program : Unit {0}
unfolding is_utf8 encode_load_query read_proxy_v2 parse_fixed parse_load_query parse_source
    read_exact discard valid_name
program = tt

-- "a.io"
abbrev name : Bytes
name = b'a' ∷ b'.' ∷ b'i' ∷ b'o' ∷ []

abbrev tls : Bytes
tls = 0x16 ∷ 0x03 ∷ []

query_is_read :
    read_proxy_v2 (stream (encode_load_query (name ∷ [] ∷ []) ++ tls) false)
    ≡ ok (load_query (some name ∷ none ∷ []), stream tls false)
unfolding program
query_is_read = refl

v1_is_refused :
    read_proxy_v2 (
      stream
        (b'P' ∷ b'R' ∷ b'O' ∷ b'X' ∷ b'Y' ∷ b' ' ∷ b'T' ∷ b'C' ∷ b'P' ∷ b'4' ∷ b' ' ∷ b'1' ∷ b'.'
          ∷ b'1' ∷ b'.' ∷ b'1' ∷ [])
        false)
    ≡ err v1
unfolding program
v1_is_refused = refl

health_check_is_refused : read_proxy_v2 (stream (encode_load_query []) false) ≡ err local
unfolding program
health_check_is_refused = refl

-- From 192.0.2.7:4660, with one TLV behind the addresses.
abbrev addresses : Bytes
addresses = 192 ∷ 0 ∷ 2 ∷ 7 ∷ 127 ∷ 0 ∷ 0 ∷ 1 ∷ 0x12 ∷ 0x34 ∷ 0 ∷ 0 ∷ []

abbrev forwarded : Bytes
forwarded = proxy_header 0x11 addresses (0xE0 ∷ 0 ∷ 1 ∷ 9 ∷ [])

read_proxy_v2-encode_load_query_example :
    read_proxy_v2 (stream (encode_load_query (name ∷ [] ∷ []) ++ tls) true)
    ≡ ok (load_query (map heard (name ∷ [] ∷ [])), stream tls true)
unfolding program
read_proxy_v2-encode_load_query_example =
    read_proxy_v2-encode_load_query name ([] ∷ []) tls true (refl, (refl, tt)) (omega arith)

read_proxy_v2-proxy_header_example :
    read_proxy_v2 (stream (forwarded ++ tls) false)
    ≡ ok (proxy (record { ip = v4 (192 ∷ 0 ∷ 2 ∷ 7 ∷ []); port = 0x1234 }), stream tls false)
unfolding program
read_proxy_v2-proxy_header_example =
    read_proxy_v2-proxy_header 0x11 addresses (0xE0 ∷ 0 ∷ 1 ∷ 9 ∷ []) tls false
      (record { ip = v4 (192 ∷ 0 ∷ 2 ∷ 7 ∷ []); port = 0x1234 }) (inl refl) refl (omega arith) refl

read_proxy_v2-eq-ok_example :
    (32 ≤ length (forwarded ++ tls))
    × (stream tls false ≡ advanced 32 (stream (forwarded ++ tls) false))
unfolding program
read_proxy_v2-eq-ok_example =
    read_proxy_v2-eq-ok (stream (forwarded ++ tls) false)
      (proxy (record { ip = v4 (192 ∷ 0 ∷ 2 ∷ 7 ∷ []); port = 0x1234 })) (stream tls false) refl

read_proxy_v2-starved_example : read_proxy_v2 (stream (take 31 forwarded) false) ≡ err timeout
unfolding program
read_proxy_v2-starved_example =
    read_proxy_v2-starved (take 31 forwarded) false (proxy_command 16) refl (omega arith)
