-- ===== src/Sni/HelloRoundTrip.antt =====
-- src/sni.rs: a ClientHello, written as RFC 8446 lays it out, is read back.
use symphony.Prelude.{
  length, Bytes, be16, u16_of-be16, le→ltb, ℕ, ◌/◌, ◌%◌, ◌<◌, min, ◌≡◌, refl, some, [], ◌∷◌, ◌++◌,
  arith,
}
use symphony.Sni.Records.{wrap_as_record}
use symphony.Sni.Parser.{
  read_u8, read_u16, read_u24, skip-at, skip-append, read_bytes-append, read_bytes-all,
}
use symphony.Sni.Hello.{ClientHello, guard, read_extensions, parse_client_hello}

-- The fields of the message that the parser skips, and the two lists.
pub record Fields : Type 0 where
  pub random : Bytes
  pub session_id : Bytes
  pub compression : Bytes
  pub hello : ClientHello

-- Each fits the length field in front of it.
pub record IsFields (f : Fields) : Type 0 where
  pub random_sized : length f.random ≡ 32
  pub session_id_fits : length f.session_id < 256
  pub compression_fits : length f.compression < 256
  pub version_fits : f.hello.legacy_version < 65536
  pub suites_fit : length f.hello.cipher_suites < 65536
  pub extensions_fit : length f.hello.extensions < 65536

abbrev pub lists : Fields → Bytes
lists f =
    be16 (length f.hello.cipher_suites)
    ++ (f.hello.cipher_suites
        ++ (length f.compression
            ∷ (f.compression ++ (be16 (length f.hello.extensions) ++ f.hello.extensions))))

abbrev pub body : Fields → Bytes
body f =
    be16 f.hello.legacy_version ++ (f.random ++ (length f.session_id ∷ (f.session_id ++ lists f)))

-- msg_type(1) + length(3) + body
abbrev pub message : Fields → Bytes
message f = let n = length (body f) in 1 ∷ n / 65536 % 256 ∷ n / 256 % 256 ∷ n % 256 ∷ body f

read_extensions-be16 :
    (exts : Bytes) → length exts < 65536 → read_extensions (be16 (length exts) ++ exts) ≡ some exts
unfolding read_extensions read_u16
read_extensions-be16 exts h =
    rw
      (
        le→ltb (length (be16 (length exts) ++ exts)) 2 (omega arith),
        u16_of-be16 (length exts) h,
        min_self (length exts),
        read_bytes-all exts,
      )
      refl
  where
    min_self : (n : ℕ) → min n n ≡ n
    min_self n = omega arith

-- A ClientHello whose fields fit is read back from the record that reassembly makes of it: its
-- version, its cipher suites and its extensions.
pub parse_client_hello-message :
    (f : Fields) → IsFields f → parse_client_hello (wrap_as_record (message f)) ≡ some f.hello
unfolding wrap_as_record parse_client_hello read_u8 read_u16 read_u24 guard
parse_client_hello-message f h =
    rw
      (
        skip-append (3 ∷ 1 ∷ []) (be16 (length (message f)) ++ message f),
        u16_of-be16 f.hello.legacy_version h.version_fits,
        skip-at 32 f.random (length f.session_id ∷ (f.session_id ++ lists f)) h.random_sized,
        skip-append f.session_id (lists f),
        u16_of-be16 (length f.hello.cipher_suites) h.suites_fit,
        read_bytes-append f.hello.cipher_suites (
            length f.compression
            ∷ (f.compression ++ (be16 (length f.hello.extensions) ++ f.hello.extensions))),
        skip-append f.compression (be16 (length f.hello.extensions) ++ f.hello.extensions),
        read_extensions-be16 f.hello.extensions h.extensions_fit,
      )
      refl
