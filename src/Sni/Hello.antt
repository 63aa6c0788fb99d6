-- ===== src/Sni/Hello.antt =====
-- src/sni.rs: the ClientHello that `Parser::parse_client_hello` reads.
use symphony.Prelude.{
  length, Bytes, ltb, ◌==◌, if◌then◌else◌, ℕ, min, Bool, true, false, Option, none, some, [],
}
use symphony.Sni.Parser.{◌>>=◌, read_u8, read_u16, read_u24, read_bytes, skip}

pub record ClientHello : Type 0 where
  pub legacy_version : ℕ
  pub cipher_suites : Bytes
  pub extensions : Bytes

unfoldable pub guard : Bool → Option (Unit {0})
guard true = some tt
guard false = none

-- The end of the message; extensions may be absent or cut off.
unfoldable pub read_extensions : Bytes → Option Bytes
read_extensions p =
    if ltb (length p) 2
    then some []
    else read_u16 p >>= λ (ext_len, q).
        read_bytes (min ext_len (length q)) q >>= λ (exts, r). some exts

unfoldable pub parse_client_hello : Bytes → Option ClientHello
unfolding guard
parse_client_hello buf = do
  (content_type, p) ← read_u8 buf
  _ ← guard (content_type == 0x16)
  p ← skip 2 p
  (record_len, p) ← read_u16 p
  (msg_type, p) ← read_u8 p
  _ ← guard (msg_type == 0x01)
  (hs_len, p) ← read_u24 p
  (legacy_version, p) ← read_u16 p
  p ← skip 32 p
  (session_id_len, p) ← read_u8 p
  p ← skip session_id_len p
  (cs_len, p) ← read_u16 p
  (cipher_suites, p) ← read_bytes cs_len p
  (cm_len, p) ← read_u8 p
  p ← skip cm_len p
  extensions ← read_extensions p
  some (record {
    legacy_version = legacy_version;
    cipher_suites = cipher_suites;
    extensions = extensions;
  })
