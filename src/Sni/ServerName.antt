-- ===== src/Sni/ServerName.antt =====
-- src/sni.rs: the host name of a ClientHello. Each loop goes by fuel, of which a round takes more
-- bytes than one.
use symphony.Prelude.{
  length, Bytes, ltb, ◌==◌, if◌then◌else◌, ℕ, zero, suc, Bool, true, false, not, ◌||◌, Option, none,
  some, [], ◌∷◌,
}
use symphony.Utf8.{is_utf8}
use symphony.Sni.Parser.{◌>>=◌, read_u8, read_u16, read_bytes, next_extension}

abbrev pub max_name : ℕ
max_name = 253

abbrev pub attach : ℕ → Bytes → Bytes
attach b [] = if b == b'.' then [] else b ∷ []
attach b (c ∷ rest) = b ∷ c ∷ rest

-- `trim_end_matches('.')`
unfoldable pub trim_dots : Bytes → Bytes
trim_dots [] = []
trim_dots (b ∷ bytes) = attach b (trim_dots bytes)

unfoldable pub mentions : ℕ → Bytes → Bool
mentions c [] = false
mentions c (b ∷ bytes) = b == c || mentions c bytes

abbrev pub no_bytes : Bytes → Bool
no_bytes [] = true
no_bytes (b ∷ bytes) = false

-- A name of type host_name, checked.
unfoldable pub host_name : Bytes → Option Bytes
host_name name_data =
    let sni = trim_dots name_data in
    if not (is_utf8 name_data)
    then none
    else if no_bytes sni || ltb max_name (length sni) || mentions b':' sni || mentions b'/' sni
    then none
    else some sni

-- One entry: name_type(1) + length(2) + name.
unfoldable pub next_name : Bytes → Option (ℕ × Bytes × Bytes)
next_name sp = do
  (name_type, sp₁) ← read_u8 sp
  (name_len, sp₂) ← read_u16 sp₁
  (name_data, sp₃) ← read_bytes name_len sp₂
  some (name_type, name_data, sp₃)

-- The loop over the names of one extension: `some` where it returns, `none` where it runs out of
-- names and the extensions go on.
unfoldable pub names_loop : ℕ → Bytes → Option (Option Bytes)
names_loop zero sp = none
names_loop (suc fuel) sp = if ltb (length sp) 3 then none else elim (next_name sp) [
  | none ↦ some none
  | some (name_type, name_data, rest) ↦
      let later = names_loop fuel rest in
      if name_type == 0 then some (host_name name_data) else later
]

-- The SNI extension: list_length(2) + entries.
unfoldable pub server_name : Bytes → Option (Option Bytes)
server_name ext_data = elim (read_u16 ext_data) [
  | none ↦ some none
  | some (list_len, sp) ↦ names_loop (length sp) sp
]

unfoldable pub sni_loop : ℕ → Bytes → Option Bytes
sni_loop zero p = none
sni_loop (suc fuel) p = if ltb (length p) 4 then none else elim (next_extension p) [
  | none ↦ none
  | some (ext_type, ext_data, rest) ↦
      let later = sni_loop fuel rest in
      if ext_type == 0
      then elim (server_name ext_data) [ some verdict ↦ verdict | none ↦ later ]
      else later
]

unfoldable pub extract_sni : Bytes → Option Bytes
extract_sni extensions = sni_loop (length extensions) extensions
