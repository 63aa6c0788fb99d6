-- ===== src/Sni/NameRoundTrip.antt =====
-- src/sni.rs: a host name in the SNI extension is extracted.
use symphony.Prelude.{
  length, Bytes, be16, u16_of-be16, ◌==◌, le→ltb, ℕ, zero, suc, ◌<◌, ◌≡◌, refl, ◌∙◌, false, some,
  List, [], ◌∷◌, ◌++◌, arith,
}
use symphony.Utf8.{IsAscii, is_utf8-IsAscii}
use symphony.Sni.Parser.{
  read_u8, read_u16, extension, next_extension-extension, written, AllBut, length-written,
  read_bytes-all,
}
use symphony.Sni.ServerName.{
  max_name, no_bytes, host_name, next_name, names_loop, server_name, sni_loop, extract_sni,
}
use symphony.Sni.ServerNames.{IsHostName, trim_dots-trimmed}

host_name-IsAscii : (name : Bytes) → IsHostName name → IsAscii name → host_name name ≡ some name
unfolding host_name
host_name-IsAscii name h ascii =
    rw
      (
        is_utf8-IsAscii name ascii,
        trim_dots-trimmed name h.trimmed,
        some_bytes name h.some_bytes,
        le→ltb max_name (length name) h.short,
        h.no_colon,
        h.no_slash,
      )
      refl
  where
    some_bytes : (l : Bytes) → 0 < length l → no_bytes l ≡ false
    some_bytes [] k = absurd (omega arith)
    some_bytes (b ∷ l) k = refl

-- name_type(1) + length(2) + name
abbrev pub entry : Bytes → Bytes
entry name = 0 ∷ (be16 (length name) ++ name)

abbrev pub sni_data : Bytes → Bytes
sni_data name = be16 (length (entry name)) ++ entry name

next_name-entry : (name : Bytes) → length name < 65536 → next_name (entry name) ≡ some (0, name, [])
unfolding next_name read_u8 read_u16
next_name-entry name h = rw (u16_of-be16 (length name) h, read_bytes-all name) refl

server_name-sni_data :
    (name : Bytes) → IsHostName name → IsAscii name → server_name (sni_data name) ≡ some (some name)
unfolding server_name names_loop read_u16
server_name-sni_data name h ascii =
    rw
      (
        le→ltb (length (entry name)) 3 (omega arith),
        next_name-entry name (omega (arith, h.short)),
        host_name-IsAscii name h ascii,
      )
      refl

sni_loop-other :
    (fuel ext_type : ℕ) (ext_data p : Bytes)
    → (ext_type == 0) ≡ false
    → ext_type < 65536
    → length ext_data < 65536
    → sni_loop (suc fuel) (extension ext_type ext_data ++ p) ≡ sni_loop fuel p
unfolding sni_loop
sni_loop-other fuel ext_type ext_data p h k l =
    rw
      (
        le→ltb (length (extension ext_type ext_data ++ p)) 4 (omega arith),
        next_extension-extension ext_type ext_data p k l,
        h,
      )
      refl

sni_loop-sni :
    (fuel : ℕ) (name p : Bytes)
    → IsHostName name
    → IsAscii name
    → sni_loop (suc fuel) (extension 0 (sni_data name) ++ p) ≡ some name
unfolding sni_loop
sni_loop-sni fuel name p h ascii =
    rw
      (
        le→ltb (length (extension 0 (sni_data name) ++ p)) 4 (omega arith),
        next_extension-extension 0 (sni_data name) p (omega arith) (omega (arith, h.short)),
        server_name-sni_data name h ascii,
      )
      refl

sni_loop-written :
    (exts : List (ℕ × Bytes)) (fuel : ℕ) (name p : Bytes)
    → IsHostName name
    → IsAscii name
    → AllBut 0 exts
    → length exts < fuel
    → sni_loop fuel (written exts (extension 0 (sni_data name) ++ p)) ≡ some name
sni_loop-written exts zero name p h ascii others enough = absurd (omega arith)
sni_loop-written [] (suc fuel) name p h ascii others enough = sni_loop-sni fuel name p h ascii
sni_loop-written ((ty, ext_data) ∷ exts) (suc fuel) name p h ascii others enough =
    sni_loop-other fuel ty ext_data (written exts (extension 0 (sni_data name) ++ p)) others.0
      others.1 others.2
    ∙ sni_loop-written exts fuel name p h ascii others.3 (omega arith)

-- The ASCII host name that a client sends is the one extracted, whatever other extensions come
-- before it and whatever bytes behind it.
pub extract_sni-written :
    (exts : List (ℕ × Bytes)) (name p : Bytes)
    → IsHostName name
    → IsAscii name
    → AllBut 0 exts
    → extract_sni (written exts (extension 0 (sni_data name) ++ p)) ≡ some name
unfolding extract_sni
extract_sni-written exts name p h ascii others =
    sni_loop-written exts (length (written exts (extension 0 (sni_data name) ++ p))) name p h ascii
      others (omega (arith, length-written exts (extension 0 (sni_data name) ++ p)))
