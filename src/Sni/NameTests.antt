-- ===== src/Sni/NameTests.antt =====
-- src/sni.rs: the theorems on extensions and fingerprints, applied to concrete ones.
use symphony.Prelude.{replicate, Bytes, ℕ, ◌≡◌, refl, some, List, [], ◌∷◌, ◌++◌, arith}
use mathlib.Core.List.{Permᴰ}
use symphony.Utf8.{is_utf8}
use symphony.Sni.Parser.{read_u8, read_u16, read_bytes, next_extension, extension, written}
use symphony.Sni.ServerName.{
  trim_dots, mentions, host_name, next_name, names_loop, server_name, sni_loop, extract_sni,
}
use symphony.Sni.ServerNames.{IsHostName, extract_sni-IsHostName}
use symphony.Sni.NameRoundTrip.{sni_data, extract_sni-written}
use symphony.Sni.Ja3.{u16s, skip_grease, extensions_loop, fingerprinted}
use symphony.Sni.Ja4.{compute_ja4}
use symphony.Sni.Canonical.{swapped, compute_ja4-reordered}

program : Unit {0}
unfolding is_utf8 read_u8 read_u16 read_bytes next_extension trim_dots mentions host_name next_name
    names_loop server_name sni_loop extract_sni u16s skip_grease extensions_loop fingerprinted
program = tt

-- "a.io"
abbrev name : Bytes
name = b'a' ∷ b'.' ∷ b'i' ∷ b'o' ∷ []

abbrev others : List (ℕ × Bytes)
others = (0x000B, 1 ∷ 0 ∷ []) ∷ []

name-IsHostName : IsHostName name
unfolding program
name-IsHostName = record {
  some_bytes = omega arith;
  short = omega arith;
  no_colon = refl;
  no_slash = refl;
  trimmed = refl;
}

-- A name with a dot at its end loses it.
dot_is_trimmed : extract_sni (extension 0 (sni_data (name ++ b'.' ∷ []))) ≡ some name
unfolding program
dot_is_trimmed = refl

extract_sni-IsHostName_example : IsHostName name
unfolding program
extract_sni-IsHostName_example =
    extract_sni-IsHostName (extension 0 (sni_data (name ++ b'.' ∷ []))) name refl

extract_sni-written_example :
    extract_sni (written others (extension 0 (sni_data name) ++ (1 ∷ []))) ≡ some name
extract_sni-written_example =
    extract_sni-written others name (1 ∷ []) name-IsHostName (ground arith)
      (refl, omega arith, omega arith, tt)

abbrev sha256 : Bytes → Bytes
sha256 text = replicate 32 1

-- A cipher suite, and a GREASE value in front of it in the other order.
abbrev suites : Bytes
suites = 0x13 ∷ 0x01 ∷ 0x13 ∷ 0x02 ∷ []

abbrev suites' : Bytes
suites' = 0x1A ∷ 0x1A ∷ 0x13 ∷ 0x02 ∷ 0x13 ∷ 0x01 ∷ []

abbrev versions : Bytes
versions = extension 0x002B (2 ∷ 3 ∷ 4 ∷ [])

compute_ja4-reordered_example :
    compute_ja4 sha256 0x0303 suites (versions ++ extension 0x0017 [])
    ≡ compute_ja4 sha256 0x0303 suites' (extension 0x0017 [] ++ versions)
unfolding program
compute_ja4-reordered_example =
    compute_ja4-reordered sha256 0x0303 suites suites' (versions ++ extension 0x0017 [])
      (extension 0x0017 [] ++ versions) (Permᴰ.swap refl refl)
      (swapped 0x002B 0x0017 (2 ∷ 3 ∷ 4 ∷ []) [] [] refl)
