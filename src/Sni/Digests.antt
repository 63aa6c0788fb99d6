-- ===== src/Sni/Digests.antt =====
-- src/sni.rs: the shape of the fingerprints, and which values are GREASE.
use symphony.Prelude.{
  length, take, length-append, length-take, Bytes, if◌then◌else◌, lt→ltb, ℕ, ◌+◌, ◌*◌, ◌/◌, ◌%◌,
  ◌<◌, min, ◌≡◌, refl, ◌↔◌, true, Option, none, some, List, [], ◌∷◌, ◌++◌, arith,
}
use symphony.Hex.{length-bytes_to_hex}
use symphony.Sni.Ja3.{is_grease, fingerprinted, skip_grease, u16s}
use symphony.Sni.Ja4.{
  ver_str, alpn_chars, part_a, part_of, sha256_hex12, compute_ja4, Ja4Lists, max_or, contains,
  two_digits, ja4_lists, join_hex4, sort, hash_input, hashed_ids,
}

-- A value is GREASE just when it is one of the sixteen of RFC 8701: 0x0A0A, 0x1A1A, to 0xFAFA.
pub is_grease_iff :
    (v : ℕ) → v < 65536 → (is_grease v ≡ true) ↔ ((k : ℕ) × (k < 16) × (v ≡ 0x0A0A + k * 0x1010))
is_grease_iff v h = (
  λ e.
      let f : (v / 256 % 256 ≡ v % 256) × (v % 256 % 16 ≡ 10) = ground arith in
      (v / 4096, omega arith, omega arith),
  λ (k, l, e). ground arith,
)

length-ver_str : (v : ℕ) → length (ver_str v) ≡ 2
unfolding ver_str
length-ver_str v = ground arith

length-alpn_chars : (proto : Option Bytes) → length (alpn_chars proto) ≡ 2
unfolding alpn_chars
length-alpn_chars none = refl
length-alpn_chars (some []) = refl
length-alpn_chars (some (b ∷ bytes)) = ground arith

length-two_digits : (n : ℕ) → length (two_digits (min n 99)) ≡ 2
length-two_digits n = rw (lt→ltb (min n 99) 100 (omega arith)) refl

length-part_a :
    (legacy_version : ℕ) (ciphers : List ℕ) (lists : Ja4Lists)
    → length (part_a legacy_version ciphers lists) ≡ 10
unfolding part_a
length-part_a v ciphers lists =
    let version = ver_str (max_or v lists.supported_versions) in
    let sni : Bytes = (if contains 0x0000 lists.ext_ids then b'd' else b'i') ∷ [] in
    let count = two_digits (min (length ciphers) 99) in
    let ids = two_digits (min (length lists.ext_ids) 99) in
    let chars = alpn_chars lists.alpn_first in
    omega (
      arith,
      length-append (version ++ sni ++ count ++ ids) chars,
      length-append (version ++ sni ++ count) ids,
      length-append (version ++ sni) count,
      length-append version sni,
      length-ver_str (max_or v lists.supported_versions),
      length-two_digits (length ciphers),
      length-two_digits (length lists.ext_ids),
      length-alpn_chars lists.alpn_first,
    )

module _ (sha256 : Bytes → Bytes) (size : (text : Bytes) → length (sha256 text) ≡ 32) where
  length-part_of : (text : Bytes) → length (part_of sha256 text) ≡ 12
  unfolding part_of sha256_hex12
  length-part_of [] = refl
  length-part_of (b ∷ text) = omega (
    arith,
    length-bytes_to_hex (take 6 (sha256 (b ∷ text))),
    length-take 6 (sha256 (b ∷ text)),
    size (b ∷ text),
  )

  -- A JA4 fingerprint has 36 characters, whatever the ClientHello, where the digest has 32 bytes: no
  -- count runs over its two digits.
  pub length-compute_ja4 :
      (legacy_version : ℕ) (cipher_suites extensions : Bytes)
      → length (compute_ja4 sha256 legacy_version cipher_suites extensions) ≡ 36
  unfolding compute_ja4
  length-compute_ja4 v suites exts =
      let lists = ja4_lists (fingerprinted exts) in
      let ciphers = skip_grease (u16s suites) in
      let b = join_hex4 (sort ciphers) in
      let c = hash_input (join_hex4 (sort (hashed_ids lists.ext_ids))) lists.sig_algs in
      let a = part_a v ciphers lists in
      omega (
        arith,
        length-append (a ++ (b'_' ∷ part_of sha256 b)) (b'_' ∷ part_of sha256 c),
        length-append a (b'_' ∷ part_of sha256 b),
        length-part_a v ciphers lists,
        length-part_of b,
        length-part_of c,
      )
