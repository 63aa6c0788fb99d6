-- ===== src/Sni/Ja4.antt =====
-- src/sni.rs: the JA4 fingerprint. The digest `sha256` is that of a crate, a parameter.
use symphony.Prelude.{
  length, get_or, take, drop, replicate, Bytes, u16_of, ltb, leb, ◌==◌, if◌then◌else◌, ℕ, ◌+◌, ◌-◌,
  ◌/◌, ◌%◌, min, max, Bool, false, ◌&&◌, ◌||◌, Option, none, some, List, [], ◌∷◌, ◌++◌,
}
use symphony.Hex.{hex_digit, bytes_to_hex}
use symphony.LoadAnswer.{decimal}
use symphony.Sni.Ja3.{u16s, skip_grease, fingerprinted, u16_list}

-- `{v:04x}`
abbrev pub hex4 : ℕ → Bytes
hex4 v =
    hex_digit (v / 4096 % 16)
    ∷ hex_digit (v / 256 % 16)
    ∷ hex_digit (v / 16 % 16)
    ∷ hex_digit (v % 16)
    ∷ []

unfoldable pub join_hex4 : List ℕ → Bytes
join_hex4 [] = []
join_hex4 (v ∷ []) = hex4 v
join_hex4 (v ∷ w ∷ values) = hex4 v ++ (b',' ∷ join_hex4 (w ∷ values))

-- `{n:02}`
abbrev pub two_digits : ℕ → Bytes
two_digits n = if ltb n 100 then (b'0' + n / 10) ∷ (b'0' + n % 10) ∷ [] else decimal n

-- `sort_unstable`
unfoldable pub insert : ℕ → List ℕ → List ℕ
insert v [] = v ∷ []
insert v (w ∷ values) = let rest = insert v values in if leb v w then v ∷ w ∷ values else w ∷ rest

unfoldable pub sort : List ℕ → List ℕ
sort [] = []
sort (v ∷ values) = insert v (sort values)

-- supported_versions: list_len(1) + [version(2)]*
unfoldable pub version_list : Bytes → List ℕ
version_list [] = []
version_list (list_len ∷ rest) = skip_grease (u16s (take list_len rest))

-- The first protocol of an ALPN extension.
unfoldable pub first_protocol : Bytes → Option Bytes
first_protocol ext_data =
    let list = take (u16_of (get_or ext_data 0 0) (get_or ext_data 1 0)) (drop 2 ext_data) in
    let proto_len = get_or list 0 0 in
    if ltb (length ext_data) 2
    then none
    else if ltb 0 proto_len && ltb proto_len (length list)
    then some (take proto_len (drop 1 list))
    else none

-- The variables that the loop fills.
pub record Ja4Lists : Type 0 where
  pub ext_ids : List ℕ
  pub supported_versions : List ℕ
  pub alpn_first : Option Bytes
  pub sig_algs : List ℕ

-- One round of the loop; `later` is what the rounds behind it add. The last ALPN extension with a
-- protocol gives `alpn_first`.
unfoldable pub ja4_round : ℕ → Bytes → Ja4Lists → Ja4Lists
ja4_round ext_type ext_data later = record {
  ext_ids = ext_type ∷ later.ext_ids;
  supported_versions =
      if ext_type == 0x002B
      then version_list ext_data ++ later.supported_versions
      else later.supported_versions;
  alpn_first = elim later.alpn_first [
    | some proto ↦ some proto
    | none ↦ if ext_type == 0x0010 then first_protocol ext_data else none
  ];
  sig_algs = if ext_type == 0x000D then u16_list ext_data ++ later.sig_algs else later.sig_algs;
}

unfoldable pub ja4_lists : List (ℕ × Bytes) → Ja4Lists
ja4_lists [] = record { ext_ids = []; supported_versions = []; alpn_first = none; sig_algs = [] }
ja4_lists ((ext_type, ext_data) ∷ exts) = ja4_round ext_type ext_data (ja4_lists exts)

unfoldable pub max_or : ℕ → List ℕ → ℕ
max_or default [] = default
max_or default (v ∷ []) = v
max_or default (v ∷ w ∷ values) = max v (max_or default (w ∷ values))

unfoldable pub ver_str : ℕ → Bytes
ver_str v =
    if v == 0x0304
    then b'1' ∷ b'3' ∷ []
    else if v == 0x0303
    then b'1' ∷ b'2' ∷ []
    else if v == 0x0302
    then b'1' ∷ b'1' ∷ []
    else if v == 0x0301
    then b'1' ∷ b'0' ∷ []
    else b'0' ∷ b'0' ∷ []

abbrev pub contains : ℕ → List ℕ → Bool
contains v [] = false
contains v (w ∷ values) = w == v || contains v values

abbrev pub is_alphanumeric : ℕ → Bool
is_alphanumeric b = leb b'0' b && leb b b'9' || leb b'A' b && leb b b'Z' || leb b'a' b && leb b b'z'

-- `to_ascii_lowercase`
abbrev pub to_lowercase : ℕ → ℕ
to_lowercase b = if leb b'A' b && leb b b'Z' then b + 32 else b

abbrev pub first_of : Bytes → ℕ
first_of bytes = get_or bytes 0 0

abbrev pub last_of : Bytes → ℕ
last_of bytes = get_or bytes (length bytes - 1) 0

unfoldable pub alpn_chars : Option Bytes → Bytes
alpn_chars none = b'0' ∷ b'0' ∷ []
alpn_chars (some []) = b'0' ∷ b'0' ∷ []
alpn_chars (some (b ∷ bytes)) =
    let last = last_of (b ∷ bytes) in
    let hex = bytes_to_hex (b ∷ bytes) in
    if is_alphanumeric b && is_alphanumeric last
    then to_lowercase b ∷ to_lowercase last ∷ []
    else first_of hex ∷ last_of hex ∷ []

-- All but SNI and ALPN.
unfoldable pub hashed_ids : List ℕ → List ℕ
hashed_ids [] = []
hashed_ids (t ∷ ids) =
    let rest = hashed_ids ids in if t == 0x0000 || t == 0x0010 then rest else t ∷ rest

unfoldable pub hash_input : Bytes → List ℕ → Bytes
hash_input ext_str [] = ext_str
hash_input ext_str (alg ∷ sig_algs) = ext_str ++ (b'_' ∷ join_hex4 (alg ∷ sig_algs))

module _ (sha256 : Bytes → Bytes) where
  unfoldable pub sha256_hex12 : Bytes → Bytes
  sha256_hex12 text = bytes_to_hex (take 6 (sha256 text))

  -- The digest, or twelve zeros for nothing.
  unfoldable pub part_of : Bytes → Bytes
  part_of [] = replicate 12 b'0'
  part_of (b ∷ text) = sha256_hex12 (b ∷ text)

unfoldable pub part_a : ℕ → List ℕ → Ja4Lists → Bytes
part_a legacy_version ciphers lists =
    let version = max_or legacy_version lists.supported_versions in
    let sni_char = if contains 0x0000 lists.ext_ids then b'd' else b'i' in
    (b't' ∷ [])
    ++ ver_str version
    ++ (sni_char ∷ [])
    ++ two_digits (min (length ciphers) 99)
    ++ two_digits (min (length lists.ext_ids) 99)
    ++ alpn_chars lists.alpn_first

module _ (sha256 : Bytes → Bytes) where
  unfoldable pub compute_ja4 : ℕ → Bytes → Bytes → Bytes
  compute_ja4 legacy_version cipher_suites extensions =
      let lists = ja4_lists (fingerprinted extensions) in
      let ciphers = skip_grease (u16s cipher_suites) in
      let part_b = part_of sha256 (join_hex4 (sort ciphers)) in
      let ext_str = join_hex4 (sort (hashed_ids lists.ext_ids)) in
      let part_c = part_of sha256 (hash_input ext_str lists.sig_algs) in
      part_a legacy_version ciphers lists ++ (b'_' ∷ part_b) ++ (b'_' ∷ part_c)
