-- ===== src/Sni/Ja3.antt =====
-- src/sni.rs: the JA3 fingerprint. The digest `md5` is that of a crate, a parameter.
use symphony.Prelude.{
  length, get_or, take, drop, Bytes, u16_of, ltb, ◌==◌, if◌then◌else◌, ℕ, zero, suc, ◌/◌, ◌%◌, Bool,
  ◌&&◌, none, some, List, [], ◌∷◌, ◌++◌,
}
use symphony.Hex.{bytes_to_hex}
use symphony.LoadAnswer.{decimal}
use symphony.Sni.Parser.{next_extension}

-- `chunks_exact(2)`, each as a `u16`
unfoldable pub u16s : Bytes → List ℕ
u16s [] = []
u16s (a ∷ []) = []
u16s (a ∷ b ∷ bytes) = u16_of a b ∷ u16s bytes

abbrev pub is_grease : ℕ → Bool
is_grease v = let lo = v % 256 in let hi = v / 256 % 256 in hi == lo && lo % 16 == 0x0A

unfoldable pub skip_grease : List ℕ → List ℕ
skip_grease [] = []
skip_grease (v ∷ values) = let rest = skip_grease values in if is_grease v then rest else v ∷ rest

-- The extensions that a fingerprint goes through: up to the first that is cut off, GREASE left out.
-- The loop goes by fuel, of which a round takes four bytes.
unfoldable pub extensions_loop : ℕ → Bytes → List (ℕ × Bytes)
extensions_loop zero p = []
extensions_loop (suc fuel) p = if ltb (length p) 4 then [] else elim (next_extension p) [
  | none ↦ []
  | some (ext_type, ext_data, rest) ↦
      let later = extensions_loop fuel rest in
      if is_grease ext_type then later else (ext_type, ext_data) ∷ later
]

unfoldable pub fingerprinted : Bytes → List (ℕ × Bytes)
fingerprinted extensions = extensions_loop (length extensions) extensions

-- A list of `u16` behind its length in two bytes, cut to what there is.
unfoldable pub u16_list : Bytes → List ℕ
u16_list ext_data =
    if ltb (length ext_data) 2
    then []
    else skip_grease
        (u16s (take (u16_of (get_or ext_data 0 0) (get_or ext_data 1 0)) (drop 2 ext_data)))

-- A list of bytes behind its length in one byte, cut to what there is.
unfoldable pub u8_list : Bytes → Bytes
u8_list [] = []
u8_list (fmt_len ∷ rest) = take fmt_len rest

-- The lists that the loop fills.
pub record Ja3Lists : Type 0 where
  pub ext_types : List ℕ
  pub elliptic_curves : List ℕ
  pub ec_point_formats : List ℕ

-- One round of the loop; `later` is what the rounds behind it add.
unfoldable pub ja3_round : ℕ → Bytes → Ja3Lists → Ja3Lists
ja3_round ext_type ext_data later = record {
  ext_types = ext_type ∷ later.ext_types;
  elliptic_curves =
      if ext_type == 0x000A
      then u16_list ext_data ++ later.elliptic_curves
      else later.elliptic_curves;
  ec_point_formats =
      if ext_type == 0x000B
      then u8_list ext_data ++ later.ec_point_formats
      else later.ec_point_formats;
}

unfoldable pub ja3_lists : List (ℕ × Bytes) → Ja3Lists
ja3_lists [] = record { ext_types = []; elliptic_curves = []; ec_point_formats = [] }
ja3_lists ((ext_type, ext_data) ∷ exts) = ja3_round ext_type ext_data (ja3_lists exts)

-- `join_u16` and `join_u8`
unfoldable pub join_decimal : List ℕ → Bytes
join_decimal [] = []
join_decimal (v ∷ []) = decimal v
join_decimal (v ∷ w ∷ values) = decimal v ++ (b'-' ∷ join_decimal (w ∷ values))

unfoldable pub ja3_text : ℕ → Bytes → Bytes → Bytes
ja3_text legacy_version cipher_suites extensions =
    let lists = ja3_lists (fingerprinted extensions) in
    decimal legacy_version
    ++ (b',' ∷ join_decimal (skip_grease (u16s cipher_suites)))
    ++ (b',' ∷ join_decimal lists.ext_types)
    ++ (b',' ∷ join_decimal lists.elliptic_curves)
    ++ (b',' ∷ join_decimal lists.ec_point_formats)

module _ (md5 : Bytes → Bytes) where
  unfoldable pub compute_ja3 : ℕ → Bytes → Bytes → Bytes
  compute_ja3 legacy_version cipher_suites extensions =
      bytes_to_hex (md5 (ja3_text legacy_version cipher_suites extensions))
