-- ===== src/Hex.antt =====
-- Hexadecimal digests: `bytes_to_hex` (src/sni.rs) writes one, and `hex_to_bytes16`
-- (src/protection.rs) reads one of 16 bytes. `x << 4 | y` is a sum, since `y` is below 16.
use symphony.Prelude.{
  length, Bytes, IsBytes, ltb, leb, ◌==◌, if◌then◌else◌, ==_iff, ℕ, ◌+◌, ◌-◌, ◌*◌, ◌/◌, ◌%◌, ◌<◌,
  ◌≡◌, refl, ap, ◌∙◌, ◌&&◌, Option, none, some, [], ◌∷◌, arith,
}
use mathlib.Core.Option

-- `char::from_digit(n, 16)`
unfoldable pub hex_digit : ℕ → ℕ
hex_digit n = if ltb n 10 then b'0' + n else b'a' + (n - 10)

unfoldable pub bytes_to_hex : Bytes → Bytes
unfolding hex_digit
bytes_to_hex [] = []
bytes_to_hex (b ∷ bytes) = hex_digit (b / 16) ∷ hex_digit (b % 16) ∷ bytes_to_hex bytes

pub from_hex_digit : ℕ → Option ℕ
from_hex_digit b =
    if leb b'0' b && leb b b'9'
    then some (b - b'0')
    else if leb b'a' b && leb b b'f'
    then some (b - b'a' + 10)
    else if leb b'A' b && leb b b'F'
    then some (b - b'A' + 10)
    else none

-- The loop over the digits, two at a time.
hex_pairs : Bytes → Option Bytes
hex_pairs [] = some []
hex_pairs (hi ∷ []) = none
hex_pairs (hi ∷ lo ∷ hex) =
    Option.bind (from_hex_digit hi)
      λ h. Option.bind (from_hex_digit lo) λ l. Option.map (◌∷◌ (h * 16 + l)) (hex_pairs hex)

unfoldable pub hex_to_bytes16 : Bytes → Option Bytes
unfolding hex_pairs from_hex_digit Option.bind
hex_to_bytes16 hex = if length hex == 32 then hex_pairs hex else none

from_hex_digit-hex_digit : (n : ℕ) → n < 16 → from_hex_digit (hex_digit n) ≡ some n
unfolding from_hex_digit hex_digit
from_hex_digit-hex_digit n h = ground arith

hex_pairs-cons :
    (hi lo h l : ℕ) (hex bytes : Bytes)
    → from_hex_digit hi ≡ some h
    → from_hex_digit lo ≡ some l
    → hex_pairs hex ≡ some bytes
    → hex_pairs (hi ∷ lo ∷ hex) ≡ some ((h * 16 + l) ∷ bytes)
unfolding hex_pairs Option.bind
hex_pairs-cons hi lo h l hex bytes p q r = rw (p, q, r)

hex_pairs-bytes_to_hex :
    (bytes : Bytes) → IsBytes bytes → hex_pairs (bytes_to_hex bytes) ≡ some bytes
unfolding bytes_to_hex
hex_pairs-bytes_to_hex [] h = unfold hex_pairs in refl
hex_pairs-bytes_to_hex (b ∷ bytes) h =
    hex_pairs-cons (hex_digit (b / 16)) (hex_digit (b % 16)) (b / 16) (b % 16) (bytes_to_hex bytes)
      bytes (from_hex_digit-hex_digit (b / 16) (omega arith))
      (from_hex_digit-hex_digit (b % 16) (omega arith)) (hex_pairs-bytes_to_hex bytes h.1)
    ∙ ap (λ (x : ℕ). some (x ∷ bytes)) (byte_of b)
  where
    byte_of : (x : ℕ) → x / 16 * 16 + x % 16 ≡ x
    byte_of x = omega arith

pub length-bytes_to_hex : (bytes : Bytes) → length (bytes_to_hex bytes) ≡ 2 * length bytes
unfolding bytes_to_hex
length-bytes_to_hex [] = refl
length-bytes_to_hex (b ∷ bytes) = omega (arith, length-bytes_to_hex bytes)

hex_to_bytes16-hex_pairs : (hex : Bytes) → length hex ≡ 32 → hex_to_bytes16 hex ≡ hex_pairs hex
unfolding hex_to_bytes16
hex_to_bytes16-hex_pairs hex h = rw ((==_iff (length hex) 32).1 h)

-- A digest of 16 bytes is read back from the text that it is written as.
pub hex_to_bytes16-bytes_to_hex :
    (bytes : Bytes)
    → IsBytes bytes
    → length bytes ≡ 16
    → hex_to_bytes16 (bytes_to_hex bytes) ≡ some bytes
hex_to_bytes16-bytes_to_hex bytes h size =
    hex_to_bytes16-hex_pairs (bytes_to_hex bytes) (omega (arith, length-bytes_to_hex bytes))
    ∙ hex_pairs-bytes_to_hex bytes h
