-- ===== src/Prelude/Octets.antt =====
-- Byte strings as lists of numbers, and big-endian fields.
use Prim.Native.Nat.{ℕ, ◌+◌, ◌*◌, ◌/◌, ◌%◌, ◌<◌}
use mathlib.Core.Bool.{Bool, true, false, ◌&&◌}
use mathlib.Core.List.{List, [], ◌∷◌, ◌++◌}
use mathlib.Core.Logic.{◌↔◌}
use mathlib.Core.Path.{◌≡◌}
use native.Mathlib.Omega.{arith}
use symphony.Prelude.Tests.{◌==◌}

abbrev pub Bytes : Type 0
Bytes = List ℕ

-- `u16::from_be_bytes([hi, lo])`
abbrev pub u16_of : ℕ → ℕ → ℕ
u16_of hi lo = hi * 256 + lo

-- `(n as u16).to_be_bytes()`
abbrev pub be16 : ℕ → Bytes
be16 n = n / 256 % 256 ∷ n % 256 ∷ []

pub u16_of-be16 : (n : ℕ) → n < 65536 → u16_of (n / 256 % 256) (n % 256) ≡ n
u16_of-be16 n h = omega arith

abbrev pub eq_bytes : Bytes → Bytes → Bool
eq_bytes [] [] = true
eq_bytes [] (y ∷ ys) = false
eq_bytes (x ∷ xs) [] = false
eq_bytes (x ∷ xs) (y ∷ ys) = x == y && eq_bytes xs ys

pub eq_bytes_iff : (a b : Bytes) → (eq_bytes a b ≡ true) ↔ (a ≡ b)
eq_bytes_iff [] [] = ground arith
eq_bytes_iff [] (y ∷ b) = ground arith
eq_bytes_iff (x ∷ a) [] = ground arith
eq_bytes_iff (x ∷ a) (y ∷ b) = ground (arith, eq_bytes_iff a b)

abbrev pub starts_with : Bytes → Bytes → Bool
starts_with [] b = true
starts_with (x ∷ p) [] = false
starts_with (x ∷ p) (y ∷ b) = x == y && starts_with p b

-- Every element is a byte.
abbrev pub IsBytes : Bytes → Type 0
IsBytes [] = Unit {0}
IsBytes (b ∷ bs) = (b < 256) × IsBytes bs

pub IsBytes-append : (a b : Bytes) → IsBytes a → IsBytes b → IsBytes (a ++ b)
IsBytes-append [] b h k = k
IsBytes-append (x ∷ a) b h k = (h.0, IsBytes-append a b h.1 k)
