-- ===== src/Utf8.antt =====
-- `str::from_utf8`: the well-formed byte sequences of the Unicode standard's table 3-7.
use symphony.Prelude.{
  Bytes, ltb, leb, ◌==◌, if◌then◌else◌, ℕ, zero, suc, ◌<◌, ◌≡◌, refl, Bool, true, false, ◌&&◌,
  Option, none, some, [], ◌∷◌, ◌++◌, arith,
}

-- The continuation bytes due after a lead byte, and the range of the first of them.
lead : ℕ → Option (ℕ × ℕ × ℕ)
lead b =
    if ltb b 0x80
    then some (0, 0x80, 0xBF)
    else if ltb b 0xC2
    then none
    else if ltb b 0xE0
    then some (1, 0x80, 0xBF)
    else if b == 0xE0
    then some (2, 0xA0, 0xBF)
    else if b == 0xED
    then some (2, 0x80, 0x9F)
    else if ltb b 0xF0
    then some (2, 0x80, 0xBF)
    else if b == 0xF0
    then some (3, 0x90, 0xBF)
    else if ltb b 0xF4
    then some (3, 0x80, 0xBF)
    else if b == 0xF4
    then some (3, 0x80, 0x8F)
    else none

-- `due` continuation bytes are still to come, the next one within `lo` and `hi`.
continues : ℕ → ℕ → ℕ → Bytes → Bool
continues zero lo hi [] = true
continues (suc due) lo hi [] = false
continues zero lo hi (b ∷ bs) = elim (lead b) [
  | none ↦ false
  | some (due, lo', hi') ↦ continues due lo' hi' bs
]
continues (suc due) lo hi (b ∷ bs) = leb lo b && leb b hi && continues due 0x80 0xBF bs

unfoldable pub is_utf8 : Bytes → Bool
unfolding continues lead
is_utf8 = continues 0 0x80 0xBF

abbrev pub IsAscii : Bytes → Type 0
IsAscii [] = Unit {0}
IsAscii (b ∷ bs) = (b < 128) × IsAscii bs

continues-IsAscii : (bs : Bytes) → IsAscii bs → continues 0 0x80 0xBF bs ≡ true
unfolding continues lead
continues-IsAscii [] h = refl
continues-IsAscii (b ∷ bs) h = ground (arith, continues-IsAscii bs)

-- Plain ASCII is well formed.
pub is_utf8-IsAscii : (bs : Bytes) → IsAscii bs → is_utf8 bs ≡ true
unfolding is_utf8
is_utf8-IsAscii = continues-IsAscii

pub IsAscii-append : (a b : Bytes) → IsAscii a → IsAscii b → IsAscii (a ++ b)
IsAscii-append [] b h k = k
IsAscii-append (x ∷ a) b h k = (h.0, IsAscii-append a b h.1 k)
