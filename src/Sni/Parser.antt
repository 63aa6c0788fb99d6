-- ===== src/Sni/Parser.antt =====
-- src/sni.rs: `Parser`, as the bytes that it has not read, `buf[pos..]`.
use symphony.Prelude.{
  length, take, drop, length-append, length-drop, take-length, drop-length, Bytes, u16_of, be16,
  u16_of-be16, ltb, ◌==◌, if◌then◌else◌, le→ltb, ℕ, ◌+◌, ◌*◌, ◌≤◌, ◌<◌, ◌≡◌, refl, subst, false,
  Option, none, some, List, [], ◌∷◌, ◌++◌, append-nil, arith,
}

-- `?` on an `Option`
infixl 5 ◌>>=◌
abbrev pub ◌>>=◌ {ℓ} : {A B : Type ℓ} → Option A → (A → Option B) → Option B
none >>= f = none
some a >>= f = f a

unfoldable pub read_u8 : Bytes → Option (ℕ × Bytes)
read_u8 [] = none
read_u8 (a ∷ p) = some (a, p)

unfoldable pub read_u16 : Bytes → Option (ℕ × Bytes)
read_u16 [] = none
read_u16 (a ∷ []) = none
read_u16 (a ∷ b ∷ p) = some (u16_of a b, p)

unfoldable pub read_u24 : Bytes → Option (ℕ × Bytes)
read_u24 [] = none
read_u24 (a ∷ []) = none
read_u24 (a ∷ b ∷ []) = none
read_u24 (a ∷ b ∷ c ∷ p) = some (a * 65536 + u16_of b c, p)

unfoldable pub read_bytes : ℕ → Bytes → Option (Bytes × Bytes)
read_bytes n p = if ltb (length p) n then none else some (take n p, drop n p)

unfoldable pub skip : ℕ → Bytes → Option Bytes
skip n p = if ltb (length p) n then none else some (drop n p)

pub read_u16-be16 : (n : ℕ) (p : Bytes) → n < 65536 → read_u16 (be16 n ++ p) ≡ some (n, p)
unfolding read_u16
read_u16-be16 n p h = rw (u16_of-be16 n h) refl

pub read_bytes-append : (a p : Bytes) → read_bytes (length a) (a ++ p) ≡ some (a, p)
unfolding read_bytes
read_bytes-append a p =
    rw
      (
        le→ltb (length (a ++ p)) (length a) (omega (arith, length-append a p)),
        take-length a p,
        drop-length a p,
      )
      refl

pub skip-append : (a p : Bytes) → skip (length a) (a ++ p) ≡ some p
unfolding skip
skip-append a p =
    rw (le→ltb (length (a ++ p)) (length a) (omega (arith, length-append a p)), drop-length a p)
      refl

pub skip-at : (n : ℕ) (a p : Bytes) → length a ≡ n → skip n (a ++ p) ≡ some p
skip-at n a p h = rw (← h) (skip-append a p)

pub read_bytes-all : (a : Bytes) → read_bytes (length a) a ≡ some (a, [])
read_bytes-all a =
    subst (λ (l : Bytes). read_bytes (length a) l ≡ some (a, [])) (append-nil a)
      (read_bytes-append a [])

-- An extension: type(2) + length(2) + data. Each loop over extensions reads one so.
unfoldable pub next_extension : Bytes → Option (ℕ × Bytes × Bytes)
next_extension p = do
  (ext_type, p₁) ← read_u16 p
  (ext_len, p₂) ← read_u16 p₁
  (ext_data, p₃) ← read_bytes ext_len p₂
  some (ext_type, ext_data, p₃)

abbrev pub extension : ℕ → Bytes → Bytes
extension ext_type ext_data = be16 ext_type ++ be16 (length ext_data) ++ ext_data

pub next_extension-extension :
    (ext_type : ℕ) (ext_data p : Bytes)
    → ext_type < 65536
    → length ext_data < 65536
    → next_extension (extension ext_type ext_data ++ p) ≡ some (ext_type, ext_data, p)
unfolding next_extension read_u16
next_extension-extension ext_type ext_data p h k =
    rw (u16_of-be16 ext_type h, u16_of-be16 (length ext_data) k, read_bytes-append ext_data p) refl

-- Extensions in front of other bytes.
abbrev pub written : List (ℕ × Bytes) → Bytes → Bytes
written [] more = more
written ((ext_type, ext_data) ∷ exts) more = extension ext_type ext_data ++ written exts more

-- Each is of another type than `but`, and fits its fields.
abbrev pub AllBut : ℕ → List (ℕ × Bytes) → Type 0
AllBut but [] = Unit {0}
AllBut but ((ext_type, ext_data) ∷ exts) =
    ((ext_type == but) ≡ false) × (ext_type < 65536) × (length ext_data < 65536) × AllBut but exts

pub length-written :
    (exts : List (ℕ × Bytes)) (more : Bytes)
    → length exts + length more ≤ length (written exts more)
length-written [] more = omega arith
length-written ((ty, ext_data) ∷ exts) more =
    omega (arith, length-written exts more, length-append ext_data (written exts more))

-- Reading an extension takes four bytes or more.
pub next_extension-shrinks :
    (p p' ext_data : Bytes) (ext_type : ℕ)
    → next_extension p ≡ some (ext_type, ext_data, p')
    → length p' + 4 ≤ length p
unfolding next_extension read_u16 read_bytes
next_extension-shrinks [] p' ext_data ext_type h = ground arith
next_extension-shrinks (a ∷ []) p' ext_data ext_type h = ground arith
next_extension-shrinks (a ∷ b ∷ []) p' ext_data ext_type h = ground arith
next_extension-shrinks (a ∷ b ∷ c ∷ []) p' ext_data ext_type h = ground arith
next_extension-shrinks (a ∷ b ∷ c ∷ d ∷ p) p' ext_data ext_type h =
    ground (arith, length-drop (u16_of c d) p)
