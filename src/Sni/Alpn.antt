-- ===== src/Sni/Alpn.antt =====
-- src/sni.rs: whether the client offers HTTP/2. Each loop goes by fuel, of which a round takes one
-- byte or more.
use symphony.Prelude.{
  length, length-append, Bytes, be16, eq_bytes, ◌==◌, if◌then◌else◌, ℕ, zero, suc, ◌+◌, ◌≤◌, ◌<◌,
  ◌≡◌, refl, ap, ◌∙◌, Bool, true, false, ◌||◌, Option, none, some, List, [], ◌∷◌, ◌++◌, arith,
}
use symphony.Sni.Parser.{
  ◌>>=◌, read_u8, read_u16, read_bytes, next_extension, extension, next_extension-extension,
  written, AllBut, length-written, read_u16-be16, read_bytes-append, read_bytes-all,
}

abbrev pub h2 : Bytes
h2 = b'h' ∷ b'2' ∷ []

unfoldable pub protocols_loop : ℕ → Bytes → Bool
protocols_loop zero protocols = false
protocols_loop (suc fuel) protocols =
    elim (read_u8 protocols >>= λ (len, rest). read_bytes len rest) [
      | none ↦ false
      | some (protocol, rest) ↦
          let later = protocols_loop fuel rest in if eq_bytes protocol h2 then true else later
    ]

-- protocol_name_list_len(2)
unfoldable pub protocol_list : Bytes → Option (Bytes × Bytes)
protocol_list ext_data = read_u16 ext_data >>= λ (list_len, rest). read_bytes list_len rest

-- [proto_len(1) + proto]*
unfoldable pub offered : Bytes → Bool
offered ext_data = elim (protocol_list ext_data) [
  | none ↦ false
  | some (list, rest) ↦ protocols_loop (length list) list
]

unfoldable pub alpn_loop : ℕ → Bytes → Bool
alpn_loop zero p = false
alpn_loop (suc fuel) p = elim (next_extension p) [
  | none ↦ false
  | some (ext_type, ext_data, rest) ↦
      let later = alpn_loop fuel rest in if ext_type == 0x0010 then offered ext_data else later
]

unfoldable pub alpn_offers_h2 : Bytes → Bool
alpn_offers_h2 extensions = alpn_loop (length extensions) extensions

abbrev pub listed : List Bytes → Bytes
listed [] = []
listed (protocol ∷ protocols) = length protocol ∷ (protocol ++ listed protocols)

abbrev pub names_h2 : List Bytes → Bool
names_h2 [] = false
names_h2 (protocol ∷ protocols) = eq_bytes protocol h2 || names_h2 protocols

protocols_loop-cons :
    (fuel : ℕ) (protocol rest : Bytes)
    → protocols_loop (suc fuel) (length protocol ∷ (protocol ++ rest))
      ≡ (eq_bytes protocol h2 || protocols_loop fuel rest)
unfolding protocols_loop read_u8
protocols_loop-cons fuel protocol rest =
    rw (protocols_loop, read_bytes-append protocol rest)
      (either (eq_bytes protocol h2) (protocols_loop fuel rest))
  where
    either : (b c : Bool) → (if b then true else c) ≡ (b || c)
    either true c = refl
    either false c = refl

protocols_loop-nil : (fuel : ℕ) → protocols_loop fuel [] ≡ false
unfolding protocols_loop read_u8
protocols_loop-nil zero = refl
protocols_loop-nil (suc fuel) = refl

protocols_loop-listed :
    (protocols : List Bytes) (fuel : ℕ)
    → length (listed protocols) ≤ fuel
    → protocols_loop fuel (listed protocols) ≡ names_h2 protocols
protocols_loop-listed [] fuel h = protocols_loop-nil fuel
protocols_loop-listed (protocol ∷ protocols) zero h = absurd (omega arith)
protocols_loop-listed (protocol ∷ protocols) (suc fuel) h =
    protocols_loop-cons fuel protocol (listed protocols)
    ∙ ap (λ (b : Bool). eq_bytes protocol h2 || b)
        (protocols_loop-listed protocols fuel
          (omega (arith, length-append protocol (listed protocols))))

abbrev pub alpn_data : List Bytes → Bytes
alpn_data protocols = be16 (length (listed protocols)) ++ listed protocols

protocol_list-alpn_data :
    (protocols : List Bytes)
    → length (listed protocols) < 65536
    → protocol_list (alpn_data protocols) ≡ some (listed protocols, [])
unfolding protocol_list
protocol_list-alpn_data protocols h =
    ap (λ m. m >>= λ (list_len, rest). read_bytes list_len rest)
      (read_u16-be16 (length (listed protocols)) (listed protocols) h)
    ∙ read_bytes-all (listed protocols)

offered-alpn_data :
    (protocols : List Bytes)
    → length (listed protocols) < 65536
    → offered (alpn_data protocols) ≡ names_h2 protocols
unfolding offered
offered-alpn_data protocols h =
    rw (offered, protocol_list-alpn_data protocols h)
      (protocols_loop-listed protocols (length (listed protocols)) (omega arith))

alpn_loop-other :
    (fuel ext_type : ℕ) (ext_data p : Bytes)
    → (ext_type == 0x0010) ≡ false
    → ext_type < 65536
    → length ext_data < 65536
    → alpn_loop (suc fuel) (extension ext_type ext_data ++ p) ≡ alpn_loop fuel p
unfolding alpn_loop
alpn_loop-other fuel ext_type ext_data p h k l =
    rw (alpn_loop, next_extension-extension ext_type ext_data p k l, h) refl

alpn_loop-alpn :
    (fuel : ℕ) (ext_data p : Bytes)
    → length ext_data < 65536
    → alpn_loop (suc fuel) (extension 0x0010 ext_data ++ p) ≡ offered ext_data
unfolding alpn_loop
alpn_loop-alpn fuel ext_data p h =
    rw (alpn_loop, next_extension-extension 0x0010 ext_data p (omega arith) h) refl

alpn_loop-written :
    (exts : List (ℕ × Bytes)) (fuel : ℕ) (ext_data p : Bytes)
    → AllBut 0x0010 exts
    → length ext_data < 65536
    → length exts < fuel
    → alpn_loop fuel (written exts (extension 0x0010 ext_data ++ p)) ≡ offered ext_data
alpn_loop-written exts zero ext_data p others fits enough = absurd (omega arith)
alpn_loop-written [] (suc fuel) ext_data p others fits enough = alpn_loop-alpn fuel ext_data p fits
alpn_loop-written ((ty, other) ∷ exts) (suc fuel) ext_data p others fits enough =
    alpn_loop-other fuel ty other (written exts (extension 0x0010 ext_data ++ p)) others.0 others.1
      others.2
    ∙ alpn_loop-written exts fuel ext_data p others.3 fits (omega arith)

-- HTTP/2 is offered just when `h2` is one of the protocols of the first ALPN extension, whatever
-- other extensions come before it and whatever bytes behind it.
pub alpn_offers_h2-written :
    (exts : List (ℕ × Bytes)) (protocols : List Bytes) (p : Bytes)
    → AllBut 0x0010 exts
    → length (listed protocols) + 2 < 65536
    → alpn_offers_h2 (written exts (extension 0x0010 (alpn_data protocols) ++ p))
      ≡ names_h2 protocols
unfolding alpn_offers_h2
alpn_offers_h2-written exts protocols p others fits =
    alpn_loop-written exts (length (written exts (extension 0x0010 (alpn_data protocols) ++ p)))
      (alpn_data protocols) p others (omega arith)
      (omega (arith, length-written exts (extension 0x0010 (alpn_data protocols) ++ p)))
    ∙ offered-alpn_data protocols (omega arith)
