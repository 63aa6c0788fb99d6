-- ===== src/Upstream/Framing.antt =====
-- src/upstream.rs: the length fields of a written PROXY v2 header, and when none is written.
use symphony.Prelude.{
  length, drop, length-append, Bytes, u16_of, u16_of-be16, Result, bind-eq-ok, ok, err, ltb,
  Bool-cases, ℕ, ◌+◌, ◌≡◌, sym, ap, ◌↔◌, inl, inr, Bool, true, false, ◌||◌, Option, List, [], ◌∷◌,
  ◌++◌, arith,
}
use symphony.Net.{SocketAddr}
use symphony.Ingress.Exactness.{declared}
use symphony.Upstream.{
  WriteError, tlv_too_long, normalize_v2_addr, address_block, dst_port, tlv_block,
  write_proxy_v2_header,
}
use symphony.Upstream.HeaderRoundTrip.{destination, write_proxy_v2_header-eq-ok}

-- A TLV section read by the lengths that it states, as a list of types and values.
pub data Framed : Bytes → List (ℕ × Bytes) → Type 0 where
  done : {bytes : Bytes} → bytes ≡ [] → Framed bytes []
  frame :
      {rest : Bytes} {tlvs : List (ℕ × Bytes)} (ty hi lo : ℕ) (value : Bytes) {bytes : Bytes}
      → length value ≡ u16_of hi lo
      → bytes ≡ ty ∷ hi ∷ lo ∷ (value ++ rest)
      → Framed rest tlvs
      → Framed bytes ((ty, value) ∷ tlvs)

-- The TLVs that are sent: an empty value is skipped.
abbrev pub present : List (ℕ × Bytes) → List (ℕ × Bytes)
present [] = []
present ((ty, []) ∷ tlvs) = present tlvs
present ((ty, b ∷ bytes) ∷ tlvs) = (ty, b ∷ bytes) ∷ present tlvs

abbrev pub some_too_long : List (ℕ × Bytes) → Bool
some_too_long [] = false
some_too_long ((ty, bytes) ∷ tlvs) = ltb 65535 (length bytes) || some_too_long tlvs

err-ne-ok : {A : Type 0} {e : WriteError} {a : A} → ◌≡◌ {A = Result WriteError A} (err e) (ok a) → ⊥
err-ne-ok h = cc

pub tlv_block-Framed :
    (tlvs : List (ℕ × Bytes)) {block : Bytes}
    → tlv_block tlvs ≡ ok block
    → Framed block (present tlvs)
unfolding tlv_block
tlv_block-Framed [] h = done (ground arith)
tlv_block-Framed ((ty, []) ∷ tlvs) h = tlv_block-Framed tlvs h
tlv_block-Framed ((ty, b ∷ bytes) ∷ tlvs) h =
    let value = b ∷ bytes in
    elim (Bool-cases (ltb 65535 (length value))) [
      | inl long ↦ absurd (err-ne-ok (rw long at h))
      | inr short ↦
          let (rest, e, k) = bind-eq-ok (tlv_block tlvs) _ (rw short at h) in
          frame ty _ _ value (sym (u16_of-be16 (length value) (ground arith))) (ground arith)
            (tlv_block-Framed tlvs e)
    ]

-- The TLV section fails exactly when some value is longer than 65535 bytes, and always with the
-- error that says so.
pub tlv_block-eq-err :
    (tlvs : List (ℕ × Bytes)) {e : WriteError}
    → (tlv_block tlvs ≡ err e) ↔ ((some_too_long tlvs ≡ true) × (e ≡ tlv_too_long))
unfolding tlv_block
tlv_block-eq-err [] = ground arith
tlv_block-eq-err ((ty, []) ∷ tlvs) {e} = ground (arith, tlv_block-eq-err tlvs {e = e})
tlv_block-eq-err ((ty, b ∷ bytes) ∷ tlvs) {e} = ground (arith, tlv_block-eq-err tlvs {e = e})

-- A header that is written announces its own size, and its TLVs are those given with a value, in
-- order, each with its own length: none is cut to fit its field.
pub write_proxy_v2_header-Framed :
    (peer : SocketAddr) (local_addr : Option SocketAddr) (tlvs : List (ℕ × Bytes)) {bytes : Bytes}
    → write_proxy_v2_header peer local_addr tlvs ≡ ok bytes
    → (length bytes ≡ 16 + declared bytes)
      × ((addresses block : Bytes) × (drop 16 bytes ≡ addresses ++ block)
          × Framed block (present tlvs))
write_proxy_v2_header-Framed peer local_addr tlvs {bytes} h =
    let (block, e, fits, written) = write_proxy_v2_header-eq-ok peer local_addr tlvs h in
    let (family, addresses) =
      address_block (normalize_v2_addr peer.ip) (destination local_addr) peer.port
        (dst_port local_addr) in
    let size = length addresses + length block in
    (
      rw (written, u16_of-be16 size (omega arith)) (omega (arith, length-append addresses block)),
      (addresses, block, ap (drop 16) written, tlv_block-Framed tlvs e),
    )
