-- ===== src/Sni/Records.antt =====
-- src/sni.rs: TLS records, put together into the handshake message that they carry.
-- `scan_handshake_records` goes through the records by fuel, of which each takes five bytes or more.
use symphony.Prelude.{
  length, get_or, take, drop, Bytes, u16_of, be16, ltb, leb, ◌==◌, if◌then◌else◌, ℕ, zero, suc, ◌+◌,
  ◌*◌, Bool, false, not, Option, none, some, [], ◌∷◌, ◌++◌,
}

pub data RecordScan : Type 0 where
  invalid : RecordScan
  need_more_raw : ℕ → RecordScan
  complete : Bytes → ℕ → RecordScan

-- The variables of the loop. `rest` is `raw[offset..]`.
pub record Scan : Type 0 where
  pub rest : Bytes
  pub offset : ℕ
  pub hs_buf : Bytes
  pub declared_hs_len : Option ℕ

-- A round of the loop, and where it leads.
pub data Round : Type 0 where
  returns : RecordScan → Round
  continues : Scan → Round

-- `raw[offset] != 0x16`, where that byte is visible
abbrev pub wrong_type : Bytes → Bool
wrong_type [] = false
wrong_type (b ∷ rest) = not (b == 0x16)

abbrev pub record_len : Bytes → ℕ
record_len rest = u16_of (get_or rest 3 0) (get_or rest 4 0)

-- The length that a handshake header declares, the header with it.
abbrev pub declared : Bytes → ℕ
declared hs = 4 + (get_or hs 1 0 * 65536 + get_or hs 2 0 * 256 + get_or hs 3 0)

-- What the payload so far says; `none` where it is no ClientHello.
unfoldable pub learn : Option ℕ → Bytes → Option (Option ℕ)
learn (some total) hs = some (some total)
learn none [] = some none
learn none (b ∷ hs) =
    if not (b == 0x01)
    then none
    else if leb 4 (length (b ∷ hs))
    then some (some (declared (b ∷ hs)))
    else some none

-- The first `if` of the loop.
unfoldable pub finished : Scan → Option RecordScan
finished s = elim s.declared_hs_len [
  | none ↦ none
  | some total ↦
      if leb total (length s.hs_buf) then some (complete (take total s.hs_buf) s.offset) else none
]

-- The rest of the loop's body.
unfoldable pub take_record : Scan → Round
take_record s =
    if wrong_type s.rest
    then returns invalid
    else if ltb (length s.rest) 5
    then returns (need_more_raw (s.offset + 5))
    else (let end = 5 + record_len s.rest in
        let hs = s.hs_buf ++ take (record_len s.rest) (drop 5 s.rest) in
        if ltb (length s.rest) end
        then returns (need_more_raw (s.offset + end))
        else elim (learn s.declared_hs_len hs) [
          | none ↦ returns invalid
          | some declared_hs_len ↦ continues (record {
            rest = drop end s.rest;
            offset = s.offset + end;
            hs_buf = hs;
            declared_hs_len = declared_hs_len;
          })
        ])

unfoldable pub scan_round : Scan → Round
scan_round s = elim (finished s) [ some verdict ↦ returns verdict | none ↦ take_record s ]

unfoldable pub scan_loop : ℕ → Scan → Option RecordScan
scan_loop zero s = none
scan_loop (suc fuel) s = elim (scan_round s) [
  | returns verdict ↦ some verdict
  | continues s' ↦ scan_loop fuel s'
]

abbrev pub at_start : Bytes → Scan
at_start raw = record { rest = raw; offset = 0; hs_buf = []; declared_hs_len = none }

-- The fuel is enough (`scan_loop-total`), so that the last case does not arise.
unfoldable pub scan_handshake_records : Bytes → RecordScan
scan_handshake_records raw = elim (scan_loop (suc (length raw)) (at_start raw)) [
  | some verdict ↦ verdict
  | none ↦ invalid
]

unfoldable pub wrap_as_record : Bytes → Bytes
wrap_as_record hs_bytes = 0x16 ∷ 0x03 ∷ 0x01 ∷ be16 (length hs_bytes) ++ hs_bytes
