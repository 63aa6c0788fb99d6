-- ===== src/Sni/Reassembly.antt =====
-- src/sni.rs: the scan of records ends, and what it has found stays found.
use symphony.Prelude.{
  length, take, drop, length-drop, Bytes, le→ltb, Option-cases, ℕ, zero, suc, ◌+◌, ◌≤◌, ◌<◌, ◌≡◌,
  refl, sym, ap, ◌∙◌, subst, ◌⊎◌, inl, inr, false, Option, none, some, ◌++◌, arith,
}
use symphony.Sni.Records.{
  RecordScan, Scan, Round, returns, continues, wrong_type, record_len, learn, finished, take_record,
  scan_round, scan_loop, at_start, scan_handshake_records,
}

pub Round-cases :
    (r : Round) → ((v : RecordScan) × (r ≡ returns v)) ⊎ ((s : Scan) × (r ≡ continues s))
Round-cases (returns v) = inl (v, refl)
Round-cases (continues s) = inr (s, refl)

pub round_shrinks :
    (s s' : Scan)
    → scan_round s ≡ continues s'
    → (length s'.rest < length s.rest) × (s'.offset + length s'.rest ≡ s.offset + length s.rest)
unfolding scan_round take_record
round_shrinks s s' h = ground (arith, length-drop (5 + record_len s.rest) s.rest)

-- The rounds of the loop, up to the one that returns.
pub data Scans : Scan → RecordScan → Type 0 where
  stops : {s : Scan} {v : RecordScan} → scan_round s ≡ returns v → Scans s v
  steps : {s s' : Scan} {v : RecordScan} → scan_round s ≡ continues s' → Scans s' v → Scans s v

Scans-total : (fuel : ℕ) (s : Scan) → length s.rest < fuel → (v : RecordScan) × Scans s v
Scans-total zero s h = absurd (omega arith)
Scans-total (suc fuel) s h = elim (Round-cases (scan_round s)) [
  | inl (v, e) ↦ (v, stops e)
  | inr (s', e) ↦
      let (v, more) = Scans-total fuel s' (omega (arith, round_shrinks s s' e)) in (v, steps e more)
]

scan_loop-returns :
    (fuel : ℕ) (s : Scan) (v : RecordScan)
    → scan_round s ≡ returns v
    → scan_loop (suc fuel) s ≡ some v
unfolding scan_loop
scan_loop-returns fuel s v e = rw (e, scan_loop) refl

scan_loop-continues :
    (fuel : ℕ) (s s' : Scan)
    → scan_round s ≡ continues s'
    → scan_loop (suc fuel) s ≡ scan_loop fuel s'
unfolding scan_loop
scan_loop-continues fuel s s' e = rw (e, scan_loop) refl

scan_loop-Scans :
    (fuel : ℕ) {s : Scan} {v : RecordScan}
    → length s.rest < fuel
    → Scans s v
    → scan_loop fuel s ≡ some v
scan_loop-Scans zero h r = absurd (omega arith)
scan_loop-Scans (suc fuel) {s} {v} h (stops e) = scan_loop-returns fuel s v e
scan_loop-Scans (suc fuel) {s} {v} h (steps {s'} e r) =
    scan_loop-continues fuel s s' e ∙ scan_loop-Scans fuel (omega (arith, round_shrinks s s' e)) r

scan-eq-loop :
    (raw : Bytes) {v : RecordScan}
    → scan_loop (suc (length raw)) (at_start raw) ≡ some v
    → scan_handshake_records raw ≡ v
unfolding scan_handshake_records
scan-eq-loop raw {v} e = rw (e, scan_handshake_records) refl

pub scan-eq-Scans :
    {raw : Bytes} {v : RecordScan} → Scans (at_start raw) v → scan_handshake_records raw ≡ v
scan-eq-Scans {raw} {v} r = scan-eq-loop raw (scan_loop-Scans (suc (length raw)) (omega arith) r)

-- The fuel is enough: the loop returns, and the scan is what it returns.
pub scan_loop-total :
    (raw : Bytes) → scan_loop (suc (length raw)) (at_start raw) ≡ some (scan_handshake_records raw)
scan_loop-total raw =
    let (v, r) = Scans-total (suc (length raw)) (at_start raw) (omega arith) in
    let e = scan_loop-Scans (suc (length raw)) (omega arith) r in
    e ∙ ap some (sym (scan-eq-loop raw e))

pub scan-Scans : (raw : Bytes) → Scans (at_start raw) (scan_handshake_records raw)
scan-Scans raw =
    let (v, r) = Scans-total (suc (length raw)) (at_start raw) (omega arith) in
    subst (Scans (at_start raw)) (sym (scan-eq-Scans r)) r

-- The scan behind one whole record.
abbrev pub behind : Scan → Option ℕ → Scan
behind s declared_hs_len = record {
  rest = drop (5 + record_len s.rest) s.rest;
  offset = s.offset + (5 + record_len s.rest);
  hs_buf = s.hs_buf ++ take (record_len s.rest) (drop 5 s.rest);
  declared_hs_len = declared_hs_len;
}

-- What it takes for a round to get past a record.
pub record IsPassed (s : Scan) (declared_hs_len : Option ℕ) : Type 0 where
  pub unfinished : finished s ≡ none
  pub handshake : wrong_type s.rest ≡ false
  pub whole : 5 + record_len s.rest ≤ length s.rest
  pub learned :
      learn s.declared_hs_len (s.hs_buf ++ take (record_len s.rest) (drop 5 s.rest))
      ≡ some declared_hs_len

pub round-continues :
    (s s' : Scan) → scan_round s ≡ continues s' → (d : Option ℕ) × IsPassed s d × (s' ≡ behind s d)
unfolding scan_round take_record
round-continues s s' h =
    let hs = s.hs_buf ++ take (record_len s.rest) (drop 5 s.rest) in
    elim (Option-cases (learn s.declared_hs_len hs)) [
      | inl e ↦ absurd (ground arith)
      | inr (d, e) ↦ (
        d,
        record {
          unfinished = ground arith;
          handshake = ground arith;
          whole = ground arith;
          learned = e;
        },
        ground arith,
      )
    ]

pub round-IsPassed :
    (s : Scan) (d : Option ℕ) → IsPassed s d → scan_round s ≡ continues (behind s d)
unfolding scan_round take_record
round-IsPassed s d p =
    rw
      (
        p.unfinished,
        scan_round,
        p.handshake,
        le→ltb (length s.rest) 5 (omega (arith, p.whole)),
        le→ltb (length s.rest) (5 + record_len s.rest) p.whole,
        p.learned,
      )
      refl
