-- ===== src/Sni/Prefixes.antt =====
-- src/sni.rs: bytes that come later change nothing that a scan has found, and a scan that asks for
-- more asks for no more than it needs.
use symphony.Prelude.{
  length, take, drop, length-append, length-drop, take-append_le, drop-append_le, get_or-append_lt,
  Bytes, Option-cases, ℕ, ◌+◌, ◌≤◌, ◌<◌, ◌≡◌, refl, sym, ap, ◌∙◌, subst, ◌≢◌, ◌⊎◌, inl, inr, true,
  Option, none, some, [], ◌∷◌, ◌++◌, arith,
}
use symphony.Sni.Records.{
  RecordScan, invalid, need_more_raw, complete, Scan, returns, continues, wrong_type, record_len,
  finished, take_record, scan_round, at_start, scan_handshake_records, scan_loop,
}
use symphony.Sni.Reassembly.{
  Scans, stops, steps, IsPassed, behind, round-continues, round-IsPassed, round_shrinks,
  scan-eq-Scans, scan-Scans,
}

-- More bytes behind those that are there.
abbrev pub longer : Scan → Bytes → Scan
longer s more = record s { rest = s.rest ++ more }

abbrev pub IsSettled : RecordScan → Type 0
IsSettled invalid = Unit {0}
IsSettled (need_more_raw n) = ⊥
IsSettled (complete hs wire_len) = Unit {0}

wrong_type-append :
    (rest more : Bytes)
    → (wrong_type rest ≡ true → wrong_type (rest ++ more) ≡ true)
      × (0 < length rest → wrong_type (rest ++ more) ≡ wrong_type rest)
wrong_type-append [] more = ground arith
wrong_type-append (b ∷ rest) more = ground arith

record_len-append :
    (rest more : Bytes) → 5 ≤ length rest → record_len (rest ++ more) ≡ record_len rest
record_len-append rest more h =
    rw (get_or-append_lt 3 rest more 0 (omega arith), get_or-append_lt 4 rest more 0 (omega arith))
      refl

payload-append :
    (n : ℕ) (rest more : Bytes)
    → 5 + n ≤ length rest
    → take n (drop 5 (rest ++ more)) ≡ take n (drop 5 rest)
payload-append n rest more h =
    rw
      (
        drop-append_le 5 rest more (omega arith),
        take-append_le n (drop 5 rest) more (omega (arith, length-drop 5 rest)),
      )
      refl

round-longer-returns :
    (s : Scan) (v : RecordScan) (more : Bytes)
    → IsSettled v
    → scan_round s ≡ returns v
    → scan_round (longer s more) ≡ returns v
unfolding scan_round finished take_record
round-longer-returns s v more settled h = ground (
  arith,
  wrong_type-append s.rest more,
  record_len-append s.rest more,
  payload-append (record_len s.rest) s.rest more,
  drop-append_le (5 + record_len s.rest) s.rest more,
  length-append s.rest more,
)

IsPassed-longer :
    (s : Scan) (d : Option ℕ) (more : Bytes) → IsPassed s d → IsPassed (longer s more) d
unfolding finished
IsPassed-longer s d more p =
    let same = record_len-append s.rest more (omega (arith, p.whole)) in
    record {
      unfinished = p.unfinished;
      handshake = (wrong_type-append s.rest more).1 (omega (arith, p.whole)) ∙ p.handshake;
      whole = omega (arith, p.whole, same, length-append s.rest more);
      learned = rw (same, payload-append (record_len s.rest) s.rest more p.whole) p.learned;
    }

behind-longer :
    (s : Scan) (d : Option ℕ) (more : Bytes)
    → 5 + record_len s.rest ≤ length s.rest
    → behind (longer s more) d ≡ longer (behind s d) more
behind-longer s d more h =
    rw
      (
        record_len-append s.rest more (omega arith),
        payload-append (record_len s.rest) s.rest more h,
        drop-append_le (5 + record_len s.rest) s.rest more h,
      )
      refl

round-longer-continues :
    (s s' : Scan) (more : Bytes)
    → scan_round s ≡ continues s'
    → scan_round (longer s more) ≡ continues (longer s' more)
round-longer-continues s s' more e =
    let (d, p, same) = round-continues s s' e in
    round-IsPassed (longer s more) d (IsPassed-longer s d more p)
    ∙ ap continues (behind-longer s d more p.whole ∙ ap (λ t. longer t more) (sym same))

Scans-longer :
    {s : Scan} {v : RecordScan} (more : Bytes) → IsSettled v → Scans s v → Scans (longer s more) v
Scans-longer {s} {v} more settled (stops e) = stops (round-longer-returns s v more settled e)
Scans-longer {s} {v} more settled (steps {s'} e r) =
    steps (round-longer-continues s s' more e) (Scans-longer more settled r)

returns-ne-continues : {v : RecordScan} {s : Scan} → returns v ≢ continues s
returns-ne-continues e = cc

continues-inj : {s t : Scan} → continues s ≡ continues t → s ≡ t
continues-inj e = cc

Scans-next : {s s' : Scan} {v : RecordScan} → Scans s v → scan_round s ≡ continues s' → Scans s' v
Scans-next (stops e) k = absurd (returns-ne-continues (sym e ∙ k))
Scans-next {v = v} (steps e r) k = subst (λ t. Scans t v) (continues-inj (sym e ∙ k)) r

-- What the scan of some bytes has found, a ClientHello or that there is none, the scan of any more
-- bytes finds again.
pub scan-append :
    (raw more : Bytes)
    → IsSettled (scan_handshake_records raw)
    → scan_handshake_records (raw ++ more) ≡ scan_handshake_records raw
scan-append raw more settled = scan-eq-Scans (Scans-longer more settled (scan-Scans raw))

pub round-complete :
    (s : Scan) (hs : Bytes) (w : ℕ)
    → scan_round s ≡ returns (complete hs w)
    → (total : ℕ) × (s.declared_hs_len ≡ some total)
      × (total ≤ length s.hs_buf)
      × (hs ≡ take total s.hs_buf)
      × (w ≡ s.offset)
unfolding scan_round finished take_record
round-complete s hs w e = elim (Option-cases s.declared_hs_len) [
  | inl n ↦ absurd (ground (arith, n))
  | inr (total, k) ↦ (total, k, ground (arith, k), ground (arith, k), ground (arith, k))
]

-- What is complete ends within the bytes that are there.
pub Scans-complete :
    {s : Scan} {hs : Bytes} {w : ℕ}
    → Scans s (complete hs w)
    → (s.offset ≤ w) × (w ≤ s.offset + length s.rest)
Scans-complete {s} {hs} {w} (stops e) =
    let (total, k, l, h, at) = round-complete s hs w e in ground arith
Scans-complete {s} {hs} {w} (steps {s'} e r) =
    let (d, p, same) = round-continues s s' e in
    let more = Scans-complete r in
    let past = ap (λ (t : Scan). t.offset) same in
    let left = round_shrinks s s' e in omega (arith, more, past, left)

-- Where a round asks for more, it is short of the bytes of the record at hand.
round-need :
    (s : Scan) (n : ℕ)
    → scan_round s ≡ returns (need_more_raw n)
    → (s.offset + length s.rest < n)
      × (finished s ≡ none)
      × ((n ≡ s.offset + 5) ⊎ ((5 ≤ length s.rest) × (n ≡ s.offset + (5 + record_len s.rest))))
unfolding scan_round finished take_record
round-need s n e = ground (arith, Option-cases s.declared_hs_len)

need-short : {s : Scan} {n : ℕ} → Scans s (need_more_raw n) → s.offset + length s.rest < n
need-short {s} {n} (stops e) = (round-need s n e).0
need-short {s} {n} (steps {s'} e r) = omega (arith, need-short r, round_shrinks s s' e)

complete-finished :
    (s : Scan) (hs : Bytes) (w : ℕ) → scan_round s ≡ returns (complete hs w) → finished s ≢ none
unfolding scan_round take_record
complete-finished s hs w e n = ground arith

need-le :
    {s : Scan} {n : ℕ} (more hs : Bytes) (w : ℕ)
    → Scans s (need_more_raw n)
    → Scans (longer s more) (complete hs w)
    → n ≤ w
unfolding finished
need-le {s} {n} more hs w (steps {s'} e r) r' =
    need-le more hs w r (Scans-next r' (round-longer-continues s s' more e))
need-le {s} {n} more hs w (stops e) (stops e') =
    let (short, unfinished, asks) = round-need s n e in
    absurd (complete-finished (longer s more) hs w e' unfinished)
need-le {s} {n} more hs w (stops e) (steps {s'} e' r') =
    let (short, unfinished, asks) = round-need s n e in
    let (d, p, same) = round-continues (longer s more) s' e' in
    let past = ap (λ (t : Scan). t.offset) same in
    let ends = Scans-complete r' in ground (arith, record_len-append s.rest more)

-- A scan that asks for `n` bytes has read fewer, and if it is complete with more of them, the
-- ClientHello takes `n` or more: no byte is waited for that is not part of it.
pub scan-need_more_raw :
    (raw more hs : Bytes) (n w : ℕ)
    → scan_handshake_records raw ≡ need_more_raw n
    → scan_handshake_records (raw ++ more) ≡ complete hs w
    → (length raw < n) × (n ≤ w)
scan-need_more_raw raw more hs n w h k =
    let r = subst (Scans (at_start raw)) h (scan-Scans raw) in
    let r' = subst (Scans (at_start (raw ++ more))) k (scan-Scans (raw ++ more)) in
    (omega (arith, need-short r), need-le more hs w r r')

-- What a scan finds complete ends within the bytes that it read.
pub scan-complete_le :
    (raw hs : Bytes) (w : ℕ) → scan_handshake_records raw ≡ complete hs w → w ≤ length raw
scan-complete_le raw hs w h =
    let r = subst (Scans (at_start raw)) h (scan-Scans raw) in omega (arith, Scans-complete r)

pub scan-nil : scan_handshake_records [] ≡ need_more_raw 5
unfolding scan_handshake_records scan_loop scan_round finished take_record
scan-nil = refl
