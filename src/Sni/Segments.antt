-- ===== src/Sni/Segments.antt =====
-- src/sni.rs: what is peeked at does not depend on how the bytes arrive.
use symphony.Prelude.{
  length, take, drop, replicate, length-take, take-append-drop, Bytes, ℕ, zero, suc, ◌+◌, ◌≤◌, ◌<◌,
  max, ◌≡◌, refl, sym, ap, ◌∙◌, ◌≢◌, ◌⊎◌, inl, inr, true, some, List, [], ◌∷◌, ◌++◌, map,
  append-nil, append_assoc, arith,
}
use symphony.Sni.Records.{
  RecordScan, invalid, need_more_raw, complete, scan_handshake_records, wrap_as_record,
}
use symphony.Sni.Prefixes.{scan-append, scan-need_more_raw, scan-complete_le, scan-nil}
use symphony.Sni.Peek.{
  max_client_hello, initial_peek, Poll, arrived, failed, seen, buffered, peek_reassemble,
}

abbrev pub IsPrefix : Bytes → Bytes → Type 0
IsPrefix bytes wire = (rest : Bytes) × (wire ≡ bytes ++ rest)

-- Every poll sees a beginning of the same bytes.
abbrev pub AllOf : Bytes → List Poll → Type 0
AllOf wire [] = Unit {0}
AllOf wire (failed ∷ polls) = AllOf wire polls
AllOf wire (arrived bytes ∷ polls) = IsPrefix bytes wire × AllOf wire polls

IsPrefix-take : (n : ℕ) (bytes wire : Bytes) → IsPrefix bytes wire → IsPrefix (take n bytes) wire
IsPrefix-take n bytes wire (rest, e) = (
  drop n bytes ++ rest,
  e
      ∙ ap (λ (l : Bytes). l ++ rest) (sym (take-append-drop n bytes))
      ∙ append_assoc (take n bytes) (drop n bytes) rest,
)

scan-IsPrefix :
    (raw wire hs : Bytes) (w : ℕ)
    → IsPrefix raw wire
    → scan_handshake_records raw ≡ complete hs w
    → scan_handshake_records wire ≡ complete hs w
scan-IsPrefix raw wire hs w (rest, e) h = rw e (scan-append raw rest (rw h tt) ∙ h)

scan-cases :
    (v : RecordScan)
    → (v ≡ invalid)
      ⊎ (((hs : Bytes) × (w : ℕ) × (v ≡ complete hs w)) ⊎ ((n : ℕ) × (v ≡ need_more_raw n)))
scan-cases invalid = inl refl
scan-cases (complete hs w) = inr (inl (hs, w, refl))
scan-cases (need_more_raw n) = inr (inr (n, refl))

-- A ClientHello that is peeked at whole is the one that the scan of the whole stream finds, however
-- its bytes arrived.
pub peek_reassemble-scan :
    (polls : List Poll) (wire buf : Bytes) (size w : ℕ)
    → AllOf wire polls
    → peek_reassemble size polls ≡ buffered buf (some w)
    → (hs : Bytes) × (scan_handshake_records wire ≡ complete hs w) × (buf ≡ wrap_as_record hs)
unfolding peek_reassemble
peek_reassemble-scan [] wire buf size w all h = cc
peek_reassemble-scan (failed ∷ polls) wire buf size w all h = cc
peek_reassemble-scan (arrived bytes ∷ polls) wire buf size w all h =
    elim (scan-cases (scan_handshake_records (take size bytes))) [
      | inl e ↦ absurd (ground arith)
      | inr (inl (hs, w', e)) ↦
          let same : (w' ≡ w) × (buf ≡ wrap_as_record hs) = ground arith in
          (
            hs,
            scan-IsPrefix (take size bytes) wire hs w (IsPrefix-take size bytes wire all.0)
                (e ∙ ap (complete hs) same.0),
            same.1,
          )
      | inr (inr (n, e)) ↦ peek_reassemble-scan polls wire buf (max size n) w all.1 (ground arith)
    ]

-- Bytes that make a whole ClientHello of at most 16 KiB, seen by enough polls.
pub record IsWhole (wire hs : Bytes) (w : ℕ) : Type 0 where
  pub scanned : scan_handshake_records wire ≡ complete hs w
  pub within : w ≤ max_client_hello

whole-le : {wire hs : Bytes} {w : ℕ} → IsWhole wire hs w → w ≤ length wire
whole-le {wire} {hs} {w} whole = scan-complete_le wire hs w whole.scanned

invalid-ne-complete : {hs : Bytes} {w : ℕ} → invalid ≢ complete hs w
invalid-ne-complete e = cc

-- A prefix that is scanned is the whole ClientHello already, or asks for more of it.
scan-within :
    (raw wire hs : Bytes) (w : ℕ)
    → IsWhole wire hs w
    → IsPrefix raw wire
    → (scan_handshake_records raw ≡ complete hs w)
      ⊎ ((n : ℕ) × (scan_handshake_records raw ≡ need_more_raw n) × (length raw < n) × (n ≤ w))
scan-within raw wire hs w whole (rest, e) =
    let scanned = ap scan_handshake_records (sym e) ∙ whole.scanned in
    elim (scan-cases (scan_handshake_records raw)) [
      | inl i ↦
          absurd (invalid-ne-complete (sym i ∙ sym (scan-append raw rest (rw i tt)) ∙ scanned))
      | inr (inl (hs', w', c)) ↦ inl (sym (scan-append raw rest (rw c tt)) ∙ scanned)
      | inr (inr (n, c)) ↦
          let (short, fits) = scan-need_more_raw raw rest hs n w c scanned in
          inr (n, c, short, fits)
    ]

seen-eq-true : (raw : Bytes) → 0 < length raw → seen raw ≡ true
seen-eq-true [] h = absurd (omega arith)
seen-eq-true (b ∷ raw) h = refl

complete-seen :
    (raw hs : Bytes) (w : ℕ) → scan_handshake_records raw ≡ complete hs w → seen raw ≡ true
complete-seen [] hs w h = absurd (ground (arith, scan-nil))
complete-seen (b ∷ raw) hs w h = refl

poll-complete :
    (size w : ℕ) (bytes hs : Bytes) (polls : List Poll)
    → scan_handshake_records (take size bytes) ≡ complete hs w
    → peek_reassemble size (arrived bytes ∷ polls) ≡ buffered (wrap_as_record hs) (some w)
unfolding peek_reassemble
poll-complete size w bytes hs polls h = ground (arith, complete-seen (take size bytes) hs w h)

poll-need :
    (size n : ℕ) (bytes : Bytes) (polls : List Poll)
    → scan_handshake_records (take size bytes) ≡ need_more_raw n
    → 0 < length (take size bytes)
    → n ≤ max_client_hello
    → peek_reassemble size (arrived bytes ∷ polls) ≡ peek_reassemble (max size n) polls
unfolding peek_reassemble
poll-need size n bytes polls h some_bytes fits =
    ground (arith, seen-eq-true (take size bytes) some_bytes)

whole-IsPrefix : (size : ℕ) (wire : Bytes) → IsPrefix (take size wire) wire
whole-IsPrefix size wire = IsPrefix-take size wire wire ([], sym (append-nil wire))

-- Once the whole is there, each poll that does not complete it has a longer buffer.
peek-settled :
    (k size : ℕ) {wire hs : Bytes} {w : ℕ}
    → IsWhole wire hs w
    → 0 < size
    → w ≤ size + k
    → peek_reassemble size (replicate (suc k) (arrived wire))
      ≡ buffered (wrap_as_record hs) (some w)
peek-settled zero size {wire} {hs} {w} whole some_size enough =
    let bytes = length-take size wire in
    let long = whole-le whole in
    elim (scan-within (take size wire) wire hs w whole (whole-IsPrefix size wire)) [
      | inl c ↦ poll-complete size w wire hs [] c
      | inr (n, c, short, fits) ↦ absurd (omega arith)
    ]
peek-settled (suc k) size {wire} {hs} {w} whole some_size enough =
    let bytes = length-take size wire in
    let long = whole-le whole in
    elim (scan-within (take size wire) wire hs w whole (whole-IsPrefix size wire)) [
      | inl c ↦ poll-complete size w wire hs (replicate (suc k) (arrived wire)) c
      | inr (n, c, short, fits) ↦
          poll-need size n wire (replicate (suc k) (arrived wire)) c (omega arith)
            (omega (arith, whole.within))
          ∙ peek-settled k (max size n) whole (omega arith) (omega arith)
    ]

-- Each of these is a beginning of the bytes, and not an empty one.
abbrev pub AllBegin : Bytes → List Bytes → Type 0
AllBegin wire [] = Unit {0}
AllBegin wire (bytes ∷ earlier) = IsPrefix bytes wire × (0 < length bytes) × AllBegin wire earlier

peek-begun :
    (earlier : List Bytes) (k size : ℕ) {wire hs : Bytes} {w : ℕ}
    → IsWhole wire hs w
    → AllBegin wire earlier
    → 0 < size
    → w ≤ size + k
    → peek_reassemble size (map arrived earlier ++ replicate (suc k) (arrived wire))
      ≡ buffered (wrap_as_record hs) (some w)
peek-begun [] k size whole begin some_size enough = peek-settled k size whole some_size enough
peek-begun (bytes ∷ earlier) k size {wire} {hs} {w} whole begin some_size enough =
    let later = map arrived earlier ++ replicate (suc k) (arrived wire) in
    let got = length-take size bytes in
    elim (scan-within (take size bytes) wire hs w whole (IsPrefix-take size bytes wire begin.0)) [
      | inl c ↦ poll-complete size w bytes hs later c
      | inr (n, c, short, fits) ↦
          poll-need size n bytes later c (omega (arith, begin.1)) (omega (arith, whole.within))
          ∙ peek-begun earlier k (max size n) whole begin.2 (omega arith) (omega arith)
    ]

-- A whole ClientHello of at most 16 KiB is peeked at whole: polls that see a beginning of it, in
-- pieces of any size, lose nothing, and once it has arrived, the buffer grows to it within as many
-- polls as it has bytes over the first 4 KiB, and one more.
pub peek_reassemble-whole :
    (earlier : List Bytes) (k : ℕ) {wire hs : Bytes} {w : ℕ}
    → IsWhole wire hs w
    → AllBegin wire earlier
    → w ≤ initial_peek + k
    → peek_reassemble initial_peek (map arrived earlier ++ replicate (suc k) (arrived wire))
      ≡ buffered (wrap_as_record hs) (some w)
peek_reassemble-whole earlier k whole begin enough =
    peek-begun earlier k initial_peek whole begin (omega arith) enough
