-- ===== src/Sni/Fragments.antt =====
-- src/sni.rs: a ClientHello that comes in several records.
use symphony.Prelude.{
  length, get_or, take, drop, length-append, take-length, drop-length, drop-drop, get_or-append_lt,
  Bytes, be16, u16_of-be16, leb, if◌then◌else◌, le→leb, lt→leb, leb→le, Bool-cases, ℕ, ◌+◌, ◌≤◌,
  ◌<◌, ◌≡◌, refl, sym, ap, ◌∙◌, subst, inl, inr, Option, none, some, List, [], ◌∷◌, ◌++◌,
  append-nil, append_assoc, arith,
}
use symphony.Sni.Records.{
  complete, Scan, returns, continues, record_len, learn, finished, scan_round, declared,
  scan_handshake_records,
}
use symphony.Sni.Reassembly.{Scans, stops, steps, round-IsPassed, scan-eq-Scans}

-- A record of the handshake type, with its version bytes.
pub record Fragment : Type 0 where
  pub major : ℕ
  pub minor : ℕ
  pub payload : Bytes

-- A record in front of other bytes.
abbrev pub record_of : Fragment → Bytes → Bytes
record_of f rest = 0x16 ∷ f.major ∷ f.minor ∷ be16 (length f.payload) ++ (f.payload ++ rest)

abbrev pub framed : List Fragment → Bytes
framed [] = []
framed (f ∷ fs) = record_of f (framed fs)

abbrev pub payloads : List Fragment → Bytes
payloads [] = []
payloads (f ∷ fs) = f.payload ++ payloads fs

-- A record's payload is at most 65535 bytes.
abbrev pub AllFit : List Fragment → Type 0
AllFit [] = Unit {0}
AllFit (f ∷ fs) = (length f.payload < 65536) × AllFit fs

-- A handshake message: a ClientHello that is as long as its header says.
pub record IsHello (hs : Bytes) : Type 0 where
  pub has_header : 4 ≤ length hs
  pub client_hello : get_or hs 0 0 ≡ 1
  pub sized : declared hs ≡ length hs

-- What is known of the length, with these bytes of the message there.
abbrev known : Bytes → Option ℕ
known buf = if leb 4 (length buf) then some (declared buf) else none

get_or-prefix :
    (buf more hs extra : Bytes) (i : ℕ)
    → buf ++ more ≡ hs ++ extra
    → i < length buf
    → i < length hs
    → get_or buf i 0 ≡ get_or hs i 0
get_or-prefix buf more hs extra i e h k =
    sym (get_or-append_lt i buf more 0 h)
    ∙ ap (λ (l : Bytes). get_or l i 0) e
    ∙ get_or-append_lt i hs extra 0 k

declared-prefix :
    (buf more hs extra : Bytes)
    → buf ++ more ≡ hs ++ extra
    → IsHello hs
    → 4 ≤ length buf
    → declared buf ≡ length hs
declared-prefix buf more hs extra e hello h =
    rw
      (
        get_or-prefix buf more hs extra 1 e (omega arith) (omega (arith, hello.has_header)),
        get_or-prefix buf more hs extra 2 e (omega arith) (omega (arith, hello.has_header)),
        get_or-prefix buf more hs extra 3 e (omega arith) (omega (arith, hello.has_header)),
      )
      hello.sized

known-prefix :
    (buf more hs extra : Bytes)
    → buf ++ more ≡ hs ++ extra
    → IsHello hs
    → 4 ≤ length buf
    → known buf ≡ some (length hs)
known-prefix buf more hs extra e hello h =
    rw (le→leb 4 (length buf) h) (ap some (declared-prefix buf more hs extra e hello h))

learn-none :
    (buf more hs extra : Bytes)
    → buf ++ more ≡ hs ++ extra
    → IsHello hs
    → learn none buf ≡ some (known buf)
unfolding learn
learn-none [] more hs extra e hello = refl
learn-none (b ∷ buf) more hs extra e hello =
    let first : b ≡ get_or hs 0 0 =
      get_or-prefix (b ∷ buf) more hs extra 0 e (omega arith) (omega (arith, hello.has_header)) in
    ground (arith, first, hello.client_hello)

learn-some : (total : ℕ) (hs : Bytes) → learn (some total) hs ≡ some (some total)
unfolding learn
learn-some total hs = refl

-- Each payload teaches what is then known.
learn-known :
    (buf payload more hs extra : Bytes)
    → (buf ++ payload) ++ more ≡ hs ++ extra
    → IsHello hs
    → learn (known buf) (buf ++ payload) ≡ some (known (buf ++ payload))
learn-known buf payload more hs extra e hello = elim (Bool-cases (leb 4 (length buf))) [
  | inl h ↦
      let long = leb→le 4 (length buf) h in
      let e' = sym (append_assoc buf payload more) ∙ e in
      rw
        (
          known-prefix buf (payload ++ more) hs extra e' hello long,
          learn-some (length hs) (buf ++ payload),
          known-prefix (buf ++ payload) more hs extra e hello
              (omega (arith, length-append buf payload, long)),
        )
        refl
  | inr h ↦ rw h (learn-none (buf ++ payload) more hs extra e hello)
]

framed-append :
    (f : Fragment) (fs : List Fragment) (tail : Bytes)
    → framed (f ∷ fs) ++ tail ≡ record_of f (framed fs ++ tail)
framed-append f fs tail =
    ap (λ (l : Bytes). 0x16 ∷ f.major ∷ f.minor ∷ be16 (length f.payload) ++ l)
      (append_assoc f.payload (framed fs) tail)

-- The record that comes next is whole.
record_len-record_of :
    (f : Fragment) (rest : Bytes)
    → length f.payload < 65536
    → record_len (record_of f rest) ≡ length f.payload
record_len-record_of f rest h = u16_of-be16 (length f.payload) h

drop-record_of :
    (f : Fragment) (rest : Bytes) → drop (5 + length f.payload) (record_of f rest) ≡ rest
drop-record_of f rest =
    sym (drop-drop 5 (length f.payload) (record_of f rest)) ∙ drop-length f.payload rest

-- The scan, with `buf` taken out of the records so far.
abbrev amid : Bytes → ℕ → Bytes → Scan
amid rest offset buf = record {
  rest = rest;
  offset = offset;
  hs_buf = buf;
  declared_hs_len = known buf;
}

amid-unfinished :
    (rest buf more hs extra : Bytes) (offset : ℕ)
    → buf ++ more ≡ hs ++ extra
    → IsHello hs
    → length buf < length hs
    → finished (amid rest offset buf) ≡ none
unfolding finished
amid-unfinished rest buf more hs extra offset e hello h = elim (Bool-cases (leb 4 (length buf))) [
  | inl k ↦
      rw
        (
          known-prefix buf more hs extra e hello (leb→le 4 (length buf) k),
          finished,
          lt→leb (length hs) (length buf) h,
        )
        refl
  | inr k ↦ rw (k, finished) refl
]

amid-finished :
    (rest buf hs extra : Bytes) (offset : ℕ)
    → buf ≡ hs ++ extra
    → IsHello hs
    → scan_round (amid rest offset buf) ≡ returns (complete hs offset)
unfolding scan_round finished
amid-finished rest buf hs extra offset e hello =
    rw
      (
        known-prefix buf [] hs extra (append-nil buf ∙ e) hello
            (omega (arith, hello.has_header, ap length e, length-append hs extra)),
        scan_round,
        finished,
        le→leb (length hs) (length buf) (omega (arith, ap length e, length-append hs extra)),
      )
      (ap (λ (l : Bytes). returns (complete l offset))
        (ap (take (length hs)) e ∙ take-length hs extra))

-- A round takes the next record.
amid-next :
    (f : Fragment) (rest buf hs extra more : Bytes) (offset : ℕ)
    → (buf ++ f.payload) ++ more ≡ hs ++ extra
    → IsHello hs
    → length buf < length hs
    → length f.payload < 65536
    → scan_round (amid (record_of f rest) offset buf)
      ≡ continues (amid rest (offset + (5 + length f.payload)) (buf ++ f.payload))
amid-next f rest buf hs extra more offset e hello h fits =
    let size = record_len-record_of f rest fits in
    round-IsPassed (amid (record_of f rest) offset buf) (known (buf ++ f.payload)) (record {
      unfinished =
          amid-unfinished (record_of f rest) buf (f.payload ++ more) hs extra offset
            (sym (append_assoc buf f.payload more) ∙ e) hello h;
      handshake = refl;
      whole = omega (arith, size, length-append f.payload rest);
      learned =
          rw (size, take-length f.payload rest) (learn-known buf f.payload more hs extra e hello);
    })
    ∙ ap continues (rw (size, drop-record_of f rest, take-length f.payload rest) refl)

length-framed :
    (f : Fragment) (fs : List Fragment)
    → length (framed (f ∷ fs)) ≡ 5 + length f.payload + length (framed fs)
length-framed f fs = omega (arith, length-append f.payload (framed fs))

carry :
    (fs : List Fragment) (last : Fragment) (tail buf hs extra : Bytes) (offset : ℕ)
    → IsHello hs
    → AllFit (fs ++ last ∷ [])
    → buf ++ payloads (fs ++ last ∷ []) ≡ hs ++ extra
    → length (buf ++ payloads fs) < length hs
    → Scans
        (amid (framed (fs ++ last ∷ []) ++ tail) offset buf)
        (complete hs (offset + length (framed (fs ++ last ∷ []))))
carry [] last tail buf hs extra offset hello fits e h =
    let all : (buf ++ last.payload) ++ [] ≡ hs ++ extra = append_assoc buf last.payload [] ∙ e in
    let short : length buf < length hs = omega (arith, h, length-append buf []) in
    let end : offset + (5 + length last.payload) ≡ offset + length (framed (last ∷ [])) =
      omega (arith, length-framed last []) in
    rw (framed-append last [] tail) (
      steps (amid-next last tail buf hs extra [] offset all hello short fits.0) (
        subst
          (λ w.
            Scans (amid tail (offset + (5 + length last.payload)) (buf ++ last.payload))
              (complete hs w))
          end
          (stops (
            amid-finished tail (buf ++ last.payload) hs extra (offset + (5 + length last.payload))
              (sym (append-nil (buf ++ last.payload)) ∙ all) hello))))
carry (f ∷ fs) last tail buf hs extra offset hello fits e h =
    let others = fs ++ last ∷ [] in
    let all = append_assoc buf f.payload (payloads others) ∙ e in
    let shorter = append_assoc buf f.payload (payloads fs) in
    let end : offset + (5 + length f.payload) + length (framed others)
        ≡ offset + length (framed (f ∷ others)) =
      omega (arith, length-framed f others) in
    rw (framed-append f others tail) (
      steps
        (amid-next f (framed others ++ tail) buf hs extra (payloads others) offset all hello
          (omega (arith, h, length-append buf (payloads (f ∷ fs)))) fits.0)
        (subst
          (λ w.
            Scans
              (amid (framed others ++ tail) (offset + (5 + length f.payload)) (buf ++ f.payload))
              (complete hs w))
          end
          (carry fs last tail (buf ++ f.payload) hs extra (offset + (5 + length f.payload)) hello
            fits.1 all (rw shorter h))))

-- However a ClientHello is split over records, and whatever follows it in the last of them and
-- behind, the scan gives it back whole, and the bytes up to the end of the record that completes
-- it. Only the last record reaches its end.
pub scan-framed :
    (hs extra tail : Bytes) (fs : List Fragment) (last : Fragment)
    → IsHello hs
    → AllFit (fs ++ last ∷ [])
    → payloads (fs ++ last ∷ []) ≡ hs ++ extra
    → length (payloads fs) < length hs
    → scan_handshake_records (framed (fs ++ last ∷ []) ++ tail)
      ≡ complete hs (length (framed (fs ++ last ∷ [])))
scan-framed hs extra tail fs last hello fits e h =
    scan-eq-Scans (carry fs last tail [] hs extra 0 hello fits e h) ∙ ap (complete hs) (omega arith)
