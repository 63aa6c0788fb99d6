-- ===== src/Ingress/Query.antt =====
-- src/ingress.rs: what a receiver reads from an encoded load query.
use symphony.Prelude.{
  length, length-append, take-length, drop-length, Bytes, be16, u16_of-be16, ok, leb, if◌then◌else◌,
  le→leb, ℕ, zero, suc, ◌+◌, ◌*◌, ◌≤◌, ◌<◌, ◌≡◌, refl, ap, ◌∙◌, Bool, true, ◌&&◌, Option, none,
  some, List, [], ◌∷◌, ◌++◌, map, append-nil, append_assoc, arith,
}
use symphony.Utf8.{is_utf8}
use symphony.Ingress.{
  load_query, local_command, query_names, query_tlv, query_tlvs, read_proxy_v2, valid_name,
  max_name_len, max_query_names, encode_load_query, parse_load_query, max_local_payload,
  parse_fixed, signature,
}
use symphony.Ingress.Reading.{stream, read_exact-append}

-- The names of a query are `&str`.
abbrev pub AllUtf8 : List Bytes → Type 0
AllUtf8 [] = Unit {0}
AllUtf8 (name ∷ names) = (is_utf8 name ≡ true) × AllUtf8 names

-- What the receiver makes of a name: an empty or an oversized one is not available.
abbrev pub heard : Bytes → Option Bytes
heard name = if leb 1 (length name) && leb (length name) max_name_len then some name else none

abbrev sent : Bytes → Bytes
sent name = if leb (length name) max_name_len then name else []

length-sent-le : (name : Bytes) → length (sent name) ≤ 253
length-sent-le name = ground arith

valid_name-sent : (name : Bytes) → is_utf8 name ≡ true → valid_name (sent name) ≡ heard name
unfolding valid_name
valid_name-sent name h = ground arith

length-query_tlvs-le : (names : List Bytes) → length (query_tlvs names) ≤ 256 * length names
unfolding query_tlvs query_tlv
length-query_tlvs-le [] = omega arith
length-query_tlvs-le (name ∷ names) = omega (
  arith,
  length-append (sent name) (query_tlvs names),
  length-sent-le name,
  length-query_tlvs-le names,
)

-- One TLV is read as one name, whatever follows it.
query_names-query_tlv :
    (fuel : ℕ) (name rest : Bytes) (names : List (Option Bytes))
    → is_utf8 name ≡ true
    → length names < max_query_names
    → query_names (suc fuel) (query_tlv name ++ rest) names
      ≡ query_names fuel rest (names ++ heard name ∷ [])
unfolding query_names query_tlv
query_names-query_tlv fuel name rest names utf8 room =
    rw
      (
        u16_of-be16 (length (sent name)) (omega (arith, length-sent-le name)),
        take-length (sent name) rest,
        drop-length (sent name) rest,
        valid_name-sent name utf8,
        le→leb (length (sent name)) (length (sent name ++ rest))
            (omega (arith, length-append (sent name) rest)),
      )
      (ground arith)

length-query_tlv-append : (name rest : Bytes) → 3 + length rest ≤ length (query_tlv name ++ rest)
unfolding query_tlv
length-query_tlv-append name rest = omega (arith, length-append (sent name) rest)

length-concat {ℓ} : {A : Type ℓ} (xs : List A) (x : A) → length (xs ++ x ∷ []) ≡ length xs + 1
length-concat xs x = omega (arith, length-append xs (x ∷ []))

query_names-query_tlvs :
    (fuel : ℕ) (names : List Bytes) (before : List (Option Bytes))
    → AllUtf8 names
    → length before + length names ≤ max_query_names
    → length (query_tlvs names) ≤ fuel
    → query_names fuel (query_tlvs names) before ≡ ok (before ++ map heard names)
unfolding query_tlvs
query_names-query_tlvs zero [] before utf8 room fits = unfold query_names in rw (append-nil before)
query_names-query_tlvs (suc fuel) [] before utf8 room fits =
    unfold query_names in rw (append-nil before)
query_names-query_tlvs zero (name ∷ names) before utf8 room fits =
    absurd (omega (arith, length-query_tlv-append name (query_tlvs names)))
query_names-query_tlvs (suc fuel) (name ∷ names) before utf8 room fits =
    query_names-query_tlv fuel name (query_tlvs names) before utf8.0 (omega arith)
    ∙ query_names-query_tlvs fuel names (before ++ heard name ∷ []) utf8.1
        (omega (arith, length-concat before (heard name)))
        (omega (arith, length-query_tlv-append name (query_tlvs names)))
    ∙ ap ok (append_assoc before (heard name ∷ []) (map heard names))

-- The fixed bytes of a query.
abbrev query_fixed : ℕ → Bytes
query_fixed len = signature ++ (0x20 ∷ 0x00 ∷ be16 len)

parse_fixed-query_fixed :
    (len : ℕ) → len ≤ max_local_payload → parse_fixed (query_fixed len) ≡ ok (local_command len)
unfolding parse_fixed
parse_fixed-query_fixed len h = rw (u16_of-be16 len (omega arith)) (ground arith)

parse_load_query-query_tlvs :
    (name : Bytes) (names : List Bytes)
    → AllUtf8 (name ∷ names)
    → length names < max_query_names
    → parse_load_query 0 (query_tlvs (name ∷ names)) ≡ ok (map heard (name ∷ names))
unfolding parse_load_query
parse_load_query-query_tlvs name names utf8 room =
    let all = name ∷ names in
    rw (query_names-query_tlvs (length (query_tlvs all)) all [] utf8 (omega arith) (omega arith))

-- A load query of 1 to 64 names is read back whole from any stream that begins with it: one answer
-- slot for each name, in order, and `None` for a name that is empty or longer than 253 bytes. The
-- bytes behind it stay unread.
pub read_proxy_v2-encode_load_query :
    (name : Bytes) (names : List Bytes) (rest : Bytes) (closed : Bool)
    → AllUtf8 (name ∷ names)
    → length names < max_query_names
    → read_proxy_v2 (stream (encode_load_query (name ∷ names) ++ rest) closed)
      ≡ ok (load_query (map heard (name ∷ names)), stream rest closed)
unfolding read_proxy_v2 encode_load_query
read_proxy_v2-encode_load_query name names rest closed utf8 room =
    let all = name ∷ names in
    let tlvs = query_tlvs all in
    let len = length tlvs in
    rw (
      read_exact-append 16 (query_fixed len) (tlvs ++ rest) closed refl,
      parse_fixed-query_fixed len (omega (arith, length-query_tlvs-le all)),
      read_exact-append len tlvs rest closed refl,
      parse_load_query-query_tlvs name names utf8 room,
    )
