-- ===== src/Ingress.antt =====
-- src/ingress.rs: the PROXY v2 header that an ingress listener reads, and the load query that a
-- peer sends in one. A stream is the bytes that arrive within the time limit, and whether the
-- peer closes it behind them: a read that they do not fill fails at once on a closed stream and
-- runs into `tokio::time::timeout` on an open one. What is read on a failure is not returned,
-- since the connection is dropped then.
pub mod Reading
pub mod Forwarded
pub mod Exactness
pub mod Query
mod Tests
use symphony.Prelude.{
  length, get_or, take, drop, Bytes, u16_of, be16, eq_bytes, starts_with, Result, ◌>>=◌, ok_or, ok,
  err, ltb, leb, ◌==◌, if◌then◌else◌, ℕ, zero, suc, ◌+◌, ◌-◌, ◌*◌, ◌/◌, ◌%◌, min, Bool, not, ◌&&◌,
  ◌||◌, Option, none, some, List, [], ◌∷◌, ◌++◌,
}
use symphony.Net.{SocketAddr, v4, v6, to_canonical}
use symphony.Utf8.{is_utf8}

-- `SIGNATURE`, which src/upstream.rs repeats as `PROXY_V2_SIGNATURE`
abbrev pub signature : Bytes
signature = 0x0D ∷ 0x0A ∷ 0x0D ∷ 0x0A ∷ 0x00 ∷ 0x0D ∷ 0x0A ∷ 0x51 ∷ 0x55 ∷ 0x49 ∷ 0x54 ∷ 0x0A ∷ []

abbrev pub max_payload : ℕ
max_payload = 512

abbrev pub load_query_tlv : ℕ
load_query_tlv = 0xE3

abbrev pub max_query_names : ℕ
max_query_names = 64

abbrev pub max_name_len : ℕ
max_name_len = 253

abbrev pub max_local_payload : ℕ
max_local_payload = max_query_names * (3 + max_name_len)

-- b"PROXY "
abbrev v1_prefix : Bytes
v1_prefix = b'P' ∷ b'R' ∷ b'O' ∷ b'X' ∷ b'Y' ∷ b' ' ∷ []

pub data Header : Type 0 where
  proxy : SocketAddr → Header
  load_query : List (Option Bytes) → Header

pub data HeaderReject : Type 0 where
  invalid local v1 timeout : HeaderReject

pub data Command : Type 0 where
  proxy_command : ℕ → Command
  local_command : ℕ → Command

pub record Stream : Type 0 where
  pub arrived : Bytes
  pub closed : Bool

abbrev pub Read : Type 0 → Type 0
Read A = Result HeaderReject A

-- `read_exact`
pub read_exact : ℕ → Stream → Read (Bytes × Stream)
read_exact n s =
    if leb n (length s.arrived)
    then ok (take n s.arrived, record s { arrived = drop n s.arrived })
    else err (if s.closed then invalid else timeout)

pub address_len : ℕ → Option ℕ
address_len family =
    if family == 0x00
    then some 0
    else if family == 0x11
    then some 12
    else if family == 0x21
    then some 36
    else none

-- The `0x0` arm of the command in `parse_fixed`.
local_length : Option ℕ → ℕ → Read Command
local_length none len = err invalid
local_length (some addr_len) len =
    if leb addr_len len && leb len max_local_payload then ok (local_command len) else err invalid

-- What `parse_fixed` does with a PROXY command.
proxy_length : ℕ → ℕ → Read Command
proxy_length family len =
    let min : Option ℕ =
      if family == 0x11 then some 12 else if family == 0x21 then some 36 else none in
    elim min [
      | none ↦ err invalid
      | some least ↦
          if ltb len least || ltb max_payload len then err invalid else ok (proxy_command len)
    ]

-- The 16 fixed bytes.
pub parse_fixed : Bytes → Read Command
unfolding address_len local_length proxy_length
parse_fixed fixed =
    let len = u16_of (get_or fixed 14 0) (get_or fixed 15 0) in
    let family = get_or fixed 13 0 in
    let command = get_or fixed 12 0 % 16 in
    if starts_with v1_prefix fixed
    then err v1
    else if not (eq_bytes (take 12 fixed) signature) || not (get_or fixed 12 0 / 16 == 2)
    then err invalid
    else if command == 0x1
    then proxy_length family len
    else if command == 0x0
    then local_length (address_len family) len
    else err invalid

pub valid_name : Bytes → Option Bytes
valid_name value =
    if leb 1 (length value) && leb (length value) max_name_len
    then if is_utf8 value then some value else none
    else none

-- The loop of `parse_load_query`. A round takes three bytes at least, so the number of bytes is
-- fuel enough.
pub query_names : ℕ → Bytes → List (Option Bytes) → Read (List (Option Bytes))
query_names fuel [] names = ok names
query_names zero (kind ∷ tlvs) names = err invalid
query_names (suc fuel) (kind ∷ []) names = err invalid
query_names (suc fuel) (kind ∷ hi ∷ []) names = err invalid
query_names (suc fuel) (kind ∷ hi ∷ lo ∷ rest) names =
    let len = u16_of hi lo in
    let asked = kind == load_query_tlv in
    let names' = if asked then names ++ valid_name (take len rest) ∷ [] else names in
    let further = query_names fuel (drop len rest) names' in
    if not (leb len (length rest))
    then err invalid
    else if asked && length names == max_query_names
    then err invalid
    else further

-- A LOCAL header without names is the health check of the PROXY protocol.
some_names : List (Option Bytes) → Read (List (Option Bytes))
some_names [] = err local
some_names (name ∷ names) = ok (name ∷ names)

pub parse_load_query : ℕ → Bytes → Read (List (Option Bytes))
unfolding address_len query_names some_names
parse_load_query family payload = do
  addr_len ← ok_or (address_len family) invalid
  names ← query_names (length payload) (drop addr_len payload) []
  some_names names

pub parse_source : ℕ → Bytes → Read SocketAddr
parse_source family payload =
    let port = λ (at : ℕ). u16_of (get_or payload at 0) (get_or payload (at + 1) 0) in
    if family == 0x11
    then ok (record { ip = v4 (take 4 payload); port = port 8 })
    else if family == 0x21
    then ok (record { ip = to_canonical (v6 (take 16 payload)); port = port 32 })
    else err invalid

-- The loop over `discard`, 64 bytes at a time; each round takes one byte at least.
pub discard : ℕ → ℕ → Stream → Read Stream
discard zero tlvs s = if tlvs == 0 then ok s else err invalid
discard (suc fuel) tlvs s =
    let chunk = min tlvs 64 in
    let further = read_exact chunk s >>= λ (_, s'). discard fuel (tlvs - chunk) s' in
    if tlvs == 0 then ok s else further

-- The rest of `read_proxy_v2` behind the fixed bytes, for each command.
read_payload : ℕ → Command → Stream → Read (Header × Stream)
read_payload family (local_command len) s = do
  (payload, s') ← read_exact len s
  names ← parse_load_query family payload
  ok (load_query names, s')
read_payload family (proxy_command len) s = do
  let addr_len = if family == 0x11 then 12 else 36
  (addresses, s') ← read_exact addr_len s
  s'' ← discard (len - addr_len) (len - addr_len) s'
  source ← parse_source family addresses
  ok (proxy source, s'')

pub read_proxy_v2 : Stream → Read (Header × Stream)
unfolding read_payload
read_proxy_v2 s = do
  (fixed, s') ← read_exact 16 s
  command ← parse_fixed fixed
  read_payload (get_or fixed 13 0) command s'

-- One TLV of `encode_load_query`.
query_tlv : Bytes → Bytes
query_tlv name =
    let sent = if leb (length name) max_name_len then name else [] in
    load_query_tlv ∷ (be16 (length sent) ++ sent)

query_tlvs : List Bytes → Bytes
query_tlvs [] = []
query_tlvs (name ∷ names) = query_tlv name ++ query_tlvs names

pub encode_load_query : List Bytes → Bytes
unfolding query_tlvs query_tlv
encode_load_query names =
    let tlvs = query_tlvs names in signature ++ (0x20 ∷ 0x00 ∷ (be16 (length tlvs) ++ tlvs))

-- `names.chunks(n)`; each chunk takes one name at least.
pub chunks {ℓ} : {A : Type ℓ} → ℕ → ℕ → List A → List (List A)
chunks zero n xs = []
chunks (suc fuel) n [] = []
chunks (suc fuel) n (x ∷ xs) = take n (x ∷ xs) ∷ chunks fuel n (drop n (x ∷ xs))

pub load_query_chunks : List Bytes → List (List Bytes)
unfolding chunks
load_query_chunks names = chunks (length names) max_query_names names
