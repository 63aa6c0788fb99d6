-- ===== src/Ingress/Exactness.antt =====
-- src/ingress.rs: `read_proxy_v2` takes one header off the stream and nothing more, and reports
-- what it waits for when the stream falls short of one.
use symphony.Prelude.{
  length, get_or, take, drop, length-drop, drop-drop, Bytes, u16_of, ◌>>=◌, bind-eq-ok, ok, err,
  ◌==◌, if◌then◌else◌, le→leb, Bool-cases, ℕ, zero, suc, ◌+◌, ◌-◌, ◌≤◌, ◌<◌, min, ◌≡◌, refl, ap,
  inl, inr, Bool, Option, none, some, arith, dec_le,
}
use symphony.Ingress.{
  Stream, load_query, proxy, Header, Command, proxy_command, local_command, read_exact, discard,
  read_payload, read_proxy_v2, parse_fixed, local_length, proxy_length, address_len, max_payload,
  max_local_payload, parse_load_query, parse_source,
}
use symphony.Ingress.Reading.{stream, starved, read_exact-starved}

-- `s` with its first `n` bytes read.
abbrev pub advanced : ℕ → Stream → Stream
advanced n s = record s { arrived = drop n s.arrived }

read_exact-eq-ok :
    (n : ℕ) (s : Stream) (xs : Bytes) (s' : Stream)
    → read_exact n s ≡ ok (xs, s')
    → (n ≤ length s.arrived) × (xs ≡ take n s.arrived) × (s' ≡ advanced n s)
unfolding read_exact
read_exact-eq-ok n s xs s' h = ground arith

read_exact-le :
    (n : ℕ) (xs : Bytes) (closed : Bool)
    → n ≤ length xs
    → read_exact n (stream xs closed) ≡ ok (take n xs, stream (drop n xs) closed)
unfolding read_exact
read_exact-le n xs closed h = rw (le→leb n (length xs) h)

discard-eq-ok :
    (fuel n : ℕ) (s s' : Stream)
    → discard fuel n s ≡ ok s'
    → (n ≤ length s.arrived) × (s' ≡ advanced n s)
unfolding discard
discard-eq-ok zero n s s' h = ground arith
discard-eq-ok (suc fuel) n s s' h = elim (Bool-cases (n == 0)) [
  | inl done ↦ ground arith
  | inr more ↦
      let c = min n 64 in
      let (r, read, later) =
        bind-eq-ok (read_exact c s) (λ (_, t). discard fuel (n - c) t) (rw more at h) in
      let got = read_exact-eq-ok c s r.0 r.1 read in
      let left = discard-eq-ok fuel (n - c) r.1 s' later in
      ground (arith, length-drop c s.arrived, drop-drop c (n - c) s.arrived)
]

discard-starved :
    (fuel n : ℕ) (xs : Bytes) (closed : Bool)
    → n ≤ fuel
    → length xs < n
    → discard fuel n (stream xs closed) ≡ err (starved closed)
unfolding discard
discard-starved zero n xs closed h k = absurd (omega arith)
discard-starved (suc fuel) n xs closed h k =
    let c = min n 64 in
    ground (
      arith,
      read_exact-starved c xs closed,
      read_exact-le c xs closed,
      discard-starved fuel (n - c) (drop c xs) closed,
      length-drop c xs,
    )

-- The length that the fixed bytes announce.
abbrev pub declared : Bytes → ℕ
declared fixed = u16_of (get_or fixed 14 0) (get_or fixed 15 0)

abbrev pub proxy_addresses : ℕ → ℕ
proxy_addresses family = if family == 0x11 then 12 else 36

-- What an accepted command says of its length.
abbrev pub Declares : Bytes → Command → Type 0
Declares fixed (proxy_command len) =
    (len ≡ declared fixed) × (proxy_addresses (get_or fixed 13 0) ≤ len) × (len ≤ max_payload)
Declares fixed (local_command len) = (len ≡ declared fixed) × (len ≤ max_local_payload)

local_length-Declares :
    (fixed : Bytes) (o : Option ℕ) (command : Command)
    → local_length o (declared fixed) ≡ ok command
    → Declares fixed command
unfolding local_length
local_length-Declares fixed none command h = cc
local_length-Declares fixed (some n) command h = ground arith

proxy_length-Declares :
    (fixed : Bytes) (command : Command)
    → proxy_length (get_or fixed 13 0) (declared fixed) ≡ ok command
    → Declares fixed command
unfolding proxy_length
proxy_length-Declares fixed command h = ground arith

-- The command of accepted fixed bytes announces a length within the bounds of its kind.
pub parse_fixed-Declares :
    (fixed : Bytes) (command : Command) → parse_fixed fixed ≡ ok command → Declares fixed command
unfolding parse_fixed
parse_fixed-Declares fixed command h = ground (
  arith,
  proxy_length-Declares fixed command,
  local_length-Declares fixed (address_len (get_or fixed 13 0)) command,
)

abbrev command_len : Command → ℕ
command_len (proxy_command len) = len
command_len (local_command len) = len

-- Two reads in a row are one read of both lengths.
read_twice :
    (m n n' : ℕ) (s t u : Stream)
    → n ≡ n'
    → (m ≤ length s.arrived) × (t ≡ advanced m s)
    → (n ≤ length t.arrived) × (u ≡ advanced n t)
    → (m + n' ≤ length s.arrived) × (u ≡ advanced (m + n') s)
read_twice m n n' s t u e h k = ground (arith, length-drop m s.arrived, drop-drop m n s.arrived)

read_payload-eq-ok :
    (fixed : Bytes) (command : Command) (s : Stream) (header : Header) (s' : Stream)
    → Declares fixed command
    → read_payload (get_or fixed 13 0) command s ≡ ok (header, s')
    → (declared fixed ≤ length s.arrived) × (s' ≡ advanced (declared fixed) s)
unfolding read_payload
read_payload-eq-ok fixed (local_command len) s header s' d h =
    let family = get_or fixed 13 0 in
    let (r, read, later) =
      bind-eq-ok (read_exact len s)
        (λ (payload, t). parse_load_query family payload >>= λ names. ok (load_query names, t)) h in
    let got = read_exact-eq-ok len s r.0 r.1 read in ground arith
read_payload-eq-ok fixed (proxy_command len) s header s' d h =
    let family = get_or fixed 13 0 in
    let a = proxy_addresses family in
    let m = len - a in
    let (r, read, later) =
      bind-eq-ok (read_exact a s)
        (λ (addresses, t).
          discard m m t >>= λ t'. parse_source family addresses >>= λ ip. ok (proxy ip, t'))
        h in
    let got = read_exact-eq-ok a s r.0 r.1 read in
    let (t, skip, last) =
      bind-eq-ok (discard m m r.1) (λ t'. parse_source family r.0 >>= λ ip. ok (proxy ip, t'))
        later in
    let left = discard-eq-ok m m r.1 t skip in
    let both = read_twice a m m s r.1 t refl (got.0, got.2) left in ground arith

-- A header that is accepted is 16 bytes and as many more as its length field says, all of which
-- the stream held. They are off the stream afterwards, and nothing else is.
pub read_proxy_v2-eq-ok :
    (s : Stream) (header : Header) (s' : Stream)
    → read_proxy_v2 s ≡ ok (header, s')
    → let size = 16 + declared (take 16 s.arrived) in
      (size ≤ length s.arrived) × (s' ≡ advanced size s)
unfolding read_proxy_v2
read_proxy_v2-eq-ok s header s' h =
    let (r, read, later) =
      bind-eq-ok (read_exact 16 s)
        (λ (fixed, t). parse_fixed fixed >>= λ c. read_payload (get_or fixed 13 0) c t) h in
    let got = read_exact-eq-ok 16 s r.0 r.1 read in
    let (c, parsed, last) =
      bind-eq-ok (parse_fixed r.0) (λ c. read_payload (get_or r.0 13 0) c r.1) later in
    let rest = read_payload-eq-ok r.0 c r.1 header s' (parse_fixed-Declares r.0 c parsed) last in
    read_twice 16 (declared r.0) (declared (take 16 s.arrived)) s r.1 s' (ap declared got.1)
      (got.0, got.2) rest

read_payload-starved :
    (fixed : Bytes) (command : Command) (xs : Bytes) (closed : Bool)
    → Declares fixed command
    → length xs < declared fixed
    → read_payload (get_or fixed 13 0) command (stream xs closed) ≡ err (starved closed)
unfolding read_payload
read_payload-starved fixed (local_command len) xs closed d h =
    rw (read_exact-starved len xs closed (omega arith))
read_payload-starved fixed (proxy_command len) xs closed d h =
    let a = proxy_addresses (get_or fixed 13 0) in
    let m = len - a in
    ground (
      arith,
      read_exact-starved a xs closed,
      read_exact-le a xs closed,
      discard-starved m m (drop a xs) closed,
      length-drop a xs,
    )

-- Fixed bytes that are accepted do not end the wait: a stream that is short of the length they
-- announce is refused as invalid when it is closed, and as timed out when it is not.
pub read_proxy_v2-starved :
    (xs : Bytes) (closed : Bool) (command : Command)
    → parse_fixed (take 16 xs) ≡ ok command
    → length xs < 16 + declared (take 16 xs)
    → read_proxy_v2 (stream xs closed) ≡ err (starved closed)
unfolding read_proxy_v2
read_proxy_v2-starved xs closed command parsed short = elim (dec_le 16 (length xs)) [
  | yes enough ↦
      rw (read_exact-le 16 xs closed enough, parsed)
        (read_payload-starved (take 16 xs) command (drop 16 xs) closed
          (parse_fixed-Declares (take 16 xs) command parsed) (omega (arith, length-drop 16 xs)))
  | no few ↦ rw (read_exact-starved 16 xs closed (omega arith))
]
