-- ===== src/Ingress/Reading.antt =====
-- src/ingress.rs: reads of a stream that holds the bytes asked for, and of one that does not.
use symphony.Prelude.{
  length, take, drop, length-append, length-drop, take-length, drop-length, take-append_le,
  drop-append_le, Bytes, ok, err, if◌then◌else◌, le→leb, lt→leb, ℕ, zero, suc, ◌-◌, ◌≤◌, ◌<◌, min,
  ◌≡◌, Bool, [], ◌∷◌, ◌++◌, arith,
}
use symphony.Ingress.{Stream, HeaderReject, invalid, timeout, read_exact, discard}

abbrev pub stream : Bytes → Bool → Stream
stream bytes closed = record { arrived = bytes; closed = closed }

-- What a read reports that the stream does not fill.
abbrev pub starved : Bool → HeaderReject
starved closed = if closed then invalid else timeout

pub read_exact-within :
    (n : ℕ) (xs rest : Bytes) (closed : Bool)
    → n ≤ length xs
    → read_exact n (stream (xs ++ rest) closed) ≡ ok (take n xs, stream (drop n xs ++ rest) closed)
unfolding read_exact
read_exact-within n xs rest closed h = rw (
  le→leb n (length (xs ++ rest)) (omega (arith, length-append xs rest)),
  take-append_le n xs rest h,
  drop-append_le n xs rest h,
)

pub read_exact-append :
    (n : ℕ) (xs rest : Bytes) (closed : Bool)
    → length xs ≡ n
    → read_exact n (stream (xs ++ rest) closed) ≡ ok (xs, stream rest closed)
unfolding read_exact
read_exact-append n xs rest closed h = rw (
  ← h,
  le→leb (length xs) (length (xs ++ rest)) (omega (arith, length-append xs rest)),
  take-length xs rest,
  drop-length xs rest,
)

pub read_exact-starved :
    (n : ℕ) (xs : Bytes) (closed : Bool)
    → length xs < n
    → read_exact n (stream xs closed) ≡ err (starved closed)
unfolding read_exact
read_exact-starved n xs closed h = rw (lt→leb n (length xs) h)

pub discard-append :
    (fuel n : ℕ) (xs rest : Bytes) (closed : Bool)
    → length xs ≡ n
    → n ≤ fuel
    → discard fuel n (stream (xs ++ rest) closed) ≡ ok (stream rest closed)
unfolding discard
discard-append zero n [] rest closed h k = ground arith
discard-append zero n (x ∷ xs) rest closed h k = absurd (omega arith)
discard-append (suc fuel) n [] rest closed h k = ground arith
discard-append (suc fuel) n (x ∷ xs) rest closed h k =
    let c = min n 64 in
    ground (
      arith,
      read_exact-within c (x ∷ xs) rest closed (omega arith),
      discard-append fuel (n - c) (drop c (x ∷ xs)) rest closed
          (omega (arith, length-drop c (x ∷ xs))) (omega arith),
    )
