-- ===== src/Sni/Whole.antt =====
-- src/sni.rs: from the records of a ClientHello to what is learned from it.
use symphony.Prelude.{
  length, replicate, length-append, Bytes, be16, ℕ, suc, ◌+◌, ◌*◌, ◌/◌, ◌%◌, ◌≤◌, ◌<◌, ◌≡◌, refl,
  ap, ◌∙◌, true, some, List, [], ◌∷◌, ◌++◌, map, arith,
}
use symphony.Sni.{PeekInfo}
use symphony.Sni.Records.{wrap_as_record}
use symphony.Sni.Fragments.{Fragment, framed, payloads, AllFit, IsHello, scan-framed}
use symphony.Sni.HelloRoundTrip.{Fields, IsFields, lists, body, message, parse_client_hello-message}
use symphony.Sni.Peek.{max_client_hello, initial_peek, arrived, buffered}
use symphony.Sni.Segments.{IsWhole, AllBegin, peek_reassemble-whole}
use symphony.Sni.Hello.{ClientHello, parse_client_hello as parse_hello}
use symphony.Sni.Info.{info_of, parse_client_hello, peeked, peek}

length-body :
    (f : Fields)
    → length (body f)
      ≡ 8
        + length f.random
        + length f.session_id
        + length f.hello.cipher_suites
        + length f.compression
        + length f.hello.extensions
length-body f =
    let exts = be16 (length f.hello.extensions) ++ f.hello.extensions in
    omega (
      arith,
      length-append f.compression exts,
      length-append f.hello.cipher_suites (length f.compression ∷ (f.compression ++ exts)),
      length-append f.session_id (lists f),
      length-append f.random (length f.session_id ∷ (f.session_id ++ lists f)),
    )

declared_sized :
    (n : ℕ) → n < 16777216 → 4 + (n / 65536 % 256 * 65536 + n / 256 % 256 * 256 + n % 256) ≡ 4 + n
declared_sized n h = omega arith

message-IsHello : (f : Fields) → IsFields f → IsHello (message f)
message-IsHello f h = record {
  has_header = omega arith;
  client_hello = refl;
  sized =
      declared_sized (length (body f)) (omega (arith, length-body f, h.random_sized)) ∙ omega arith;
}

-- How a client sends its ClientHello: split over records, `last` being the one that completes it,
-- with other bytes behind.
pub record Sent : Type 0 where
  pub fields : Fields
  pub extra : Bytes
  pub fragments : List Fragment
  pub last : Fragment
  pub tail : Bytes

abbrev pub records : Sent → Bytes
records c = framed (c.fragments ++ c.last ∷ [])

abbrev pub wire : Sent → Bytes
wire c = records c ++ c.tail

pub record IsSent (c : Sent) : Type 0 where
  pub fields_fit : IsFields c.fields
  pub records_fit : AllFit (c.fragments ++ c.last ∷ [])
  pub carried : payloads (c.fragments ++ c.last ∷ []) ≡ message c.fields ++ c.extra
  pub completed_last : length (payloads c.fragments) < length (message c.fields)
  pub within : length (records c) ≤ max_client_hello

wire-IsWhole : (c : Sent) → IsSent c → IsWhole (wire c) (message c.fields) (length (records c))
wire-IsWhole c s = record {
  scanned =
      scan-framed (message c.fields) c.extra c.tail c.fragments c.last
        (message-IsHello c.fields s.fields_fit) s.records_fit s.carried s.completed_last;
  within = s.within;
}

module _ (md5 sha256 : Bytes → Bytes) where
  parse_client_hello-some :
      (buf : Bytes) (hello : ClientHello)
      → parse_hello buf ≡ some hello
      → parse_client_hello md5 sha256 buf ≡ info_of md5 sha256 hello
  unfolding parse_client_hello
  parse_client_hello-some buf hello h = rw (h, parse_client_hello) refl

  peeked-buffered :
      (buf : Bytes) (n : ℕ) (hello : ClientHello)
      → parse_hello buf ≡ some hello
      → peeked md5 sha256 (buffered buf (some n))
        ≡ record (info_of md5 sha256 hello) { complete = true; hello_len = n }
  unfolding peeked
  peeked-buffered buf n hello h =
      ap (λ (i : PeekInfo). record i { complete = true; hello_len = n })
        (parse_client_hello-some buf hello h)

  -- What is learned from a stream on which a client sends a ClientHello of at most 16 KiB with its
  -- record headers: its own fields, whatever records it is split over and in whatever pieces the
  -- bytes arrive, once enough polls have seen it; and the length to read it off the stream.
  pub peek-sent :
      (c : Sent) (earlier : List Bytes) (k : ℕ)
      → IsSent c
      → AllBegin (wire c) earlier
      → length (records c) ≤ initial_peek + k
      → peek md5 sha256 (map arrived earlier ++ replicate (suc k) (arrived (wire c)))
        ≡ record (info_of md5 sha256 c.fields.hello) {
          complete = true;
          hello_len = length (records c);
        }
  unfolding peek
  peek-sent c earlier k s begin enough =
      ap (peeked md5 sha256) (peek_reassemble-whole earlier k (wire-IsWhole c s) begin enough)
      ∙ peeked-buffered (wrap_as_record (message c.fields)) (length (records c)) c.fields.hello
          (parse_client_hello-message c.fields s.fields_fit)
