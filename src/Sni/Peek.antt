-- ===== src/Sni/Peek.antt =====
-- src/sni.rs: peeking until the ClientHello is there. `poll` is one `stream.peek`: the bytes that
-- have arrived by then, from the start of the stream, or an error. The polls are those within the
-- timeout, so that the end of the list is the timeout.
use symphony.Prelude.{
  take, Bytes, ltb, if◌then◌else◌, ℕ, max, Bool, true, false, not, Option, none, some, List, [],
  ◌∷◌,
}
use symphony.Sni.Records.{invalid, need_more_raw, complete, scan_handshake_records, wrap_as_record}

abbrev pub max_client_hello : ℕ
max_client_hello = 16384

abbrev pub initial_peek : ℕ
initial_peek = 4096

pub data Poll : Type 0 where
  arrived : Bytes → Poll
  failed : Poll

abbrev pub seen : Bytes → Bool
seen [] = false
seen (b ∷ bytes) = true

-- What `peek_reassemble` returns: `timed_out` where the timeout ends it, and `buffered` with the
-- bytes to parse and, of a whole ClientHello, its length on the wire.
pub data Reassembly : Type 0 where
  timed_out : Reassembly
  no_hello : Reassembly
  buffered : Bytes → Option ℕ → Reassembly

-- `size` is the length of the buffer.
unfoldable pub peek_reassemble : ℕ → List Poll → Reassembly
peek_reassemble size [] = timed_out
peek_reassemble size (failed ∷ polls) = no_hello
peek_reassemble size (arrived bytes ∷ polls) =
    let raw = take size bytes in
    if not (seen raw) then no_hello else elim (scan_handshake_records raw) [
      | invalid ↦ no_hello
      | complete hs wire_len ↦ buffered (wrap_as_record hs) (some wire_len)
      | need_more_raw target ↦
          let later = peek_reassemble (max size target) polls in
          if ltb max_client_hello target then buffered raw none else later
    ]
