-- ===== src/Sni/Tests.antt =====
-- src/sni.rs: a ClientHello in two records, and the theorems applied to it.
use symphony.Prelude.{
  length, take, drop, replicate, Bytes, suc, ◌≡◌, refl, true, some, List, [], ◌∷◌, arith,
}
use symphony.Utf8.{is_utf8}
use symphony.Sni.Records.{
  invalid, complete, learn, finished, take_record, scan_round, scan_loop, at_start,
  scan_handshake_records, wrap_as_record,
}
use symphony.Sni.Reassembly.{scan_loop-total}
use symphony.Sni.Fragments.{IsHello, scan-framed}
use symphony.Sni.Parser.{read_u8, read_u16, read_u24, read_bytes, skip, next_extension}
use symphony.Sni.Hello.{guard, read_extensions, parse_client_hello as parse_hello}
use symphony.Sni.HelloRoundTrip.{message, parse_client_hello-message}
use symphony.Sni.Peek.{Poll, arrived, buffered, initial_peek, peek_reassemble}
use symphony.Sni.Segments.{IsWhole, peek_reassemble-scan, peek_reassemble-whole}
use symphony.Sni.ServerName.{
  trim_dots, mentions, host_name, next_name, names_loop, server_name, sni_loop, extract_sni,
}
use symphony.Sni.Ja3.{u16s, skip_grease, extensions_loop, fingerprinted}
use symphony.Sni.Info.{info_of, peek}
use symphony.Sni.Whole.{records, wire, peek-sent}
use symphony.Sni.Samples.{name, hello, hello-IsFields, sent, sent-IsSent}

program : Unit {0}
unfolding is_utf8 learn finished take_record scan_round scan_loop scan_handshake_records
    wrap_as_record read_u8 read_u16 read_u24 read_bytes skip next_extension guard read_extensions
    parse_hello peek_reassemble trim_dots mentions host_name next_name names_loop server_name
    sni_loop extract_sni u16s skip_grease extensions_loop fingerprinted
program = tt

name_is_extracted : extract_sni hello.hello.extensions ≡ some name
unfolding program
name_is_extracted = refl

hello_is_scanned :
    scan_handshake_records (wire sent) ≡ complete (message hello) (length (records sent))
unfolding program
hello_is_scanned = refl

plain_http_is_refused : scan_handshake_records (b'G' ∷ []) ≡ invalid
unfolding program
plain_http_is_refused = refl

hello-IsHello : IsHello (message hello)
hello-IsHello = record { has_header = omega arith; client_hello = refl; sized = refl }

scan_loop-total_example :
    scan_loop (suc (length (wire sent))) (at_start (wire sent))
    ≡ some (scan_handshake_records (wire sent))
scan_loop-total_example = scan_loop-total (wire sent)

scan-framed_example :
    scan_handshake_records (wire sent) ≡ complete (message hello) (length (records sent))
scan-framed_example =
    scan-framed (message hello) [] sent.tail sent.fragments sent.last hello-IsHello
      (omega arith, (omega arith, tt)) refl (omega arith)

parse_client_hello-message_example : parse_hello (wrap_as_record (message hello)) ≡ some hello.hello
parse_client_hello-message_example = parse_client_hello-message hello hello-IsFields

abbrev polls : List Poll
polls = arrived (take 6 (wire sent)) ∷ arrived (wire sent) ∷ []

peek_reassemble-scan_example :
    (hs : Bytes) × (scan_handshake_records (wire sent) ≡ complete hs (length (records sent)))
    × (wrap_as_record (message hello) ≡ wrap_as_record hs)
unfolding program
peek_reassemble-scan_example =
    peek_reassemble-scan polls (wire sent) (wrap_as_record (message hello)) initial_peek
      (length (records sent)) ((drop 6 (wire sent), refl), (([], refl), tt)) refl

sent-IsWhole : IsWhole (wire sent) (message hello) (length (records sent))
sent-IsWhole = record { scanned = hello_is_scanned; within = omega arith }

peek_reassemble-whole_example :
    peek_reassemble initial_peek polls
    ≡ buffered (wrap_as_record (message hello)) (some (length (records sent)))
peek_reassemble-whole_example =
    peek_reassemble-whole (take 6 (wire sent) ∷ []) 0 sent-IsWhole
      ((drop 6 (wire sent), refl), omega arith, tt) (omega arith)

abbrev md5 : Bytes → Bytes
md5 text = replicate 16 1

abbrev sha256 : Bytes → Bytes
sha256 text = replicate 32 1

peek-sent_example :
    peek md5 sha256 polls
    ≡ record (info_of md5 sha256 hello.hello) { complete = true; hello_len = length (records sent) }
peek-sent_example =
    peek-sent md5 sha256 sent (take 6 (wire sent) ∷ []) 0 sent-IsSent
      ((drop 6 (wire sent), refl), omega arith, tt) (omega arith)
