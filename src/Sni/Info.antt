-- ===== src/Sni/Info.antt =====
-- src/sni.rs: what is learned from a ClientHello, and from peeking at a stream.
use symphony.Prelude.{Bytes, true, false, none, some, List}
use symphony.Sni.{PeekInfo, unreadable}
use symphony.Sni.Hello.{ClientHello, parse_client_hello as parse_hello}
use symphony.Sni.ServerName.{extract_sni}
use symphony.Sni.Alpn.{alpn_offers_h2}
use symphony.Sni.Ja3.{compute_ja3}
use symphony.Sni.Ja4.{compute_ja4}
use symphony.Sni.Peek.{
  Poll, Reassembly, timed_out, no_hello, buffered, peek_reassemble, initial_peek,
}

module _ (md5 sha256 : Bytes → Bytes) where
  unfoldable pub info_of : ClientHello → PeekInfo
  info_of hello = record {
    sni = extract_sni hello.extensions;
    ja3 = compute_ja3 md5 hello.legacy_version hello.cipher_suites hello.extensions;
    ja4 = compute_ja4 sha256 hello.legacy_version hello.cipher_suites hello.extensions;
    complete = false;
    hello_len = 0;
    offers_h2 = alpn_offers_h2 hello.extensions;
  }

  unfoldable pub parse_client_hello : Bytes → PeekInfo
  unfolding info_of
  parse_client_hello buf = elim (parse_hello buf) [ none ↦ unreadable | some hello ↦ info_of hello ]

  -- `peek_with_timeout`
  unfoldable pub peeked : Reassembly → PeekInfo
  unfolding parse_client_hello
  peeked timed_out = unreadable
  peeked no_hello = unreadable
  peeked (buffered buf none) = record (parse_client_hello buf) { complete = false; hello_len = 0 }
  peeked (buffered buf (some hello_len)) = record (parse_client_hello buf) {
    complete = true;
    hello_len = hello_len;
  }

  unfoldable pub peek : List Poll → PeekInfo
  unfolding peeked
  peek polls = peeked (peek_reassemble initial_peek polls)
