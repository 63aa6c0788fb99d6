-- ===== src/Sni.antt =====
-- src/sni.rs: what is learned from a client's first bytes, which are peeked at and stay unread. A
-- `String` is its UTF-8 bytes.
pub mod Records
pub mod Reassembly
pub mod Prefixes
pub mod Fragments
pub mod Peek
pub mod Segments
pub mod Parser
pub mod Hello
pub mod HelloRoundTrip
pub mod ServerName
pub mod ServerNames
pub mod NameRoundTrip
pub mod Alpn
pub mod Ja3
pub mod Ja4
pub mod Digests
pub mod Canonical
pub mod Info
pub mod Whole
pub mod Samples
mod Tests
mod NameTests
use symphony.Prelude.{Bytes, ℕ, Bool, false, Option, none, []}

pub record PeekInfo : Type 0 where
  pub sni : Option Bytes
  pub ja3 : Bytes
  pub ja4 : Bytes
  pub complete : Bool
  pub hello_len : ℕ
  pub offers_h2 : Bool

-- `PeekInfo::default()`
abbrev pub unreadable : PeekInfo
unreadable = record {
  sni = none;
  ja3 = [];
  ja4 = [];
  complete = false;
  hello_len = 0;
  offers_h2 = false;
}
