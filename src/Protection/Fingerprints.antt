-- ===== src/Protection/Fingerprints.antt =====
-- src/protection.rs with src/sni.rs: a fingerprint blocklist holds against whatever a client does
-- with the records and the segments of its ClientHello.
use symphony.Prelude.{
  length, replicate, Bytes, IsBytes, ℕ, suc, ◌+◌, ◌≤◌, ◌≡◌, ap, Bool, false, List, ◌++◌, map,
}
use symphony.Net.{IpAddr}
use symphony.TokenBucket.{Floats}
use symphony.Protection.{ProtectionState, allow, has}
use symphony.Protection.Table.{check_at}
use symphony.Protection.Admission.{check_at-IsCleared}
use symphony.Sni.{PeekInfo}
use symphony.Sni.Peek.{arrived, initial_peek}
use symphony.Sni.Segments.{AllBegin}
use symphony.Sni.Ja3.{ja3_text, compute_ja3}
use symphony.Sni.Info.{info_of, peek}
use symphony.Sni.Whole.{Sent, IsSent, records, wire, peek-sent}

module _ {F Network : Type 0} (fl : Floats F) (contains : Network → IpAddr → Bool)
    (md5 sha256 : Bytes → Bytes) where
  -- A connection that is allowed and counted has no JA3 digest that the configuration blocks,
  -- however the client splits its ClientHello of at most 16 KiB over records and segments, once
  -- enough polls have seen it, and where a digest has 16 bytes.
  pub check_at-ja3_unlisted :
      (s s' : ProtectionState F Network) (ip : IpAddr) (now clock at : ℕ) (c : Sent)
      (earlier : List Bytes) (k : ℕ)
      → ((text : Bytes) → IsBytes (md5 text) × (length (md5 text) ≡ 16))
      → IsSent c
      → AllBegin (wire c) earlier
      → length (records c) ≤ initial_peek + k
      → check_at fl contains s ip
          (peek md5 sha256 (map arrived earlier ++ replicate (suc k) (arrived (wire c))))
          now
          clock
        ≡ (allow at, s')
      → let hello = c.fields.hello in
        has s.config.ja3_blocklist
          (md5 (ja3_text hello.legacy_version hello.cipher_suites hello.extensions))
        ≡ false
  unfolding info_of compute_ja3
  check_at-ja3_unlisted s s' ip now clock at c earlier k digests sent begin enough h =
      let hello = c.fields.hello in
      let text = ja3_text hello.legacy_version hello.cipher_suites hello.extensions in
      let info = peek-sent md5 sha256 c earlier k sent begin enough in
      let cleared =
        check_at-IsCleared fl contains s s' ip
          (peek md5 sha256 (map arrived earlier ++ replicate (suc k) (arrived (wire c)))) now clock
          at h in
      cleared.ja3_unlisted (md5 text) (digests text).0 (digests text).1
        (ap (λ (i : PeekInfo). i.ja3) info)
