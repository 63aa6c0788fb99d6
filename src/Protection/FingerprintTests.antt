-- ===== src/Protection/FingerprintTests.antt =====
-- src/protection.rs with src/sni.rs: a listener that blocks a fingerprint, and a client that has
-- another.
use symphony.Prelude.{
  length, take, drop, replicate, Bytes, ℕ, ◌≡◌, refl, ap, ◌∙◌, true, false, List, [], ◌∷◌, arith,
}
use symphony.Net.{to_ipv4_mapped, to_canonical}
use symphony.Hex.{bytes_to_hex, hex_to_bytes16}
use symphony.TokenBucket.{refill_of, projected, refilled, consume, refill_and_consume}
use symphony.Protection.{
  ProtectionState, allow, has, lookup, new_state, enter, charge, admit_unboxed, admit,
}
use symphony.Protection.Table.{
  cell_at, decided, in_networks, ja3_hit, ja4_hit, get_or_create_state, check_state, static_block,
  check_at,
}
use symphony.Protection.Samples.{whole, contains, host, limits, digest}
use symphony.Protection.Fingerprints.{check_at-ja3_unlisted}
use symphony.Sni.{PeekInfo}
use symphony.Sni.Ja3.{ja3_text, compute_ja3}
use symphony.Sni.Peek.{Poll, arrived}
use symphony.Sni.Info.{info_of, peek}
use symphony.Sni.Whole.{wire, records, peek-sent}
use symphony.Sni.Samples.{sent, sent-IsSent}

program : Unit {0}
unfolding to_ipv4_mapped to_canonical bytes_to_hex hex_to_bytes16 refill_of projected refilled
    consume refill_and_consume has lookup new_state enter charge admit_unboxed admit cell_at decided
    in_networks ja3_hit ja4_hit get_or_create_state check_state static_block check_at info_of
    compute_ja3
program = tt

abbrev md5 : Bytes → Bytes
md5 text = digest

abbrev sha256 : Bytes → Bytes
sha256 text = replicate 32 1

-- A listener that blocks another digest.
abbrev guarded : ProtectionState ℕ Bytes
guarded = record {
  config = record limits { ja3_blocklist = replicate 16 1 ∷ [] };
  cells = [];
  ip_table = [];
}

abbrev polls : List Poll
polls = arrived (take 6 (wire sent)) ∷ arrived (wire sent) ∷ []

abbrev info : PeekInfo
info = record (info_of md5 sha256 sent.fields.hello) {
  complete = true;
  hello_len = length (records sent);
}

info_is_peeked : peek md5 sha256 polls ≡ info
info_is_peeked =
    peek-sent md5 sha256 sent (take 6 (wire sent) ∷ []) 0 sent-IsSent
      ((drop 6 (wire sent), refl), omega arith, tt) (omega arith)

info_is_allowed :
    check_at whole contains guarded host info 100 100
    ≡ (allow 0, (check_at whole contains guarded host info 100 100).1)
unfolding program
info_is_allowed = refl

check_at-ja3_unlisted_example :
    has guarded.config.ja3_blocklist
      (md5 (ja3_text 0x0303 sent.fields.hello.cipher_suites sent.fields.hello.extensions))
    ≡ false
check_at-ja3_unlisted_example =
    check_at-ja3_unlisted whole contains md5 sha256 guarded
      (check_at whole contains guarded host info 100 100).1 host 100 100 0 sent
      (take 6 (wire sent) ∷ []) 0 (λ text. (ground arith, refl)) sent-IsSent
      ((drop 6 (wire sent), refl), omega arith, tt) (omega arith)
      (ap (λ i. check_at whole contains guarded host i 100 100) info_is_peeked ∙ info_is_allowed)
