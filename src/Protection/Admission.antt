-- ===== src/Protection/Admission.antt =====
-- src/protection.rs: what an allowed connection has passed, and what `blocked_ips` says of it.
use symphony.Prelude.{
  length, Bytes, IsBytes, ℕ, ◌*◌, ◌≤◌, ◌≡◌, refl, ap, ◌∙◌, ◌≢◌, ◌↔◌, Bool, true, false, not, none,
  some, List, [], ◌∷◌, arith,
}
use symphony.Sni.{PeekInfo}
use symphony.Net.{IpAddr, to_canonical}
use symphony.Hex.{bytes_to_hex, hex_to_bytes16, hex_to_bytes16-bytes_to_hex, length-bytes_to_hex}
use symphony.TokenBucket.{Floats, Bucket, u32_max, projected, refilled, consume, refill_and_consume}
use symphony.Protection.{
  ProtectionConfig, ProtectionState, IpState, allow, has, is_nil, is_none, charge, is_dry, enter,
  admit_unboxed, admit, reported,
}
use symphony.Protection.Table.{check_at, static_block, in_networks, ja3_hit, ja4_hit}

-- The checks that need no state, as a listener's owner would state them.
pub record IsCleared {F Network : Type 0} (contains : Network → IpAddr → Bool)
    (cfg : ProtectionConfig F Network) (ip : IpAddr) (peek : PeekInfo) : Type 0 where
  pub not_allowlisted : in_networks contains cfg.allowlist ip ≡ false
  pub not_blocklisted : in_networks contains cfg.blocklist ip ≡ false
  -- with a fingerprint list, only a whole ClientHello passes
  pub complete_ja3 : cfg.ja3_blocklist ≢ [] → peek.complete ≡ true
  pub complete_ja4 : cfg.ja4_blocklist ≢ [] → peek.complete ≡ true
  -- no listed digest is the one that the fingerprint spells
  pub ja3_unlisted :
      (digest : Bytes)
      → IsBytes digest
      → length digest ≡ 16
      → peek.ja3 ≡ bytes_to_hex digest
      → has cfg.ja3_blocklist digest ≡ false
  pub ja4_unlisted : peek.ja4 ≢ [] → has cfg.ja4_blocklist peek.ja4 ≡ false
  pub named : cfg.require_sni ≡ true → is_none peek.sni ≡ false

has-is_nil : (l : List Bytes) (x : Bytes) → is_nil l ≡ true → has l x ≡ false
unfolding has
has-is_nil [] x h = refl
has-is_nil (y ∷ ys) x h = ground arith

is_nil-eq-true : {A : Type 0} → (l : List A) → is_nil l ≡ true → l ≡ []
is_nil-eq-true [] h = refl
is_nil-eq-true (x ∷ xs) h = ground arith

module _ {F Network : Type 0} where
  ja3_hit-unlisted :
      (cfg : ProtectionConfig F Network) (peek : PeekInfo) (digest : Bytes)
      → ja3_hit cfg peek ≡ false
      → hex_to_bytes16 peek.ja3 ≡ some digest
      → length peek.ja3 ≡ 32
      → has cfg.ja3_blocklist digest ≡ false
  unfolding ja3_hit
  ja3_hit-unlisted cfg peek digest h spelled size =
      ground (arith, has-is_nil cfg.ja3_blocklist digest)

  ja4_hit-unlisted :
      (cfg : ProtectionConfig F Network) (peek : PeekInfo)
      → ja4_hit cfg peek ≡ false
      → peek.ja4 ≢ []
      → has cfg.ja4_blocklist peek.ja4 ≡ false
  unfolding ja4_hit
  ja4_hit-unlisted cfg peek h some_ja4 =
      ground (arith, has-is_nil cfg.ja4_blocklist peek.ja4, some_ja4, is_nil-eq-true peek.ja4)

module _ {F Network : Type 0} (fl : Floats F) (contains : Network → IpAddr → Bool) where
  -- A connection that is allowed and counted has passed every check that needs no state.
  pub check_at-IsCleared :
      (s s' : ProtectionState F Network) (ip : IpAddr) (peek : PeekInfo) (now clock at : ℕ)
      → check_at fl contains s ip peek now clock ≡ (allow at, s')
      → IsCleared contains s.config (to_canonical ip) peek
  unfolding check_at static_block
  check_at-IsCleared s s' ip peek now clock at h = record {
    not_allowlisted = ground arith;
    not_blocklisted = ground arith;
    complete_ja3 = λ listed. ground (arith, listed, is_nil-eq-true s.config.ja3_blocklist);
    complete_ja4 = λ listed. ground (arith, listed, is_nil-eq-true s.config.ja4_blocklist);
    ja3_unlisted = λ digest bytes size spells.
        ja3_hit-unlisted s.config peek digest (ground arith)
          (ap hex_to_bytes16 spells ∙ hex_to_bytes16-bytes_to_hex digest bytes size)
          (ap length spells ∙ length-bytes_to_hex digest ∙ ap (λ (n : ℕ). 2 * n) size);
    ja4_unlisted = λ some_ja4. ja4_hit-unlisted s.config peek (ground arith) some_ja4;
    named = ground arith;
  }

module _ {F : Type 0} (fl : Floats F) where
  charge-is_dry :
      (rate : F) (burst_fp now : ℕ) (b : Bucket)
      → b.tokens ≤ burst_fp
      → burst_fp ≤ u32_max
      → (charge fl rate burst_fp now b).0 ≡ not (is_dry fl rate burst_fp now b)
  unfolding charge is_dry refill_and_consume refilled consume projected
  charge-is_dry rate burst_fp now b h k = ground arith

module _ {F Network : Type 0} (fl : Floats F) where
  -- An entry of `blocked_ips` is exact: a state is reported in one of its lists just when the next
  -- check of it at that time would not let a connection in. The buckets are within their ceilings.
  pub admit-reported :
      (cfg : ProtectionConfig F Network) (now : ℕ) (state : IpState)
      → state.bucket.tokens ≤ cfg.burst_fp
      → state.sustained.tokens ≤ cfg.sustained_burst_fp
      → cfg.burst_fp ≤ u32_max
      → cfg.sustained_burst_fp ≤ u32_max
      → ((admit fl cfg now state).0 ≡ none) ↔ (reported fl cfg now state ≡ (false, false, false))
  unfolding admit admit_unboxed reported enter
  admit-reported cfg now state h h' k k' = ground (
    arith,
    charge-is_dry fl cfg.tokens_per_ns cfg.burst_fp now state.bucket h k,
    charge-is_dry fl cfg.sustained_tokens_per_ns cfg.sustained_burst_fp now state.sustained h' k',
  )
