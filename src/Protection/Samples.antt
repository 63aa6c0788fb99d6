-- ===== src/Protection/Samples.antt =====
-- src/protection.rs: a listener's limits, at concrete numbers.
use symphony.Prelude.{replicate, Bytes, ltb, ℕ, ◌*◌, ◌/◌, min, Bool, false, none, [], ◌∷◌}
use symphony.Net.{IpAddr, v4}
use symphony.TokenBucket.{Floats, u32_max}
use symphony.Protection.{ProtectionConfig, eq_ip}

abbrev pub whole : Floats ℕ
whole = record {
  of_nat = λ n. n;
  mul = λ a b. a * b;
  div = λ a b. a / b;
  positive = λ x. ltb 0 x;
  to_u32 = λ x. min x u32_max;
}

-- A network of one host.
abbrev pub contains : Bytes → IpAddr → Bool
contains host ip = eq_ip (v4 host) ip

abbrev pub host : IpAddr
host = v4 (10 ∷ 0 ∷ 0 ∷ 7 ∷ [])

-- Three tokens at most, one more each nanosecond; two connections; a penalty of 1 ms.
abbrev pub limits : ProtectionConfig ℕ Bytes
limits = record {
  rate_limit_cps = none;
  rate_limit_burst = none;
  sustained_cpm = none;
  sustained_burst = none;
  penalty_box_duration_ms = 1;
  max_concurrent_per_ip = 2;
  ja3_blocklist = [];
  ja4_blocklist = [];
  tls_handshake_timeout_ms = 0;
  require_sni = false;
  allowlist = [];
  blocklist = [];
  tokens_per_ns = 1;
  burst_fp = 3000;
  sustained_tokens_per_ns = 0;
  sustained_burst_fp = 0;
}

abbrev pub digest : Bytes
digest = replicate 16 171
