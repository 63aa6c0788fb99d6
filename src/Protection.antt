-- ===== src/Protection.antt =====
-- src/protection.rs: the checks on a new connection and the per-address state behind them. Each
-- operation runs alone. An `Arc<IpState>` is the place of its state among `cells`, where it stays
-- when the table lets go of it, since the guards of open connections hold it too. CIDR networks are
-- those of the crate `ipnetwork`, a parameter; JA3 and JA4 texts are their bytes.
pub mod Table
pub mod Admission
pub mod Fingerprints
pub mod Eviction
pub mod Penalty
pub mod Boxed
pub mod Penalized
pub mod Limit
pub mod Concurrency
pub mod Connections
pub mod Counting
pub mod Samples
mod Tests
mod FingerprintTests
use symphony.Prelude.{
  Bytes, eq_bytes, eq_bytes_iff, ltb, leb, if◌then◌else◌, ℕ, ◌+◌, ◌-◌, ◌*◌, ◌%◌, min, max, ◌≡◌, ◌↔◌,
  Bool, true, false, not, ◌&&◌, ◌||◌, Option, none, some, List, [], ◌∷◌, arith,
}
use symphony.Net.{IpAddr, v4, v6}
use mathlib.Core.Option
use mathlib.Core.Option.{or_else}
use symphony.TokenBucket.{
  Floats, Bucket, refill_and_consume, projected, one_token, u32_max, u64_max,
}

pub record ProtectionConfig (F Network : Type 0) : Type 0 where
  pub rate_limit_cps : Option F
  pub rate_limit_burst : Option F
  pub sustained_cpm : Option F
  pub sustained_burst : Option F
  pub penalty_box_duration_ms : ℕ
  pub max_concurrent_per_ip : ℕ
  pub ja3_blocklist : List Bytes
  pub ja4_blocklist : List Bytes
  pub tls_handshake_timeout_ms : ℕ
  pub require_sni : Bool
  pub allowlist : List Network
  pub blocklist : List Network
  pub tokens_per_ns : F
  pub burst_fp : ℕ
  pub sustained_tokens_per_ns : F
  pub sustained_burst_fp : ℕ

pub record IpState : Type 0 where
  pub bucket : Bucket
  pub sustained : Bucket
  pub active : ℕ
  pub penalty_deadline_ns : ℕ

pub data BlockReason : Type 0 where
  cidr_blocked ja3_blocked ja4_blocked incomplete_handshake : BlockReason
  no_sni rate_limited too_many_connections penalty_boxed : BlockReason

-- `allow` holds the place of the state that the connection counts in.
pub data Decision : Type 0 where
  allow : ℕ → Decision
  allow_bypassed : Decision
  block : BlockReason → Decision

pub record ProtectionState (F Network : Type 0) : Type 0 where
  pub config : ProtectionConfig F Network
  pub cells : List IpState
  pub ip_table : List (IpAddr × ℕ)

abbrev pub eq_ip : IpAddr → IpAddr → Bool
eq_ip (v4 a) (v4 b) = eq_bytes a b
eq_ip (v4 a) (v6 b) = false
eq_ip (v6 a) (v4 b) = false
eq_ip (v6 a) (v6 b) = eq_bytes a b

pub eq_ip_iff : (a b : IpAddr) → (eq_ip a b ≡ true) ↔ (a ≡ b)
eq_ip_iff (v4 a) (v4 b) = ground (arith, eq_bytes_iff a b)
eq_ip_iff (v4 a) (v6 b) = ground arith
eq_ip_iff (v6 a) (v4 b) = ground arith
eq_ip_iff (v6 a) (v6 b) = ground (arith, eq_bytes_iff a b)

-- `HashSet::contains`
unfoldable pub has : List Bytes → Bytes → Bool
has [] x = false
has (y ∷ ys) x = eq_bytes x y || has ys x

unfoldable pub lookup : IpAddr → List (IpAddr × ℕ) → Option ℕ
lookup ip [] = none
lookup ip ((k, at) ∷ table) = if eq_ip k ip then some at else lookup ip table

-- `IpState::new`, with the clock that it reads
unfoldable pub new_state : ℕ → ℕ → ℕ → IpState
new_state burst_fp sustained_burst_fp now = record {
  bucket = record { tokens = burst_fp; last_refill_ns = now };
  sustained = record { tokens = sustained_burst_fp; last_refill_ns = now };
  active = 0;
  penalty_deadline_ns = 0;
}

-- `IpState::release`
unfoldable pub release : IpState → IpState
release state = record state { active = state.active - 1 }

abbrev pub is_nil {ℓ} : {A : Type ℓ} → List A → Bool
is_nil [] = true
is_nil (x ∷ xs) = false

abbrev pub is_none {ℓ} : {A : Type ℓ} → Option A → Bool
is_none none = true
is_none (some a) = false

-- `now.saturating_add(penalty_ms.saturating_mul(1_000_000))`
abbrev pub penalty_end : ℕ → ℕ → ℕ
penalty_end now penalty_ms = min (now + min (penalty_ms * 1000000) u64_max) u64_max

-- `fetch_max` on the deadline
unfoldable pub extend_penalty : ℕ → ℕ → IpState → IpState
extend_penalty now penalty_ms state = record state {
  penalty_deadline_ns = max state.penalty_deadline_ns (penalty_end now penalty_ms);
}

-- What exhausting a bucket adds, outside the penalty box.
unfoldable pub punish : ℕ → ℕ → IpState → IpState
unfolding extend_penalty
punish now penalty_ms state =
    if ltb 0 penalty_ms then extend_penalty now penalty_ms state else state

abbrev pub in_penalty_box : ℕ → ℕ → IpState → Bool
in_penalty_box now penalty_ms state =
    ltb 0 penalty_ms && ltb 0 state.penalty_deadline_ns && ltb now state.penalty_deadline_ns

-- Step 8: the test and the increment are one `fetch_update`.
unfoldable pub enter : ℕ → IpState → Option BlockReason × IpState
enter max_concurrent state =
    if ltb 0 max_concurrent
    then (if ltb state.active max_concurrent
        then (none, record state { active = state.active + 1 })
        else (some too_many_connections, state))
    else (none, record state { active = (state.active + 1) % (u32_max + 1) })

module _ {F : Type 0} (fl : Floats F) where
  default_or : Option F → F
  default_or none = fl.of_nat 0
  default_or (some x) = x

  -- A ceiling in units of a thousandth, and a rate per `ns` nanoseconds.
  fixed_point : Option F → ℕ
  fixed_point x = fl.to_u32 (fl.mul (default_or x) (fl.of_nat 1000))

  rate_per : ℕ → Option F → F
  rate_per ns none = fl.of_nat 0
  rate_per ns (some rate) = fl.div rate (fl.of_nat ns)

  -- A bucket is charged only where it has a rate; `false` is an exhausted bucket.
  unfoldable pub charge : F → ℕ → ℕ → Bucket → Bool × Bucket
  charge rate burst_fp now b =
      if fl.positive rate then refill_and_consume fl rate burst_fp now b else (true, b)

  -- Whether a bucket would be full by now, as `evict_at` asks it.
  unfoldable pub is_full : F → ℕ → ℕ → Bucket → Bool
  is_full rate burst_fp now b =
      not (fl.positive rate) || not (ltb (projected fl rate burst_fp now b) burst_fp)

  -- Whether a bucket has no token by now, as `blocked_ips` asks it.
  unfoldable pub is_dry : F → ℕ → ℕ → Bucket → Bool
  is_dry rate burst_fp now b = fl.positive rate && ltb (projected fl rate burst_fp now b) one_token

module _ {F Network : Type 0} (fl : Floats F) where
  -- `ProtectionConfig::precompute`
  pub precompute : ProtectionConfig F Network → ProtectionConfig F Network
  unfolding default_or fixed_point rate_per or_else
  precompute c = record c {
    burst_fp = fixed_point fl (or_else c.rate_limit_burst c.rate_limit_cps);
    tokens_per_ns = rate_per fl 1000000000 c.rate_limit_cps;
    sustained_burst_fp = fixed_point fl (or_else c.sustained_burst c.sustained_cpm);
    sustained_tokens_per_ns = rate_per fl 60000000000 c.sustained_cpm;
  }

  -- Step 5, in the penalty box: both buckets are charged, and either one that is exhausted extends
  -- the deadline.
  unfoldable pub punish_boxed : ProtectionConfig F Network → ℕ → IpState → IpState
  punish_boxed cfg now state =
      let (fast, b) = charge fl cfg.tokens_per_ns cfg.burst_fp now state.bucket in
      let (slow, b') =
        charge fl cfg.sustained_tokens_per_ns cfg.sustained_burst_fp now state.sustained in
      let charged = record state { bucket = b; sustained = b' } in
      if fast && slow then charged else extend_penalty now cfg.penalty_box_duration_ms charged

  -- Steps 6 to 8.
  unfoldable pub admit_unboxed :
      ProtectionConfig F Network → ℕ → IpState → Option BlockReason × IpState
  admit_unboxed cfg now state =
      let (fast, b) = charge fl cfg.tokens_per_ns cfg.burst_fp now state.bucket in
      let (slow, b') =
        charge fl cfg.sustained_tokens_per_ns cfg.sustained_burst_fp now state.sustained in
      let once = record state { bucket = b } in
      let twice = record once { sustained = b' } in
      if not fast
      then (some rate_limited, punish now cfg.penalty_box_duration_ms once)
      else if not slow
      then (some rate_limited, punish now cfg.penalty_box_duration_ms twice)
      else enter cfg.max_concurrent_per_ip twice

  -- Steps 5 to 8, on the state of the address.
  unfoldable pub admit : ProtectionConfig F Network → ℕ → IpState → Option BlockReason × IpState
  admit cfg now state =
      if in_penalty_box now cfg.penalty_box_duration_ms state
      then (some penalty_boxed, punish_boxed cfg now state)
      else admit_unboxed cfg now state

  -- The closure of `evict_at`: whether the entry stays.
  unfoldable pub retained : ProtectionConfig F Network → ℕ → IpState → Bool
  retained cfg now state =
      in_penalty_box now cfg.penalty_box_duration_ms state
      || ltb 0 state.active
      || not (is_full fl cfg.tokens_per_ns cfg.burst_fp now state.bucket)
      || not (is_full fl cfg.sustained_tokens_per_ns cfg.sustained_burst_fp now state.sustained)

  -- One entry of `blocked_ips`: whether it is in the penalty box, rate limited, or at the limit on
  -- connections. An entry in the box is reported as nothing else.
  unfoldable pub reported : ProtectionConfig F Network → ℕ → IpState → Bool × Bool × Bool
  reported cfg now state =
      if in_penalty_box now cfg.penalty_box_duration_ms state then (true, false, false) else (
        false,
        is_dry fl cfg.tokens_per_ns cfg.burst_fp now state.bucket
            || is_dry fl cfg.sustained_tokens_per_ns cfg.sustained_burst_fp now state.sustained,
        ltb 0 cfg.max_concurrent_per_ip && leb cfg.max_concurrent_per_ip state.active,
      )
