-- ===== src/TokenBucket.antt =====
-- src/protection.rs: the token buckets, with no other thread at work on the same bucket, so that
-- each compare-and-swap succeeds at once. `f64` is a parameter: a type with the operations that the
-- code uses and what IEEE 754 promises of them.
pub mod Bounds
use symphony.Prelude.{ltb, ◌==◌, if◌then◌else◌, ℕ, ◌+◌, ◌-◌, ◌≤◌, min, ◌≡◌, Bool, true, false}

pub record Floats (F : Type 0) : Type 0 where
  -- `n as f64`, and a literal with no fraction
  pub of_nat : ℕ → F
  pub mul : F → F → F
  pub div : F → F → F
  -- `x > 0.0`
  pub positive : F → Bool
  -- `x as u32`, which saturates
  pub to_u32 : F → ℕ

abbrev pub u32_max : ℕ
u32_max = 4294967295

abbrev pub u64_max : ℕ
u64_max = 18446744073709551615

-- What the theorems use of the rounding: results of the cast fit, nothing refills in no time, and
-- more time never refills less.
pub record IsRounding {F : Type 0} (fl : Floats F) : Type 0 where
  pub to_u32-le : (x : F) → fl.to_u32 x ≤ u32_max
  pub refill-zero : (rate : F) → fl.to_u32 (fl.mul (fl.mul (fl.of_nat 0) rate) (fl.of_nat 1000)) ≡ 0
  pub refill-mono :
      (rate : F) (a b : ℕ)
      → a ≤ b
      → fl.to_u32 (fl.mul (fl.mul (fl.of_nat a) rate) (fl.of_nat 1000))
        ≤ fl.to_u32 (fl.mul (fl.mul (fl.of_nat b) rate) (fl.of_nat 1000))

-- One of the two buckets of an `IpState`.
pub record Bucket : Type 0 where
  pub tokens : ℕ
  pub last_refill_ns : ℕ

-- One token is 1000 units.
abbrev pub one_token : ℕ
one_token = 1000

module _ {F : Type 0} (fl : Floats F) where
  -- The units that `elapsed` nanoseconds are worth.
  unfoldable pub refill_of : F → ℕ → ℕ
  refill_of rate elapsed = fl.to_u32 (fl.mul (fl.mul (fl.of_nat elapsed) rate) (fl.of_nat 1000))

  -- `current.saturating_add(refill).min(burst_fp)`
  unfoldable pub projected : F → ℕ → ℕ → Bucket → ℕ
  projected rate burst_fp now b =
      min (min (b.tokens + refill_of rate (now - b.last_refill_ns)) u32_max) burst_fp

  -- The refill loop.
  unfoldable pub refilled : F → ℕ → ℕ → Bucket → Bucket
  unfolding projected
  refilled rate burst_fp now b =
      if refill_of rate (now - b.last_refill_ns) == 0
      then b
      else record { tokens = projected rate burst_fp now b; last_refill_ns = now }

-- The consume loop.
unfoldable pub consume : Bucket → Bool × Bucket
consume b =
    if ltb b.tokens one_token
    then (false, b)
    else (true, record b { tokens = b.tokens - one_token })

module _ {F : Type 0} (fl : Floats F) where
  unfoldable pub refill_and_consume : F → ℕ → ℕ → Bucket → Bool × Bucket
  refill_and_consume rate burst_fp now b = consume (refilled fl rate burst_fp now b)
