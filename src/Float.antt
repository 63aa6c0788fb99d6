-- ===== src/Float.antt =====
-- `f64` as src/thread_cpu.rs and src/failover.rs use it: a type with the operations, and what
-- IEEE 754 and the standard library promise of them.
use symphony.Prelude.{ℕ, ◌≤◌, ◌<◌, ◌≡◌, Bool, true}

pub record Float64 (F : Type 0) : Type 0 where
  -- `n as f64`, and a literal with no fraction
  pub of_nat : ℕ → F
  pub add : F → F → F
  pub sub : F → F → F
  pub mul : F → F → F
  pub div : F → F → F
  pub neg : F → F
  pub exp : F → F
  -- `f64::min`, `f64::max` and `f64::clamp`
  pub min_of : F → F → F
  pub max_of : F → F → F
  pub clamp : F → F → F → F
  pub round : F → F
  pub is_finite : F → Bool
  -- `a <= b`
  pub is_le : F → F → Bool
  pub is_eq : F → F → Bool
  -- `Duration::from_secs_f64`, in nanoseconds
  pub secs_to_ns : F → ℕ
  -- `x as u32` and `x as u64`, which saturate
  pub to_u32 : F → ℕ
  pub to_u64 : F → ℕ

-- A cast of what was bounded by a whole number that fits is bounded by it.
pub record IsBounding {F : Type 0} (fl : Float64 F) : Type 0 where
  pub to_u32-min_of-le :
      (x : F) (n : ℕ) → n < 4294967296 → fl.to_u32 (fl.min_of x (fl.of_nat n)) ≤ n
  pub to_u32-clamp-le :
      (x : F) (n : ℕ)
      → n < 4294967296
      → fl.to_u32 (fl.round (fl.clamp x (fl.of_nat 0) (fl.of_nat n))) ≤ n
  pub of_nat-le-to_u64 :
      (x : F) (n : ℕ) → n < 4294967296 → fl.is_le (fl.of_nat n) x ≡ true → n ≤ fl.to_u64 x
  pub to_u64-le-of_nat :
      (x : F) (n : ℕ) → n < 4294967296 → fl.is_le x (fl.of_nat n) ≡ true → fl.to_u64 x ≤ n
