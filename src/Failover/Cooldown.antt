-- ===== src/Failover/Cooldown.antt =====
-- src/failover.rs: how long a peer that failed is left alone, and the words that hold a load report
-- and an admission.
use symphony.Prelude.{
  ltb, if◌then◌else◌, ℕ, zero, suc, ◌+◌, ◌-◌, ◌*◌, ◌%◌, ◌^◌, ◌≤◌, ◌<◌, min, max, ◌≡◌, refl, Option,
  none, some, arith,
}
use symphony.Failover.{
  streak_unit, cooldown_until_mask, PeerFailureKind, FailoverPeer, report, set_report,
  cooldown_until, cooling_down, backoff, next_streak, fail_cooldown, record_failure,
}
use symphony.Failover.Spill.{Admission, pack, unpack, admission}
use symphony.ThreadCpu.{later}
use native.Mathlib.Nat.{pow-succ'}

pow-pos : (k : ℕ) → 0 < 2 ^ k
pow-pos zero = omega arith
pow-pos (suc k) = omega (arith, pow-pos k, pow-succ' 2 k)

le-mul_pow : (a k : ℕ) → a ≤ a * 2 ^ k
le-mul_pow a k = grind (arith, pow-pos k)

backoff_bounds :
    (min_ns max_ns streak : ℕ)
    → min_ns ≤ max_ns
    → max_ns ≤ 18446744073709551615
    → (min_ns ≤ backoff min_ns max_ns streak) × (backoff min_ns max_ns streak ≤ max_ns)
unfolding backoff
backoff_bounds min_ns max_ns streak h k =
    let grown = le-mul_pow min_ns (min (streak - 1) 63) in (omega arith, omega arith)

fail_cooldown-until :
    (min_ns max_ns now state : ℕ)
    → fail_cooldown min_ns max_ns now state % streak_unit
      ≡ min
          (max (state % streak_unit) (later now (backoff min_ns max_ns (next_streak state))))
          cooldown_until_mask
unfolding fail_cooldown
fail_cooldown-until min_ns max_ns now state = omega arith

-- A peer that fails is left alone up to its deadline, which is the shortest cooldown away or more and
-- no more than the longest, or the one it had if that is later: a failure ends no cooldown early. The
-- clock is below 2 ^ 56 nanoseconds by then.
pub record_failure-cooling_down :
    (kind : PeerFailureKind) (min_ns max_ns now at : ℕ) (peer : FailoverPeer)
    → min_ns ≤ max_ns
    → now + max_ns ≤ cooldown_until_mask
    → let failed = record_failure kind min_ns max_ns now peer in
      (cooling_down at failed ≡ ltb at (cooldown_until failed))
      × (now + min_ns ≤ cooldown_until failed)
      × (cooldown_until peer ≤ cooldown_until failed)
      × (cooldown_until failed ≤ max (cooldown_until peer) (now + max_ns))
unfolding record_failure cooling_down cooldown_until
record_failure-cooling_down kind min_ns max_ns now at peer h k =
    let until = fail_cooldown-until min_ns max_ns now peer.cooldown in
    let bounds = backoff_bounds min_ns max_ns (next_streak peer.cooldown) h (omega arith) in
    (
      ground (arith, until),
      omega (arith, until, bounds),
      omega (arith, until, bounds),
      omega (arith, until, bounds),
    )

-- A load report is read back for as long as its time fits 54 bits: no load above 1000, and no time
-- of 0, which would stand for no report.
pub report-set_report :
    (load : Option ℕ) (now_ms : ℕ) (peer : FailoverPeer)
    → now_ms < 18014398509481984
    → report (set_report load now_ms peer)
      ≡ elim load [ none ↦ none | some l ↦ some (min l 1000, max now_ms 1) ]
unfolding report set_report
report-set_report none now_ms peer h = refl
report-set_report (some l) now_ms peer h = ground arith

-- An admission that fits its fields is read back, until it is out of date.
pub admission-pack :
    (a : Admission) (now_ms : ℕ)
    → 0 < a.fraction
    → a.fraction ≤ 1000
    → a.target < 65536
    → a.until_ms < 274877906944
    → admission now_ms (pack a) ≡ (if ltb now_ms a.until_ms then some a else none)
unfolding admission unpack pack
admission-pack a now_ms h k l m = ground arith
