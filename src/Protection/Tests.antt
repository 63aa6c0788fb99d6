-- ===== src/Protection/Tests.antt =====
-- src/protection.rs: a listener with a limit of two connections for each address, at concrete
-- times, and the theorems applied to it. A rate here is a whole number of tokens a nanosecond.
use symphony.Prelude.{
  replicate, Bytes, ℕ, ◌*◌, ◌≤◌, ◌≡◌, refl, ◌≢◌, ◌↔◌, true, false, none, List, [], ◌∷◌, arith,
}
use native.Mathlib.Nat.{mul-le-mul_right}
use symphony.Sni.{PeekInfo}
use symphony.Net.{to_ipv4_mapped, to_canonical}
use symphony.Hex.{hex_to_bytes16}
use symphony.TokenBucket.{
  IsRounding, Bucket, one_token, refill_of, projected, refilled, consume, refill_and_consume,
}
use symphony.TokenBucket.Bounds.{granted, granted-replicate-le}
use symphony.Protection.{
  ProtectionConfig, IpState, allow, block, rate_limited, penalty_boxed, too_many_connections, has,
  lookup, new_state, release, extend_penalty, punish, enter, charge, is_full, is_dry, punish_boxed,
  admit_unboxed, admit, retained, reported,
}
use symphony.Protection.Table.{
  cell_at, decided, retain, in_networks, ja3_hit, ja4_hit, get_or_create_state, release_at,
  configure, check_state, evict_at, report, blocked_ips, static_block, check_at,
}
use symphony.Protection.Connections.{
  World, Event, arrives, closes, evicts, count_ip, note, after, Reach, start, next, fresh,
}
use symphony.Protection.Concurrency.{Tracks}
use symphony.Protection.Limit.{Reach-Tracks, check_at-limit}
use symphony.Protection.Penalized.{run, check_at-penalized}
use symphony.Protection.Eviction.{admit-evicted}
use symphony.Protection.Admission.{IsCleared, check_at-IsCleared, admit-reported}
use symphony.Protection.Samples.{whole, contains, host, limits}

program : Unit {0}
unfolding to_ipv4_mapped to_canonical hex_to_bytes16 refill_of projected refilled consume
    refill_and_consume has lookup new_state release extend_penalty punish enter charge is_full
    is_dry punish_boxed admit_unboxed admit retained reported cell_at decided retain in_networks
    ja3_hit ja4_hit get_or_create_state release_at configure check_state evict_at report blocked_ips
    static_block check_at note after
program = tt

whole-IsRounding : IsRounding whole
whole-IsRounding = record {
  to_u32-le = λ x. omega arith;
  refill-zero = λ rate. omega arith;
  refill-mono = λ rate a b h. omega (arith, mul-le-mul_right (rate * 1000) h);
}

abbrev peek : PeekInfo
peek = record { sni = none; ja3 = []; ja4 = []; complete = true; hello_len = 0; offers_h2 = false }

abbrev opened : World ℕ Bytes
opened = after whole contains (fresh whole contains limits) (arrives host peek 100 100)

abbrev opened_twice : World ℕ Bytes
opened_twice = after whole contains opened (arrives host peek 100 101)

opened-Reach : Reach whole contains opened
opened-Reach = next (arrives host peek 100 100) (start limits) (omega arith)

third_is_refused :
    (check_at whole contains opened_twice.state host peek 150 150).0 ≡ block too_many_connections
unfolding program
third_is_refused = refl

-- With the limit on connections off, the fourth of one nanosecond finds no token, and the next is
-- in the penalty box.
abbrev unlimited : ProtectionConfig ℕ Bytes
unlimited = record limits { max_concurrent_per_ip = 0 }

abbrev burst : World ℕ Bytes
burst =
    after whole contains
      (after whole contains
        (after whole contains (fresh whole contains unlimited) (arrives host peek 100 100))
        (arrives host peek 100 100))
      (arrives host peek 100 100)

burst-Reach : Reach whole contains burst
unfolding program
burst-Reach =
    next (arrives host peek 100 100)
      (next (arrives host peek 100 100)
        (next (arrives host peek 100 100) (start unlimited) (omega arith)) (omega arith))
      (omega arith)

fourth_is_limited : (check_at whole contains burst.state host peek 100 100).0 ≡ block rate_limited
unfolding program
fourth_is_limited = refl

fifth_is_boxed :
    (check_at whole contains
      (check_at whole contains burst.state host peek 100 100).1
      host
      peek
      500000
      500000).0
    ≡ block penalty_boxed
unfolding program
fifth_is_boxed = refl

check_at-limit_example : count_ip host ((host, 0) ∷ opened.guards) ≤ 2
unfolding program
check_at-limit_example =
    check_at-limit whole contains host peek 100 101 0 opened_twice.state opened-Reach (omega arith)
      refl

Reach-Tracks_example : Tracks opened_twice
unfolding program
Reach-Tracks_example =
    Reach-Tracks whole contains (next (arrives host peek 100 101) opened-Reach (omega arith))

-- The penalty is 1 ms from nanosecond 100.
abbrev meanwhile : List (Event ℕ Bytes)
meanwhile = arrives host peek 200 200 ∷ closes 0 ∷ evicts 300 ∷ []

check_at-penalized_example :
    check_at whole contains
      (run whole contains
        (record burst { state = (check_at whole contains burst.state host peek 100 100).1 })
        meanwhile).state
      host
      peek
      500000
      500000
    ≢ (allow 0, burst.state)
unfolding program
check_at-penalized_example =
    check_at-penalized whole contains host peek peek 100 100 500000 500000 0
      (check_at whole contains burst.state host peek 100 100).1 burst.state meanwhile burst-Reach
      (omega arith) refl (omega arith, tt) (omega arith)

abbrev idle : IpState
idle = record {
  bucket = record { tokens = 1000; last_refill_ns = 100 };
  sustained = record { tokens = 0; last_refill_ns = 100 };
  active = 0;
  penalty_deadline_ns = 0;
}

admit-evicted_example :
    (admit whole limits 200 (new_state 3000 0 150)).0 ≡ (admit whole limits 200 idle).0
unfolding program
admit-evicted_example =
    admit-evicted whole whole-IsRounding limits 160 200 150 idle refl (omega arith) (omega arith)
      (omega arith) (omega arith) (omega arith)

check_at-IsCleared_example : IsCleared contains limits host peek
unfolding program
check_at-IsCleared_example =
    check_at-IsCleared whole contains opened.state opened_twice.state host peek 100 101 0 refl

admit-reported_example :
    ((admit whole limits 200 idle).0 ≡ none)
    ↔ (reported whole limits 200 idle ≡ (false, false, false))
admit-reported_example =
    admit-reported whole limits 200 idle (omega arith) (omega arith) (omega arith) (omega arith)

abbrev bucket : Bucket
bucket = record { tokens = 1500; last_refill_ns = 0 }

granted-replicate-le_example : one_token * granted whole 1 3000 (replicate 5 10) bucket ≤ 3000
granted-replicate-le_example = granted-replicate-le whole 1 3000 whole-IsRounding 5 10 bucket
