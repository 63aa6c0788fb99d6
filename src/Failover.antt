-- ===== src/Failover.antt =====
-- src/failover.rs: the peers of a route, their cooldowns and load reports, and where a connection
-- goes. Each atomic operation runs alone; the fields of a packed word are written as a sum, since
-- they share no bit.
use symphony.Prelude.{
  length, get_elem?, take, drop, ltb, leb, ◌==◌, if◌then◌else◌, ℕ, suc, ◌+◌, ◌-◌, ◌*◌, ◌/◌, ◌%◌,
  ◌^◌, min, max, Bool, true, false, ◌&&◌, ◌||◌, Option, none, some, List, [], ◌∷◌, ◌++◌,
}
pub mod Policy
mod Tests
pub mod Spill
pub mod Rebuild
pub mod Forward
pub mod Poll
pub mod Current
pub mod Accepted
pub mod Cooldown
pub mod Justified
pub mod Spilling
pub mod Candidates
pub mod Earliest
pub mod Attempts
use symphony.Float.{Float64}
use symphony.Net.{IpAddr, SocketAddr}
use symphony.Protection.{eq_ip}
use symphony.ThreadCpu.{later}

abbrev pub u64_size : ℕ
u64_size = 18446744073709551616

-- 1 << COOLDOWN_STREAK_SHIFT
abbrev pub streak_unit : ℕ
streak_unit = 72057594037927936

-- COOLDOWN_UNTIL_MASK
abbrev pub cooldown_until_mask : ℕ
cooldown_until_mask = 72057594037927935

-- PeerFailureKind
pub data PeerFailureKind : Type 0 where
  refused timeout zero_byte_close error : PeerFailureKind

-- A counter for each kind.
pub record Failures : Type 0 where
  pub refused : ℕ
  pub timeout : ℕ
  pub zero_byte_close : ℕ
  pub error : ℕ

-- `fetch_add(1)`
abbrev pub inc : ℕ → ℕ
inc n = (n + 1) % u64_size

unfoldable pub count_failure : PeerFailureKind → Failures → Failures
count_failure PeerFailureKind.refused f = record f { refused = inc f.refused }
count_failure PeerFailureKind.timeout f = record f { timeout = inc f.timeout }
count_failure PeerFailureKind.zero_byte_close f = record f {
  zero_byte_close = inc f.zero_byte_close;
}
count_failure PeerFailureKind.error f = record f { error = inc f.error }

pub record FailoverPeer : Type 0 where
  pub addr : SocketAddr
  pub cooldown : ℕ
  pub forwarded : ℕ
  pub spilled : ℕ
  pub failures : Failures
  pub report_word : ℕ
  pub rtt_us : ℕ

unfoldable pub new_peer : SocketAddr → FailoverPeer
new_peer addr = record {
  addr = addr;
  cooldown = 0;
  forwarded = 0;
  spilled = 0;
  failures = record { refused = 0; timeout = 0; zero_byte_close = 0; error = 0 };
  report_word = 0;
  rtt_us = 0;
}

-- `FailoverPeer::report`
unfoldable pub report : FailoverPeer → Option (ℕ × ℕ)
report peer =
    if peer.report_word == 0 then none else some (peer.report_word % 1024, peer.report_word / 1024)

unfoldable pub set_report : Option ℕ → ℕ → FailoverPeer → FailoverPeer
set_report none now_ms peer = record peer { report_word = 0 }
set_report (some load) now_ms peer = record peer {
  report_word = max now_ms 1 * 1024 % u64_size + min load 1000;
}

unfoldable pub cooldown_until : FailoverPeer → ℕ
cooldown_until peer = peer.cooldown % streak_unit

unfoldable pub cooling_down : ℕ → FailoverPeer → Bool
unfolding cooldown_until
cooling_down now peer = ltb (min now cooldown_until_mask) (cooldown_until peer)

-- `min_ns.saturating_mul(1 << (streak - 1).min(63)).min(max_ns)`
unfoldable pub backoff : ℕ → ℕ → ℕ → ℕ
backoff min_ns max_ns streak =
    min (min (min_ns * 2 ^ min (streak - 1) 63) 18446744073709551615) max_ns

-- The streak is below 2 ^ 8 before the increment.
unfoldable pub next_streak : ℕ → ℕ
next_streak state = min (state / streak_unit + 1) 255

unfoldable pub fail_cooldown : ℕ → ℕ → ℕ → ℕ → ℕ
unfolding next_streak
fail_cooldown min_ns max_ns now state =
    let streak = next_streak state in
    let until =
      min (max (state % streak_unit) (later now (backoff min_ns max_ns streak)))
        cooldown_until_mask in
    streak * streak_unit + until

unfoldable pub record_failure : PeerFailureKind → ℕ → ℕ → ℕ → FailoverPeer → FailoverPeer
unfolding fail_cooldown
record_failure kind min_ns max_ns now peer = record peer {
  failures = count_failure kind peer.failures;
  cooldown = fail_cooldown min_ns max_ns now peer.cooldown;
}

unfoldable pub clear_cooldown : FailoverPeer → FailoverPeer
clear_cooldown peer = record peer { cooldown = 0 }

module _ {F : Type 0} (fl : Float64 F) where
  -- The time of a sample in whole microseconds; the weight of a sample is a quarter.
  unfoldable pub record_rtt : ℕ → FailoverPeer → FailoverPeer
  record_rtt micros peer =
      let sample = fl.of_nat (min (max micros 1) 4294967295) in
      let smoothed =
        if peer.rtt_us == 0
        then sample
        else fl.add (fl.of_nat peer.rtt_us)
            (fl.mul (fl.div (fl.of_nat 1) (fl.of_nat 4)) (fl.sub sample (fl.of_nat peer.rtt_us))) in
      record peer { rtt_us = fl.to_u32 (fl.max_of (fl.round smoothed) (fl.of_nat 1)) }

unfoldable pub rtt : FailoverPeer → Option ℕ
rtt peer = if peer.rtt_us == 0 then none else some peer.rtt_us

abbrev pub eq_addr : SocketAddr → SocketAddr → Bool
eq_addr a b = eq_ip a.ip b.ip && a.port == b.port

pub data ForwardMode : Type 0 where
  down drain : ForwardMode
  spill : ℕ → ForwardMode

pub data Decision : Type 0 where
  refuse local : Decision
  forward : ForwardMode → Decision

-- `spill_target` is what the closure answers, which is called on the last branch alone.
unfoldable pub decide : Bool → Bool → Bool → Bool → Option ℕ → Decision
decide ingress suspended locally_down draining spill_target =
    if ingress
    then (if locally_down || draining then refuse else local)
    else if suspended
    then local
    else if locally_down
    then forward down
    else if draining
    then forward ForwardMode.drain
    else elim spill_target [ none ↦ local | some peer ↦ forward (spill peer) ]

abbrev pub enumerate : ℕ → List FailoverPeer → List (ℕ × FailoverPeer)
enumerate i [] = []
enumerate i (peer ∷ peers) = (i, peer) ∷ enumerate (suc i) peers

-- The peers that are not cooling down, in order.
unfoldable pub ready : ℕ → List (ℕ × FailoverPeer) → List (ℕ × FailoverPeer)
ready now [] = []
ready now (one ∷ peers) =
    let rest = ready now peers in if cooling_down now one.1 then rest else one ∷ rest

-- `min_by_key(cooldown_until)`: the first of the least.
unfoldable pub earliest : List (ℕ × FailoverPeer) → Option (ℕ × FailoverPeer)
earliest [] = none
earliest (one ∷ peers) = elim (earliest peers) [
  | none ↦ some one
  | some best ↦ if leb (cooldown_until one.1) (cooldown_until best.1) then some one else some best
]

-- `(0..count).map(|i| peers[(start + i) % count])` for a start below the count.
unfoldable pub rotation : ℕ → List (ℕ × FailoverPeer) → List (ℕ × FailoverPeer)
rotation start peers = drop start peers ++ take start peers

abbrev pub first_of : Option (ℕ × FailoverPeer) → List (ℕ × FailoverPeer)
first_of none = []
first_of (some one) = one ∷ []

-- Where the rotation starts, and the next value of the cursor.
unfoldable pub advance : ℕ → ℕ → ℕ × ℕ
advance count cursor =
    (if count == 1 then 0 else cursor % count, if count == 1 then cursor else inc cursor)

unfoldable pub fallback : ℕ → Bool → List (ℕ × FailoverPeer) → List (ℕ × FailoverPeer)
fallback now wait_for_cooldown peers =
    if length (ready now peers) == 0 && wait_for_cooldown then first_of (earliest peers) else []

-- How many peers to try, and which, with their places.
unfoldable pub candidates : ℕ → Bool → ℕ → List FailoverPeer → ℕ × List (ℕ × FailoverPeer)
candidates now wait_for_cooldown start peers =
    let all = enumerate 0 peers in
    let last = fallback now wait_for_cooldown all in
    (max (length (ready now all)) (length last), ready now (rotation start all) ++ last)

-- `peers.get(i)`, if it is not cooling down
unfoldable pub spill_peer : ℕ → ℕ → List FailoverPeer → List (ℕ × FailoverPeer)
spill_peer now i peers = elim (get_elem? peers i) [
  | none ↦ []
  | some peer ↦ if cooling_down now peer then [] else (i, peer) ∷ []
]

-- Also the next value of the cursor, which a spill leaves alone.
unfoldable pub candidates_for :
    ForwardMode → ℕ → ℕ → List FailoverPeer → (ℕ × List (ℕ × FailoverPeer)) × ℕ
candidates_for (spill i) now cursor peers =
    let one = spill_peer now i peers in ((length one, one), cursor)
candidates_for down now cursor peers =
    let turn = advance (length peers) cursor in (candidates now true turn.0 peers, turn.1)
candidates_for drain now cursor peers =
    let turn = advance (length peers) cursor in (candidates now false turn.0 peers, turn.1)
