-- ===== src/Liveness.antt =====
-- src/liveness.rs, and the gauge of src/metrics.rs: the half-closed connections of a listener. Each
-- poll of a stream is one step, with its result and the clock that it reads; the watches of the open
-- connections are a list.
use symphony.Prelude.{
  ltb, leb, if◌then◌else◌, ℕ, zero, suc, ◌+◌, ◌-◌, ◌%◌, Bool, true, false, ◌&&◌, Option, none, some,
}
pub mod Gauge
pub mod Expiry
mod Tests

abbrev pub u64_size : ℕ
u64_size = 18446744073709551616

-- `fetch_add` and `fetch_sub` on the gauge
abbrev pub inc_half_closed : ℕ → ℕ
inc_half_closed gauge = (gauge + 1) % u64_size

abbrev pub dec_half_closed : ℕ → ℕ
dec_half_closed gauge = (gauge + (u64_size - 1)) % u64_size

-- `notified` is the permit that `Notify` stores.
pub record HalfCloseWatch : Type 0 where
  pub armed : Bool
  pub last_activity_ns : ℕ
  pub notified : Bool

abbrev pub new_watch : HalfCloseWatch
new_watch = record { armed = false; last_activity_ns = 0; notified = false }

unfoldable pub arm : ℕ → HalfCloseWatch → ℕ → HalfCloseWatch × ℕ
arm now watch gauge =
    let active = record watch { last_activity_ns = now } in
    if watch.armed
    then (active, gauge)
    else (record active { armed = true; notified = true }, inc_half_closed gauge)

unfoldable pub record_activity : ℕ → HalfCloseWatch → HalfCloseWatch
record_activity now watch = if watch.armed then record watch { last_activity_ns = now } else watch

-- `Drop`
unfoldable pub drop_watch : HalfCloseWatch → ℕ → ℕ
drop_watch watch gauge = if watch.armed then dec_half_closed gauge else gauge

pub data PollResult : Type 0 where
  ready_ok ready_err pending : PollResult

abbrev pub is_ready_ok : PollResult → Bool
is_ready_ok ready_ok = true
is_ready_ok ready_err = false
is_ready_ok pending = false

-- The client half of a connection, or the upstream half.
pub data Watched : Type 0 where
  client upstream : Watched

abbrev pub arms_on_shutdown : Watched → Bool
arms_on_shutdown client = true
arms_on_shutdown upstream = false

-- `before` and `filled` are the lengths of the buffer's filled part around the read.
unfoldable pub poll_read : PollResult → ℕ → ℕ → ℕ → HalfCloseWatch → HalfCloseWatch
unfolding record_activity
poll_read result before filled now watch =
    if is_ready_ok result && ltb before filled then record_activity now watch else watch

unfoldable pub poll_shutdown : Watched → PollResult → ℕ → HalfCloseWatch → ℕ → HalfCloseWatch × ℕ
unfolding arm
poll_shutdown half result now watch gauge =
    if arms_on_shutdown half && is_ready_ok result then arm now watch gauge else (watch, gauge)

-- `wake d` is the clock when a sleep of the timer ends that is due at `d`, and `activity t` the latest
-- activity that is recorded when the clock is `t`; `fuel` is the number of rounds that sleep.
unfoldable pub quiet_until : ℕ → (ℕ → ℕ) → (ℕ → ℕ) → ℕ → ℕ → Option ℕ
quiet_until window wake activity zero now =
    if leb window (now - activity now) then some now else none
quiet_until window wake activity (suc fuel) now =
    let quiet_for = now - activity now in
    elim (leb window quiet_for) [
      | true ↦ some now
      | false ↦ quiet_until window wake activity fuel (wake (now + (window - quiet_for)))
    ]

-- `notified` is the clock when the notification comes, if it does. It gives the clock when the wait
-- ends, and `none` where it does not.
unfoldable pub expired : ℕ → (ℕ → ℕ) → (ℕ → ℕ) → ℕ → Option ℕ → Option ℕ
unfolding quiet_until
expired window wake activity fuel notified = elim notified [
  | none ↦ none
  | some now ↦ quiet_until window wake activity fuel now
]
