-- ===== src/Liveness/Tests.antt =====
-- src/liveness.rs: a connection that is shut down twice, and the theorems applied to it.
use symphony.Prelude.{ltb, if◌then◌else◌, ℕ, ◌+◌, ◌≤◌, min, max, ◌≡◌, refl, none, some, [], arith}
use symphony.Liveness.{
  arm, record_activity, drop_watch, poll_read, poll_shutdown, ready_ok, client, upstream,
  quiet_until, expired,
}
use symphony.Liveness.Gauge.{
  World, connects, shuts_down, after, Reach, start, next, half_closed, Reach-gauge,
}
use symphony.Liveness.Expiry.{expired-ends}

program : Unit {0}
unfolding arm record_activity drop_watch poll_read poll_shutdown quiet_until expired after
program = tt

abbrev shut_twice : World
shut_twice =
    after
      (after (after (record { watches = []; gauge = 0 }) connects) (shuts_down 0 client ready_ok 5))
      (shuts_down 0 client ready_ok 6)

shut_twice-Reach : Reach shut_twice
unfolding program
shut_twice-Reach =
    next (shuts_down 0 client ready_ok 6)
      (next (shuts_down 0 client ready_ok 5) (next connects start (omega arith)) (omega arith))
      (omega arith)

it_counts_once : shut_twice.gauge ≡ 1
unfolding program
it_counts_once = refl

-- The upstream's half arms nothing.
upstream_counts_nothing :
    (after
      (after (record { watches = []; gauge = 0 }) connects)
      (shuts_down 0 upstream ready_ok 5)).gauge
    ≡ 0
unfolding program
upstream_counts_nothing = refl

Reach-gauge_example : shut_twice.gauge ≡ half_closed shut_twice.watches
Reach-gauge_example = Reach-gauge shut_twice-Reach

-- The activity is at 5 and at 12, and the timer is two late.
abbrev activity : ℕ → ℕ
activity t = if ltb t 12 then min t 5 else 12

abbrev wake : ℕ → ℕ
wake d = d + 2

it_expires_behind_the_second : expired 10 wake activity 22 (some 6) ≡ some 24
unfolding program
it_expires_behind_the_second = refl

it_waits_for_the_notification : expired 10 wake activity 22 none ≡ none
unfolding program
it_waits_for_the_notification = refl

timer_is_late : (d : ℕ) → (d ≤ wake d) × (wake d ≤ d + 2)
timer_is_late d = (omega arith, omega arith)

activity_is_past : (t : ℕ) → (activity t ≤ t) × (activity t ≤ 12)
activity_is_past t = (ground arith, ground arith)

expired-ends_example :
    (t : ℕ) × (expired 10 wake activity 22 (some 6) ≡ some t)
    × (activity t + 10 ≤ t)
    × (t ≤ max 6 (12 + 10 + 2))
expired-ends_example =
    expired-ends 10 2 12 wake activity 22 6 timer_is_late activity_is_past (omega arith)
