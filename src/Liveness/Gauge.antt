-- ===== src/Liveness/Gauge.antt =====
-- src/liveness.rs: the gauge of half-closed connections is their number.
use symphony.Prelude.{
  length, get_elem?, set, Option-cases, ℕ, zero, suc, ◌+◌, ◌-◌, ◌≤◌, ◌<◌, ◌≡◌, refl, ap, inl, inr,
  Bool, true, false, none, some, List, [], ◌∷◌, arith,
}
use symphony.Protection.Connections.{remove_at}
use symphony.Liveness.{
  HalfCloseWatch, new_watch, u64_size, arm, record_activity, drop_watch, PollResult, Watched,
  poll_read, poll_shutdown,
}

pub record World : Type 0 where
  pub watches : List HalfCloseWatch
  pub gauge : ℕ

pub data Event : Type 0 where
  connects : Event
  reads : ℕ → PollResult → ℕ → ℕ → ℕ → Event
  shuts_down : ℕ → Watched → PollResult → ℕ → Event
  ends : ℕ → Event

-- An event of connection `i`, where it is open.
unfoldable pub after : World → Event → World
after w connects = record w { watches = new_watch ∷ w.watches }
after w (reads i result before filled now) = elim (get_elem? w.watches i) [
  | none ↦ w
  | some watch ↦ record w { watches = set w.watches i (poll_read result before filled now watch) }
]
after w (shuts_down i half result now) = elim (get_elem? w.watches i) [
  | none ↦ w
  | some watch ↦
      let (shut, gauge) = poll_shutdown half result now watch w.gauge in
      record { watches = set w.watches i shut; gauge = gauge }
]
after w (ends i) = elim (get_elem? w.watches i) [
  | none ↦ w
  | some watch ↦ record { watches = remove_at i w.watches; gauge = drop_watch watch w.gauge }
]

-- The worlds that a new listener comes to, with fewer connections at a time than a `u64` counts.
pub data Reach : World → Type 0 where
  start : Reach (record { watches = []; gauge = 0 })
  next : {w : World} (e : Event) → Reach w → length w.watches < u64_size - 1 → Reach (after w e)

abbrev pub one_if : Bool → ℕ
one_if true = 1
one_if false = 0

-- The connections that are half-closed.
abbrev pub half_closed : List HalfCloseWatch → ℕ
half_closed [] = 0
half_closed (watch ∷ watches) = one_if watch.armed + half_closed watches

half_closed-le-length : (watches : List HalfCloseWatch) → half_closed watches ≤ length watches
half_closed-le-length [] = omega arith
half_closed-le-length (watch ∷ watches) = ground (arith, half_closed-le-length watches)

half_closed-set :
    (watches : List HalfCloseWatch) (i : ℕ) (old new : HalfCloseWatch)
    → get_elem? watches i ≡ some old
    → half_closed (set watches i new) + one_if old.armed ≡ half_closed watches + one_if new.armed
half_closed-set [] i old new h = absurd (ground arith)
half_closed-set (w ∷ watches) zero old new h = ground arith
half_closed-set (w ∷ watches) (suc i) old new h = omega (arith, half_closed-set watches i old new h)

half_closed-remove_at :
    (watches : List HalfCloseWatch) (i : ℕ) (old : HalfCloseWatch)
    → get_elem? watches i ≡ some old
    → half_closed (remove_at i watches) + one_if old.armed ≡ half_closed watches
half_closed-remove_at [] i old h = absurd (ground arith)
half_closed-remove_at (w ∷ watches) zero old h = ground arith
half_closed-remove_at (w ∷ watches) (suc i) old h =
    omega (arith, half_closed-remove_at watches i old h)

poll_read-armed :
    (result : PollResult) (before filled now : ℕ) (watch : HalfCloseWatch)
    → (poll_read result before filled now watch).armed ≡ watch.armed
unfolding poll_read record_activity
poll_read-armed result before filled now watch = ground arith

-- A shutdown moves the gauge as it moves the watch.
poll_shutdown-gauge :
    (half : Watched) (result : PollResult) (now gauge : ℕ) (watch : HalfCloseWatch)
    → gauge < u64_size - 1
    → let (shut, gauge') = poll_shutdown half result now watch gauge in
      gauge' + one_if watch.armed ≡ gauge + one_if shut.armed
unfolding poll_shutdown arm
poll_shutdown-gauge half result now gauge watch h = ground arith

drop_watch-gauge :
    (watch : HalfCloseWatch) (gauge : ℕ)
    → gauge < u64_size
    → one_if watch.armed ≤ gauge
    → drop_watch watch gauge + one_if watch.armed ≡ gauge
unfolding drop_watch
drop_watch-gauge watch gauge h k = ground arith

after-gauge :
    (w : World) (e : Event)
    → w.gauge ≡ half_closed w.watches
    → length w.watches < u64_size - 1
    → (after w e).gauge ≡ half_closed (after w e).watches
unfolding after
after-gauge w connects g room = omega (arith, g)
after-gauge w (reads i result before filled now) g room =
    elim (Option-cases (get_elem? w.watches i)) [
      | inl e ↦ rw (e, after) g
      | inr (watch, e) ↦
          let polled = poll_read result before filled now watch in
          rw (e, after)
            (omega (
              arith,
              g,
              half_closed-set w.watches i watch polled e,
              ap one_if (poll_read-armed result before filled now watch),
            ))
    ]
after-gauge w (shuts_down i half result now) g room = elim (Option-cases (get_elem? w.watches i)) [
  | inl e ↦ rw (e, after) g
  | inr (watch, e) ↦
      let shut = poll_shutdown half result now watch w.gauge in
      rw (e, after)
        (omega (
          arith,
          g,
          half_closed-set w.watches i watch shut.0 e,
          poll_shutdown-gauge half result now w.gauge watch
              (omega (arith, half_closed-le-length w.watches)),
        ))
]
after-gauge w (ends i) g room = elim (Option-cases (get_elem? w.watches i)) [
  | inl e ↦ rw (e, after) g
  | inr (watch, e) ↦
      let left = half_closed-remove_at w.watches i watch e in
      rw (e, after)
        (omega (
          arith,
          g,
          left,
          drop_watch-gauge watch w.gauge (omega (arith, half_closed-le-length w.watches))
              (omega arith),
        ))
]

-- Whatever connections come, are read, shut down on either half and end, in any order, with fewer
-- open at a time than a `u64` counts, the gauge is the number of open connections that are
-- half-closed: a connection is counted once however often it is shut down, and none stays counted.
pub Reach-gauge : {w : World} → Reach w → w.gauge ≡ half_closed w.watches
Reach-gauge start = refl
Reach-gauge (next {w} e r room) = after-gauge w e (Reach-gauge r) room
